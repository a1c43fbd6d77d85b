-- ===== src/Sdp/Struct.antt =====
-- The declaration of the packed struct `sdp_msg_t` (spin_emu.h), field by field, and the bytes that
-- it gives.
use spi_nnaker_emulator.Base.{
  ℕ, zero, suc, ◌/◌, ◌%◌, ◌^◌, ◌<◌, ◌≡◌, ◌↔◌, refl, ap, ap₂, sym, ◌∙◌, arith, List, [], ◌∷◌, ◌++◌,
  map, le_bytes, length, drop, replicate, All, All-take, All-append, All-drop, All-replicate,
}
use spi_nnaker_emulator.Sdp.Message.{
  Msg, msg_size, short_bytes, word_at, struct_bytes, msg_of_bytes, msg_bytes,
}
use spi_nnaker_emulator.Sdp.RoundTrip.{IsMsg, msg_of_bytes-struct_bytes}
use spi_nnaker_emulator.Sdp.Overlay.{IsByte, get_or-IsByte}
use spi_nnaker_emulator.Sdp.Layout.{struct_bytes_back, msg_of_bytes-IsMsg, word_at-struct_bytes}

-- All fields have the widths of the struct, the bytes too.
pub record IsStruct (m : Msg) : Type 0 where
  pub words : IsMsg m
  pub flags_fits : m.flags < 2 ^ 8
  pub tag_fits : m.tag < 2 ^ 8
  pub dest_port_fits : m.dest_port < 2 ^ 8
  pub srce_port_fits : m.srce_port < 2 ^ 8
  pub body_bytes : All IsByte m.body

-- A field: its size in bytes, and its value.
abbrev pub Field : Type 0
Field = ℕ × ℕ

-- The low byte first.
abbrev pub little_endian : ℕ → ℕ → List ℕ
little_endian zero v = []
little_endian (suc n) v = (v % 256) ∷ little_endian n (v / 256)

-- Field after field, without gaps.
abbrev pub packed : List Field → List ℕ
packed [] = []
packed (f ∷ fields) = little_endian (f.0) (f.1) ++ packed fields

-- The fields in the order in which the struct declares them, `data` as its 256 bytes.
abbrev pub declared : ℕ → Msg → List Field
declared next m =
    (4, next)
    ∷ (2, m.length)
    ∷ (2, m.checksum)
    ∷ (1, m.flags)
    ∷ (1, m.tag)
    ∷ (1, m.dest_port)
    ∷ (1, m.srce_port)
    ∷ (2, m.dest_addr)
    ∷ (2, m.srce_addr)
    ∷ (2, m.cmd_rc)
    ∷ (2, m.seq)
    ∷ (4, m.arg1)
    ∷ (4, m.arg2)
    ∷ (4, m.arg3)
    ∷ (map (λ b. (1, b)) m.body ++ (4, m.pad) ∷ [])

word_lem : (w : ℕ) → little_endian 4 w ≡ le_bytes w
word_lem w =
    let third : w / 256 / 256 % 256 ≡ w / 2 ^ 16 % 256 = omega arith in
    let fourth : w / 256 / 256 / 256 % 256 ≡ w / 2 ^ 24 % 256 = omega arith in
    rw (third, fourth) refl

byte_lem : (b : ℕ) → b < 2 ^ 8 → b % 256 ≡ b
byte_lem b h = omega arith

packed-bytes :
    (bs : List ℕ) (fields : List Field)
    → All IsByte bs
    → packed (map (λ b. (1, b)) bs ++ fields) ≡ bs ++ packed fields
packed-bytes [] fields v = refl
packed-bytes (b ∷ bs) fields (h, v) = ap₂ ◌∷◌ (byte_lem b h) (packed-bytes bs fields v)

module _ {xs ys : List ℕ} (rest : xs ≡ ys) where
  then_word : (w : ℕ) → le_bytes w ++ xs ≡ little_endian 4 w ++ ys
  then_word w = ap₂ ◌++◌ (sym (word_lem w)) rest

  then_short : (w : ℕ) → short_bytes w ++ xs ≡ little_endian 2 w ++ ys
  then_short w = ap (λ zs. short_bytes w ++ zs) rest

  then_byte : (b : ℕ) → b < 2 ^ 8 → b ∷ xs ≡ little_endian 1 b ++ ys
  then_byte b h = ap₂ ◌∷◌ (sym (byte_lem b h)) rest

struct_bytes-packed :
    (next : ℕ) (m : Msg) → IsStruct m → struct_bytes next m ≡ packed (declared next m)
unfolding struct_bytes msg_bytes
struct_bytes-packed next m v =
    let body =
      ap (λ ys. m.body ++ ys) (then_word {xs = []} refl m.pad)
      ∙ sym (packed-bytes m.body ((4, m.pad) ∷ []) v.body_bytes) in
    let args = then_word (then_word (then_word body m.arg3) m.arg2) m.arg1 in
    let command = then_short (then_short args m.seq) m.cmd_rc in
    let addrs = then_short (then_short command m.srce_addr) m.dest_addr in
    let ports =
      then_byte (then_byte addrs m.srce_port v.srce_port_fits) m.dest_port v.dest_port_fits in
    let head = then_byte (then_byte ports m.tag v.tag_fits) m.flags v.flags_fits in
    then_word (then_short (then_short head m.checksum) m.length) next

msg_of_bytes-IsStruct :
    (bs : List ℕ) → length bs ≡ msg_size → All IsByte bs → IsStruct (msg_of_bytes bs)
unfolding msg_of_bytes
msg_of_bytes-IsStruct bs whole bytes = record {
  words = msg_of_bytes-IsMsg bs whole bytes;
  flags_fits = get_or-IsByte bs 8 bytes;
  tag_fits = get_or-IsByte bs 9 bytes;
  dest_port_fits = get_or-IsByte bs 10 bytes;
  srce_port_fits = get_or-IsByte bs 11 bytes;
  body_bytes = All-take IsByte 256 (drop 32 bs ++ replicate 256 0) (
      All-append IsByte (drop 32 bs) (replicate 256 0) (All-drop IsByte 32 bs bytes)
        (All-replicate IsByte 256 0 (omega arith)));
}

-- The bytes of a message whose fields, header bytes and data bytes included, have the widths of
-- the struct are those of the fields of `sdp_msg_t` in the order of its declaration, packed, each
-- with its low byte first. Any 292 bytes are such a struct: what the receiver of a datagram of
-- that length reads has fields of these widths, and the fields of a pointer of 32 bits and of a
-- message make these bytes exactly when they are the ones that it reads.
pub packed-msg_of_bytes :
    (bs : List ℕ) (next : ℕ) (m : Msg)
    → length bs ≡ msg_size
    → All IsByte bs
    → next < 2 ^ 32
    → IsStruct m
    → IsStruct (msg_of_bytes bs)
      × (struct_bytes next m ≡ packed (declared next m))
      × ((packed (declared next m) ≡ bs) ↔ ((next ≡ word_at bs 0) × (m ≡ msg_of_bytes bs)))
packed-msg_of_bytes bs next m whole bytes h v =
    let layout = struct_bytes-packed next m v in
    (
      msg_of_bytes-IsStruct bs whole bytes,
      layout,
      (
        λ e. (
          sym (word_at-struct_bytes next m h) ∙ ap (λ xs. word_at xs 0) (layout ∙ e),
          sym (msg_of_bytes-struct_bytes next m v.words) ∙ ap msg_of_bytes (layout ∙ e),
        ),
        λ e. sym layout ∙ ap₂ struct_bytes (e.0) (e.1) ∙ struct_bytes_back bs whole bytes,
      ),
    )
