-- ===== src/Sdp/RoundTrip.antt =====
-- The bytes of a message (`sdp_msg_t`, spin_emu.h) as a core sends them (`spin1_send_sdp_msg`,
-- spin_emu_api.c).
use spi_nnaker_emulator.Base.{
  ℕ, zero, suc, ◌+◌, ◌*◌, ◌/◌, ◌%◌, ◌^◌, ◌<◌, ◌≡◌, refl, ap, arith, List, [], ◌∷◌, ◌++◌, le_bytes,
  from_le-le_bytes, length, append_assoc, append-nil, ◌∙◌, take, take-append, get_or, replicate,
}
use spi_nnaker_emulator.Sdp.Message.{Msg, buf_size, msg_bytes, struct_bytes, word_at, msg_of_bytes}

-- The fields have the widths of the struct.
pub record IsMsg (m : Msg) : Type 0 where
  pub length_fits : m.length < 2 ^ 16
  pub checksum_fits : m.checksum < 2 ^ 16
  pub dest_addr_fits : m.dest_addr < 2 ^ 16
  pub srce_addr_fits : m.srce_addr < 2 ^ 16
  pub cmd_rc_fits : m.cmd_rc < 2 ^ 16
  pub seq_fits : m.seq < 2 ^ 16
  pub arg1_fits : m.arg1 < 2 ^ 32
  pub arg2_fits : m.arg2 < 2 ^ 32
  pub arg3_fits : m.arg3 < 2 ^ 32
  pub pad_fits : m.pad < 2 ^ 32
  pub body_fits : length m.body ≡ buf_size

-- Behind `xs`, positions are those of `ys`.
get_or-append :
    (xs ys : List ℕ) (p i d : ℕ) → p ≡ length xs + i → get_or (xs ++ ys) p d ≡ get_or ys i d
get_or-append [] ys p i d e = let e' : p ≡ i = omega (arith, e) in ap (λ k. get_or ys k d) e'
get_or-append (x ∷ xs) ys zero i d e = absurd (omega (arith, e))
get_or-append (x ∷ xs) ys (suc p) i d e = get_or-append xs ys p i d (omega (arith, e))

short_lem : (w : ℕ) → w < 2 ^ 16 → w % 256 + w / 256 % 256 * 2 ^ 8 ≡ w
short_lem w h = omega arith

body_lem :
    (body pad rest : List ℕ) → length body ≡ buf_size → take buf_size ((body ++ pad) ++ rest) ≡ body
body_lem body pad rest e =
    rw (append_assoc body pad rest)
      (take-append body (pad ++ rest) 0 buf_size (omega (arith, e)) ∙ append-nil body)

pad_lem :
    (body : List ℕ) (pad : ℕ)
    → length body ≡ buf_size
    → pad < 2 ^ 32
    → word_at (body ++ le_bytes pad) 256 ≡ pad
pad_lem body pad e h =
    let at = λ (p i : ℕ) (q : p ≡ buf_size + i). get_or-append body (le_bytes pad) p i 0 (rw e q) in
    rw (at 256 0 refl, at 257 1 refl, at 258 2 refl, at 259 3 refl) (from_le-le_bytes pad h)

pub msg_of_bytes-struct_bytes :
    (next : ℕ) (m : Msg) → IsMsg m → msg_of_bytes (struct_bytes next m) ≡ m
unfolding msg_of_bytes struct_bytes msg_bytes
msg_of_bytes-struct_bytes next m v =
    let l = short_lem m.length v.length_fits in
    let c = short_lem m.checksum v.checksum_fits in
    let d = short_lem m.dest_addr v.dest_addr_fits in
    let s = short_lem m.srce_addr v.srce_addr_fits in
    let r = short_lem m.cmd_rc v.cmd_rc_fits in
    let q = short_lem m.seq v.seq_fits in
    let a = from_le-le_bytes m.arg1 v.arg1_fits in
    let b = from_le-le_bytes m.arg2 v.arg2_fits in
    let g = from_le-le_bytes m.arg3 v.arg3_fits in
    let y = body_lem m.body (le_bytes m.pad) (replicate buf_size 0) v.body_fits in
    let p = pad_lem m.body m.pad v.body_fits v.pad_fits in rw (l, c, d, s, r, q, a, b, g, y, p) refl
