-- ===== src/Sdp/Layout.antt =====
-- The struct that a datagram holds (`sdp_msg_t`, spin_emu.h): the reading of its fields and the
-- writing of its bytes undo each other.
use spi_nnaker_emulator.Base.{
  ℕ, zero, suc, ◌+◌, ◌*◌, ◌^◌, ◌%◌, ◌/◌, ◌<◌, ◌≤◌, ◌≡◌, refl, ap, ap₂, sym, ◌∙◌, arith, List, [],
  ◌∷◌, ◌++◌, le_bytes, from_le-le_bytes, length, drop, take, replicate, get_or, All, All-drop,
  drop_all, length-drop,
}
use spi_nnaker_emulator.Sdp.Message.{
  Msg, msg_size, msg_bytes, short_bytes, short_at, word_at, struct_bytes, msg_of_bytes,
}
use spi_nnaker_emulator.Sdp.RoundTrip.{IsMsg}
use spi_nnaker_emulator.Sdp.Overlay.{IsByte, get_or-IsByte, word_at-lt, words_one}

get_or-drop : (i k p d : ℕ) (xs : List ℕ) → p ≡ i + k → get_or xs p d ≡ get_or (drop i xs) k d
get_or-drop zero k p d xs e = let e' : p ≡ k = omega (arith, e) in ap (λ j. get_or xs j d) e'
get_or-drop (suc i) k zero d xs e = absurd (omega (arith, e))
get_or-drop (suc i) k (suc p) d [] e = refl
get_or-drop (suc i) k (suc p) d (x ∷ xs) e = get_or-drop i k p d xs (omega (arith, e))

drop-drop : (i k p : ℕ) (xs : List ℕ) → p ≡ i + k → drop p xs ≡ drop k (drop i xs)
drop-drop zero k p xs e = let e' : p ≡ k = omega (arith, e) in ap (λ j. drop j xs) e'
drop-drop (suc i) k zero xs e = absurd (omega (arith, e))
drop-drop (suc i) zero (suc p) [] e = refl
drop-drop (suc i) (suc k) (suc p) [] e = refl
drop-drop (suc i) k (suc p) (x ∷ xs) e = drop-drop i k p xs (omega (arith, e))

take-drop : (n : ℕ) (xs : List ℕ) → take n xs ++ drop n xs ≡ xs
take-drop zero xs = refl
take-drop (suc n) [] = refl
take-drop (suc n) (x ∷ xs) = ap (λ l. x ∷ l) (take-drop n xs)

take_front : (n : ℕ) (xs ys : List ℕ) → n ≤ length xs → take n (xs ++ ys) ≡ take n xs
take_front zero xs ys h = refl
take_front (suc n) [] ys h = absurd (omega arith)
take_front (suc n) (x ∷ xs) ys h = ap (λ l. x ∷ l) (take_front n xs ys (omega arith))

pub length-take : (n : ℕ) (xs : List ℕ) → n ≤ length xs → length (take n xs) ≡ n
length-take zero xs h = refl
length-take (suc n) [] h = absurd (omega arith)
length-take (suc n) (x ∷ xs) h = omega (arith, length-take n xs (omega arith))

short_at-lt : (xs : List ℕ) (i : ℕ) → All IsByte xs → short_at xs i < 2 ^ 16
short_at-lt xs i v = omega (arith, get_or-IsByte xs i v, get_or-IsByte xs (i + 1) v)

-- The first byte, and the first two.
front_byte : (xs : List ℕ) → 1 ≤ length xs → get_or xs 0 0 ∷ drop 1 xs ≡ xs
front_byte [] h = absurd (omega arith)
front_byte (x ∷ xs) h = refl

front_short :
    (xs : List ℕ) → 2 ≤ length xs → All IsByte xs → short_bytes (short_at xs 0) ++ drop 2 xs ≡ xs
front_short [] h v = absurd (omega arith)
front_short (a ∷ []) h v = absurd (omega arith)
front_short (a ∷ b ∷ xs) h (va, (vb, v)) =
    let low : (a + b * 2 ^ 8) % 256 ≡ a = omega arith in
    let high : (a + b * 2 ^ 8) / 256 % 256 ≡ b = omega arith in rw (low, high) refl

module _ (bs : List ℕ) (whole : length bs ≡ msg_size) (bytes : All IsByte bs) where
  behind : (i : ℕ) → i ≤ 292 → length (drop i bs) + i ≡ 292
  behind i h = length-drop i bs (omega (arith, whole)) ∙ whole

  byte_then :
      (i : ℕ) {xs : List ℕ} → i + 1 ≤ 292 → xs ≡ drop (i + 1) bs → get_or bs i 0 ∷ xs ≡ drop i bs
  byte_then i h e =
      ap₂ ◌∷◌ (get_or-drop i 0 i 0 bs (omega arith)) (e ∙ drop-drop i 1 (i + 1) bs refl)
      ∙ front_byte (drop i bs) (omega (arith, behind i (omega arith)))

  short_then :
      (i : ℕ) {xs : List ℕ}
      → i + 2 ≤ 292
      → xs ≡ drop (i + 2) bs
      → short_bytes (short_at bs i) ++ xs ≡ drop i bs
  short_then i h e =
      let p = get_or-drop i 0 i 0 bs (omega arith) in
      let q = get_or-drop i 1 (i + 1) 0 bs refl in
      ap₂ (λ w l. short_bytes w ++ l) (ap₂ (λ a b. a + b * 2 ^ 8) p q)
        (e ∙ drop-drop i 2 (i + 2) bs refl)
      ∙ front_short (drop i bs) (omega (arith, behind i (omega arith))) (All-drop IsByte i bs bytes)

  word_then :
      (i : ℕ) {xs : List ℕ}
      → i + 4 ≤ 292
      → xs ≡ drop (i + 4) bs
      → le_bytes (word_at bs i) ++ xs ≡ drop i bs
  word_then i h e =
      let p = get_or-drop i 0 i 0 bs (omega arith) in
      let at = λ (k : ℕ). get_or-drop i k (i + k) 0 bs refl in
      let word : word_at bs i ≡ word_at (drop i bs) 0 = rw (p, at 1, at 2, at 3) refl in
      ap₂ (λ w l. le_bytes w ++ l) word (e ∙ drop-drop i 4 (i + 4) bs refl)
      ∙ words_one (drop i bs) (omega (arith, behind i (omega arith))) (All-drop IsByte i bs bytes)

  body_then : take 256 (drop 32 bs ++ replicate 256 0) ++ le_bytes (word_at bs 288) ≡ drop 32 bs
  body_then =
      let front =
        take_front 256 (drop 32 bs) (replicate 256 0) (omega (arith, behind 32 (omega arith))) in
      let pad =
        word_then 288 {xs = []} (omega arith) (sym (drop_all 292 bs (omega (arith, whole)))) in
      ap₂ ◌++◌ front (pad ∙ drop-drop 32 256 288 bs refl) ∙ take-drop 256 (drop 32 bs)

  pub struct_bytes_back : struct_bytes (word_at bs 0) (msg_of_bytes bs) ≡ bs
  unfolding struct_bytes msg_bytes msg_of_bytes
  struct_bytes_back = word_then 0 (omega arith) (
      short_then 4 (omega arith) (
        short_then 6 (omega arith) (
          byte_then 8 (omega arith) (
            byte_then 9 (omega arith) (
              byte_then 10 (omega arith) (
                byte_then 11 (omega arith) (
                  short_then 12 (omega arith) (
                    short_then 14 (omega arith) (
                      short_then 16 (omega arith) (
                        short_then 18 (omega arith) (
                          word_then 20 (omega arith) (
                            word_then 24 (omega arith)
                              (word_then 28 (omega arith) body_then)))))))))))))

  pub msg_of_bytes-IsMsg : IsMsg (msg_of_bytes bs)
  unfolding msg_of_bytes
  msg_of_bytes-IsMsg =
      let front =
        take_front 256 (drop 32 bs) (replicate 256 0) (omega (arith, behind 32 (omega arith))) in
      record {
        length_fits = short_at-lt bs 4 bytes;
        checksum_fits = short_at-lt bs 6 bytes;
        dest_addr_fits = short_at-lt bs 12 bytes;
        srce_addr_fits = short_at-lt bs 14 bytes;
        cmd_rc_fits = short_at-lt bs 16 bytes;
        seq_fits = short_at-lt bs 18 bytes;
        arg1_fits = word_at-lt bs 20 bytes;
        arg2_fits = word_at-lt bs 24 bytes;
        arg3_fits = word_at-lt bs 28 bytes;
        pad_fits = word_at-lt bs 288 bytes;
        body_fits =
            ap length front ∙ length-take 256 (drop 32 bs) (omega (arith, behind 32 (omega arith)));
      }

pub word_at-struct_bytes :
    (next : ℕ) (m : Msg) → next < 2 ^ 32 → word_at (struct_bytes next m) 0 ≡ next
unfolding struct_bytes
word_at-struct_bytes next m h = from_le-le_bytes next h
