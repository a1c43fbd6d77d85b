-- ===== src/Sdp/Overlay.antt =====
-- Bytes that were copied to a message from `arg1` on (`sdp_msg_t`, spin_emu.h).
use spi_nnaker_emulator.Base.{
  ℕ, ◌+◌, ◌^◌, ◌%◌, ◌/◌, ◌<◌, ◌≤◌, ◌≡◌, refl, ap, ap₂, ◌∙◌, arith, List, [], ◌∷◌, ◌++◌, le_bytes,
  from_le, length, drop, length-append, length-drop, All, All-append, All-drop, zero, suc, get_or,
}
use spi_nnaker_emulator.Sdp.Message.{Msg, buf_size, arg_bytes, word_at, overlay}

abbrev pub IsByte : ℕ → Type 0
IsByte b = b < 256

le_bytes-from_le :
    (a b c d : ℕ)
    → IsByte a
    → IsByte b
    → IsByte c
    → IsByte d
    → le_bytes (from_le a b c d) ≡ a ∷ b ∷ c ∷ d ∷ []
le_bytes-from_le a b c d ha hb hc hd =
    let e₀ : from_le a b c d % 256 ≡ a = omega arith in
    let e₁ : from_le a b c d / 2 ^ 8 % 256 ≡ b = omega arith in
    let e₂ : from_le a b c d / 2 ^ 16 % 256 ≡ c = omega arith in
    let e₃ : from_le a b c d / 2 ^ 24 % 256 ≡ d = omega arith in rw (e₀, e₁, e₂, e₃) refl

-- The words at the front of a list of bytes, written out again.
pub words_one :
    (xs : List ℕ) → 4 ≤ length xs → All IsByte xs → le_bytes (word_at xs 0) ++ drop 4 xs ≡ xs
words_one [] h v = absurd (omega arith)
words_one (a ∷ []) h v = absurd (omega arith)
words_one (a ∷ b ∷ []) h v = absurd (omega arith)
words_one (a ∷ b ∷ c ∷ []) h v = absurd (omega arith)
words_one (a ∷ b ∷ c ∷ d ∷ xs) h (va, (vb, (vc, (vd, v)))) =
    ap (λ ys. ys ++ xs) (le_bytes-from_le a b c d va vb vc vd)

words_two :
    (xs : List ℕ)
    → 8 ≤ length xs
    → All IsByte xs
    → le_bytes (word_at xs 0) ++ (le_bytes (word_at xs 4) ++ drop 8 xs) ≡ xs
words_two [] h v = absurd (omega arith)
words_two (a ∷ []) h v = absurd (omega arith)
words_two (a ∷ b ∷ []) h v = absurd (omega arith)
words_two (a ∷ b ∷ c ∷ []) h v = absurd (omega arith)
words_two (a ∷ b ∷ c ∷ d ∷ xs) h (va, (vb, (vc, (vd, v)))) =
    ap₂ ◌++◌ (le_bytes-from_le a b c d va vb vc vd) (words_one xs (omega arith) v)

pub words_three :
    (xs : List ℕ)
    → 12 ≤ length xs
    → All IsByte xs
    → le_bytes (word_at xs 0)
        ++ (le_bytes (word_at xs 4) ++ (le_bytes (word_at xs 8) ++ drop 12 xs))
      ≡ xs
words_three [] h v = absurd (omega arith)
words_three (a ∷ []) h v = absurd (omega arith)
words_three (a ∷ b ∷ []) h v = absurd (omega arith)
words_three (a ∷ b ∷ c ∷ []) h v = absurd (omega arith)
words_three (a ∷ b ∷ c ∷ d ∷ xs) h (va, (vb, (vc, (vd, v)))) =
    ap₂ ◌++◌ (le_bytes-from_le a b c d va vb vc vd) (words_two xs (omega arith) v)

pub get_or-IsByte : (xs : List ℕ) (i : ℕ) → All IsByte xs → IsByte (get_or xs i 0)
get_or-IsByte [] i v = omega arith
get_or-IsByte (x ∷ xs) zero v = v.0
get_or-IsByte (x ∷ xs) (suc i) v = get_or-IsByte xs i v.1

pub word_at-lt : (xs : List ℕ) (i : ℕ) → All IsByte xs → word_at xs i < 2 ^ 32
word_at-lt xs i v = omega (
  arith,
  get_or-IsByte xs i v,
  get_or-IsByte xs (i + 1) v,
  get_or-IsByte xs (i + 2) v,
  get_or-IsByte xs (i + 3) v,
)

le_bytes-AreBytes : (w : ℕ) → All IsByte (le_bytes w)
le_bytes-AreBytes w = (omega arith, (omega arith, (omega arith, (omega arith, tt))))

-- What `overlay` of `bs` leaves from `arg1` on.
abbrev pub overlaid : List ℕ → Msg → List ℕ
overlaid bs m = bs ++ drop (length bs) (arg_bytes m)

module _ (bs : List ℕ) (m : Msg) (fits : length bs ≤ 268) (whole : length m.body ≡ buf_size)
    (bytes : All IsByte bs) (bytes' : All IsByte m.body) where
  length-arg_bytes : length (arg_bytes m) ≡ 268
  length-arg_bytes = omega (arith, whole)

  pub length-overlaid : length (overlaid bs m) ≡ 268
  length-overlaid =
      length-append bs (drop (length bs) (arg_bytes m))
      ∙ omega (
        arith,
        length-arg_bytes,
        length-drop (length bs) (arg_bytes m) (omega (arith, length-arg_bytes)),
      )

  pub overlaid-AreBytes : All IsByte (overlaid bs m)
  overlaid-AreBytes = All-append IsByte bs (drop (length bs) (arg_bytes m)) bytes (
      All-drop IsByte (length bs) (arg_bytes m) (
        All-append IsByte (le_bytes m.arg1) (le_bytes m.arg2 ++ (le_bytes m.arg3 ++ m.body))
          (le_bytes-AreBytes m.arg1)
          (All-append IsByte (le_bytes m.arg2) (le_bytes m.arg3 ++ m.body)
            (le_bytes-AreBytes m.arg2)
            (All-append IsByte (le_bytes m.arg3) m.body (le_bytes-AreBytes m.arg3) bytes'))))

  pub arg_bytes-overlay : arg_bytes (overlay bs m) ≡ overlaid bs m
  unfolding overlay
  arg_bytes-overlay = words_three (overlaid bs m) (omega (arith, length-overlaid)) overlaid-AreBytes
