-- ===== src/Base/Bits.antt =====
-- Facts about `&`, `|` and the tests of single bits that hold at every word.
use Prim.Native.Nat.{
  ℕ, zero, suc, ◌+◌, ◌*◌, ◌/◌, ◌%◌, ◌^◌, ◌<◌, ◌≤◌, min, max, bit_and, bit_or, digits,
  bit_and-bitwise, bit_or-bitwise,
}
use mathlib.Core.Path.{◌≡◌, refl, ◌∙◌, ap}
use mathlib.Core.Logic.{◌⊎◌, inl, inr}
use mathlib.Core.Bool.{false, ◌||◌}
use native.Mathlib.Omega.{arith}
use native.Mathlib.Nat.{two-pow-succ}
use spi_nnaker_emulator.Base.Tests.{◌==◌, if◌then◌else◌, eq-cases}
use spi_nnaker_emulator.Base.Word.{has_bit}

digits-zero : (n a : ℕ) → digits (λ b. zero) min n a 0 ≡ 0
digits-zero zero zero = refl
digits-zero zero (suc a) = refl
digits-zero (suc n) zero = refl
digits-zero (suc n) (suc a) = omega (arith, digits-zero n (suc a / 2))

-- An empty mask leaves nothing.
pub bit_and-zero : (a : ℕ) → bit_and a 0 ≡ 0
bit_and-zero a = bit_and-bitwise a 0 ∙ digits-zero a a

-- Bit `j` of a word, 0 or 1.
abbrev bit : ℕ → ℕ → ℕ
bit zero w = w % 2
bit (suc j) w = bit j (w / 2)

bit-zero : (j : ℕ) → bit j 0 ≡ 0
bit-zero zero = refl
bit-zero (suc j) = bit-zero j

bit-value : (j w : ℕ) → (bit j w ≡ 0) ⊎ (bit j w ≡ 1)
bit-value zero w = elim (eq-cases (w % 2) 0) [ inl e ↦ inl e | inr ne ↦ inr (omega arith) ]
bit-value (suc j) w = bit-value j (w / 2)

pow_half : (j : ℕ) → 2 ^ suc j / 2 ≡ 2 ^ j
pow_half j = omega (arith, two-pow-succ j)

pow_even : (j : ℕ) → 2 ^ suc j % 2 ≡ 0
pow_even j = omega (arith, two-pow-succ j)

pow_pos : (j : ℕ) → 0 < 2 ^ j
pow_pos zero = omega arith
pow_pos (suc j) = omega (arith, two-pow-succ j, pow_pos j)

digits-pow : (n a j : ℕ) → a ≤ n → digits (λ b. zero) min n a (2 ^ j) ≡ bit j a * 2 ^ j
digits-pow zero zero j h = rw (bit-zero j) (omega arith)
digits-pow zero (suc a) j h = absurd (omega arith)
digits-pow (suc n) zero j h = rw (bit-zero j) (omega arith)
digits-pow (suc n) (suc a) zero h = omega (arith, digits-zero n (suc a / 2))
digits-pow (suc n) (suc a) (suc j) h =
    rw (pow_half j, pow_even j, digits-pow n (suc a / 2) j (omega arith))
      (grind (arith, two-pow-succ j))

has_bit-bit : (w j : ℕ) → has_bit w j ≡ (bit j w == 1)
has_bit-bit w j = elim (bit-value j w) [
  | inl e ↦ rw (bit_and-bitwise w (2 ^ j), digits-pow w w j (omega arith), e) (ground arith)
  | inr e ↦
      rw (bit_and-bitwise w (2 ^ j), digits-pow w w j (omega arith), e) (ground (arith, pow_pos j))
]

-- The digits of `a | b`.
digits-or : (n a b j : ℕ) → a ≤ n → bit j (digits (λ b. b) max n a b) ≡ max (bit j a) (bit j b)
digits-or zero zero b j h = rw (bit-zero j) (omega arith)
digits-or zero (suc a) b j h = absurd (omega arith)
digits-or (suc n) zero b j h = rw (bit-zero j) (omega arith)
digits-or (suc n) (suc a) b zero h = omega arith
digits-or (suc n) (suc a) b (suc j) h =
    let rest = digits (λ b. b) max n (suc a / 2) (b / 2) in
    let half : (rest * 2 + max (suc a % 2) (b % 2)) / 2 ≡ rest = omega arith in
    rw half (digits-or n (suc a / 2) (b / 2) j (omega arith))

-- Bit `j` of `a | b` is set where it is set in `a` or in `b`.
pub has_bit-bit_or : (a b j : ℕ) → has_bit (bit_or a b) j ≡ (has_bit a j || has_bit b j)
has_bit-bit_or a b j =
    rw
      (
        has_bit-bit (bit_or a b) j,
        has_bit-bit a j,
        has_bit-bit b j,
        bit_or-bitwise a b,
        digits-or a a b j (omega arith),
      )
      (elim (bit-value j a) [
        | inl e ↦ elim (bit-value j b) [ inl e' ↦ rw (e, e') refl | inr e' ↦ rw (e, e') refl ]
        | inr e ↦ elim (bit-value j b) [ inl e' ↦ rw (e, e') refl | inr e' ↦ rw (e, e') refl ]
      ])

bit-pow : (j k : ℕ) → bit j (2 ^ k) ≡ (if k == j then 1 else 0)
bit-pow zero zero = refl
bit-pow zero (suc k) = pow_even k ∙ ground arith
bit-pow (suc j) zero = bit-zero j ∙ ground arith
bit-pow (suc j) (suc k) = rw (pow_half k) (bit-pow j k ∙ ground arith)

-- The only bit of a power of two.
pub has_bit-pow : (k j : ℕ) → has_bit (2 ^ k) j ≡ (k == j)
has_bit-pow k j = rw (has_bit-bit (2 ^ k) j, bit-pow j k) (ground arith)

pub has_bit-zero : (j : ℕ) → has_bit 0 j ≡ false
has_bit-zero j = rw (has_bit-bit 0 j, bit-zero j) refl

digits-low : (n q a k y : ℕ) → q ≡ a * 2 ^ k → y < 2 ^ k → q ≤ n → digits (λ b. b) max n q y ≡ q + y
digits-low zero zero a k y e lt h = omega arith
digits-low zero (suc q) a k y e lt h = absurd (omega arith)
digits-low (suc n) zero a k y e lt h = omega arith
digits-low (suc n) (suc q) a zero y e lt h = omega (
  arith,
  digits-low n (suc q / 2) (suc q / 2) zero (y / 2) (omega arith) (omega arith) (omega arith),
)
digits-low (suc n) (suc q) a (suc k) y e lt h =
    let double : a * 2 ^ suc k ≡ a * 2 ^ k + a * 2 ^ k =
      ap (λ p. a * p) (two-pow-succ k) ∙ grind arith in
    let half : suc q / 2 ≡ a * 2 ^ k = omega (arith, e ∙ double) in
    let even : suc q % 2 ≡ 0 = omega (arith, e ∙ double) in
    let low : y / 2 < 2 ^ k = omega (arith, two-pow-succ k) in
    omega (arith, even, digits-low n (suc q / 2) a k (y / 2) half low (omega arith))

-- `(a << k) | y` where `y` has only bits below `k`.
pub bit_or-low : (a k y : ℕ) → y < 2 ^ k → bit_or (a * 2 ^ k) y ≡ a * 2 ^ k + y
bit_or-low a k y lt =
    bit_or-bitwise (a * 2 ^ k) y ∙ digits-low (a * 2 ^ k) (a * 2 ^ k) a k y refl lt (omega arith)
