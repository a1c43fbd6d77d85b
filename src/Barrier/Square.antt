-- ===== src/Barrier/Square.antt =====
-- A square of chips, and the bits of its routes (`barrier_setup`, spin_emu_api.c).
use spi_nnaker_emulator.Base.{
  ℕ, zero, suc, ◌+◌, ◌*◌, ◌%◌, ◌^◌, ◌<◌, ◌≤◌, ◌≡◌, refl, ap, ◌∙◌, arith, ◌==◌, Bool, true, false,
  not, ◌&&◌, ◌||◌, List, length, ltb, if◌then◌else◌, u32, shl, has_bit, bit_or, has_bit-bit_or,
  has_bit-pow,
}
use spi_nnaker_emulator.Base.Outcome.{Outcome, ok}
use spi_nnaker_emulator.Grid.{num_links}
use spi_nnaker_emulator.Grid.Coordinates.{index-lt}
use spi_nnaker_emulator.Barrier.{core_route, side_bits, off_links}
use spi_nnaker_emulator.Barrier.Routes.{Adds, shl-pow, tree_links, off_links-Adds}

-- The sides of the squares that packed coordinates can name.
pub side_lem :
    (k : ℕ) → k ≤ 8 → (side_bits (2 ^ k * 2 ^ k) ≡ k) × (2 ^ k ≤ 256) × (2 ^ k * 2 ^ k ≤ 65536)
unfolding side_bits
side_lem zero h = (refl, omega arith, omega arith)
side_lem (suc zero) h = (refl, omega arith, omega arith)
side_lem (suc (suc zero)) h = (refl, omega arith, omega arith)
side_lem (suc (suc (suc zero))) h = (refl, omega arith, omega arith)
side_lem (suc (suc (suc (suc zero)))) h = (refl, omega arith, omega arith)
side_lem (suc (suc (suc (suc (suc zero))))) h = (refl, omega arith, omega arith)
side_lem (suc (suc (suc (suc (suc (suc zero)))))) h = (refl, omega arith, omega arith)
side_lem (suc (suc (suc (suc (suc (suc (suc zero))))))) h = (refl, omega arith, omega arith)
side_lem (suc (suc (suc (suc (suc (suc (suc (suc zero)))))))) h = (refl, omega arith, omega arith)
side_lem (suc (suc (suc (suc (suc (suc (suc (suc (suc k))))))))) h = absurd (omega arith)

-- The link towards the root chip.
abbrev pub parent_link : ℕ → ℕ → ℕ
parent_link x y = if ltb 0 x && ltb 0 y then 4 else if ltb 0 x then 3 else if ltb 0 y then 5 else 0

next_row : (x side : ℕ) → (x + 1) * side ≡ x * side + side
next_row x side = grind arith

pub square_links :
    (core_map : List ℕ) (side x y : ℕ)
    → length core_map ≡ side * side
    → x < side
    → y < side
    → (r : ℕ) × (off_links core_map side (x * side + y) x y ≡ ok r)
      × Adds 0 (tree_links core_map side (x * side + y) x y) r
square_links core_map side x y whole hx hy =
    off_links-Adds core_map side (x * side + y) x y
      (λ h. omega (arith, index-lt x (y + 1) side side hx (omega arith)))
      (λ h. omega (arith, index-lt (x + 1) y side side (omega arith) hy, next_row x side))
      (λ h h'.
        omega
          (arith, index-lt (x + 1) (y + 1) side side (omega arith) (omega arith), next_row x side))

-- The bit of a core's route.
pub core_route-bit :
    (core i j : ℕ) → u32 (core + num_links) % 32 ≡ i → has_bit (core_route core) j ≡ (i == j)
unfolding core_route
core_route-bit core i j e =
    ap (λ n. has_bit (shl 1 n) j) e
    ∙ ap (λ w. has_bit w j) (shl-pow i (omega arith))
    ∙ has_bit-pow i j

pub if_ok :
    (c : Bool) (o : Outcome ℕ) (v w : ℕ)
    → o ≡ ok v
    → (if c then o else ok w) ≡ ok (if c then v else w)
if_ok true o v w e = e
if_ok false o v w e = refl

pub rdygo_lem :
    (c : Bool) (off r i j : ℕ) (m : Bool)
    → has_bit off j ≡ m
    → has_bit r j ≡ (i == j)
    → has_bit (if c then off else bit_or r off) j ≡ ((not c && i == j) || m)
rdygo_lem true off r i j m e e' = e
rdygo_lem false off r i j m e e' =
    has_bit-bit_or r off j ∙ ap (λ b. b || has_bit off j) e' ∙ ap (λ b. i == j || b) e

pub rdy2_lem :
    (c : Bool) (r r' j : ℕ) (m m' : Bool)
    → has_bit r j ≡ m
    → has_bit r' j ≡ m'
    → has_bit (if c then r else r') j ≡ (if c then m else m')
rdy2_lem true r r' j m m' e e' = e
rdy2_lem false r r' j m m' e e' = e'

pub shl-bit : (i j : ℕ) → i < 32 → has_bit (shl 1 i) j ≡ (i == j)
shl-bit i j h = ap (λ w. has_bit w j) (shl-pow i h) ∙ has_bit-pow i j

pub parent_link-lt : (x y : ℕ) → parent_link x y < 32
parent_link-lt x y = ground arith
