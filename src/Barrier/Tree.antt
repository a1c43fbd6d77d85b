-- ===== src/Barrier/Tree.antt =====
-- The tree that the links of `barrier_setup` (spin_emu_api.c) span on a square of chips.
use spi_nnaker_emulator.Base.{
  ℕ, zero, suc, ◌+◌, ◌*◌, ◌^◌, ◌<◌, ◌≤◌, ◌≡◌, refl, ap, ◌∙◌, sym, arith, true, ◌||◌, List, length,
  has_bit, has_bit-zero, shr, low_bits,
}
use spi_nnaker_emulator.Base.Int.{pos}
use spi_nnaker_emulator.Base.Outcome.{Outcome, ok}
use spi_nnaker_emulator.Grid.{target_x, target_y, p2p_link}
use spi_nnaker_emulator.Barrier.{off_links}
use spi_nnaker_emulator.Barrier.Routes.{has_cores, tree_links}
use spi_nnaker_emulator.Barrier.Square.{parent_link, square_links}
use spi_nnaker_emulator.Barrier.Branches.{
  InTree, InTree-Kind, north_branch, east_branch, across_branch, Kind-unique,
}

-- Link `j` is in the routes off the chip at (x, y) and leads to (x', y').
pub record IsBranch (core_map : List ℕ) (side x y j x' y' : ℕ) : Type 0 where
  pub x_in : x < side
  pub y_in : y < side
  pub route : ℕ
  pub computed : off_links core_map side (x * side + y) x y ≡ ok route
  pub set : has_bit route j ≡ true
  pub to_x : target_x x j ≡ pos x'
  pub to_y : target_y y j ≡ pos y'

-- The chip at (x', y') has one link of the tree that leads to it, from nearer to the root, and the
-- route of its RDY2 packets goes back over that link.
pub record HasParent (core_map : List ℕ) (side x' y' : ℕ) : Type 0 where
  pub x : ℕ
  pub y : ℕ
  pub link : ℕ
  pub branch : IsBranch core_map side x y link x' y'
  pub closer : x + y < x' + y'
  pub back : p2p_link (x' * 2 ^ 8 + y') ≡ link + 3
  pub only :
      (x₂ y₂ j₂ : ℕ) → IsBranch core_map side x₂ y₂ j₂ x' y' → (x₂ ≡ x) × (y₂ ≡ y) × (j₂ ≡ link)

abbrev or_zero : Outcome ℕ → ℕ
or_zero (ok n) = n
or_zero _ = 0

module _ (core_map : List ℕ) (side x y j x' y' : ℕ) (whole : length core_map ≡ side * side) where
  IsBranch-InTree : IsBranch core_map side x y j x' y' → InTree core_map side x y j x' y'
  IsBranch-InTree b =
      let (r, e, adds) = square_links core_map side x y whole b.x_in b.y_in in
      let same : r ≡ b.route = ap or_zero (sym e ∙ b.computed) in
      record {
        x_in = b.x_in;
        y_in = b.y_in;
        in_tree =
            sym (
              adds j
              ∙ ap (λ z. z || tree_links core_map side (x * side + y) x y j) (has_bit-zero j))
            ∙ ap (λ w. has_bit w j) same
            ∙ b.set;
        to_x = b.to_x;
        to_y = b.to_y;
      }

  InTree-IsBranch : InTree core_map side x y j x' y' → IsBranch core_map side x y j x' y'
  InTree-IsBranch b =
      let (r, e, adds) = square_links core_map side x y whole b.x_in b.y_in in
      record {
        x_in = b.x_in;
        y_in = b.y_in;
        route = r;
        computed = e;
        set =
            adds j
            ∙ ap (λ z. z || tree_links core_map side (x * side + y) x y j) (has_bit-zero j)
            ∙ b.in_tree;
        to_x = b.to_x;
        to_y = b.to_y;
      }

parent_lem : (x y : ℕ) → y < 256 → p2p_link (x * 2 ^ 8 + y) ≡ parent_link x y
unfolding p2p_link
parent_lem x y lt =
    let column : shr (x * 2 ^ 8 + y) 8 ≡ x = omega arith in
    let row : low_bits (x * 2 ^ 8 + y) 8 ≡ y = omega arith in rw (column, row) refl

has_parent :
    (core_map : List ℕ) (side x y link x' y' : ℕ)
    → length core_map ≡ side * side
    → y' < 256
    → InTree core_map side x y link x' y'
    → x + y < x' + y'
    → parent_link x' y' ≡ link + 3
    → HasParent core_map side x' y'
has_parent core_map side x y link x' y' whole low t closer back = record {
  x = x;
  y = y;
  link = link;
  branch = InTree-IsBranch core_map side x y link x' y' whole t;
  closer = closer;
  back = parent_lem x' y' low ∙ back;
  only = λ x₂ y₂ j₂ b.
      Kind-unique x y link x₂ y₂ j₂ x' y' (InTree-Kind core_map side x y link x' y' t) (
        InTree-Kind core_map side x₂ y₂ j₂ x' y'
          (IsBranch-InTree core_map side x₂ y₂ j₂ x' y' whole b));
}

-- The routes off the chips of a square of at most 256 by 256, whose core map has an entry for each
-- chip, span a tree: to each chip with application cores but the root exactly one link leads, from
-- a chip nearer to the root, and `p2p_get`, which the RDY2 entry uses, goes back over that link.
pub tree-HasParent :
    (core_map : List ℕ) (side x' y' : ℕ)
    → length core_map ≡ side * side
    → side ≤ 256
    → x' < side
    → y' < side
    → 0 < x' + y'
    → has_cores core_map (x' * side + y') ≡ true
    → HasParent core_map side x' y'
tree-HasParent core_map side zero zero whole small hx hy inner h = absurd (omega arith)
tree-HasParent core_map side zero (suc y) whole small hx hy inner h =
    has_parent core_map side 0 y 2 0 (suc y) whole (omega arith) (north_branch core_map side y hy h)
      (omega arith) (ground arith)
tree-HasParent core_map side (suc x) zero whole small hx hy inner h =
    has_parent core_map side x 0 0 (suc x) 0 whole (omega arith) (east_branch core_map side x hx h)
      (omega arith) (ground arith)
tree-HasParent core_map side (suc x) (suc y) whole small hx hy inner h =
    has_parent core_map side x y 1 (suc x) (suc y) whole (omega arith)
      (across_branch core_map side x y hx hy h) (omega arith) (ground arith)
