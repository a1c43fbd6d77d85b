-- ===== src/Barrier/Branches.antt =====
-- The links of the tree of `barrier_setup` (spin_emu_api.c), one kind at a time.
use spi_nnaker_emulator.Base.{
  ℕ, zero, suc, ◌+◌, ◌-◌, ◌*◌, ◌<◌, ◌≡◌, refl, ap, ◌∙◌, sym, arith, Bool, true, false, ◌&&◌, ◌||◌,
  List, lt→ltb, ==_iff, ==_ne, ◌⊎◌, inl, inr,
}
use mathlib.Core.Bool.{false≢true}
use spi_nnaker_emulator.Base.Int.{ℤ, pos, negsuc}
use spi_nnaker_emulator.Grid.{target_x, target_y}
use spi_nnaker_emulator.Barrier.Routes.{has_cores, tree_links}

-- The link `j` of the tree leads from (x, y) to (x', y').
pub record InTree (core_map : List ℕ) (side x y j x' y' : ℕ) : Type 0 where
  pub x_in : x < side
  pub y_in : y < side
  pub in_tree : tree_links core_map side (x * side + y) x y j ≡ true
  pub to_x : target_x x j ≡ pos x'
  pub to_y : target_y y j ≡ pos y'

abbrev as_nat : ℤ → ℕ
as_nat (pos n) = n
as_nat (negsuc _) = 0

-- What a link of the tree can be.
abbrev pub Kind : ℕ → ℕ → ℕ → ℕ → ℕ → Type 0
Kind x y j x' y' =
    ((j ≡ 2) × (x ≡ 0) × (x' ≡ 0) × (y' ≡ y + 1))
    ⊎ (((j ≡ 0) × (y ≡ 0) × (x' ≡ x + 1) × (y' ≡ 0)) ⊎ ((j ≡ 1) × (x' ≡ x + 1) × (y' ≡ y + 1)))

only_first : (a b c : Bool) → ((a && true || b && false) || c && false) ≡ true → a ≡ true
only_first true b c h = refl
only_first false true true h = h
only_first false true false h = h
only_first false false true h = h
only_first false false false h = h

only_second : (a b c : Bool) → ((a && false || b && true) || c && false) ≡ true → b ≡ true
only_second a true c h = refl
only_second true false true h = h
only_second true false false h = h
only_second false false true h = h
only_second false false false h = h

none_left : (a b c : Bool) → ((a && false || b && false) || c && false) ≡ false
none_left true true true = refl
none_left true true false = refl
none_left true false true = refl
none_left true false false = refl
none_left false true true = refl
none_left false true false = refl
none_left false false true = refl
none_left false false false = refl

pub no_link :
    (a b c p q r : Bool)
    → p ≡ false
    → q ≡ false
    → r ≡ false
    → ((a && p || b && q) || c && r) ≡ false
no_link a b c p q r hp hq hr = rw (hp, hq, hr) (none_left a b c)

both : (a b : Bool) → (a && b) ≡ true → (a ≡ true) × (b ≡ true)
both true b h = (refl, h)
both false b h = cc

same_pos : (m n : ℕ) → pos m ≡ pos n → n ≡ m
same_pos m n e = ap as_nat (sym e)

pub InTree-Kind :
    (core_map : List ℕ) (side x y j x' y' : ℕ) → InTree core_map side x y j x' y' → Kind x y j x' y'
InTree-Kind core_map side x y zero x' y' b =
    let t = only_second _ _ _ b.in_tree in
    let at_edge = (both _ _ (both _ _ t).0).1 in
    inr (
      inl (
        refl,
        (==_iff y 0).0 at_edge,
        same_pos _ _ b.to_x ∙ omega arith,
        same_pos _ _ b.to_y ∙ (==_iff y 0).0 at_edge,
      ))
InTree-Kind core_map side x y (suc zero) x' y' b =
    inr (inr (refl, same_pos _ _ b.to_x ∙ omega arith, same_pos _ _ b.to_y ∙ omega arith))
InTree-Kind core_map side x y (suc (suc zero)) x' y' b =
    let t = only_first _ _ _ b.in_tree in
    let at_edge = (both _ _ (both _ _ t).0).0 in
    inl (
      refl,
      (==_iff x 0).0 at_edge,
      same_pos _ _ b.to_x ∙ (==_iff x 0).0 at_edge,
      same_pos _ _ b.to_y ∙ omega arith,
    )
InTree-Kind core_map side x y (suc (suc (suc j))) x' y' b = absurd (
    false≢true (
      sym (
        no_link _ _ _ _ _ _ (==_ne 2 (suc (suc (suc j))) (λ e. omega arith))
          (==_ne 0 (suc (suc (suc j))) (λ e. omega arith))
          (==_ne 1 (suc (suc (suc j))) (λ e. omega arith)))
      ∙ b.in_tree))

third : (a b : Bool) → ((a && false || b && false) || true) ≡ true
third true true = refl
third true false = refl
third false true = refl
third false false = refl

second : (a c : Bool) → ((a && false || true) || c && false) ≡ true
second true c = refl
second false c = refl

at_index :
    (core_map : List ℕ) (i i' : ℕ)
    → i ≡ i'
    → has_cores core_map i' ≡ true
    → has_cores core_map i ≡ true
at_index core_map i i' e h = ap (has_cores core_map) e ∙ h

pub north_branch :
    (core_map : List ℕ) (side y : ℕ)
    → suc y < side
    → has_cores core_map (0 * side + suc y) ≡ true
    → InTree core_map side 0 y 2 0 (suc y)
north_branch core_map side y lt h = record {
  x_in = omega arith;
  y_in = omega arith;
  in_tree =
      rw
        (
          lt→ltb y (side - 1) (omega arith),
          at_index core_map (0 * side + y + 1) (0 * side + suc y) (omega arith) h,
        )
        refl;
  to_x = refl;
  to_y = ap pos (omega arith);
}

pub east_branch :
    (core_map : List ℕ) (side x : ℕ)
    → suc x < side
    → has_cores core_map (suc x * side + 0) ≡ true
    → InTree core_map side x 0 0 (suc x) 0
east_branch core_map side x lt h = record {
  x_in = omega arith;
  y_in = omega arith;
  in_tree =
      rw
        (
          lt→ltb x (side - 1) (omega arith),
          at_index core_map (x * side + 0 + side) (suc x * side + 0) (grind arith) h,
        )
        (second _ _);
  to_x = ap pos (omega arith);
  to_y = refl;
}

pub across_branch :
    (core_map : List ℕ) (side x y : ℕ)
    → suc x < side
    → suc y < side
    → has_cores core_map (suc x * side + suc y) ≡ true
    → InTree core_map side x y 1 (suc x) (suc y)
across_branch core_map side x y lt lt' h = record {
  x_in = omega arith;
  y_in = omega arith;
  in_tree =
      rw
        (
          lt→ltb x (side - 1) (omega arith),
          lt→ltb y (side - 1) (omega arith),
          at_index core_map (x * side + y + side + 1) (suc x * side + suc y) (grind arith) h,
        )
        (third _ _);
  to_x = ap pos (omega arith);
  to_y = ap pos (omega arith);
}

pub Kind-unique :
    (x y j x₂ y₂ j₂ x' y' : ℕ)
    → Kind x y j x' y'
    → Kind x₂ y₂ j₂ x' y'
    → (x₂ ≡ x) × (y₂ ≡ y) × (j₂ ≡ j)
Kind-unique x y j x₂ y₂ j₂ x' y' k k₂ = ground arith
