-- ===== src/Barrier/Go.antt =====
-- The way of the GO packet on a square of chips: `barrier_setup` (spin_emu_api.c) and the link table
-- of `cmd_p2pc` (spin_emu_dispatcher.c).
use mathlib.Core.Path.{subst}
use spi_nnaker_emulator.Base.{
  ℕ, zero, suc, ◌+◌, ◌-◌, ◌*◌, ◌/◌, ◌%◌, ◌<◌, ◌≡◌, ◌≢◌, ap, ap₂, ◌∙◌, sym, arith, true, List, inl,
  inr, some,
}
use spi_nnaker_emulator.Base.Int.{pos}
use spi_nnaker_emulator.Grid.{Dims, channel_target}
use spi_nnaker_emulator.Grid.Coordinates.{index-lt, coords-lt, div-of_coords, mod-of_coords}
use spi_nnaker_emulator.Grid.Links.{target-Hop, Hop-target}
use spi_nnaker_emulator.Barrier.Routes.{has_cores, tree_links}
use spi_nnaker_emulator.Barrier.Branches.{
  InTree, InTree-Kind, Kind, north_branch, east_branch, across_branch,
}

-- The chip that chip `c` gets packets from.
abbrev pub parent : ℕ → ℕ → ℕ
parent side c = (c / side - 1) * side + (c % side - 1)

abbrev pub square_dims : ℕ → Dims
square_dims side = record { chips_x = side; chips_y = side }

Kind-parent : (x y j x' y' : ℕ) → Kind x y j x' y' → (x' - 1 ≡ x) × (y' - 1 ≡ y) × (0 < x' + y')
Kind-parent x y j x' y' (inl (e, zx, zx', up)) = (omega arith, omega arith, omega arith)
Kind-parent x y j x' y' (inr (inl (e, zy, right, zy'))) = (omega arith, omega arith, omega arith)
Kind-parent x y j x' y' (inr (inr (e, right, up))) = (omega arith, omega arith, omega arith)

coords_of_zero : (side : ℕ) → 0 < side → (0 / side ≡ 0) × (0 % side ≡ 0)
coords_of_zero side h = (
  ap (λ n. n / side) (omega arith) ∙ div-of_coords 0 0 side h,
  ap (λ n. n % side) (omega arith) ∙ mod-of_coords 0 0 side h,
)

inner_pos : (x y side t : ℕ) → x * side + y ≡ t → t ≢ 0 → 0 < x + y
inner_pos zero zero side t e ne = absurd (ne (sym e ∙ omega arith))
inner_pos zero (suc y) side t e ne = omega arith
inner_pos (suc x) y side t e ne = omega arith

module _ (core_map : List ℕ) (side : ℕ) where
  -- A link of the tree leads to a chip whose parent it leaves.
  pub parent-of_link :
      (c j t : ℕ)
      → channel_target (square_dims side) c j ≡ some (pos t)
      → tree_links core_map side (c / side * side + c % side) (c / side) (c % side) j ≡ true
      → (t ≢ 0) × (parent side t ≡ c)
  parent-of_link c j t to set =
      let (x, y, x', y', p, q, p', q', ec, et, (hx, hy)) = target-Hop (square_dims side) j c t to in
      let cx : c / side ≡ x = ap (λ n. n / side) ec ∙ div-of_coords x y side q in
      let cy : c % side ≡ y = ap (λ n. n % side) ec ∙ mod-of_coords x y side q in
      let tx : t / side ≡ x' = ap (λ n. n / side) et ∙ div-of_coords x' y' side q' in
      let ty : t % side ≡ y' = ap (λ n. n % side) et ∙ mod-of_coords x' y' side q' in
      let kind =
        InTree-Kind core_map side x y j x' y'
          (record { x_in = p; y_in = q; in_tree = rw (cx, cy) at set; to_x = hx; to_y = hy }) in
      let (left, down, away) = Kind-parent x y j x' y' kind in
      (
        λ z.
            let (zx, zy) = coords_of_zero side (omega arith) in
            omega (arith, tx, ty, away, zx, zy, ap (λ n. n / side) z, ap (λ n. n % side) z),
        ap₂ (λ a b. (a - 1) * side + (b - 1)) tx ty ∙ ap₂ (λ a b. a * side + b) left down ∙ sym ec,
      )

  -- The link of the tree to a chip.
  record HasLink (x' y' : ℕ) : Type 0 where
    x : ℕ
    y : ℕ
    link : ℕ
    low : link < 3
    left : x ≡ x' - 1
    down : y ≡ y' - 1
    branch : InTree core_map side x y link x' y'

  branch-HasLink :
      (x' y' : ℕ)
      → x' < side
      → y' < side
      → 0 < x' + y'
      → has_cores core_map (x' * side + y') ≡ true
      → HasLink x' y'
  branch-HasLink zero zero hx hy inner h = absurd (omega arith)
  branch-HasLink zero (suc y) hx hy inner h = record {
    x = 0;
    y = y;
    link = 2;
    low = omega arith;
    left = omega arith;
    down = omega arith;
    branch = north_branch core_map side y hy h;
  }
  branch-HasLink (suc x) zero hx hy inner h = record {
    x = x;
    y = 0;
    link = 0;
    low = omega arith;
    left = omega arith;
    down = omega arith;
    branch = east_branch core_map side x hx h;
  }
  branch-HasLink (suc x) (suc y) hx hy inner h = record {
    x = x;
    y = y;
    link = 1;
    low = omega arith;
    left = omega arith;
    down = omega arith;
    branch = across_branch core_map side x y hx hy h;
  }

  -- To every chip with application cores but the root a link of the tree leads from its parent.
  pub link-of_parent :
      (t : ℕ)
      → t < side * side
      → t ≢ 0
      → has_cores core_map t ≡ true
      → (parent side t < side * side)
        × (parent side t / side + parent side t % side < t / side + t % side)
        × ((j : ℕ) × (j < 3)
            × (tree_links core_map side
                  (parent side t / side * side + parent side t % side)
                  (parent side t / side)
                  (parent side t % side)
                  j
                ≡ true)
            × (channel_target (square_dims side) (parent side t) j ≡ some (pos t)))
  link-of_parent t lt inner h =
      let (tx, ty, et) = coords-lt t side side lt in
      let some_step = inner_pos (t / side) (t % side) side t et inner in
      let b =
        branch-HasLink (t / side) (t % side) tx ty some_step (ap (has_cores core_map) et ∙ h) in
      let up : parent side t ≡ b.x * side + b.y =
        ap₂ (λ a c. a * side + c) (sym b.left) (sym b.down) in
      let px : parent side t / side ≡ b.x =
        ap (λ n. n / side) up ∙ div-of_coords b.x b.y side b.branch.y_in in
      let py : parent side t % side ≡ b.y =
        ap (λ n. n % side) up ∙ mod-of_coords b.x b.y side b.branch.y_in in
      let nearer : b.x + b.y < t / side + t % side = omega (arith, b.left, b.down, some_step) in
      (
        subst (λ n. n < side * side) (sym up)
            (index-lt b.x b.y side side b.branch.x_in b.branch.y_in),
        subst (λ n. n < t / side + t % side) (sym (ap₂ ◌+◌ px py)) nearer,
        (
          b.link,
          b.low,
          ap₂ (λ u v. tree_links core_map side (u * side + v) u v b.link) px py ∙ b.branch.in_tree,
          ap (λ n. channel_target (square_dims side) n b.link) up
              ∙ Hop-target (square_dims side) b.link b.x b.y (t / side) (t % side) b.branch.x_in
                  b.branch.y_in tx ty (b.branch.to_x, b.branch.to_y)
              ∙ ap (λ n. some (pos n)) et,
        ),
      )
