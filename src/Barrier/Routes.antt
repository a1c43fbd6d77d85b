-- ===== src/Barrier/Routes.antt =====
-- The routes that `barrier_setup` (spin_emu_api.c) puts together, bit by bit.
use native.Mathlib.Nat.{pow-le-pow_right}
use spi_nnaker_emulator.Base.{
  ℕ, zero, suc, ◌+◌, ◌-◌, ◌^◌, ◌%◌, ◌<◌, ◌≤◌, ◌≡◌, refl, ap, ◌∙◌, arith, ◌==◌, Bool, true, false,
  not, ◌&&◌, ◌||◌, List, [], ◌∷◌, length, Option, none, some, ltb, if◌then◌else◌, u32, shl, has_bit,
  bit_or, has_bit-bit_or, has_bit-pow, get_elem?, get_or, count_up, Bool-cases, inl, inr,
}
use spi_nnaker_emulator.Base.Outcome.{Outcome, ok, fault, ◌>>=◌}
use spi_nnaker_emulator.Grid.{num_cpus, num_links}
use spi_nnaker_emulator.Barrier.{
  east, north_east, north, core_route, read_map, app_cores, local_cores, tree_link, off_links,
}

-- Where the core map has application cores on a chip.
abbrev pub has_cores : List ℕ → ℕ → Bool
has_cores core_map i = not (app_cores (get_or core_map i 0) == 0)

get_elem?-get_or : (xs : List ℕ) (i : ℕ) → i < length xs → get_elem? xs i ≡ some (get_or xs i 0)
get_elem?-get_or [] i h = absurd (omega arith)
get_elem?-get_or (x ∷ xs) zero h = refl
get_elem?-get_or (x ∷ xs) (suc i) h = get_elem?-get_or xs i (omega arith)

pub read_map_lem :
    (core_map : List ℕ) (i : ℕ)
    → i < length core_map
    → read_map core_map i ≡ ok (get_or core_map i 0)
unfolding read_map
read_map_lem core_map i h =
    ap (λ (o : Option ℕ). elim o [ none ↦ fault | some w ↦ ok w ]) (get_elem?-get_or core_map i h)

pub shl-pow : (k : ℕ) → k < 32 → shl 1 k ≡ 2 ^ k
shl-pow k h = omega (arith, pow-le-pow_right {n = 2} (omega arith) {i = k} {j = 31} (omega arith))

-- A word with the bits of `route` and those where `more` holds.
abbrev pub Adds : ℕ → (ℕ → Bool) → ℕ → Type 0
Adds route more r = (j : ℕ) → has_bit r j ≡ (has_bit route j || more j)

Adds-bit : (route k : ℕ) → k < 32 → Adds route (λ j. k == j) (bit_or route (shl 1 k))
Adds-bit route k h j =
    has_bit-bit_or route (shl 1 k) j
    ∙ ap (λ w. has_bit route j || has_bit w j) (shl-pow k h)
    ∙ ap (λ b. has_bit route j || b) (has_bit-pow k j)

or_false : (b : Bool) → b ≡ (b || false)
or_false true = refl
or_false false = refl

pub tree_link-Adds :
    (inside : Bool) (core_map : List ℕ) (i link route : ℕ)
    → link < num_links
    → (inside ≡ true → i < length core_map)
    → (r : ℕ) × (tree_link inside core_map i link route ≡ ok r)
      × Adds route (λ j. (inside && has_cores core_map i) && link == j) r
unfolding tree_link
tree_link-Adds false core_map i link route h fits = (route, refl, λ j. or_false (has_bit route j))
tree_link-Adds true core_map i link route h fits =
    elim (Bool-cases (app_cores (get_or core_map i 0) == 0)) [
      | inl e ↦ (
        route,
        rw (read_map_lem core_map i (fits refl), e) refl,
        rw e (λ j. or_false (has_bit route j)),
      )
      | inr e ↦ (
        bit_or route (shl 1 link),
        rw (read_map_lem core_map i (fits refl), e) refl,
        rw e (Adds-bit route link (omega arith)),
      )
    ]

Adds-then :
    (route r r' : ℕ) (more more' : ℕ → Bool)
    → Adds route more r
    → Adds r more' r'
    → Adds route (λ j. more j || more' j) r'
Adds-then route r r' more more' h h' j =
    h' j ∙ ap (λ b. b || more' j) (h j) ∙ or_assoc (has_bit route j) (more j) (more' j)
  where
    or_assoc : (a b c : Bool) → ((a || b) || c) ≡ (a || (b || c))
    or_assoc true b c = refl
    or_assoc false b c = refl

-- The links of the tree that leave a chip.
abbrev goes_north : List ℕ → ℕ → ℕ → ℕ → ℕ → ℕ → Bool
goes_north core_map side at x y j =
    ((x == 0 && ltb y (side - 1)) && has_cores core_map (at + 1)) && north == j

abbrev goes_east : List ℕ → ℕ → ℕ → ℕ → ℕ → ℕ → Bool
goes_east core_map side at x y j =
    ((ltb x (side - 1) && y == 0) && has_cores core_map (at + side)) && east == j

abbrev goes_across : List ℕ → ℕ → ℕ → ℕ → ℕ → ℕ → Bool
goes_across core_map side at x y j =
    ((ltb y (side - 1) && ltb x (side - 1)) && has_cores core_map (at + side + 1))
    && north_east == j

abbrev pub tree_links : List ℕ → ℕ → ℕ → ℕ → ℕ → ℕ → Bool
tree_links core_map side at x y j =
    (goes_north core_map side at x y j || goes_east core_map side at x y j)
    || goes_across core_map side at x y j

chain_of :
    (f g h : ℕ → Outcome ℕ) (r r₁ r₂ r₃ : ℕ)
    → f r ≡ ok r₁
    → g r₁ ≡ ok r₂
    → h r₂ ≡ ok r₃
    → (f r >>= λ a. g a >>= h) ≡ ok r₃
chain_of f g h r r₁ r₂ r₃ e₁ e₂ e₃ =
    ap (λ (o : Outcome ℕ). o >>= λ a. g a >>= h) e₁ ∙ ap (λ (o : Outcome ℕ). o >>= h) e₂ ∙ e₃

pub off_links-Adds :
    (core_map : List ℕ) (side at x y : ℕ)
    → (y < side - 1 → at + 1 < length core_map)
    → (x < side - 1 → at + side < length core_map)
    → (x < side - 1 → y < side - 1 → at + side + 1 < length core_map)
    → (r : ℕ) × (off_links core_map side at x y ≡ ok r) × Adds 0 (tree_links core_map side at x y) r
unfolding off_links
off_links-Adds core_map side at x y up right across =
    let (r₁, e₁, a₁) =
      tree_link-Adds (x == 0 && ltb y (side - 1)) core_map (at + 1) north 0 (omega arith)
        (λ h. up (ground arith)) in
    let (r₂, e₂, a₂) =
      tree_link-Adds (ltb x (side - 1) && y == 0) core_map (at + side) east r₁ (omega arith)
        (λ h. right (ground arith)) in
    let (r₃, e₃, a₃) =
      tree_link-Adds (ltb y (side - 1) && ltb x (side - 1)) core_map (at + side + 1) north_east r₂
        (omega arith) (λ h. across (ground arith) (ground arith)) in
    (
      r₃,
      chain_of (tree_link (x == 0 && ltb y (side - 1)) core_map (at + 1) north)
          (tree_link (ltb x (side - 1) && y == 0) core_map (at + side) east)
          (tree_link (ltb y (side - 1) && ltb x (side - 1)) core_map (at + side + 1) north_east) 0
          r₁ r₂ r₃ e₁ e₂ e₃,
      Adds-then 0 r₂ r₃ (λ j. goes_north core_map side at x y j || goes_east core_map side at x y j)
          (goes_across core_map side at x y)
          (Adds-then 0 r₁ r₂ (goes_north core_map side at x y) (goes_east core_map side at x y) a₁
            a₂)
          a₃,
    )

-- The routes to the application cores.
core_route-bit :
    (route v : ℕ)
    → v < num_cpus
    → Adds route (λ j. v + num_links == j) (bit_or route (core_route v))
unfolding core_route
core_route-bit route v h =
    let same : u32 (v + num_links) % 32 ≡ v + num_links = omega arith in
    rw same (Adds-bit route (v + num_links) (omega arith))

-- The cores `v`, ..., `v + n` - 1 that `cores` names, as bits of a route; and their number.
abbrev pub core_bits : ℕ → ℕ → ℕ → ℕ → Bool
core_bits zero v cores j = false
core_bits (suc n) v cores j = (has_bit cores v && v + num_links == j) || core_bits n (v + 1) cores j

step_core :
    (b : Bool) (v : ℕ) (a : ℕ × ℕ)
    → v < num_cpus
    → Adds
        (a.0)
        (λ j. b && v + num_links == j)
        ((if b then (bit_or (a.0) (core_route v), u32 (a.1 + 1)) else a).0)
step_core true v a h = core_route-bit (a.0) v h
step_core false v a h = λ j. or_false (has_bit (a.0) j)

loop_cores :
    (n v cores : ℕ) (a : ℕ × ℕ)
    → v + n ≤ num_cpus
    → Adds (a.0) (core_bits n v cores) (
        (count_up n v
          (λ v a. if has_bit cores v then (bit_or (a.0) (core_route v), u32 (a.1 + 1)) else a)
          a).0)
unfolding count_up
loop_cores zero v cores a h = λ j. or_false (has_bit (a.0) j)
loop_cores (suc n) v cores a h =
    let a' : ℕ × ℕ = if has_bit cores v then (bit_or (a.0) (core_route v), u32 (a.1 + 1)) else a in
    Adds-then (a.0) (a'.0) _ (λ j. has_bit cores v && v + num_links == j)
      (core_bits n (v + 1) cores) (step_core (has_bit cores v) v a (omega arith))
      (loop_cores n (v + 1) cores a' (omega arith))

pub local_cores-Adds :
    (cores n : ℕ) → Adds 0 (core_bits (num_cpus - 1) 1 cores) ((local_cores cores (0, n)).0)
unfolding local_cores
local_cores-Adds cores n = loop_cores (num_cpus - 1) 1 cores (0, n) (omega arith)
