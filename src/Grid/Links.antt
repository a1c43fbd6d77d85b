-- ===== src/Grid/Links.antt =====
-- The link table that `cmd_p2pc` computes (spin_emu_dispatcher.c): where each link leads.
use spi_nnaker_emulator.Base.{
  ap₂, if◌then◌else◌, ◌&&◌, ℕ, zero, suc, ◌+◌, ◌*◌, ◌/◌, ◌%◌, ◌<◌, ◌≤◌, ◌≡◌, ◌≢◌, ◌⊎◌, inl, inr,
  refl, sym, ap, ◌∙◌, arith, some, Bool-cases, lt→ltb, leb,
}
use spi_nnaker_emulator.Base.Int.{ℤ, pos, negsuc}
use spi_nnaker_emulator.Grid.{
  Dims, num_chips, num_links, target_x, target_y, off_grid, channel_target, target_value,
}
use spi_nnaker_emulator.Grid.Coordinates.{div-of_coords, mod-of_coords, index-lt, coords-lt}

-- A chip at (x, y) and one at (x', y') are the two ends of link `link` of the first.
abbrev pub Hop : ℕ → ℕ → ℕ → ℕ → ℕ → Type 0
Hop link x y x' y' = (target_x x link ≡ pos x') × (target_y y link ≡ pos y')

-- The link by which the other end leads back.
abbrev pub opposite : ℕ → ℕ
opposite link = (link + 3) % num_links

Hop-opposite :
    (link x y x' y' : ℕ) → link < num_links → Hop link x y x' y' → Hop (opposite link) x' y' x y
Hop-opposite zero x y x' y' l h = ground arith
Hop-opposite (suc zero) x y x' y' l h = ground arith
Hop-opposite (suc (suc zero)) x y x' y' l h = ground arith
Hop-opposite (suc (suc (suc zero))) zero y x' y' l h = cc
Hop-opposite (suc (suc (suc zero))) (suc x) y x' y' l h = ground arith
Hop-opposite (suc (suc (suc (suc zero)))) zero y x' y' l h = cc
Hop-opposite (suc (suc (suc (suc zero)))) (suc x) zero x' y' l h = cc
Hop-opposite (suc (suc (suc (suc zero)))) (suc x) (suc y) x' y' l h = ground arith
Hop-opposite (suc (suc (suc (suc (suc zero))))) x zero x' y' l h = cc
Hop-opposite (suc (suc (suc (suc (suc zero))))) x (suc y) x' y' l h = ground arith
Hop-opposite (suc (suc (suc (suc (suc (suc k)))))) x y x' y' l h = absurd (omega arith)

-- A chip's link value, from its coordinates.
target_of_coords :
    (d : Dims) (link x y : ℕ)
    → x < d.chips_x
    → y < d.chips_y
    → channel_target d (x * d.chips_y + y) link ≡ target_value d (target_x x link) (target_y y link)
unfolding channel_target
target_of_coords d link x y p q = rw (
  lt→ltb _ _ (index-lt x y d.chips_x d.chips_y p q),
  div-of_coords x y d.chips_y q,
  mod-of_coords x y d.chips_y q,
)

target_value_inside :
    (d : Dims) (x y : ℕ)
    → x < d.chips_x
    → y < d.chips_y
    → target_value d (pos x) (pos y) ≡ some (pos (x * d.chips_y + y))
unfolding target_value
target_value_inside d x y p q = ground arith

target_value_inv :
    (d : Dims) (tx ty : ℤ) (b : ℕ)
    → target_value d tx ty ≡ some (pos b)
    → (x y : ℕ) × (x < d.chips_x)
      × (y < d.chips_y)
      × (b ≡ x * d.chips_y + y)
      × (tx ≡ pos x)
      × (ty ≡ pos y)
unfolding target_value
target_value_inv d (pos x) (pos y) b h =
    (x, y, ground arith, ground arith, ground arith, refl, refl)
target_value_inv d (pos x) (negsuc y) b h = ground arith
target_value_inv d (negsuc x) y b h = cc

-- The assertions of `chip_id` never fail on a target, and a target on the grid is a chip number.
target_value_cases :
    (d : Dims) (tx ty : ℤ)
    → (target_value d tx ty ≡ some (negsuc 0))
      ⊎ ((b : ℕ) × (target_value d tx ty ≡ some (pos b)) × (b < num_chips d))
unfolding target_value
target_value_cases d (pos x) (pos y) = elim (Bool-cases (off_grid d (pos x) (pos y))) [
  | inl off ↦ inl (ground arith)
  | inr on ↦ inr (
    x * d.chips_y + y,
    ground arith,
    index-lt x y d.chips_x d.chips_y (ground arith) (ground arith),
  )
]
target_value_cases d (pos x) (negsuc y) = inl (ground arith)
target_value_cases d (negsuc x) y = inl refl

channel_target_chip :
    (d : Dims) (link a : ℕ) {v : ℤ} → channel_target d a link ≡ some v → a < num_chips d
unfolding channel_target
channel_target_chip d link a h = ground arith

-- The link value of a chip number, through its coordinates.
target_of_chip :
    (d : Dims) (link a : ℕ)
    → a < num_chips d
    → channel_target d a link
      ≡ target_value d (target_x (a / d.chips_y) link) (target_y (a % d.chips_y) link)
target_of_chip d link a h =
    let c = coords-lt a d.chips_x d.chips_y h in
    ap (λ i. channel_target d i link) (sym (c.2))
    ∙ target_of_coords d link (a / d.chips_y) (a % d.chips_y) (c.0) (c.1)

pub target-Hop :
    (d : Dims) (link a b : ℕ)
    → channel_target d a link ≡ some (pos b)
    → (x y x' y' : ℕ) × (x < d.chips_x)
      × (y < d.chips_y)
      × (x' < d.chips_x)
      × (y' < d.chips_y)
      × (a ≡ x * d.chips_y + y)
      × (b ≡ x' * d.chips_y + y')
      × Hop link x y x' y'
target-Hop d link a b h =
    let la = channel_target_chip d link a h in
    let c = coords-lt a d.chips_x d.chips_y la in
    let (x', y', p, q, e, hx, hy) =
      target_value_inv d _ _ b (sym (target_of_chip d link a la) ∙ h) in
    (a / d.chips_y, a % d.chips_y, x', y', c.0, c.1, p, q, sym (c.2), e, (hx, hy))

pub Hop-target :
    (d : Dims) (link x y x' y' : ℕ)
    → x < d.chips_x
    → y < d.chips_y
    → x' < d.chips_x
    → y' < d.chips_y
    → Hop link x y x' y'
    → channel_target d (x * d.chips_y + y) link ≡ some (pos (x' * d.chips_y + y'))
Hop-target d link x y x' y' p q p' q' h =
    target_of_coords d link x y p q
    ∙ ap₂ (target_value d) (h.0) (h.1)
    ∙ target_value_inside d x' y' p' q'

-- The computation of a link of a chip number below NUM_CHIPS fails no assertion: the link is
-- unconnected or leads to a chip on the board.
pub channel_target-total :
    (d : Dims) (link a : ℕ)
    → a < num_chips d
    → (channel_target d a link ≡ some (negsuc 0))
      ⊎ ((b : ℕ) × (channel_target d a link ≡ some (pos b)) × (b < num_chips d))
channel_target-total d link a h = rw (target_of_chip d link a h) (target_value_cases d _ _)

-- Links come in opposite pairs: where link `link` below 6 leads from chip `a` to chip `b`, link
-- `link + 3` modulo 6 leads from `b` back to `a`.
pub channel_target-opposite :
    (d : Dims) (link a b : ℕ)
    → link < num_links
    → channel_target d a link ≡ some (pos b)
    → channel_target d b (opposite link) ≡ some (pos a)
channel_target-opposite d link a b l h =
    let (x, y, x', y', p, q, p', q', ea, eb, hop) = target-Hop d link a b h in
    ap (λ i. channel_target d i (opposite link)) eb
    ∙ Hop-target d (opposite link) x' y' x y p' q' p q (Hop-opposite link x y x' y' l hop)
    ∙ ap (λ i. some (pos i)) (sym ea)

-- How far a link leads, in each direction.
abbrev east : ℕ → ℕ
east link = if leb link 1 then 1 else 0

abbrev west : ℕ → ℕ
west link = if leb 3 link && leb link 4 then 1 else 0

abbrev north : ℕ → ℕ
north link = if leb 1 link && leb link 2 then 1 else 0

abbrev south : ℕ → ℕ
south link = if leb 4 link && leb link 5 then 1 else 0

Hop-distance :
    (link x y x' y' : ℕ)
    → Hop link x y x' y'
    → (x' + west link ≡ x + east link) × (y' + south link ≡ y + north link)
Hop-distance link zero zero x' y' h = ground arith
Hop-distance link zero (suc y) x' y' h = ground arith
Hop-distance link (suc x) zero x' y' h = ground arith
Hop-distance link (suc x) (suc y) x' y' h = ground arith

same_distance :
    (j k : ℕ)
    → j < num_links
    → k < num_links
    → east j + west k ≡ east k + west j
    → north j + south k ≡ north k + south j
    → j ≡ k
same_distance j k lj lk h v = ground arith

moves : (j : ℕ) → j < num_links → east j ≡ west j → north j ≡ south j → ⊥
moves j l h v = ground arith

target_distance :
    (d : Dims) (link a b : ℕ)
    → channel_target d a link ≡ some (pos b)
    → (b / d.chips_y + west link ≡ a / d.chips_y + east link)
      × (b % d.chips_y + south link ≡ a % d.chips_y + north link)
target_distance d link a b h =
    let (x, y, x', y', p, q, p', q', ea, eb, hop) = target-Hop d link a b h in
    let dist = Hop-distance link x y x' y' hop in
    rw (ea, eb)
      (rw
        (
          div-of_coords x y d.chips_y q,
          mod-of_coords x y d.chips_y q,
          div-of_coords x' y' d.chips_y q',
          mod-of_coords x' y' d.chips_y q',
        )
        dist)

-- The links 0 to 2 lead away from the chip at (0, 0), the links 3 to 5 towards it.
pub channel_target_away :
    (d : Dims) (link a b : ℕ)
    → link < 3
    → channel_target d a link ≡ some (pos b)
    → a / d.chips_y + a % d.chips_y < b / d.chips_y + b % d.chips_y
channel_target_away d link a b lt h = let (x, y) = target_distance d link a b h in ground arith

pub channel_target_back :
    (d : Dims) (link a b : ℕ)
    → 3 ≤ link
    → link < num_links
    → channel_target d a link ≡ some (pos b)
    → b / d.chips_y + b % d.chips_y < a / d.chips_y + a % d.chips_y
channel_target_back d link a b lo lt h = let (x, y) = target_distance d link a b h in ground arith

-- A link below 6 never leads from a chip to itself.
pub channel_target-ne :
    (d : Dims) (link a b : ℕ) → link < num_links → channel_target d a link ≡ some (pos b) → a ≢ b
channel_target-ne d link a b l h e =
    let dist = target_distance d link a a (rw (← e) at h) in
    moves link l (omega (arith, dist.0)) (omega (arith, dist.1))

-- Two different links below 6 of a chip never lead to the same chip.
pub channel_target-injective :
    (d : Dims) (j k a b : ℕ)
    → j < num_links
    → k < num_links
    → channel_target d a j ≡ some (pos b)
    → channel_target d a k ≡ some (pos b)
    → j ≡ k
channel_target-injective d j k a b lj lk hj hk =
    let dj = target_distance d j a b hj in
    let dk = target_distance d k a b hk in
    same_distance j k lj lk (omega (arith, dj.0, dk.0)) (omega (arith, dj.1, dk.1))
