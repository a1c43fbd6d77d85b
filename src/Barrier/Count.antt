-- ===== src/Barrier/Count.antt =====
-- The counts of cores and of chips: `spin1_set_core_map` and `barrier_setup` (spin_emu_api.c).
use spi_nnaker_emulator.Base.{
  ℕ, zero, suc, ◌+◌, ◌-◌, ◌*◌, ◌^◌, ◌<◌, ◌≤◌, ◌≡◌, refl, ap, ◌∙◌, arith, ◌==◌, Bool, true, false,
  List, [], ◌∷◌, length, ltb, ◌&&◌, if◌then◌else◌, u32, has_bit, get_or, count_up, count_up_ok,
  Bool-cases, inl, inr,
}
use spi_nnaker_emulator.Base.Outcome.{Outcome, ok, ◌>>=◌}
use spi_nnaker_emulator.Grid.{Dims, num_cpus}
use spi_nnaker_emulator.Barrier.{
  Barrier, barrier_setup, set_core_map, read_map, app_cores, count_cores, count_map, active_chips,
}
use spi_nnaker_emulator.Barrier.Routes.{read_map_lem}

-- The sum of `size` over `n` numbers from `i` on.
abbrev pub sum : ℕ → ℕ → (ℕ → ℕ) → ℕ
sum zero i size = 0
sum (suc n) i size = size i + sum n (i + 1) size

pub sum_le : (n i m : ℕ) (size : ℕ → ℕ) → ((j : ℕ) → size j ≤ m) → sum n i size ≤ n * m
sum_le zero i m size h = omega arith
sum_le (suc n) i m size h = grind (arith, h i, sum_le n (i + 1) m size h)

-- A loop whose rounds add to an unsigned number, which does not wrap round.
count_up_ok-sum :
    (size : ℕ → ℕ) (body : ℕ → ℕ → Outcome ℕ) (n i e nc : ℕ)
    → i + n ≡ e
    → ((j c : ℕ) → j < e → c + size j < 2 ^ 32 → body j c ≡ ok (c + size j))
    → nc + sum n i size < 2 ^ 32
    → count_up_ok n i body nc ≡ ok (nc + sum n i size)
unfolding count_up_ok
count_up_ok-sum size body zero i e nc eq adds fits = ap ok (omega arith)
count_up_ok-sum size body (suc n) i e nc eq adds fits =
    ap (λ (o : Outcome ℕ). o >>= count_up_ok n (i + 1) body) (adds i nc (omega arith) (omega arith))
    ∙ count_up_ok-sum size body n (i + 1) e (nc + size i) (omega arith) adds (omega arith)
    ∙ ap ok (omega arith)

-- The cores `j`, ..., `j + n` - 1 whose bit is set.
abbrev pub selected : ℕ → ℕ → ℕ → List ℕ
selected zero j w = []
selected (suc n) j w = if has_bit w j then j ∷ selected n (j + 1) w else selected n (j + 1) w

length-selected : (n j w : ℕ) → length (selected n j w) ≤ n
length-selected zero j w = omega arith
length-selected (suc n) j w = ground (arith, length-selected n (j + 1) w)

-- The application cores of a chip: cores 1 to 7.
abbrev pub apps : ℕ → List ℕ
apps w = selected (num_cpus - 1) 1 w

next_core :
    (b : Bool) (g : ℕ → ℕ) (nc j : ℕ) (rest : List ℕ)
    → ((c : ℕ) → c + length rest < 2 ^ 32 → g c ≡ c + length rest)
    → nc + length (if b then j ∷ rest else rest) < 2 ^ 32
    → g (if b then u32 (nc + 1) else nc) ≡ nc + length (if b then j ∷ rest else rest)
next_core true g nc j rest counts h =
    let fits : u32 (nc + 1) ≡ nc + 1 = omega arith in
    rw fits (counts (nc + 1) (omega arith) ∙ omega arith)
next_core false g nc j rest counts h = counts nc h

count_up-selected :
    (n j w nc : ℕ)
    → nc + length (selected n j w) < 2 ^ 32
    → count_up n j (λ j nc. if has_bit w j then u32 (nc + 1) else nc) nc
      ≡ nc + length (selected n j w)
unfolding count_up
count_up-selected zero j w nc h = omega arith
count_up-selected (suc n) j w nc h =
    next_core (has_bit w j) (count_up n (j + 1) (λ j nc. if has_bit w j then u32 (nc + 1) else nc))
      nc j (selected n (j + 1) w) (λ c h'. count_up-selected n (j + 1) w c h') h

count_cores-apps :
    (w nc : ℕ) → nc + length (apps w) < 2 ^ 32 → count_cores w nc ≡ nc + length (apps w)
unfolding count_cores
count_cores-apps w nc h = count_up-selected (num_cpus - 1) 1 w nc h

-- The application cores that a core map lists.
abbrev pub app_total : List ℕ → ℕ
app_total core_map = sum (length core_map) 0 (λ i. length (apps (get_or core_map i 0)))

pub count_map_lem :
    (chips : ℕ) (core_map : List ℕ)
    → chips ≡ length core_map
    → chips < 2 ^ 29
    → count_map chips core_map ≡ ok (app_total core_map)
unfolding count_map
count_map_lem chips core_map e few =
    let size : ℕ → ℕ = λ i. length (apps (get_or core_map i 0)) in
    let most = sum_le (length core_map) 0 7 size (λ j. length-selected 7 1 (get_or core_map j 0)) in
    rw e (
      count_up_ok-sum size _ (length core_map) 0 (length core_map) 0 (omega arith)
        (λ j c lt h.
          ap (λ (o : Outcome ℕ). o >>= λ cores. ok (count_cores cores c))
            (read_map_lem core_map j lt)
          ∙ ap ok (count_cores-apps (get_or core_map j 0) c h))
        (omega arith)
      ∙ ap ok (omega arith))

-- For a core map of fewer than 2^29 chips `spin1_set_core_map` sets the number of cores to the sum
-- over the chips of the cores from 1 to 7 whose bits are set, reads the map within its bounds, and
-- sets the barrier up exactly if that number is above 1 and the core is the root core of its chip.
pub set_core_map-app_total :
    (d : Dims) (chip core : ℕ) (core_map : List ℕ) (b : Barrier)
    → length core_map < 2 ^ 29
    → set_core_map d chip core (length core_map) core_map b ≡ (
        if ltb 1 (app_total core_map) && b.root_ap
        then barrier_setup d chip core
            (length core_map)
            core_map
            (record b { ncores = app_total core_map })
        else ok (record b { ncores = app_total core_map }))
unfolding set_core_map
set_core_map-app_total d chip core core_map b few =
    ap
      (λ (o : Outcome ℕ). o >>= λ nc.
        if ltb 1 nc && b.root_ap
        then barrier_setup d chip core (length core_map) core_map (record b { ncores = nc })
        else ok (record b { ncores = nc }))
      (count_map_lem (length core_map) core_map refl few)

-- 1 for another chip with application cores, else 0.
abbrev pub other : List ℕ → ℕ → ℕ → ℕ
other core_map me i = if i == me then 0 else if app_cores (get_or core_map i 0) == 0 then 0 else 1

abbrev pub others : List ℕ → ℕ → ℕ
others core_map me = sum (length core_map) 0 (other core_map me)

active_round :
    (core_map : List ℕ) (me i n : ℕ)
    → i < length core_map
    → n + other core_map me i < 2 ^ 32
    → (if i == me
        then ok n
        else (read_map core_map i >>= λ w. ok (if app_cores w == 0 then n else u32 (n + 1))))
      ≡ ok (n + other core_map me i)
active_round core_map me i n lt h = elim (Bool-cases (i == me)) [
  | inl e ↦ rw e (ap ok (omega arith))
  | inr e ↦ elim (Bool-cases (app_cores (get_or core_map i 0) == 0)) [
    | inl z ↦ rw (e, read_map_lem core_map i lt, z) (ap ok (omega arith))
    | inr z ↦ rw (e, read_map_lem core_map i lt, z) (ap ok (ground arith))
  ]
]

pub active_chips_lem :
    (chips : ℕ) (core_map : List ℕ) (me nchips : ℕ)
    → chips ≡ length core_map
    → nchips + chips < 2 ^ 32
    → active_chips chips core_map me nchips ≡ ok (nchips + others core_map me)
unfolding active_chips
active_chips_lem chips core_map me nchips e few =
    let most = sum_le (length core_map) 0 1 (other core_map me) (λ j. ground arith) in
    rw e (
      count_up_ok-sum (other core_map me) _ (length core_map) 0 (length core_map) nchips
        (omega arith) (λ j c lt h. active_round core_map me j c lt h) (omega arith))
