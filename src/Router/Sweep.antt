-- ===== src/Router/Sweep.antt =====
-- The loops over the chips and the cores in a round of `flush_mc_queues` (spin_emu_dispatcher.c).
use spi_nnaker_emulator.Base.{ℕ, zero, suc, ◌+◌, ◌<◌, ◌≤◌, ◌≡◌, refl, arith, some, Option}
use spi_nnaker_emulator.Grid.{num_chips}
use spi_nnaker_emulator.Router.{Net, State, route_one_mc_queue, flush_one_mc_queue, for_each}
use spi_nnaker_emulator.Router.Keep.{IsReady}

-- The rule for loops whose body ends on every state that it meets.
pub for_each_inv :
    (P : ℕ → State → Type 0) (body : ℕ → State → Option State) (n i e : ℕ) (s : State)
    → i + n ≡ e
    → ((j : ℕ) (s : State) → j < e → P j s → (s' : State) × (body j s ≡ some s') × P (j + 1) s')
    → P i s
    → (s' : State) × (for_each n i body s ≡ some s') × P e s'
unfolding for_each
for_each_inv P body zero i e s eq keep h = let eq' : i ≡ e = omega arith in (s, refl, rw (← eq') h)
for_each_inv P body (suc n) i e s eq keep h =
    let (s', r, h') = keep i s (omega arith) h in
    rw (r, for_each) (for_each_inv P body n (i + 1) e s' (omega arith) keep h')

pub for_each_same :
    (body : ℕ → State → Option State) (n i : ℕ) (s : State)
    → ((j : ℕ) → i ≤ j → j < i + n → body j s ≡ some s)
    → for_each n i body s ≡ some s
unfolding for_each
for_each_same body zero i s h = refl
for_each_same body (suc n) i s h =
    rw (h i (omega arith) (omega arith), for_each)
      (for_each_same body n (i + 1) s (λ j p q. h j (omega arith) (omega arith)))

pub route_one_empty :
    (net : Net) (fuel chip : ℕ) (s : State)
    → 0 < fuel
    → (s.queues chip 0).len ≡ 0
    → route_one_mc_queue net fuel chip s ≡ some s
unfolding route_one_mc_queue
route_one_empty net zero chip s f h = absurd (omega arith)
route_one_empty net (suc fuel) chip s f h = rw (h, route_one_mc_queue)

flush_one_empty :
    (fuel chip core : ℕ) (s : State)
    → 0 < fuel
    → (s.queues chip core).len ≡ 0
    → flush_one_mc_queue fuel chip core s ≡ some s
unfolding flush_one_mc_queue
flush_one_empty zero chip core s f h = absurd (omega arith)
flush_one_empty (suc fuel) chip core s f h = rw (h, flush_one_mc_queue)

-- The queues of the cores are empty, so their loops send nothing.
pub flush_cores_quiet :
    (net : Net) (fuel : ℕ) (s : State)
    → 0 < fuel
    → IsReady s.queues
    → for_each (num_chips net.dims) 0 (λ c. for_each 7 1 (flush_one_mc_queue fuel c)) s ≡ some s
flush_cores_quiet net fuel s f v = for_each_same _ (num_chips net.dims) 0 s λ c p q.
    for_each_same (flush_one_mc_queue fuel c) 7 1 s
      (λ j p' q'. flush_one_empty fuel c j s f (v.quiet c j (λ e. omega arith)))
