-- ===== src/Examples/Barriers.antt =====
-- The barrier on a square of four chips.
use spi_nnaker_emulator.Base.{
  ℕ, zero, suc, ◌/◌, ◌%◌, ◌<◌, Table, inr, ap, ◌*◌, ◌+◌, ◌^◌, ◌≡◌, refl, arith, true, false, ltb,
  ◌==◌, ==_ne, eq-cases, inl, ◌&&◌, if◌then◌else◌, List, [], ◌∷◌, some,
}
use spi_nnaker_emulator.Base.Outcome.{ok}
use spi_nnaker_emulator.Grid.{Dims, num_chips, get_chip_id}
use mathlib.Core.Path.{subst}
use spi_nnaker_emulator.Base.Int.{pos}
use spi_nnaker_emulator.Wire.{Route}
use spi_nnaker_emulator.McQueue.{Mc, contents}
use spi_nnaker_emulator.Router.{Net, State, flush_mc_queues}
use spi_nnaker_emulator.Router.Keep.{IsReady}
use spi_nnaker_emulator.Barrier.Routes.{has_cores}
use spi_nnaker_emulator.Barrier.Release.{IsReleased, flush_mc_queues-IsReleased}
use spi_nnaker_emulator.Router.Forward.{HasLinks}
use spi_nnaker_emulator.Router.Flush.{IsFlushed}
use spi_nnaker_emulator.Board.{empty_route, setup_net}
use spi_nnaker_emulator.Board.Setup.{DropsAll, setup_net_lem}
use spi_nnaker_emulator.Core.Packets.{go_key, rdygo_key, rdy1_key, rdy2_key}
use spi_nnaker_emulator.Examples.Routing.{waiting, waiting-IsReady}
use spi_nnaker_emulator.Barrier.{Barrier, barrier_setup, set_core_map, barrier_entry, core_route}
use spi_nnaker_emulator.Barrier.Acyclic.{IsBarrierTable, barrier-IsFlushed}
use spi_nnaker_emulator.Barrier.Count.{app_total, set_core_map-app_total}
use spi_nnaker_emulator.Barrier.Setup.{IsSetUp, barrier_setup-IsSetUp}
use spi_nnaker_emulator.Barrier.Tree.{HasParent, tree-HasParent}
use spi_nnaker_emulator.Barrier.Wait.{View, barrier_wait}
use spi_nnaker_emulator.Barrier.Loops.{Advances}
use spi_nnaker_emulator.Barrier.Passing.{IsPassed, barrier_wait-IsPassed}

abbrev square : Dims
square = record { chips_x = 2; chips_y = 2 }

-- Seven cores on each chip but one, which has core 1.
abbrev core_map : List ℕ
core_map = 254 ∷ 254 ∷ 2 ∷ 254 ∷ []

abbrev pub barrier : Barrier
barrier = record {
  root_ap = true;
  root_chip = false;
  my_chip = 0;
  nchips = 1;
  ncores = 1;
  my_ncores = 0;
  entries = [];
}

corner : get_chip_id square 3 ≡ some (1 * 2 ^ 8 + 1)
unfolding get_chip_id
corner = refl

barrier_setup-IsSetUp_example :
    (b' : Barrier) × (barrier_setup square 3 1 4 core_map barrier ≡ ok b')
    × IsSetUp core_map 1 1 1 1 barrier b'
barrier_setup-IsSetUp_example =
    barrier_setup-IsSetUp square 3 1 core_map 1 1 1 barrier (omega arith) refl (omega arith)
      (omega arith) corner (omega arith) (omega arith)

tree-HasParent_example : HasParent core_map 2 1 1
tree-HasParent_example =
    tree-HasParent core_map 2 1 1 refl (omega arith) (omega arith) (omega arith) (omega arith) refl

set_core_map-app_total_example : set_core_map square 3 1 4 core_map barrier ≡ (
    if ltb 1 (app_total core_map) && true
    then barrier_setup square 3 1 4 core_map (record barrier { ncores = app_total core_map })
    else ok (record barrier { ncores = app_total core_map }))
set_core_map-app_total_example = set_core_map-app_total square 3 1 core_map barrier (omega arith)

-- A clock that advances by 100 milliseconds, and packets that do not come.
abbrev pub view : View
view i = record { now = 100 * i; rdy1 = 0; rdy2 = 0; rdygo = false; go = false; lock = 0 }

view-Advances : Advances view 500
view-Advances k i low from to = omega arith

barrier_wait-IsPassed_example : IsPassed view barrier (barrier_wait 504 view barrier)
barrier_wait-IsPassed_example =
    barrier_wait-IsPassed 504 500 view barrier view-Advances (omega arith)

-- The entries of the root core 1 of each chip.
chip_of_square : (c : ℕ) → c < 4 → get_chip_id square c ≡ some (c / 2 ^ 1 * 2 ^ 8 + c % 2 ^ 1)
unfolding get_chip_id
chip_of_square c h = ground arith

set_up_at :
    (c : ℕ)
    → c < 4
    → (b' : Barrier) × (barrier_setup square c 1 4 core_map barrier ≡ ok b')
      × IsSetUp core_map 1 (c / 2 ^ 1) (c % 2 ^ 1) 1 barrier b'
set_up_at c h =
    barrier_setup-IsSetUp square c 1 core_map 1 (c / 2 ^ 1) (c % 2 ^ 1) barrier (omega arith) refl
      (omega arith) (omega arith) (chip_of_square c h) (omega arith) (omega arith)

chip_below : (c : ℕ) → c % 4 < 4
chip_below c = omega arith

abbrev set_up :
    (c : ℕ)
    → IsSetUp core_map 1
        (c % 4 / 2 ^ 1)
        (c % 4 % 2 ^ 1)
        1
        barrier
        ((set_up_at (c % 4) (chip_below c)).0)
set_up c = (set_up_at (c % 4) (chip_below c)).2

abbrev table : Table Route
table c zero = (barrier_entry 0 go_key ((set_up c).go_route)).1
table c (suc zero) = (barrier_entry 1 rdygo_key ((set_up c).rdygo_route)).1
table c (suc (suc zero)) = (barrier_entry 2 rdy1_key (core_route 1)).1
table c (suc (suc (suc zero))) = (barrier_entry 3 rdy2_key ((set_up c).rdy2_route)).1
table c (suc (suc (suc (suc i)))) = empty_route

table-rest : (c i : ℕ) → table c (i + 4) ≡ empty_route
table-rest c i = let e : i + 4 ≡ suc (suc (suc (suc i))) = omega arith in ap (table c) e

abbrev set_up_net :
    (net : Net) × (setup_net square (λ c k. empty_route) (λ c j. pos 77) ≡ some net)
    × (net.dims ≡ square)
    × HasLinks net
    × DropsAll net
set_up_net = setup_net_lem square (λ c k. empty_route) (λ c j. pos 77)

abbrev square_net : Net
square_net = record (set_up_net.0) { routes = table }

square_tables :
    (c : ℕ)
    → c < num_chips square_net.dims
    → IsBarrierTable core_map 1 (c / 2 ^ 1) (c % 2 ^ 1) (table c)
square_tables c h =
    let lt : c < 4 = rw (set_up_net.2) at h in
    let same : c % 4 ≡ c = omega arith in
    subst (λ n. IsBarrierTable core_map 1 (n / 2 ^ 1) (n % 2 ^ 1) (table c)) same
      (record {
        core = 1;
        is_core = omega arith;
        before = barrier;
        after = (set_up_at (c % 4) (chip_below c)).0;
        set_up = set_up c;
        go = refl;
        rdygo = refl;
        rdy1 = refl;
        rdy2 = refl;
        rest = table-rest c;
      })

barrier-IsFlushed_example : IsFlushed square_net (flush_mc_queues square_net 1025 waiting)
barrier-IsFlushed_example =
    barrier-IsFlushed core_map 1 1025 square_net waiting (omega arith) (set_up_net.2) (set_up_net.3)
      square_tables waiting-IsReady (λ t lt. inr refl) (omega arith)

-- The GO packet of the root core waits on the root chip.
abbrev go : Mc
go = record { key = go_key; payload = 0; has_payload = 0 }

abbrev holding : State
holding = record {
  queues = λ c i. record { pos = 0; len = if c == 0 && i == 0 then 1 else 0; slots = λ n. go };
  mc_pending = true;
  sent = [];
}

holding-IsReady : IsReady holding.queues
holding-IsReady = record { fits = λ t. ground arith; quiet = λ t c ne. ground arith }

holding_alone : (c : ℕ) → contents (holding.queues c 0) ≡ (if c == 0 then go ∷ [] else [])
unfolding contents
holding_alone c = elim (eq-cases c 0) [ inl e ↦ rw e refl | inr ne ↦ rw (==_ne c 0 ne) refl ]

all_busy : (c : ℕ) → c < 4 → has_cores core_map c ≡ true
all_busy zero h = refl
all_busy (suc zero) h = refl
all_busy (suc (suc zero)) h = refl
all_busy (suc (suc (suc zero))) h = refl
all_busy (suc (suc (suc (suc c)))) h = absurd (omega arith)

flush_mc_queues-IsReleased_example :
    IsReleased core_map square_net go holding (flush_mc_queues square_net 1025 holding)
flush_mc_queues-IsReleased_example =
    flush_mc_queues-IsReleased core_map 1 1025 square_net go holding (omega arith) (set_up_net.2)
      (set_up_net.3) square_tables (λ c h. all_busy c (rw (set_up_net.2) at h)) refl holding-IsReady
      (λ t lt. inr refl) (λ c h. holding_alone c) (omega arith)
