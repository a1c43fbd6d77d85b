-- ===== src/Examples/Rounds.antt =====
-- The loop of the dispatcher on a board of two chips, with a packet and a message waiting.
use spi_nnaker_emulator.Base.{
  ℕ, ◌≡◌, inr, refl, arith, false, List, [], ◌∷◌, Table, some, ◌==◌, ◌&&◌, if◌then◌else◌, update,
  Option, length, get_or, count_up_ok,
}
use spi_nnaker_emulator.Base.Int.{negsuc}
use spi_nnaker_emulator.Base.Outcome.{ok}
use spi_nnaker_emulator.Sdp.Invariant.{messages}
use spi_nnaker_emulator.Dispatcher.State.{Dispatcher}
use spi_nnaker_emulator.Dispatcher.Process.{dispatch_packet}
use spi_nnaker_emulator.Dispatcher.Loop.{receive_all, do_dispatch, dispatch_cores, main_round, boot}
use spi_nnaker_emulator.Dispatcher.Running.{IsRunning}
use spi_nnaker_emulator.Grid.{Dims}
use spi_nnaker_emulator.Dispatcher.Rounds.{IsAcyclic, IsSent, main_round-IsIdle}
use spi_nnaker_emulator.Dispatcher.Steps.{
  dispatch, here, next, Reach-IsRunning, IsZeroed, IsServed, IsBoard, boot-IsRunning,
}
use spi_nnaker_emulator.Examples.Routing.{
  board, waiting, hops, board-HasLinks, board-IsRanked, waiting-IsReady,
}
use spi_nnaker_emulator.Start.{emulator_main}
use spi_nnaker_emulator.Start.Configured.{emulator_main-IsRunning}
use spi_nnaker_emulator.Examples.Programs.{atoi}
use spi_nnaker_emulator.Examples.Messages.{
  dispatcher, descriptors, process_ids, memory, cells, store-IsStore, null,
}

-- A packet waits on chip 0, a message for core 1 of chip 0.
abbrev busy : Dispatcher
busy = record dispatcher { net = board; router = waiting }

busy-IsRunning : IsRunning busy
busy-IsRunning = record {
  initialised = refl;
  linked = board-HasLinks;
  ready = waiting-IsReady;
  noticed = λ t lt. inr refl;
  waiting = λ id c. messages (cells id c);
  holds = record { cells = cells; is_store = store-IsStore; holds = λ id c. refl };
}

board-IsAcyclic : IsAcyclic board 2
board-IsAcyclic = record { hops = hops; falls = board-IsRanked; few = λ t mc lt. ground arith }

-- Core 1 of chip 0 says that it is finished.
abbrev one_finished : Table (List (List ℕ))
one_finished c i = if c == 0 && i == 1 then (0x48 ∷ []) ∷ [] else []

abbrev finished : Dispatcher
finished = record busy { running = update null 0 1 0; running_count = negsuc 0 }

nothing_received : receive_all memory [] busy ≡ ok busy
unfolding receive_all
nothing_received = refl

core_finished : dispatch_packet 0 1 0x48 [] busy ≡ ok finished
unfolding dispatch_packet
core_finished = refl

cores_done : dispatch_cores one_finished busy ≡ ok finished
unfolding dispatch_cores count_up_ok do_dispatch board
cores_done = refl

main_round-IsIdle_example :
    (v : IsRunning finished) × IsSent finished v.waiting
      (main_round memory 1025 [] one_finished busy)
main_round-IsIdle_example =
    main_round-IsIdle memory 1025 2 [] one_finished busy busy finished busy-IsRunning
      nothing_received cores_done board-IsAcyclic (omega arith) (omega arith)

Reach-IsRunning_example : IsRunning finished
Reach-IsRunning_example =
    Reach-IsRunning {mem = memory} {s = busy} {s' = finished}
      (next here (dispatch 0 1 0x48 [] core_finished)) busy-IsRunning

memory-IsZeroed : IsZeroed memory
memory-IsZeroed = record { queues = λ t c. refl; head = λ t c. refl; tail = λ t c. refl }

memory-IsServed : (d : Dims) → IsServed d descriptors process_ids memory.calls
memory-IsServed d = record {
  malloc = refl;
  mkdtemp = refl;
  pairs = λ c i p q. refl;
  pids = λ c i p q. refl;
}

boot-IsRunning_example :
    (s' : Dispatcher) × (boot memory (some (3, 2)) (record dispatcher { initialised = false })
      ≡ ok s')
    × IsBoard 3 2 descriptors process_ids s'
boot-IsRunning_example =
    boot-IsRunning memory 3 2 descriptors process_ids (record dispatcher { initialised = false })
      (omega arith) (memory-IsServed (record { chips_x = 3; chips_y = 2 })) memory-IsZeroed refl
      (omega arith)

-- A configuration of 2 by 3 chips with a factor of 5.
abbrev config : List ℕ → Option (List ℕ)
config key =
    if length key == 15
    then some (5 ∷ [])
    else if get_or key 0 0 == 0x58
    then some (2 ∷ [])
    else some (3 ∷ [])

emulator_main-IsRunning_example :
    (s' : Dispatcher) × (emulator_main
        (λ file. some config)
        atoi
        ((0x61 ∷ []) ∷ [])
        memory
        (record dispatcher { initialised = false })
      ≡ ok (5, s'))
    × IsBoard 2 3 descriptors process_ids s'
emulator_main-IsRunning_example =
    emulator_main-IsRunning (λ file. some config) atoi ((0x61 ∷ []) ∷ []) memory descriptors
      process_ids (record dispatcher { initialised = false }) memory-IsZeroed refl (omega arith)
      config (2 ∷ []) (3 ∷ []) (5 ∷ []) refl
      (record { has_x = refl; has_y = refl; has_slow = refl }) (omega arith)
      (memory-IsServed (record { chips_x = 2; chips_y = 3 }))
