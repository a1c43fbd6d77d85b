-- ===== src/Examples/Messages.antt =====
-- Packets and messages of a board of six chips, with one message waiting for core 1 of chip 0.
use spi_nnaker_emulator.Base.{
  ◌+◌, ℕ, ◌*◌, ◌^◌, ◌<◌, ◌≤◌, ◌≡◌, ◌⊎◌, inl, inr, refl, arith, true, false, List, [], ◌∷◌, ◌++◌,
  none, some, Table, update, update_ne, put, pair-cases, replicate, drop, ntohl,
}
use spi_nnaker_emulator.Base.Int.{pos, negsuc}
use spi_nnaker_emulator.Base.Outcome.{ok}
use spi_nnaker_emulator.Grid.{Dims, num_cpus, chip_id}
use spi_nnaker_emulator.McQueue.{Mc, Queue}
use spi_nnaker_emulator.Wire.{Route, store_route, set_mc_table_entry, app_mc_entries}
use spi_nnaker_emulator.Wire.RoundTrip.{store_route-set_mc_table_entry}
use spi_nnaker_emulator.Sdp.Message.{Msg}
use spi_nnaker_emulator.Sdp.Store.{Store, queue_sdp_xy, flush_sdp_queues}
use spi_nnaker_emulator.Sdp.Chain.{Cell}
use spi_nnaker_emulator.Sdp.Invariant.{IsStore, messages}
use spi_nnaker_emulator.Sdp.Fifo.{queue_sdp_xy-IsStore}
use spi_nnaker_emulator.Sdp.Flush.{IsFlushed, flush_sdp_queues-IsStore}
use spi_nnaker_emulator.Board.{empty_route}
use spi_nnaker_emulator.Spawn.{Sockets}
use spi_nnaker_emulator.Dispatcher.State.{Dispatcher, Memory}
use spi_nnaker_emulator.Dispatcher.Commands.{dest_chip, cmd_floodfill, dispatch_as, write_request}
use spi_nnaker_emulator.Dispatcher.Process.{process_message, Received, ether_msg}
use spi_nnaker_emulator.Dispatcher.Delivery.{Holds, IsDelivered, flooded, cmd_floodfill-IsDelivered}
use spi_nnaker_emulator.Dispatcher.Start.{IsStarted, dispatch_as-IsStarted}
use spi_nnaker_emulator.Dispatcher.Keep.{AfterOk, process_message-AfterOk}
use spi_nnaker_emulator.Examples.Tags.{request, tags}

abbrev nine : Mc
nine = record { key = 0x01020304; payload = 9; has_payload = 7 }

abbrev entry : Route
entry = record { key = 0x100; mask = 0xFF00; route = 65 }

store_route-set_mc_table_entry_example :
    ((7 < app_mc_entries)
      × ((set_mc_table_entry 7 entry).1 ≡ 1)
      × ((packet : List ℕ) × ((set_mc_table_entry 7 entry).0 ≡ some packet)
          × (store_route (λ c k. empty_route) 2 (drop 1 packet)
              ≡ ok (update (λ c k. empty_route) 2 8 entry))))
    ⊎ ((app_mc_entries ≤ 7) × (set_mc_table_entry 7 entry ≡ (none, 0)))
store_route-set_mc_table_entry_example =
    store_route-set_mc_table_entry (λ c k. empty_route) 2 7 entry
      (record { key_fits = omega arith; mask_fits = omega arith; route_fits = omega arith })

abbrev pub hello : Msg
hello = request 1 2 3

abbrev no_cells : Table (List Cell)
no_cells id c = []

abbrev pub null : Table ℕ
null id c = 0

abbrev pub store : Store
store = record {
  nodes = put (λ a. none) 1 (some (record { msg = hello; next = 0 }));
  fresh = 2;
  head = update null 0 1 1;
  tail = update null 0 1 1;
}

abbrev pub cells : Table (List Cell)
cells = update no_cells 0 1 ((1, hello) ∷ [])

pub store-IsStore : IsStore store cells
store-IsStore = record {
  owner = λ a. (0, 1);
  started = omega arith;
  chains = λ id c. elim (pair-cases 0 1 id c) [
    | inl (e, e') ↦ rw (← e, ← e') (0, refl, omega arith, refl, refl)
    | inr ne ↦ rw (update_ne no_cells 0 1 id c ((1, hello) ∷ []) ne) (update_ne null 0 1 id c 1 ne)
  ];
  tails = λ id c. elim (pair-cases 0 1 id c) [
    | inl (e, e') ↦ rw (← e, ← e') refl
    | inr ne ↦ rw (update_ne no_cells 0 1 id c ((1, hello) ∷ []) ne) (update_ne null 0 1 id c 1 ne)
  ];
  owned = λ id c. elim (pair-cases 0 1 id c) [
    | inl (e, e') ↦ rw (← e, ← e') ((omega arith, refl), tt)
    | inr ne ↦ rw (update_ne no_cells 0 1 id c ((1, hello) ∷ []) ne) tt
  ];
}

queue_sdp_xy-IsStore_example :
    (st' : Store) × (queue_sdp_xy (request 4 5 6) 0 1 store ≡ ok st')
    × IsStore st' (update cells 0 1 (cells 0 1 ++ (2, request 4 5 6) ∷ []))
queue_sdp_xy-IsStore_example = queue_sdp_xy-IsStore (request 4 5 6) 0 1 store cells store-IsStore

abbrev six : Dims
six = record { chips_x = 3; chips_y = 2 }

flush_sdp_queues-IsStore_example :
    (st' : Store) × (cells' : Table (List Cell)) × (flush_sdp_queues six store
      ≡ ok (record { chip = 0; core = 1; msg = hello } ∷ [], st'))
    × IsStore st' cells'
    × IsFlushed six cells cells'
flush_sdp_queues-IsStore_example = flush_sdp_queues-IsStore six store cells store-IsStore

abbrev pub no_packets : Queue
no_packets = record { pos = 0; len = 0; slots = λ i. nine }

abbrev pub no_sockets : Sockets
no_sockets = record { dispatch = null; core = null }

-- Core `i` of chip `c` has the descriptors from 16 * `c` + 2 * `i` + 3 on.
abbrev pub descriptors : ℕ → ℕ → ℕ × ℕ
descriptors c i = (16 * c + 2 * i + 3, 16 * c + 2 * i + 4)

abbrev pub process_ids : ℕ → ℕ → ℕ
process_ids c i = 100 + 8 * c + i

abbrev pub dispatcher : Dispatcher
dispatcher = record {
  initialised = true;
  net = record { dims = six; channel_targets = λ c j. negsuc 0; routes = λ c k. empty_route };
  router = record { queues = λ t c. no_packets; mc_pending = false; sent = [] };
  sdp = store;
  running = null;
  running_count = pos 0;
  floodfill = 0;
  tags = tags;
  sender = record { ip = 0; port = 0; seq = 0 };
  ether = [];
  sockets = no_sockets;
  children = record { child_pid = null; started = [] };
}

abbrev waiting : Table (List Msg)
waiting id c = messages (cells id c)

dispatcher-Holds : Holds dispatcher waiting
dispatcher-Holds = record { cells = cells; is_store = store-IsStore; holds = λ id c. refl }

-- To port 1 of core 1 of the chip at (0, 0), and to port 1 of core 10.
abbrev to_one : Msg
to_one = record hello { dest_port = 33 }

at_origin : (m : Msg) → m.dest_addr ≡ 0 → dest_chip m dispatcher ≡ ok 0
unfolding dest_chip chip_id
at_origin m e = rw e

cmd_floodfill-IsDelivered_example :
    IsDelivered dispatcher
      (flooded 6 (write_request hello) waiting)
      (cmd_floodfill hello dispatcher)
cmd_floodfill-IsDelivered_example =
    cmd_floodfill-IsDelivered hello dispatcher waiting dispatcher-Holds

-- Mask 2 in network byte order: core 1.
abbrev start_one : Msg
start_one = record hello { arg2 = 2 * 2 ^ 24 }

dispatch_as-IsStarted_example :
    (s' : Dispatcher) × (dispatch_as start_one dispatcher ≡ ok s')
    × IsStarted (ntohl start_one.arg2) start_one 0 dispatcher waiting num_cpus s'
dispatch_as-IsStarted_example =
    dispatch_as-IsStarted start_one 0 dispatcher waiting (at_origin start_one refl) dispatcher-Holds

abbrev pub memory : Memory
memory = record {
  queues = λ t c. no_packets;
  head = null;
  tail = null;
  routes = λ c k. empty_route;
  targets = λ c j. pos 77;
  running = null;
  calls = record {
    malloc = true;
    mkdtemp = true;
    pairs = λ c i. some (descriptors c i);
    pids = λ c i. some (process_ids c i);
    sockets = no_sockets;
    child_pid = null;
  };
}

-- READ in network byte order: bytes 8 and 9 behind the padding are 0 and 2.
abbrev read_request : Received
read_request = record {
  bytes = 0 ∷ 0 ∷ 7 ∷ 255 ∷ 1 ∷ 255 ∷ 0 ∷ 0 ∷ 0 ∷ 0 ∷ 0 ∷ 2 ∷ replicate 14 0;
  stale = replicate 300 0;
  port = 17893;
  ip = 0x0100a8c0;
  ip_bytes = 192 ∷ 168 ∷ 0 ∷ 1 ∷ [];
}

is_read : (ether_msg read_request.bytes).cmd_rc ≡ 512
unfolding ether_msg
is_read = refl

process_message-AfterOk_example : AfterOk dispatcher (process_message memory to_one dispatcher)
process_message-AfterOk_example =
    process_message-AfterOk memory to_one dispatcher waiting refl dispatcher-Holds
