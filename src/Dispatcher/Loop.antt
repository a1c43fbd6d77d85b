-- ===== src/Dispatcher/Loop.antt =====
-- `spin_emu_dispatcher` (spin_emu_dispatcher.c): the start of the dispatcher, and a round of its
-- loop. What the sockets hold is an argument: the datagrams from the ethernet, and those from the
-- socket of each core.
use spi_nnaker_emulator.Base.{
  ℕ, List, [], ◌∷◌, Option, none, some, Table, if◌then◌else◌, count_up_ok,
}
use spi_nnaker_emulator.Base.Outcome.{Outcome, ok, died, spent, ◌>>=◌}
use spi_nnaker_emulator.Grid.{num_chips, num_cpus}
use spi_nnaker_emulator.Router
use spi_nnaker_emulator.Router.{Net, flush_mc_queues}
use spi_nnaker_emulator.Sdp.Store.{Sent, flush_sdp_queues}
use spi_nnaker_emulator.IpTag.{iptag_init}
use spi_nnaker_emulator.Dispatcher.State.{Dispatcher, Memory}
use spi_nnaker_emulator.Dispatcher.Commands.{cmd_p2pc}
use spi_nnaker_emulator.Dispatcher.Process.{Received, receive_msg, dispatch_packet}

-- The rest of a loop over datagrams: `recv` of an empty datagram ends the process.
abbrev pub unless_empty {ℓ} : {A : Type ℓ} → List ℕ → Outcome A → Outcome A
unless_empty [] next = died
unless_empty (_ ∷ _) next = next

-- `receive_msg_from_ether`.
unfoldable pub receive_all : Memory → List Received → Dispatcher → Outcome Dispatcher
unfolding receive_msg
receive_all mem [] s = ok s
receive_all mem (r ∷ rest) s = unless_empty r.bytes (receive_msg mem r s >>= receive_all mem rest)

-- `do_dispatch` for core `core` of chip `chip`.
unfoldable pub do_dispatch : ℕ → ℕ → List (List ℕ) → Dispatcher → Outcome Dispatcher
unfolding dispatch_packet
do_dispatch chip core [] s = ok s
do_dispatch chip core ([] ∷ rest) s = died
do_dispatch chip core ((type ∷ buf) ∷ rest) s =
    dispatch_packet chip core type buf s >>= do_dispatch chip core rest

-- The calls of `do_dispatch` for every core of the board.
unfoldable pub dispatch_cores : Table (List (List ℕ)) → Dispatcher → Outcome Dispatcher
unfolding do_dispatch count_up_ok
dispatch_cores from_cores s =
    count_up_ok (num_chips s.net.dims) 0
      (λ c. count_up_ok num_cpus 0 (λ i. do_dispatch c i (from_cores c i))) s

abbrev pub routed : Option Router.State → Outcome Router.State
routed none = spent
routed (some router) = ok router

-- `flush_mc_queues(); flush_sdp_queues();`, and the messages sent to the cores.
unfoldable pub flush_queues : ℕ → Dispatcher → Outcome (List Sent × Dispatcher)
unfolding flush_mc_queues flush_sdp_queues
flush_queues fuel s = routed (flush_mc_queues s.net fuel s.router) >>= λ router.
    flush_sdp_queues s.net.dims s.sdp >>= λ r. ok (r.0, record s { router = router; sdp = r.1 })

-- A round of the loop of `spin_emu_dispatcher`.
unfoldable pub main_round :
    Memory
    → ℕ
    → List Received
    → Table (List (List ℕ))
    → Dispatcher
    → Outcome (List Sent × Dispatcher)
unfolding receive_all dispatch_cores flush_queues
main_round mem fuel from_ether from_cores s = receive_all mem from_ether s >>= λ s'.
    if s'.initialised then (dispatch_cores from_cores s' >>= flush_queues fuel) else ok ([], s')

-- What `spin_emu_dispatcher(num, ...)` does before its loop: with two arguments it sets a board up.
unfoldable pub boot : Memory → Option (ℕ × ℕ) → Dispatcher → Outcome Dispatcher
unfolding iptag_init cmd_p2pc
boot mem size s =
    let s' : Dispatcher = record s { tags = record s.tags { table = iptag_init s.tags.table } } in
    elim size [ none ↦ ok s' | some (x, y) ↦ cmd_p2pc mem x y s' ]
