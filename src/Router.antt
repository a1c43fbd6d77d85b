-- ===== src/Router.antt =====
-- The multicast router of the dispatcher (spin_emu_dispatcher.c): `route_mc`, the queue loops and
-- `flush_mc_queues`. A send is recorded as a datagram; whether the kernel takes it is not modelled.
pub mod Match
pub mod Forward
pub mod Keep
pub mod Drain
pub mod Flush
pub mod Sweep
pub mod Kept
pub mod Broadcast
pub mod Wave
pub mod WaveStep
pub mod Reached
use spi_nnaker_emulator.Base.{
  ℕ, zero, suc, ◌+◌, ◌==◌, bit_and, Bool, true, false, List, [], ◌∷◌, ◌++◌, Option, none, some,
  if◌then◌else◌, has_bit, Table, update, count_up,
}
use spi_nnaker_emulator.Base.Int.{ℤ, pos, negsuc}
use spi_nnaker_emulator.Base.Outcome.{Outcome, ok, ◌>>=◌}
use spi_nnaker_emulator.Grid.{Dims, num_chips, num_links, num_cpus}
use spi_nnaker_emulator.McQueue.{Mc, Queue, queue_mc, front, advance}
use spi_nnaker_emulator.Wire.{Route, send_mc, parse_mc, num_routes}

-- What the router reads and does not change: NUM_CHIPS_X and NUM_CHIPS_Y, `channel_targets` and
-- `spin_emu_routes`.
pub record Net : Type 0 where
  pub dims : Dims
  pub channel_targets : Table ℤ
  pub routes : Table Route

-- Bytes sent over `spin_emu_socket_dispatch[chip][core]`.
pub record Datagram : Type 0 where
  pub chip : ℕ
  pub core : ℕ
  pub bytes : List ℕ

-- What the router changes: `mc_queue`, `mc_pending`, and the datagrams sent so far.
pub record State : Type 0 where
  pub queues : Table Queue
  pub mc_pending : Bool
  pub sent : List Datagram

-- `queue_mc(&mc_queue[chip][core], ...)`.
unfoldable pub queue_at : ℕ → ℕ → Mc → State → State
queue_at chip core mc s =
    let (q, pending) = queue_mc (s.queues chip core) s.mc_pending mc in
    record s { queues = update s.queues chip core q; mc_pending = pending }

-- `spin_emu_send_mc(spin_emu_socket_dispatch[chip][core], &mc)`.
unfoldable pub send_to : ℕ → ℕ → Mc → State → State
send_to chip core mc s = record s {
  sent = s.sent ++ record { chip = chip; core = core; bytes = send_mc mc } ∷ [];
}

-- `q->pos++; q->len--;` on `mc_queue[chip][core]`.
unfoldable pub pop_at : ℕ → ℕ → State → State
unfolding advance
pop_at chip core s = record s { queues = update s.queues chip core (advance (s.queues chip core)) }

-- The test of a routing entry against a packet.
abbrev pub matches : Route → Mc → Bool
matches r mc = r.key == bit_and mc.key r.mask

-- A packet to the target of a link; a negative target is an unconnected link.
unfoldable pub over_link : ℤ → Mc → State → State
unfolding queue_at
over_link (pos t) mc s = queue_at t 0 mc s
over_link (negsuc _) mc s = s

module _ (net : Net) where
  -- One round of the loop over the links, and of the loop over the cores.
  unfoldable pub send_link : ℕ → Route → Mc → ℕ → State → State
  unfolding over_link
  send_link chip r mc j s =
      if has_bit r.route j then over_link (net.channel_targets chip j) mc s else s

  unfoldable pub send_core : ℕ → Route → Mc → ℕ → State → State
  unfolding send_to
  send_core chip r mc j s = if has_bit r.route (j + num_links) then send_to chip j mc s else s

  -- What `route_mc` does at the entry that matches.
  unfoldable pub forward : ℕ → Route → Mc → State → State
  unfolding count_up send_link send_core
  forward chip r mc s =
      count_up num_cpus 0 (send_core chip r mc) (count_up num_links 0 (send_link chip r mc) s)

  -- The loop of `route_mc` from entry `i` on.
  unfoldable pub route_from : ℕ → ℕ → ℕ → Mc → State → State
  route_from zero i chip mc s = s
  route_from (suc n) i chip mc s = elim (matches (net.routes chip i) mc) [
    | true ↦ forward chip (net.routes chip i) mc s
    | false ↦ route_from n (i + 1) chip mc s
  ]

  unfoldable pub route_mc : ℕ → Mc → State → State
  unfolding route_from
  route_mc chip mc s = route_from num_routes 0 chip mc s

  -- One round of `route_one_mc_queue`.
  unfoldable pub route_next : ℕ → State → State
  unfolding route_mc front pop_at
  route_next chip s = pop_at chip 0 (route_mc chip (front (s.queues chip 0)) s)

  -- `route_one_mc_queue(chip, &mc_queue[chip][0])`; `none` if the fuel runs out.
  unfoldable pub route_one_mc_queue : ℕ → ℕ → State → Option State
  unfolding route_next
  route_one_mc_queue zero chip s = none
  route_one_mc_queue (suc fuel) chip s = elim ((s.queues chip 0).len == 0) [
    | true ↦ some s
    | false ↦ route_one_mc_queue fuel chip (route_next chip s)
  ]

-- One round of `flush_one_mc_queue`.
unfoldable pub flush_next : ℕ → ℕ → State → State
unfolding send_to front pop_at
flush_next chip core s = pop_at chip core (send_to chip core (front (s.queues chip core)) s)

-- `flush_one_mc_queue(chip, core, spin_emu_socket_dispatch[chip][core])`.
unfoldable pub flush_one_mc_queue : ℕ → ℕ → ℕ → State → Option State
unfolding flush_next
flush_one_mc_queue zero chip core s = none
flush_one_mc_queue (suc fuel) chip core s = elim ((s.queues chip core).len == 0) [
  | true ↦ some s
  | false ↦ flush_one_mc_queue fuel chip core (flush_next chip core s)
]

-- `for (j = i; j < i + n; j++)` round a body that may run out of fuel.
unfoldable pub for_each : ℕ → ℕ → (ℕ → State → Option State) → State → Option State
for_each zero i body s = some s
for_each (suc n) i body s = elim (body i s) [ none ↦ none | some s' ↦ for_each n (i + 1) body s' ]

abbrev pub after : Option State → (State → Option State) → Option State
after none k = none
after (some s) k = k s

-- The body of the loop of `flush_mc_queues`.
unfoldable pub flush_round : Net → ℕ → State → Option State
unfolding for_each route_one_mc_queue flush_one_mc_queue
flush_round net fuel s =
    after
      (for_each (num_chips net.dims) 0 (route_one_mc_queue net fuel)
        (record s { mc_pending = false }))
      (for_each (num_chips net.dims) 0 (λ c. for_each 7 1 (flush_one_mc_queue fuel c)))

-- `flush_mc_queues`, with `fuel` rounds of each loop.
unfoldable pub flush_rounds : Net → ℕ → ℕ → State → Option State
unfolding flush_round
flush_rounds net fuel zero s = none
flush_rounds net fuel (suc rounds) s = elim (s.mc_pending) [
  | false ↦ some s
  | true ↦ elim (flush_round net fuel s) [ none ↦ none | some s' ↦ flush_rounds net fuel rounds s' ]
]

unfoldable pub flush_mc_queues : Net → ℕ → State → Option State
unfolding flush_rounds
flush_mc_queues net fuel s = flush_rounds net fuel fuel s

-- `dispatch_mc`: what a core sent is queued, or the dispatcher's assertion fails.
unfoldable pub dispatch_mc : ℕ → ℕ → List ℕ → State → Outcome State
unfolding parse_mc queue_at
dispatch_mc chip core buf s = do mc ← parse_mc buf; ok (queue_at chip core mc s)
