-- ===== src/Dispatcher/Running.antt =====
-- The invariant of the dispatcher's loop (`spin_emu_dispatcher`, spin_emu_dispatcher.c).
use spi_nnaker_emulator.Base.{
  ℕ, ◌≡◌, inl, inr, refl, ◌∙◌, Bool, true, false, ◌&&◌, Bool-cases, List, Table, if◌then◌else◌, leb,
  ◌==◌, length,
}
use spi_nnaker_emulator.Base.Outcome.{
  Outcome, ok, died, fault, spent, ◌>>=◌, in_bounds, Ensures, Ensures-bind,
}
use spi_nnaker_emulator.Grid.{num_chips}
use spi_nnaker_emulator.McQueue.{Mc}
use spi_nnaker_emulator.Wire.{
  Route, packet_mc, packet_sdp, packet_route, packet_finished, parse_mc, store_route,
}
use spi_nnaker_emulator.Router.{queue_at, dispatch_mc}
use spi_nnaker_emulator.Router.Forward.{HasLinks}
use spi_nnaker_emulator.Router.Keep.{IsReady, Noticed, queue_at-IsReady, queue_at-Noticed}
use spi_nnaker_emulator.Sdp.Message.{Msg, msg_of_bytes, msg_size}
use spi_nnaker_emulator.Dispatcher.State.{Dispatcher, Memory}
use spi_nnaker_emulator.Dispatcher.Commands.{queue_sdp, dispatch_sdp_to_ether}
use spi_nnaker_emulator.Dispatcher.Process.{
  Received, ether_msg, answers_at_once, acknowledge, remember, process_message, receive_msg,
  dispatch_sdp_one, dispatch_sdp, dispatch_packet,
}
use spi_nnaker_emulator.Dispatcher.Delivery.{Waiting, Holds}
use spi_nnaker_emulator.Dispatcher.Keep.{
  Kept, AfterOk, Kept-store, queue_sdp-AfterOk, ether-AfterOk, process_message-AfterOk, unchanged,
}

-- What holds of an initialised dispatcher between two datagrams.
pub record IsRunning (s : Dispatcher) : Type 0 where
  pub initialised : s.initialised ≡ true
  pub linked : HasLinks s.net
  pub ready : IsReady s.router.queues
  pub noticed : Noticed (num_chips s.net.dims) s.router.queues s.router.mc_pending
  pub waiting : Waiting
  pub holds : Holds s waiting

Kept-IsRunning : (base s : Dispatcher) → IsRunning base → Kept base s → IsRunning s
Kept-IsRunning base s v k = record {
  initialised = k.same_initialised ∙ v.initialised;
  linked = rw k.same_net v.linked;
  ready = rw k.same_router v.ready;
  noticed = rw (k.same_net, k.same_router) v.noticed;
  waiting = k.waiting;
  holds = k.holds;
}

-- A change of the variables that the invariant does not read.
abbrev pub Same : Dispatcher → Dispatcher → Type 0
Same s s' =
    (s'.sdp ≡ s.sdp) × (s'.net ≡ s.net) × (s'.router ≡ s.router) × (s'.initialised ≡ s.initialised)

Same-IsRunning : (s s' : Dispatcher) → Same s s' → IsRunning s → IsRunning s'
Same-IsRunning s s' same v =
    Kept-IsRunning s s' v (Kept-store s s s' same (unchanged s v.waiting v.holds))

AfterOk-IsRunning :
    (base : Dispatcher) (o : Outcome Dispatcher)
    → IsRunning base
    → AfterOk base o
    → Ensures IsRunning o
AfterOk-IsRunning base (ok s) v k = Kept-IsRunning base s v k
AfterOk-IsRunning base died v k = tt
AfterOk-IsRunning base fault v k = tt
AfterOk-IsRunning base spent v k = tt

handled-IsRunning :
    (mem : Memory) (m : Msg) (s : Dispatcher)
    → IsRunning s
    → Ensures IsRunning (process_message mem m s)
handled-IsRunning mem m s v =
    AfterOk-IsRunning s (process_message mem m s) v
      (process_message-AfterOk mem m s v.waiting v.initialised v.holds)

pub receive_msg-IsRunning :
    (mem : Memory) (r : Received) (s : Dispatcher)
    → IsRunning s
    → Ensures IsRunning (receive_msg mem r s)
unfolding receive_msg acknowledge remember
receive_msg-IsRunning mem r s v =
    Ensures-bind (λ _. Unit {0}) IsRunning
      (in_bounds (leb 2 (length r.bytes) && leb (length r.bytes) 286)) _ (any _)
      (λ _ _. elim (Bool-cases (answers_at_once (ether_msg r.bytes))) [
        | inl now ↦ rw now (
            handled-IsRunning mem (ether_msg r.bytes) (acknowledge r s)
              (Same-IsRunning s (acknowledge r s) (refl, refl, refl, refl) v))
        | inr later ↦ rw later (
            handled-IsRunning mem (ether_msg r.bytes) (remember r (ether_msg r.bytes) s)
              (Same-IsRunning s (remember r (ether_msg r.bytes) s) (refl, refl, refl, refl) v))
      ])
  where
    any : (o : Outcome (Unit {0})) → Ensures (λ _. Unit {0}) o
    any (ok a) = tt
    any died = tt
    any fault = tt
    any spent = tt

dispatch_sdp-IsRunning :
    (buf : List ℕ) (s : Dispatcher) → IsRunning s → Ensures IsRunning (dispatch_sdp buf s)
unfolding dispatch_sdp dispatch_sdp_one
dispatch_sdp-IsRunning buf s v = elim (Bool-cases (leb (length buf) msg_size)) [
  | inl fits ↦ rw fits (elim (Bool-cases ((msg_of_bytes buf).dest_port == 255)) [
    | inl ether ↦ rw ether (
        AfterOk-IsRunning s (dispatch_sdp_to_ether (msg_of_bytes buf) s) v
          (ether-AfterOk s (msg_of_bytes buf) s (unchanged s v.waiting v.holds)))
    | inr core ↦ rw core (
        AfterOk-IsRunning s (queue_sdp (msg_of_bytes buf) s) v
          (queue_sdp-AfterOk s (msg_of_bytes buf) s (unchanged s v.waiting v.holds)))
  ])
  | inr long ↦ rw long tt
]

dispatch_mc-IsRunning :
    (chip : ℕ) (buf : List ℕ) (s : Dispatcher)
    → IsRunning s
    → Ensures (λ router. IsRunning (record s { router = router })) (dispatch_mc chip 0 buf s.router)
unfolding dispatch_mc
dispatch_mc-IsRunning chip buf s v = parsed (parse_mc buf)
  where
    parsed :
        (o : Outcome Mc)
        → Ensures
            (λ router. IsRunning (record s { router = router }))
            (o >>= λ mc. ok (queue_at chip 0 mc s.router))
    parsed (ok mc) = record {
      initialised = v.initialised;
      linked = v.linked;
      ready = queue_at-IsReady chip mc s.router v.ready;
      noticed = queue_at-Noticed (num_chips s.net.dims) chip mc s.router v.noticed;
      waiting = v.waiting;
      holds = record { cells = v.holds.cells; is_store = v.holds.is_store; holds = v.holds.holds };
    }
    parsed died = tt
    parsed fault = tt
    parsed spent = tt

store_route-IsRunning :
    (o : Outcome (Table Route)) (s : Dispatcher)
    → IsRunning s
    → Ensures IsRunning (o >>= λ routes. ok (record s { net = record s.net { routes = routes } }))
store_route-IsRunning (ok routes) s v = record {
  initialised = v.initialised;
  linked = v.linked;
  ready = v.ready;
  noticed = v.noticed;
  waiting = v.waiting;
  holds = record { cells = v.holds.cells; is_store = v.holds.is_store; holds = v.holds.holds };
}
store_route-IsRunning died s v = tt
store_route-IsRunning fault s v = tt
store_route-IsRunning spent s v = tt

pub Ensures-if :
    (b : Bool) (x y : Outcome Dispatcher)
    → Ensures IsRunning x
    → Ensures IsRunning y
    → Ensures IsRunning (if b then x else y)
Ensures-if true x y hx hy = hx
Ensures-if false x y hx hy = hy

pub dispatch_packet-IsRunning :
    (chip core type : ℕ) (buf : List ℕ) (s : Dispatcher)
    → IsRunning s
    → Ensures IsRunning (dispatch_packet chip core type buf s)
unfolding dispatch_packet
dispatch_packet-IsRunning chip core type buf s v =
    Ensures-if (type == packet_mc) _ _
      (Ensures-bind (λ router. IsRunning (record s { router = router })) IsRunning
        (dispatch_mc chip 0 buf s.router) _ (dispatch_mc-IsRunning chip buf s v) (λ router v'. v'))
      (Ensures-if (type == packet_sdp) _ _ (dispatch_sdp-IsRunning buf s v) (
        Ensures-if (type == packet_route) _ _
          (store_route-IsRunning (store_route s.net.routes chip buf) s v)
          (Ensures-if (type == packet_finished) _ _ (Same-IsRunning s _ (refl, refl, refl, refl) v)
            tt)))
