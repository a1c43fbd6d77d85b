-- ===== src/Dispatcher/Rounds.antt =====
-- The loop of `spin_emu_dispatcher` (spin_emu_dispatcher.c) in its steps, and whole rounds of it.
use spi_nnaker_emulator.Base.{
  ℕ, zero, suc, ◌+◌, ◌<◌, ◌≡◌, inl, inr, refl, ap, ap₂, ◌∙◌, Bool, true, false, List, [], ◌∷◌, ◌++◌,
  Table, if◌then◌else◌, All, count_up_ok, eq-cases,
}
use spi_nnaker_emulator.Base.Outcome.{Outcome, ok, ◌>>=◌, Ensures, Ensures-bind, Ensures-ok}
use spi_nnaker_emulator.Grid.{num_chips, num_cpus}
use spi_nnaker_emulator.McQueue.{Mc, queue_size, contents}
use spi_nnaker_emulator.Router.{Net}
use spi_nnaker_emulator.Router.Flush.{IsRanked, flush_mc_queues-IsFlushed}
use spi_nnaker_emulator.Sdp.Store.{Sent, sent_to}
use spi_nnaker_emulator.Sdp.Chain.{Cell}
use spi_nnaker_emulator.Sdp.Invariant.{messages}
use spi_nnaker_emulator.Sdp.Flush.{core_messages, chip_messages, flush_sdp_queues-IsStore}
use spi_nnaker_emulator.Dispatcher.State.{Dispatcher, Memory}
use spi_nnaker_emulator.Dispatcher.Process.{Received, receive_msg, dispatch_packet}
use spi_nnaker_emulator.Dispatcher.Delivery.{Waiting}
use spi_nnaker_emulator.Dispatcher.Loop.{
  unless_empty, receive_all, do_dispatch, dispatch_cores, flush_queues, main_round,
}
use spi_nnaker_emulator.Dispatcher.Running.{
  IsRunning, receive_msg-IsRunning, dispatch_packet-IsRunning,
}

-- All waiting messages, chip by chip and core by core, with the cores that they wait for.
abbrev pub core_waiting : ℕ → ℕ → ℕ → Waiting → List Sent
core_waiting zero i id waiting = []
core_waiting (suc n) i id waiting = sent_to id i (waiting id i) ++ core_waiting n (i + 1) id waiting

abbrev pub chip_waiting : ℕ → ℕ → Waiting → List Sent
chip_waiting zero id waiting = []
chip_waiting (suc n) id waiting =
    core_waiting num_cpus 0 id waiting ++ chip_waiting n (id + 1) waiting

module _ (cells : Table (List Cell)) (waiting : Waiting)
    (holds : (id c : ℕ) → messages (cells id c) ≡ waiting id c) where
  core_messages-waiting : (n i id : ℕ) → core_messages n i id cells ≡ core_waiting n i id waiting
  core_messages-waiting zero i id = refl
  core_messages-waiting (suc n) i id =
      ap₂ ◌++◌ (ap (sent_to id i) (holds id i)) (core_messages-waiting n (i + 1) id)

  chip_messages-waiting : (n id : ℕ) → chip_messages n id cells ≡ chip_waiting n id waiting
  chip_messages-waiting zero id = refl
  chip_messages-waiting (suc n) id =
      ap₂ ◌++◌ (core_messages-waiting num_cpus 0 id) (chip_messages-waiting n (id + 1))

-- No packet waits on the board, and no message for one of its cores.
pub record IsIdle (s : Dispatcher) (waiting : Waiting) : Type 0 where
  pub not_pending : s.router.mc_pending ≡ false
  pub no_packets : (t c : ℕ) → t < num_chips s.net.dims → (s.router.queues t c).len ≡ 0
  pub no_messages : (t c : ℕ) → t < num_chips s.net.dims → c < num_cpus → waiting t c ≡ []

-- The queues were flushed: all that waited was sent.
pub record IsSent (s : Dispatcher) (waiting : Waiting) (result : Outcome (List Sent × Dispatcher))
    : Type 0 where
  pub state : Dispatcher
  pub returns : result ≡ ok (chip_waiting (num_chips s.net.dims) 0 waiting, state)
  pub running : IsRunning state
  pub idle : IsIdle state running.waiting

-- The routing entries of the board send no packet in a circle: each has less than `k` hops to go.
pub record IsAcyclic (net : Net) (k : ℕ) : Type 0 where
  pub hops : ℕ → Mc → ℕ
  pub falls : IsRanked net hops
  pub few : (t : ℕ) (mc : Mc) → t < num_chips net.dims → hops t mc < k

pub All-always {ℓ} : {A : Type ℓ} (Q : A → Type 0) → ((x : A) → Q x) → (xs : List A) → All Q xs
All-always Q h [] = tt
All-always Q h (x ∷ xs) = (h x, All-always Q h xs)

pub flush_queues-IsSent :
    (fuel k : ℕ) (s : Dispatcher) (v : IsRunning s)
    → IsAcyclic s.net k
    → queue_size < fuel
    → k + 1 < fuel
    → IsSent s v.waiting (flush_queues fuel s)
unfolding flush_queues
flush_queues-IsSent fuel k s v a big enough =
    let f =
      flush_mc_queues-IsFlushed s.net a.hops k fuel s.router v.linked a.falls big enough v.ready
        (λ t. All-always _ (λ mc. a.few t mc) (contents (s.router.queues t 0))) v.noticed in
    let (st, cells, run, is_store, flushed) =
      flush_sdp_queues-IsStore s.net.dims s.sdp v.holds.cells v.holds.is_store in
    record {
      state = record s { router = f.state; sdp = st };
      returns =
          rw (f.returns, run)
            (ap (λ l. ok (l, record s { router = f.state; sdp = st }))
              (chip_messages-waiting v.holds.cells v.waiting v.holds.holds (num_chips s.net.dims)
                0));
      running = record {
        initialised = v.initialised;
        linked = v.linked;
        ready = f.ready;
        noticed = λ t lt. inl (f.empty t lt);
        waiting = λ id c. messages (cells id c);
        holds = record { cells = cells; is_store = is_store; holds = λ id c. refl };
      };
      idle = record {
        not_pending = f.idle;
        no_packets = λ t c lt. elim (eq-cases c 0) [
          | inl e ↦ rw e (f.empty t lt)
          | inr ne ↦ f.ready.quiet t c ne
        ];
        no_messages = λ t c lt lc. ap messages (flushed.emptied t c lt lc);
      };
    }

receive_all-IsRunning :
    (mem : Memory) (rs : List Received) (s : Dispatcher)
    → IsRunning s
    → Ensures IsRunning (receive_all mem rs s)
unfolding receive_all
receive_all-IsRunning mem [] s v = v
receive_all-IsRunning mem (r ∷ rest) s v =
    nonempty r.bytes (receive_msg mem r s >>= receive_all mem rest) (
      Ensures-bind IsRunning IsRunning (receive_msg mem r s) (receive_all mem rest)
        (receive_msg-IsRunning mem r s v) (λ s' v'. receive_all-IsRunning mem rest s' v'))
  where
    nonempty :
        (bytes : List ℕ) (o : Outcome Dispatcher)
        → Ensures IsRunning o
        → Ensures IsRunning (unless_empty bytes o)
    nonempty [] o h = tt
    nonempty (b ∷ bytes) o h = h

do_dispatch-IsRunning :
    (chip core : ℕ) (bufs : List (List ℕ)) (s : Dispatcher)
    → IsRunning s
    → Ensures IsRunning (do_dispatch chip core bufs s)
unfolding do_dispatch
do_dispatch-IsRunning chip core [] s v = v
do_dispatch-IsRunning chip core ([] ∷ rest) s v = tt
do_dispatch-IsRunning chip core ((type ∷ buf) ∷ rest) s v =
    Ensures-bind IsRunning IsRunning (dispatch_packet chip core type buf s)
      (do_dispatch chip core rest) (dispatch_packet-IsRunning chip core type buf s v)
      (λ s' v'. do_dispatch-IsRunning chip core rest s' v')

count_up_ok-IsRunning :
    (n i : ℕ) (body : ℕ → Dispatcher → Outcome Dispatcher) (s : Dispatcher)
    → ((j : ℕ) (s : Dispatcher) → IsRunning s → Ensures IsRunning (body j s))
    → IsRunning s
    → Ensures IsRunning (count_up_ok n i body s)
unfolding count_up_ok
count_up_ok-IsRunning zero i body s keep v = v
count_up_ok-IsRunning (suc n) i body s keep v =
    Ensures-bind IsRunning IsRunning (body i s) (count_up_ok n (i + 1) body) (keep i s v)
      (λ s' v'. count_up_ok-IsRunning n (i + 1) body s' keep v')

dispatch_cores-IsRunning :
    (from_cores : Table (List (List ℕ))) (s : Dispatcher)
    → IsRunning s
    → Ensures IsRunning (dispatch_cores from_cores s)
unfolding dispatch_cores
dispatch_cores-IsRunning from_cores s v =
    count_up_ok-IsRunning (num_chips s.net.dims) 0 _ s
      (λ c s' v'.
        count_up_ok-IsRunning num_cpus 0 _ s'
          (λ i s'' v''. do_dispatch-IsRunning c i (from_cores c i) s'' v'') v')
      v

if_true {ℓ} : {A : Type ℓ} (b : Bool) (x y : A) → b ≡ true → (if b then x else y) ≡ x
if_true true x y e = refl
if_true false x y e = cc

main_round-flush_queues :
    (mem : Memory) (fuel : ℕ) (from_ether : List Received) (from_cores : Table (List (List ℕ)))
    (s s₁ s₂ : Dispatcher)
    → receive_all mem from_ether s ≡ ok s₁
    → s₁.initialised ≡ true
    → dispatch_cores from_cores s₁ ≡ ok s₂
    → main_round mem fuel from_ether from_cores s ≡ flush_queues fuel s₂
unfolding main_round
main_round-flush_queues mem fuel from_ether from_cores s s₁ s₂ e₁ b e₂ =
    ap
      (λ (o : Outcome Dispatcher). o >>= λ s'.
        if s'.initialised
        then (dispatch_cores from_cores s' >>= flush_queues fuel)
        else ok ([], s'))
      e₁
    ∙ if_true s₁.initialised (dispatch_cores from_cores s₁ >>= flush_queues fuel) (ok ([], s₁)) b
    ∙ ap (λ (o : Outcome Dispatcher). o >>= flush_queues fuel) e₂

-- A round of the loop of `spin_emu_dispatcher` in a running dispatcher whose handlers of datagrams
-- and packets come back with a board on which no packet can go round in a circle ends, with more
-- fuel than a queue has room and than the hops that a packet can have to go: every message that
-- then waited was sent to its core, chip by chip and core by core, no packet and no message waits
-- any more, and the dispatcher is running.
pub main_round-IsIdle :
    (mem : Memory) (fuel k : ℕ) (from_ether : List Received) (from_cores : Table (List (List ℕ)))
    (s s₁ s₂ : Dispatcher)
    → IsRunning s
    → receive_all mem from_ether s ≡ ok s₁
    → dispatch_cores from_cores s₁ ≡ ok s₂
    → IsAcyclic s₂.net k
    → queue_size < fuel
    → k + 1 < fuel
    → (v : IsRunning s₂) × IsSent s₂ v.waiting (main_round mem fuel from_ether from_cores s)
main_round-IsIdle mem fuel k from_ether from_cores s s₁ s₂ v e₁ e₂ a big enough =
    let v₁ =
      Ensures-ok IsRunning (receive_all mem from_ether s) s₁
        (receive_all-IsRunning mem from_ether s v) e₁ in
    let v₂ =
      Ensures-ok IsRunning (dispatch_cores from_cores s₁) s₂
        (dispatch_cores-IsRunning from_cores s₁ v₁) e₂ in
    (
      v₂,
      rw (main_round-flush_queues mem fuel from_ether from_cores s s₁ s₂ e₁ v₁.initialised e₂)
          (flush_queues-IsSent fuel k s₂ v₂ a big enough),
    )
