-- ===== src/Dispatcher/Steps.antt =====
-- The steps of an initialised dispatcher in any order, and its start (`spin_emu_dispatcher`,
-- spin_emu_dispatcher.c).
use spi_nnaker_emulator.Base.{
  ℕ, ◌+◌, ◌*◌, ◌^◌, lt→ltb, ◌<◌, ◌≡◌, inl, refl, sym, ap, ◌∙◌, arith, Bool, true, false, List, [],
  Option, some, Table, if◌then◌else◌,
}
use spi_nnaker_emulator.Base.Outcome.{Outcome, ok, ◌>>=◌, Ensures-ok}
use spi_nnaker_emulator.Grid.{Dims, num_chips, num_cpus}
use spi_nnaker_emulator.McQueue.{queue_size}
use spi_nnaker_emulator.Router.{Net}
use spi_nnaker_emulator.IpTag.{iptag_init}
use spi_nnaker_emulator.Router.Forward.{HasLinks}
use spi_nnaker_emulator.Board.{setup_net}
use spi_nnaker_emulator.Board.Setup.{setup_net_lem}
use spi_nnaker_emulator.Spawn.{Sockets, Children, Calls, start_cores}
use spi_nnaker_emulator.Start.Cores.{IsStarted, start_cores-IsStarted}
use spi_nnaker_emulator.Sdp.Store.{Sent}
use spi_nnaker_emulator.Sdp.Chain.{Cell}
use spi_nnaker_emulator.Dispatcher.State.{Dispatcher, Memory}
use spi_nnaker_emulator.Dispatcher.Commands.{cmd_p2pc, set_up}
use spi_nnaker_emulator.Dispatcher.Process.{Received, receive_msg, dispatch_packet}
use spi_nnaker_emulator.Dispatcher.Delivery.{Waiting}
use spi_nnaker_emulator.Dispatcher.Loop.{flush_queues, boot}
use spi_nnaker_emulator.Dispatcher.Running.{
  IsRunning, receive_msg-IsRunning, dispatch_packet-IsRunning,
}
use spi_nnaker_emulator.Dispatcher.Rounds.{IsAcyclic, IsSent, flush_queues-IsSent}

-- A datagram from the ethernet, a packet from a core, or a flush of all queues while no packet can
-- go round in a circle.
pub data Step (mem : Memory) (s s' : Dispatcher) : Type 0 where
  receive : (r : Received) → receive_msg mem r s ≡ ok s' → Step mem s s'
  dispatch :
      (chip core type : ℕ) (buf : List ℕ)
      → dispatch_packet chip core type buf s ≡ ok s'
      → Step mem s s'
  flush :
      (fuel k : ℕ) (sent : List Sent)
      → IsAcyclic s.net k
      → queue_size < fuel
      → k + 1 < fuel
      → flush_queues fuel s ≡ ok (sent, s')
      → Step mem s s'

-- States that steps lead to.
pub data Reach (mem : Memory) (s : Dispatcher) : Dispatcher → Type 0 where
  here : Reach mem s s
  next : {t u : Dispatcher} → Reach mem s t → Step mem t u → Reach mem s u

IsSent-IsRunning :
    (s s' : Dispatcher) (waiting : Waiting) (o : Outcome (List Sent × Dispatcher))
    (sent : List Sent)
    → IsSent s waiting o
    → o ≡ ok (sent, s')
    → IsRunning s'
IsSent-IsRunning s s' waiting o sent f e =
    let same : f.state ≡ s' =
      ap (λ (o' : Outcome (List Sent × Dispatcher)). last o') (sym f.returns ∙ e) in
    rw same at f.running
  where
    last : Outcome (List Sent × Dispatcher) → Dispatcher
    last (ok (sent', t)) = t
    last _ = s

Step-IsRunning : {mem : Memory} {s s' : Dispatcher} → Step mem s s' → IsRunning s → IsRunning s'
Step-IsRunning {mem} {s} {s'} (receive r e) v =
    Ensures-ok IsRunning (receive_msg mem r s) s' (receive_msg-IsRunning mem r s v) e
Step-IsRunning {mem} {s} {s'} (dispatch chip core type buf e) v =
    Ensures-ok IsRunning (dispatch_packet chip core type buf s) s'
      (dispatch_packet-IsRunning chip core type buf s v) e
Step-IsRunning {mem} {s} {s'} (flush fuel k sent a big enough e) v =
    IsSent-IsRunning s s' v.waiting (flush_queues fuel s) sent
      (flush_queues-IsSent fuel k s v a big enough) e

-- Whatever datagrams from the ethernet and packets from the cores a running dispatcher handles, in
-- any order and with flushes of the queues in between, with enough fuel and while no packet can go
-- round in a circle, in every state that it comes to it is initialised, the link table is the
-- computed one, the packet queues hold at most 1024 packets, all of them noticed and in the queues
-- with index 0, and the message queues are well formed.
pub Reach-IsRunning :
    {mem : Memory} {s s' : Dispatcher} → Reach mem s s' → IsRunning s → IsRunning s'
Reach-IsRunning here v = v
Reach-IsRunning (next r st) v = Step-IsRunning st (Reach-IsRunning r v)

-- The queues in the memory from `malloc` are empty, as in memory that the kernel has just given.
pub record IsZeroed (mem : Memory) : Type 0 where
  pub queues : (t c : ℕ) → (mem.queues t c).len ≡ 0
  pub head : (t c : ℕ) → mem.head t c ≡ 0
  pub tail : (t c : ℕ) → mem.tail t c ≡ 0

abbrev no_cells : Table (List Cell)
no_cells id c = []

pub if_false {ℓ} : {A : Type ℓ} (b : Bool) (x y : A) → b ≡ false → (if b then x else y) ≡ y
if_false true x y e = cc
if_false false x y e = refl

-- The calls of the operating system for a board succeed: `socketpair` gives `ends`, `fork` gives
-- `ids`.
pub record IsServed (d : Dims) (ends : Table (ℕ × ℕ)) (ids : Table ℕ) (os : Calls) : Type 0 where
  pub malloc : os.malloc ≡ true
  pub mkdtemp : os.mkdtemp ≡ true
  pub pairs : (c i : ℕ) → c < num_chips d → i < num_cpus → os.pairs c i ≡ some (ends c i)
  pub pids : (c i : ℕ) → c < num_chips d → i < num_cpus → os.pids c i ≡ some (ids c i)

-- The state after `cmd_p2pc` for a board `net` and its processes.
abbrev fresh_board : Memory → Net → Sockets → Children → Dispatcher → Dispatcher
fresh_board mem net sockets children s = record s {
  initialised = true;
  net = net;
  router = record s.router { queues = mem.queues };
  sdp = record s.sdp { head = mem.head; tail = mem.tail };
  running = mem.running;
  sockets = sockets;
  children = children;
}

cmd_p2pc_fresh :
    (mem : Memory) (x y : ℕ) (net : Net) (sockets : Sockets) (children : Children) (s : Dispatcher)
    → s.initialised ≡ false
    → x * y < 2 ^ 30
    → mem.calls.malloc ≡ true
    → mem.calls.mkdtemp ≡ true
    → setup_net (record { chips_x = x; chips_y = y }) mem.routes mem.targets ≡ some net
    → start_cores
        (record { chips_x = x; chips_y = y })
        mem.calls.pairs
        mem.calls.pids
        mem.calls.sockets
        mem.calls.child_pid
      ≡ ok (sockets, children)
    → cmd_p2pc mem x y s ≡ ok (fresh_board mem net sockets children s)
unfolding cmd_p2pc
cmd_p2pc_fresh mem x y net sockets children s off few given named e run =
    let board = λ (r : Sockets × Children) (net' : Net). fresh_board mem net' (r.0) (r.1) s in
    if_false s.initialised (ok s) _ off
    ∙ rw (lt→ltb (x * y) (2 ^ 30) few, given, named)
        (ap
            (λ (o : Option Net). set_up o (λ net'.
              start_cores (record { chips_x = x; chips_y = y }) mem.calls.pairs mem.calls.pids
                mem.calls.sockets mem.calls.child_pid
              >>= λ r. ok (board r net')))
            e
          ∙ ap (λ (o : Outcome (Sockets × Children)). o >>= λ r. ok (board r net)) run)

fresh_board-IsRunning :
    (mem : Memory) (net : Net) (sockets : Sockets) (children : Children) (s : Dispatcher)
    → IsZeroed mem
    → 0 < s.sdp.fresh
    → HasLinks net
    → IsRunning (fresh_board mem net sockets children s)
fresh_board-IsRunning mem net sockets children s z some_fresh w = record {
  initialised = refl;
  linked = w;
  ready = record { fits = λ t. omega (arith, z.queues t 0); quiet = λ t c ne. z.queues t c };
  noticed = λ t lt. inl (z.queues t 0);
  waiting = λ id c. [];
  holds = record {
    cells = no_cells;
    is_store = record {
      owner = λ a. (0, 0);
      started = some_fresh;
      chains = λ id c. z.head id c;
      tails = λ id c. z.tail id c;
      owned = λ id c. tt;
    };
    holds = λ id c. refl;
  };
}

-- A running dispatcher with a board of `x` by `y` chips, whose cores were all started.
pub record IsBoard (x y : ℕ) (ends : Table (ℕ × ℕ)) (ids : Table ℕ) (s : Dispatcher) : Type 0 where
  pub running : IsRunning s
  pub size : s.net.dims ≡ record { chips_x = x; chips_y = y }
  pub started : IsStarted (record { chips_x = x; chips_y = y }) ends ids s.sockets s.children

-- A dispatcher that is not initialised sets up a board from fresh memory.
pub cmd_p2pc-IsBoard :
    (mem : Memory) (x y : ℕ) (ends : Table (ℕ × ℕ)) (ids : Table ℕ) (s : Dispatcher)
    → x * y < 2 ^ 30
    → IsServed (record { chips_x = x; chips_y = y }) ends ids mem.calls
    → IsZeroed mem
    → s.initialised ≡ false
    → 0 < s.sdp.fresh
    → (s' : Dispatcher) × (cmd_p2pc mem x y s ≡ ok s') × IsBoard x y ends ids s'
cmd_p2pc-IsBoard mem x y ends ids s few served z off some_fresh =
    let d : Dims = record { chips_x = x; chips_y = y } in
    let (net, e, dims, links, drops) = setup_net_lem d mem.routes mem.targets in
    let (sockets, children, run, started) =
      start_cores-IsStarted d ends ids mem.calls.pairs mem.calls.pids mem.calls.sockets
        mem.calls.child_pid served.pairs served.pids in
    (
      fresh_board mem net sockets children s,
      cmd_p2pc_fresh mem x y net sockets children s off few served.malloc served.mkdtemp e run,
      record {
        running = fresh_board-IsRunning mem net sockets children s z some_fresh links;
        size = dims;
        started = started;
      },
    )

-- Started with two arguments whose product is below 2^30 on fresh memory with empty queues, with a
-- heap whose next address is not 0, and where `malloc`, `mkdtemp` and each `socketpair` and `fork`
-- for a core of the board succeed, a dispatcher that is not initialised sets up the board of that
-- size without a failed assertion and is then running, with the process of every core started and
-- its socket kept.
pub boot-IsRunning :
    (mem : Memory) (x y : ℕ) (ends : Table (ℕ × ℕ)) (ids : Table ℕ) (s : Dispatcher)
    → x * y < 2 ^ 30
    → IsServed (record { chips_x = x; chips_y = y }) ends ids mem.calls
    → IsZeroed mem
    → s.initialised ≡ false
    → 0 < s.sdp.fresh
    → (s' : Dispatcher) × (boot mem (some (x, y)) s ≡ ok s') × IsBoard x y ends ids s'
unfolding boot
boot-IsRunning mem x y ends ids s few served z off some_fresh =
    let s' : Dispatcher = record s { tags = record s.tags { table = iptag_init s.tags.table } } in
    cmd_p2pc-IsBoard mem x y ends ids s' few served z off some_fresh
