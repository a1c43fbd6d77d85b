-- ===== src/Sdp/Store.antt =====
-- The memory of the message queues: nodes from `malloc`, and a head and a tail pointer for each
-- core of each chip. Pointer 0 is NULL; a node that is freed or was never allocated is `none`.
use spi_nnaker_emulator.Base.{
  ℕ, zero, suc, ◌+◌, ◌==◌, List, [], ◌∷◌, ◌++◌, Option, none, some, Table, update, map, put,
  if◌then◌else◌,
}
use spi_nnaker_emulator.Base.Outcome.{Outcome, ok, fault, spent, ◌>>=◌}
use spi_nnaker_emulator.Grid.{Dims, num_chips, num_cpus}
use spi_nnaker_emulator.Sdp.Message.{Msg}

-- A queued message and its `next`.
pub record Node : Type 0 where
  pub msg : Msg
  pub next : ℕ

-- `sdp_queue` is `head`, `sdp_queue_tail` is `tail`; `fresh` is the next address that `malloc` gives.
pub record Store : Type 0 where
  pub nodes : ℕ → Option Node
  pub fresh : ℕ
  pub head : Table ℕ
  pub tail : Table ℕ

-- `sdp_queue_tail[id][c]->next = msg;`
unfoldable pub set_next : ℕ → ℕ → (ℕ → Option Node) → Outcome (ℕ → Option Node)
set_next t p nodes = elim (nodes t) [
  | none ↦ fault
  | some n ↦ ok (put nodes t (some (record n { next = p })))
]

-- `queue_sdp_xy(msg, id, c)`, the allocation of the node for the message included.
unfoldable pub queue_sdp_xy : Msg → ℕ → ℕ → Store → Outcome Store
unfolding set_next
queue_sdp_xy msg id c st =
    let p = st.fresh in
    let nodes = put st.nodes p (some (record { msg = msg; next = 0 })) in
    let linked : Outcome Store = set_next (st.tail id c) p nodes >>= λ nodes'.
    ok (record { nodes = nodes'; fresh = p + 1; head = st.head; tail = update st.tail id c p }) in
    let first : Outcome Store = ok (record {
      nodes = nodes;
      fresh = p + 1;
      head = update st.head id c p;
      tail = update st.tail id c p;
    }) in
    if st.tail id c == 0 then first else linked

-- The inner loop of `flush_sdp_queues`: the messages sent, in order, and the nodes left. Each node
-- is freed after its `next` is read; `spent` says that the fuel ran out.
unfoldable pub flush_from : ℕ → ℕ → (ℕ → Option Node) → Outcome (List Msg × (ℕ → Option Node))
flush_from fuel zero nodes = ok ([], nodes)
flush_from zero (suc p) nodes = spent
flush_from (suc fuel) (suc p) nodes = elim (nodes (suc p)) [
  | none ↦ fault
  | some n ↦ flush_from fuel n.next (put nodes (suc p) none) >>= λ r. ok (n.msg ∷ r.0, r.1)
]

-- The body of the loops of `flush_sdp_queues` for core `c` of chip `id`.
unfoldable pub flush_one : ℕ → ℕ → Store → Outcome (List Msg × Store)
unfolding flush_from
flush_one id c st = flush_from st.fresh (st.head id c) st.nodes >>= λ r. ok (
  r.0,
  record {
    nodes = r.1;
    fresh = st.fresh;
    head = update st.head id c 0;
    tail = update st.tail id c 0;
  },
)

-- A message sent to a core: `send(spin_emu_socket_dispatch[chip][core], ...)`.
pub record Sent : Type 0 where
  pub chip : ℕ
  pub core : ℕ
  pub msg : Msg

abbrev pub sent_to : ℕ → ℕ → List Msg → List Sent
sent_to id c = map (λ m. record { chip = id; core = c; msg = m })

-- The loops of `flush_sdp_queues`, over `n` cores of a chip from core `i` on and over `n` chips from
-- chip `id` on: what is sent, in order, and the store after it.
unfoldable pub flush_cores : ℕ → ℕ → ℕ → Store → Outcome (List Sent × Store)
unfolding flush_one
flush_cores zero i id st = ok ([], st)
flush_cores (suc n) i id st = flush_one id i st >>= λ r.
    flush_cores n (i + 1) id (r.1) >>= λ r'. ok (sent_to id i (r.0) ++ r'.0, r'.1)

unfoldable pub flush_chips : ℕ → ℕ → Store → Outcome (List Sent × Store)
unfolding flush_cores
flush_chips zero id st = ok ([], st)
flush_chips (suc n) id st = flush_cores num_cpus 0 id st >>= λ r.
    flush_chips n (id + 1) (r.1) >>= λ r'. ok (r.0 ++ r'.0, r'.1)

-- `flush_sdp_queues`.
unfoldable pub flush_sdp_queues : Dims → Store → Outcome (List Sent × Store)
unfolding flush_chips
flush_sdp_queues d st = flush_chips (num_chips d) 0 st
