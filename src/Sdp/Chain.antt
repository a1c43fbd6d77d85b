-- ===== src/Sdp/Chain.antt =====
-- The linked lists of `sdp_queue` (spin_emu_dispatcher.c): what hangs from a pointer.
use spi_nnaker_emulator.Base.{
  ℕ, zero, suc, ◌+◌, ◌<◌, ◌≤◌, ◌≡◌, ◌≢◌, refl, sym, ap, ◌∙◌, arith, List, [], ◌∷◌, ◌++◌, Option,
  none, some, put, put_ne, All, length, map,
}
use spi_nnaker_emulator.Base.Outcome.{ok}
use spi_nnaker_emulator.Sdp.Message.{Msg}
use spi_nnaker_emulator.Sdp.Store.{Node, flush_from}

-- A message and the address of its node.
abbrev pub Cell : Type 0
Cell = ℕ × Msg

abbrev pub Nodes : Type 0
Nodes = ℕ → Option Node

-- From pointer `p` hang the cells of the list, at ascending addresses above `lo`.
abbrev pub Chain : Nodes → ℕ → ℕ → List Cell → Type 0
Chain nodes lo p [] = p ≡ 0
Chain nodes lo p ((q, m) ∷ r) =
    (next : ℕ) × (p ≡ q)
    × (lo < q)
    × (nodes q ≡ some (record { msg = m; next = next }))
    × Chain nodes q next r

-- The address of the last cell, or NULL.
abbrev pub last_address : List Cell → ℕ
last_address [] = 0
last_address ((q, m) ∷ []) = q
last_address ((q, m) ∷ c ∷ r) = last_address (c ∷ r)

-- Nodes that agree on a chain's addresses hold the same chain.
pub Chain-frame :
    (nodes nodes' : Nodes) (lo p : ℕ) (l : List Cell)
    → All (λ e. nodes' (e.0) ≡ nodes (e.0)) l
    → Chain nodes lo p l
    → Chain nodes' lo p l
Chain-frame nodes nodes' lo p [] a h = h
Chain-frame nodes nodes' lo p ((q, m) ∷ r) a (next, e, lt, n, h) =
    (next, e, lt, a.0 ∙ n, Chain-frame nodes nodes' q next r (a.1) h)

last_address-gt :
    (nodes : Nodes) (lo p : ℕ) (c : Cell) (l : List Cell)
    → Chain nodes lo p (c ∷ l)
    → lo < last_address (c ∷ l)
last_address-gt nodes lo p (q, m) [] h = h.2
last_address-gt nodes lo p (q, m) (c ∷ l) h =
    omega (arith, h.2, last_address-gt nodes q (h.0) c l (h.4))

pub last_address-pos :
    (nodes : Nodes) (p : ℕ) (c : Cell) (l : List Cell)
    → Chain nodes 0 p (c ∷ l)
    → last_address (c ∷ l) ≢ 0
last_address-pos nodes p c l h e = omega (arith, last_address-gt nodes 0 p c l h)

-- The node at the end of a chain.
pub last_node :
    (nodes : Nodes) (lo p : ℕ) (c : Cell) (l : List Cell)
    → Chain nodes lo p (c ∷ l)
    → (n : Node) × (nodes (last_address (c ∷ l)) ≡ some n)
last_node nodes lo p (q, m) [] (next, e, lt, n, h) = (record { msg = m; next = next }, n)
last_node nodes lo p (q, m) (c ∷ l) (next, e, lt, n, h) = last_node nodes q next c l h

-- A fresh node hung behind the last one extends the chain by its message.
pub Chain-snoc :
    (nodes : Nodes) (lo p f : ℕ) (c : Cell) (l : List Cell) (msg : Msg) (n : Node)
    → Chain nodes lo p (c ∷ l)
    → All (λ e. e.0 < f) (c ∷ l)
    → nodes (last_address (c ∷ l)) ≡ some n
    → Chain
        (put
          (put nodes f (some (record { msg = msg; next = 0 })))
          (last_address (c ∷ l))
          (some (record n { next = f })))
        lo
        p
        ((c ∷ l) ++ (f, msg) ∷ [])
Chain-snoc nodes lo p f (q, m) [] msg n (next, e, lt, at_q, h) (below, _) at_t =
    (f, e, lt, ground arith, (0, refl, below, ground arith, refl))
Chain-snoc nodes lo p f (q, m) (c ∷ l) msg n (next, e, lt, at_q, h) (below, a) at_t =
    let gt = last_address-gt nodes q next c l h in
    (next, e, lt, ground (arith, gt), Chain-snoc nodes q next f c l msg n h a at_t)

-- Freeing a node in front of a chain leaves the chain.
pub Chain-free :
    (nodes : Nodes) (lo p q : ℕ) (l : List Cell)
    → q ≤ lo
    → Chain nodes lo p l
    → Chain (put nodes q none) lo p l
Chain-free nodes lo p q [] le h = h
Chain-free nodes lo p q ((q', m) ∷ r) le (next, e, lt, n, h) =
    (next, e, lt, ground arith, Chain-free nodes q' next q r (omega arith) h)

-- The flush loop sends the messages of the chain in order and frees exactly its nodes.
pub flush_from-Chain :
    (l : List Cell) (nodes : Nodes) (lo p fuel : ℕ)
    → Chain nodes lo p l
    → length l ≤ fuel
    → (nodes' : Nodes) × (flush_from fuel p nodes ≡ ok (map (λ e. e.1) l, nodes'))
      × ((a : ℕ) → All (λ e. e.0 ≢ a) l → nodes' a ≡ nodes a)
unfolding flush_from
flush_from-Chain [] nodes lo zero fuel h le = (nodes, refl, λ a away. refl)
flush_from-Chain [] nodes lo (suc p) fuel h le = absurd (omega arith)
flush_from-Chain ((q, m) ∷ r) nodes lo zero fuel (next, e, lt, n, h) le = absurd (omega arith)
flush_from-Chain ((q, m) ∷ r) nodes lo (suc p) zero h le = absurd (omega arith)
flush_from-Chain ((q, m) ∷ r) nodes lo (suc p) (suc fuel) (next, e, lt, n, h) le =
    let (nodes', ran, same) =
      flush_from-Chain r (put nodes (suc p) none) q next fuel
        (Chain-free nodes q next (suc p) r (omega arith) h) (omega arith) in
    (
      nodes',
      rw (ap nodes e ∙ n, flush_from) (rw ran),
      λ a away. same a (away.1) ∙ put_ne nodes (suc p) a none (λ x. away.0 (sym e ∙ x)),
    )

-- Ascending addresses below `f` leave room for no more than `f` cells.
pub length-lt :
    (nodes : Nodes) (lo p f : ℕ) (l : List Cell)
    → Chain nodes lo p l
    → All (λ e. e.0 < f) l
    → lo < f
    → length l + lo < f
length-lt nodes lo p f [] h a lt = omega arith
length-lt nodes lo p f ((q, m) ∷ r) (next, e, gt, n, h) (below, a) lt =
    omega (arith, length-lt nodes q next f r h a below)

pub last_address-snoc : (l : List Cell) (f : ℕ) (msg : Msg) → last_address (l ++ (f, msg) ∷ []) ≡ f
last_address-snoc [] f msg = refl
last_address-snoc ((q, m) ∷ []) f msg = refl
last_address-snoc ((q, m) ∷ c ∷ r) f msg = last_address-snoc (c ∷ r) f msg

-- What holds of every address of a list holds of the last.
pub All-last {ℓ} :
    (P : ℕ → Type ℓ) (c : Cell) (l : List Cell)
    → All (λ e. P (e.0)) (c ∷ l)
    → P (last_address (c ∷ l))
All-last P (q, m) [] a = a.0
All-last P (q, m) (c ∷ l) a = All-last P c l (a.1)
