-- ===== src/McQueue/Fifo.antt =====
-- The multicast queue (`queue_mc`, spin_emu_dispatcher.c) seen as a list of packets.
use spi_nnaker_emulator.Base.{
  ℕ, zero, suc, ◌+◌, ◌-◌, ◌%◌, ◌<◌, ◌≤◌, ◌≡◌, refl, ap, ap₂, arith, Bool, true, List, [], ◌∷◌, ◌++◌,
  ltb, put, put_ne, if◌then◌else◌, length,
}
use spi_nnaker_emulator.McQueue.{Mc, Queue, queue_size, queue_mc, front, advance, window, contents}

-- The abstract queue: a list that takes a packet at its end while it holds fewer than 1024.
abbrev pub enqueue : List Mc → Mc → List Mc
enqueue xs mc = if ltb (length xs) queue_size then xs ++ mc ∷ [] else xs

length-window : (slots : ℕ → Mc) (p n : ℕ) → length (window slots p n) ≡ n
unfolding window
length-window slots p zero = refl
length-window slots p (suc n) = ap suc (length-window slots (p + 1) n)

pub length-contents : (q : Queue) → length (contents q) ≡ q.len
unfolding contents
length-contents q = length-window q.slots q.pos q.len

-- A window that is not full does not read the slot just past it, and a longer one ends with it.
window-put :
    (slots : ℕ → Mc) (mc : Mc) (n p i : ℕ)
    → n < queue_size
    → i ≡ (p + n) % queue_size
    → window (put slots i mc) p (suc n) ≡ window slots p n ++ mc ∷ []
unfolding window
window-put slots mc zero p i h e = ap (λ x. x ∷ []) (ground arith)
window-put slots mc (suc n) p i h e =
    ap₂ ◌∷◌ (put_ne slots i (p % queue_size) mc (omega arith))
      (window-put slots mc n (p + 1) i (omega arith) (omega arith))

-- `queue_mc` appends the packet to what the queue holds and raises `mc_pending`, or drops it and
-- leaves `mc_pending` when 1024 packets or more are queued.
pub queue_mc_refines :
    (q : Queue) (pending : Bool) (mc : Mc)
    → (contents (queue_mc q pending mc).0 ≡ enqueue (contents q) mc)
      × ((queue_mc q pending mc).1 ≡ (if ltb q.len queue_size then true else pending))
unfolding queue_mc contents
queue_mc_refines q pending mc = ground (
  arith,
  length-window q.slots q.pos q.len,
  window-put q.slots mc q.len q.pos ((q.pos + q.len) % queue_size),
)

window_of_pos :
    (slots : ℕ → Mc) (p n : ℕ)
    → 0 < n
    → window slots p n ≡ slots (p % queue_size) ∷ window slots (p + 1) (n - 1)
unfolding window
window_of_pos slots p zero h = elim h [ ]
window_of_pos slots p (suc n) h =
    ap (λ k. slots (p % queue_size) ∷ window slots (p + 1) k) (omega arith)

-- While a queue is not empty, the front that a flush loop takes is its oldest packet, and `pos++`
-- and `len--` leave the others in their order.
pub contents-advance : (q : Queue) → 0 < q.len → contents q ≡ front q ∷ contents (advance q)
unfolding contents front advance
contents-advance q h = window_of_pos q.slots q.pos q.len h

-- No sequence of pushes holds more than 1024 packets.
pub queue_mc_bound :
    (q : Queue) (pending : Bool) (mc : Mc)
    → q.len ≤ queue_size
    → (queue_mc q pending mc).0.len ≤ queue_size
unfolding queue_mc
queue_mc_bound q pending mc h = ground arith

pub contents_of_empty : (q : Queue) → q.len ≡ 0 → contents q ≡ []
unfolding contents window
contents_of_empty q h = ap (window q.slots q.pos) h
