-- ===== src/Router/Keep.antt =====
-- Invariants of `route_mc` (spin_emu_dispatcher.c): the queues and `mc_pending` after a call.
use spi_nnaker_emulator.Base.{
  ℕ, ◌+◌, ◌<◌, ◌≤◌, ◌≡◌, ◌≢◌, ◌⊎◌, inl, inr, refl, ap, ◌∙◌, sym, arith, Bool, true, Bool-cases,
  eq-cases, has_bit, update_ne, count_up_inv, List, [], ◌∷◌, All, All-append, length, ltb, some,
  Table,
}
use spi_nnaker_emulator.Base.Int.{ℤ, pos, negsuc}
use spi_nnaker_emulator.Grid.{num_links, num_cpus, num_chips}
use spi_nnaker_emulator.Grid.Links.{channel_target-ne}
use spi_nnaker_emulator.McQueue.{Mc, Queue, queue_size, contents, queue_mc}
use spi_nnaker_emulator.McQueue.Fifo.{enqueue, queue_mc_bound}
use spi_nnaker_emulator.Wire.{Route, num_routes}
use spi_nnaker_emulator.Router.{
  Net, State, queue_at, send_to, over_link, send_link, send_core, forward, route_mc,
}
use spi_nnaker_emulator.Router.Match.{IsFirst, route_mc_cases}
use spi_nnaker_emulator.Router.Forward.{HasLinks, Leads, queue_at_self, queue_at_ne}

-- An invariant of the router's state that mentions the queues and `mc_pending` alone, and that
-- queueing a packet keeps wherever the packet may go.
module _ {ℓ} (P : Table Queue → Bool → Type ℓ) where
  abbrev pub Holds : State → Type ℓ
  Holds s = P s.queues s.mc_pending

module _ {ℓ} (P : Table Queue → Bool → Type ℓ) (net : Net) (chip : ℕ) (mc : Mc) where
  over_link-Holds :
      (z : ℤ) (s : State)
      → ((t : ℕ) (s : State) → z ≡ pos t → Holds P s → Holds P (queue_at t 0 mc s))
      → Holds P s
      → Holds P (over_link z mc s)
  unfolding over_link
  over_link-Holds (pos t) s keep h = keep t s refl h
  over_link-Holds (negsuc _) s keep h = h

  send_link-Holds :
      (r : Route) (j : ℕ) (s : State)
      → ((t : ℕ) (s : State) → Leads net chip r mc j t → Holds P s → Holds P (queue_at t 0 mc s))
      → Holds P s
      → Holds P (send_link net chip r mc j s)
  unfolding send_link
  send_link-Holds r j s keep h = elim (Bool-cases (has_bit r.route j)) [
    | inl bit ↦
        rw bit (over_link-Holds (net.channel_targets chip j) s (λ t s e. keep t s (bit, e)) h)
    | inr off ↦ rw off h
  ]

  send_core-Holds :
      (r : Route) (j : ℕ) (s : State) → Holds P s → Holds P (send_core net chip r mc j s)
  unfolding send_core send_to
  send_core-Holds r j s h = elim (Bool-cases (has_bit r.route (j + num_links))) [
    | inl bit ↦ rw bit h
    | inr off ↦ rw off h
  ]

  forward-Holds :
      (r : Route) (s : State)
      → ((j t : ℕ) (s : State)
          → j < num_links
          → Leads net chip r mc j t
          → Holds P s
          → Holds P (queue_at t 0 mc s))
      → Holds P s
      → Holds P (forward net chip r mc s)
  unfolding forward
  forward-Holds r s keep h =
      count_up_inv (λ _ s. Holds P s) (send_core net chip r mc) num_cpus 0 num_cpus _ (omega arith)
        (λ j s p q g. send_core-Holds r j s g)
        (count_up_inv (λ _ s. Holds P s) (send_link net chip r mc) num_links 0 num_links s
          (omega arith) (λ j s p q g. send_link-Holds r j s (λ t s l. keep j t s q l) g) h)

  -- `route_mc` keeps what every queueing along a matching entry keeps.
  pub route_mc-Holds :
      (s : State)
      → ((k j t : ℕ) (s : State)
          → k < num_routes
          → IsFirst net chip mc 0 k
          → j < num_links
          → Leads net chip (net.routes chip k) mc j t
          → Holds P s
          → Holds P (queue_at t 0 mc s))
      → Holds P s
      → Holds P (route_mc net chip mc s)
  route_mc-Holds s keep h = elim (route_mc_cases net chip mc s) [
    | inl (k, lt, first, e) ↦
        rw e (forward-Holds (net.routes chip k) s (λ j t s q l. keep k j t s lt first q l) h)
    | inr (none_hits, e) ↦ rw e h
  ]

-- Leading to a chip over a link of the computed table is leading to another chip of the board.
pub Leads-away :
    (net : Net) (chip j t : ℕ) (r : Route) (mc : Mc)
    → HasLinks net
    → chip < num_chips net.dims
    → j < num_links
    → Leads net chip r mc j t
    → chip ≢ t
Leads-away net chip j t r mc w hc hj l =
    channel_target-ne net.dims j chip t hj (w chip j hc hj ∙ ap some (l.1))

-- A packet is never queued on the chip that routes it.
pub route_mc_self :
    (net : Net) (chip : ℕ) (mc : Mc) (s : State)
    → HasLinks net
    → chip < num_chips net.dims
    → (route_mc net chip mc s).queues chip 0 ≡ s.queues chip 0
route_mc_self net chip mc s w hc =
    route_mc-Holds (λ qs _. qs chip 0 ≡ s.queues chip 0) net chip mc s
      (λ k j t s' lt first hj l e.
        queue_at_ne t 0 chip 0 mc s'
          (inl (λ x. Leads-away net chip j t (net.routes chip k) mc w hc hj l (sym x)))
        ∙ e)
      refl

-- The shape of the queues between two steps of the dispatcher: none holds more than 1024 packets,
-- and packets wait in the queues with index 0 alone.
pub record IsReady (queues : Table Queue) : Type 0 where
  pub fits : (t : ℕ) → (queues t 0).len ≤ queue_size
  pub quiet : (t c : ℕ) → c ≢ 0 → (queues t c).len ≡ 0

pub queue_at-IsReady :
    (t : ℕ) (mc : Mc) (s : State) → IsReady s.queues → IsReady (queue_at t 0 mc s).queues
unfolding queue_at
queue_at-IsReady t mc s v = record {
  fits = λ u. ground (arith, queue_mc_bound (s.queues t 0) s.mc_pending mc, v.fits t, v.fits u);
  quiet = λ u c ne. rw (update_ne s.queues t 0 u c _ (inr (λ e. ne (sym e)))) (v.quiet u c ne);
}

pub route_mc-IsReady :
    (net : Net) (chip : ℕ) (mc : Mc) (s : State)
    → IsReady s.queues
    → IsReady (route_mc net chip mc s).queues
route_mc-IsReady net chip mc s v =
    route_mc-Holds (λ qs _. IsReady qs) net chip mc s
      (λ k j t s' lt first hj l. queue_at-IsReady t mc s') v

-- What holds of every packet queued on each chip.
abbrev pub AllQueued : (ℕ → Mc → Type 0) → Table Queue → Type 0
AllQueued Q queues = (t : ℕ) → All (Q t) (contents (queues t 0))

All-enqueue : (Q : Mc → Type 0) (xs : List Mc) (mc : Mc) → All Q xs → Q mc → All Q (enqueue xs mc)
All-enqueue Q xs mc h q = elim (Bool-cases (ltb (length xs) queue_size)) [
  | inl room ↦ rw room (All-append Q xs (mc ∷ []) h (q, tt))
  | inr full ↦ rw full h
]

pub queue_at-AllQueued :
    (Q : ℕ → Mc → Type 0) (t : ℕ) (mc : Mc) (s : State)
    → Q t mc
    → AllQueued Q s.queues
    → AllQueued Q (queue_at t 0 mc s).queues
queue_at-AllQueued Q t mc s q h u = elim (eq-cases t u) [
  | inl e ↦
      rw (← e)
        (rw (queue_at_self t 0 mc s) (All-enqueue (Q t) (contents (s.queues t 0)) mc (h t) q))
  | inr ne ↦ rw (queue_at_ne t 0 u 0 mc s (inl ne)) (h u)
]

-- Nothing is lost from sight: where chip `t` below the bound has packets, `mc_pending` is raised.
abbrev pub Noticed : ℕ → Table Queue → Bool → Type 0
Noticed bound queues pending = (t : ℕ) → t < bound → ((queues t 0).len ≡ 0) ⊎ (pending ≡ true)

pub queue_at-Noticed :
    (bound t : ℕ) (mc : Mc) (s : State)
    → Noticed bound s.queues s.mc_pending
    → Noticed bound (queue_at t 0 mc s).queues (queue_at t 0 mc s).mc_pending
unfolding queue_at queue_mc
queue_at-Noticed bound t mc s h u lt = ground (arith, h u)
