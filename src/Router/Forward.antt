-- ===== src/Router/Forward.antt =====
-- The two loops of `route_mc` at the entry that matches (spin_emu_dispatcher.c).
use spi_nnaker_emulator.Base.{
  ℕ, zero, suc, ◌+◌, ◌<◌, ◌≤◌, ◌≡◌, ◌≢◌, ◌⊎◌, inl, inr, refl, ap, ◌∙◌, sym, arith, true, Bool-cases,
  eq-cases, has_bit, some, Table, update_self, update_ne, count_up, count_up_keep, List, [], ◌∷◌,
  ◌++◌, if◌then◌else◌,
}
use spi_nnaker_emulator.Base.Int.{ℤ, pos, negsuc}
use mathlib.Core.List.{append-nil, append_assoc}
use spi_nnaker_emulator.Grid.{num_links, num_cpus, num_chips, channel_target}
use spi_nnaker_emulator.Grid.Links.{channel_target-injective}
use spi_nnaker_emulator.McQueue.{Mc, Queue, contents}
use spi_nnaker_emulator.McQueue.Fifo.{enqueue, queue_mc_refines}
use spi_nnaker_emulator.Wire.{Route, send_mc}
use spi_nnaker_emulator.Router.{
  Net, State, Datagram, queue_at, send_to, over_link, send_link, send_core, forward,
}

-- `queue_at` touches one queue.
pub queue_at_self :
    (chip core : ℕ) (mc : Mc) (s : State)
    → contents ((queue_at chip core mc s).queues chip core)
      ≡ enqueue (contents (s.queues chip core)) mc
unfolding queue_at
queue_at_self chip core mc s =
    rw update_self ((queue_mc_refines (s.queues chip core) s.mc_pending mc).0)

pub queue_at_ne :
    (chip core chip' core' : ℕ) (mc : Mc) (s : State)
    → (chip ≢ chip') ⊎ (core ≢ core')
    → (queue_at chip core mc s).queues chip' core' ≡ s.queues chip' core'
unfolding queue_at
queue_at_ne chip core chip' core' mc s h = update_ne s.queues chip core chip' core' _ h

over_link_other :
    (z : ℤ) (t c : ℕ) (mc : Mc) (s : State)
    → (z ≢ pos t) ⊎ (c ≢ 0)
    → (over_link z mc s).queues t c ≡ s.queues t c
unfolding over_link
over_link_other (pos u) t c mc s (inl h) = queue_at_ne u 0 t c mc s (inl (λ e. h (ap pos e)))
over_link_other (pos u) t c mc s (inr h) = queue_at_ne u 0 t c mc s (inr (λ e. h (sym e)))
over_link_other (negsuc _) t c mc s h = refl

-- The link table of the board is the one that `cmd_p2pc` computes.
abbrev pub HasLinks : Net → Type 0
HasLinks net =
    (c j : ℕ)
    → c < num_chips net.dims
    → j < num_links
    → channel_target net.dims c j ≡ some (net.channel_targets c j)

module _ (net : Net) (chip : ℕ) (r : Route) (mc : Mc) where
  -- Link `j` of the chip is in the route and leads to chip `t`.
  abbrev pub Leads : ℕ → ℕ → Type 0
  Leads j t = (has_bit r.route j ≡ true) × (net.channel_targets chip j ≡ pos t)

  send_link_other :
      (j t c : ℕ) (s : State)
      → ¬ (Leads j t) ⊎ (c ≢ 0)
      → (send_link net chip r mc j s).queues t c ≡ s.queues t c
  unfolding send_link
  send_link_other j t c s h = elim (Bool-cases (has_bit r.route j)) [
    | inl bit ↦ rw bit (over_link_other (net.channel_targets chip j) t c mc s (unlinked bit h))
    | inr off ↦ rw off
  ]
    where
      unlinked :
          has_bit r.route j ≡ true
          → ¬ (Leads j t) ⊎ (c ≢ 0)
          → (net.channel_targets chip j ≢ pos t) ⊎ (c ≢ 0)
      unlinked bit (inl away) = inl (λ e. away (bit, e))
      unlinked bit (inr ne) = inr ne

  send_link_hit :
      (j t : ℕ) (s : State)
      → Leads j t
      → contents ((send_link net chip r mc j s).queues t 0) ≡ enqueue (contents (s.queues t 0)) mc
  unfolding send_link
  send_link_hit j t s (bit, target) = rw (bit, target) (queue_at_self t 0 mc s)

  send_core_queues : (j : ℕ) (s : State) → (send_core net chip r mc j s).queues ≡ s.queues
  unfolding send_core send_to
  send_core_queues j s = ground arith

  send_link_sent : (j : ℕ) (s : State) → (send_link net chip r mc j s).sent ≡ s.sent
  unfolding send_link queue_at
  send_link_sent j s = ground arith

  links : ℕ → ℕ → State → State
  links n i s = count_up n i (send_link net chip r mc) s

  links_other :
      (n i t c : ℕ) (s : State)
      → ((j : ℕ) → i ≤ j → j < i + n → ¬ (Leads j t) ⊎ (c ≢ 0))
      → (links n i s).queues t c ≡ s.queues t c
  unfolding links
  links_other n i t c s h =
      count_up_keep (λ (s : State). s.queues t c) (send_link net chip r mc) n i s
        (λ j s p q. send_link_other j t c s (h j p q))

  -- The round for link `k` is the only one that touches the queue of its target.
  links_hit :
      (n i k t : ℕ) (s : State)
      → i ≤ k
      → k < i + n
      → Leads k t
      → ((j : ℕ) → i ≤ j → j < i + n → Leads j t → j ≡ k)
      → contents ((links n i s).queues t 0) ≡ enqueue (contents (s.queues t 0)) mc
  unfolding links count_up
  links_hit zero i k t s p q h u = absurd (omega arith)
  links_hit (suc n) i k t s p q h u = elim (eq-cases i k) [
    | inl e ↦
        ap contents (
          links_other n (i + 1) t 0 (send_link net chip r mc i s)
            (λ j p' q'. inl (λ l. absurd (later j p' q' l e))))
        ∙ send_link_hit i t s (rw e h)
    | inr ne ↦
        links_hit n (i + 1) k t (send_link net chip r mc i s) (omega arith) (omega arith) h
          (λ j p' q' l. u j (omega arith) (omega arith) l)
        ∙ ap (λ q. enqueue (contents q) mc)
            (send_link_other i t 0 s (inl (λ l. ne (u i (omega arith) (omega arith) l))))
  ]
    where
      later : (j : ℕ) → i + 1 ≤ j → j < i + 1 + n → Leads j t → i ≡ k → ⊥
      later j p' q' l e = omega (arith, u j (omega arith) (omega arith) l)

  cores_queues :
      (n i : ℕ) (s : State) → (count_up n i (send_core net chip r mc) s).queues ≡ s.queues
  cores_queues n i s =
      count_up_keep (λ (s : State). s.queues) (send_core net chip r mc) n i s
        (λ j s p q. send_core_queues j s)

  -- The datagrams for the cores of the route among the `n` cores from `i` on, in their order.
  abbrev pub core_datagrams : ℕ → ℕ → List Datagram
  core_datagrams zero i = []
  core_datagrams (suc n) i =
      if has_bit r.route (i + num_links)
      then record { chip = chip; core = i; bytes = send_mc mc } ∷ core_datagrams n (i + 1)
      else core_datagrams n (i + 1)

  send_core_datagrams :
      (n i : ℕ) (s : State)
      → (send_core net chip r mc i s).sent ++ core_datagrams n (i + 1)
        ≡ s.sent ++ core_datagrams (suc n) i
  unfolding send_core send_to
  send_core_datagrams n i s = elim (Bool-cases (has_bit r.route (i + num_links))) [
    | inl bit ↦ rw bit (append_assoc s.sent _ _)
    | inr off ↦ rw off
  ]

  cores_sent :
      (n i : ℕ) (s : State)
      → (count_up n i (send_core net chip r mc) s).sent ≡ s.sent ++ core_datagrams n i
  unfolding count_up
  cores_sent zero i s = sym (append-nil s.sent)
  cores_sent (suc n) i s =
      cores_sent n (i + 1) (send_core net chip r mc i s) ∙ send_core_datagrams n i s

  -- What `route_mc` sends at the entry that matches is one datagram with the packet to each core
  -- whose bit is set in the route, in the order of the cores, and nothing else.
  pub forward_sent :
      (s : State) → (forward net chip r mc s).sent ≡ s.sent ++ core_datagrams num_cpus 0
  unfolding forward
  forward_sent s =
      cores_sent num_cpus 0 (count_up num_links 0 (send_link net chip r mc) s)
      ∙ ap (λ xs. xs ++ core_datagrams num_cpus 0)
          (count_up_keep (λ (s : State). s.sent) (send_link net chip r mc) num_links 0 s
            (λ j s p q. send_link_sent j s))

  -- No queue changes but those of the chips that a link of the route leads to, and of those only
  -- the one with index 0.
  pub forward_other :
      (t c : ℕ) (s : State)
      → ((j : ℕ) → j < num_links → ¬ (Leads j t) ⊎ (c ≢ 0))
      → (forward net chip r mc s).queues t c ≡ s.queues t c
  unfolding forward
  forward_other t c s h =
      ap (λ (q : Table Queue). q t c) (cores_queues num_cpus 0 _)
      ∙ unfold links in links_other num_links 0 t c s (λ j p q. h j (omega arith))

  -- On a board with the computed link table, a chip that a link of the route leads to from a chip
  -- of the board gets the packet once, at the end of its queue, if that has room.
  pub forward_reached :
      (k t : ℕ) (s : State)
      → HasLinks net
      → chip < num_chips net.dims
      → k < num_links
      → Leads k t
      → contents ((forward net chip r mc s).queues t 0) ≡ enqueue (contents (s.queues t 0)) mc
  unfolding forward
  forward_reached k t s w hc hk l =
      ap (λ (q : Table Queue). contents (q t 0)) (cores_queues num_cpus 0 _)
      ∙ unfold links in
        links_hit num_links 0 k t s (omega arith) hk l (λ j p q l'.
          channel_target-injective net.dims j k chip t (omega arith) hk
            (w chip j hc (omega arith) ∙ ap some (l'.1)) (w chip k hc hk ∙ ap some (l.1)))
