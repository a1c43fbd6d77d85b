-- ===== src/Router/Drain.antt =====
-- The loop of `route_one_mc_queue` (spin_emu_dispatcher.c): one round, and all of them.
use spi_nnaker_emulator.Base.{
  ℕ, zero, suc, ◌<◌, ◌≤◌, ◌≡◌, ◌≢◌, ◌⊎◌, inl, inr, refl, ap, ◌∙◌, sym, arith, Bool-cases, eq-cases,
  update_self, update_ne, ◌==◌, All, some, Option,
}
use spi_nnaker_emulator.Grid.{num_links, num_chips}
use spi_nnaker_emulator.McQueue.{Mc, Queue, queue_size, contents, front, advance}
use spi_nnaker_emulator.McQueue.Fifo.{contents-advance}
use spi_nnaker_emulator.Wire.{num_routes}
use spi_nnaker_emulator.Router.{Net, State, pop_at, route_mc, route_next, route_one_mc_queue}
use spi_nnaker_emulator.Router.Match.{IsFirst}
use spi_nnaker_emulator.Router.Forward.{HasLinks, Leads}
use spi_nnaker_emulator.Router.Keep.{
  IsReady, AllQueued, Noticed, route_mc_self, route_mc-Holds, route_mc-IsReady, queue_at-AllQueued,
  queue_at-Noticed,
}

-- What a packet satisfies on a chip, it satisfies on every chip that the router passes it to.
abbrev pub Spreads : Net → ℕ → (ℕ → Mc → Type 0) → Type 0
Spreads net chip Q =
    (mc : Mc) (k j t : ℕ)
    → Q chip mc
    → k < num_routes
    → IsFirst net chip mc 0 k
    → j < num_links
    → Leads net chip (net.routes chip k) mc j t
    → Q t mc

pop_at_self :
    (chip core : ℕ) (s : State)
    → (pop_at chip core s).queues chip core ≡ advance (s.queues chip core)
unfolding pop_at
pop_at_self chip core s = update_self s.queues chip core (advance (s.queues chip core))

pop_at_ne :
    (chip t c : ℕ) (s : State) → (chip ≢ t) ⊎ (c ≢ 0) → (pop_at chip 0 s).queues t c ≡ s.queues t c
unfolding pop_at
pop_at_ne chip t c s (inl ne) = update_ne s.queues chip 0 t c _ (inl ne)
pop_at_ne chip t c s (inr ne) = update_ne s.queues chip 0 t c _ (inr (λ e. ne (sym e)))

module _ (net : Net) (chip : ℕ) (w : HasLinks net) (hc : chip < num_chips net.dims) where
  -- One round takes the oldest packet off the queue of the chip.
  pub route_next_self :
      (s : State) → (route_next net chip s).queues chip 0 ≡ advance (s.queues chip 0)
  unfolding route_next
  route_next_self s =
      pop_at_self chip 0 (route_mc net chip (front (s.queues chip 0)) s)
      ∙ ap advance (route_mc_self net chip (front (s.queues chip 0)) s w hc)

  pub route_next_other :
      (s : State) (t c : ℕ)
      → (chip ≢ t) ⊎ (c ≢ 0)
      → (route_next net chip s).queues t c
        ≡ (route_mc net chip (front (s.queues chip 0)) s).queues t c
  unfolding route_next
  route_next_other s t c h = pop_at_ne chip t c (route_mc net chip (front (s.queues chip 0)) s) h

  route_next_pending :
      (s : State)
      → (route_next net chip s).mc_pending
        ≡ (route_mc net chip (front (s.queues chip 0)) s).mc_pending
  unfolding route_next pop_at
  route_next_pending s = refl

  pub route_next-IsReady : (s : State) → IsReady s.queues → IsReady (route_next net chip s).queues
  route_next-IsReady s v =
      let v' = route_mc-IsReady net chip (front (s.queues chip 0)) s v in
      record {
        fits = λ t. elim (eq-cases chip t) [
          | inl e ↦ rw (← e) (rw (route_next_self s) (shorter (s.queues chip 0) (v.fits chip)))
          | inr ne ↦ rw (route_next_other s t 0 (inl ne)) (v'.fits t)
        ];
        quiet = λ t c ne. rw (route_next_other s t c (inr ne)) (v'.quiet t c ne);
      }
    where
      shorter : (q : Queue) → q.len ≤ queue_size → (advance q).len ≤ queue_size
      shorter q h = unfold advance in omega arith

  route_next-AllQueued :
      (Q : ℕ → Mc → Type 0) (s : State)
      → Spreads net chip Q
      → 0 < (s.queues chip 0).len
      → AllQueued Q s.queues
      → AllQueued Q (route_next net chip s).queues
  route_next-AllQueued Q s spreads pos h t = elim (eq-cases chip t) [
    | inl e ↦ rw (← e) (rw (route_next_self s) (held.1))
    | inr ne ↦ rw (route_next_other s t 0 (inl ne)) (
        route_mc-Holds (λ qs _. AllQueued Q qs) net chip (front (s.queues chip 0)) s
          (λ k j u s' lt first hj l.
            queue_at-AllQueued Q u (front (s.queues chip 0)) s'
              (spreads (front (s.queues chip 0)) k j u (held.0) lt first hj l))
          h t)
  ]
    where
      held : Q chip (front (s.queues chip 0)) × All (Q chip) (contents (advance (s.queues chip 0)))
      held = rw (contents-advance (s.queues chip 0) pos) at (h chip)

  route_next-Noticed :
      (s : State)
      → Noticed chip s.queues s.mc_pending
      → Noticed chip (route_next net chip s).queues (route_next net chip s).mc_pending
  route_next-Noticed s h t lt =
      rw (route_next_other s t 0 (inl (λ e. omega arith)), route_next_pending s)
        (route_mc-Holds (λ qs p. Noticed chip qs p) net chip (front (s.queues chip 0)) s
          (λ k j u s' a first hj l. queue_at-Noticed chip u (front (s.queues chip 0)) s') h t lt)

  -- The state after the loop, and what it satisfies.
  pub record IsDrained (Q : ℕ → Mc → Type 0) (result : Option State) : Type 0 where
    pub state : State
    pub returns : result ≡ some state
    pub ready : IsReady state.queues
    pub queued : AllQueued Q state.queues
    pub empty : (state.queues chip 0).len ≡ 0
    pub noticed : Noticed chip state.queues state.mc_pending

  -- With more fuel than packets `route_one_mc_queue` ends with the queue of its chip empty, for a
  -- chip of a board with the computed link table and ready queues; what holds of all queued
  -- packets and spreads along the links still holds of them, the queues stay ready, and the
  -- packets queued on the chips before are noticed.
  pub route_one_mc_queue-IsDrained :
      (Q : ℕ → Mc → Type 0) (fuel : ℕ) (s : State)
      → Spreads net chip Q
      → (s.queues chip 0).len < fuel
      → IsReady s.queues
      → AllQueued Q s.queues
      → Noticed chip s.queues s.mc_pending
      → IsDrained Q (route_one_mc_queue net fuel chip s)
  unfolding route_one_mc_queue
  route_one_mc_queue-IsDrained Q zero s spreads lt v a n = absurd (omega arith)
  route_one_mc_queue-IsDrained Q (suc fuel) s spreads lt v a n =
      elim (Bool-cases ((s.queues chip 0).len == 0)) [
        | inl done ↦
            rw (done, route_one_mc_queue)
              (record {
                state = s;
                returns = refl;
                ready = v;
                queued = a;
                empty = ground arith;
                noticed = n;
              })
        | inr more ↦
            rw (more, route_one_mc_queue)
              (route_one_mc_queue-IsDrained Q fuel (route_next net chip s) spreads
                (rw (route_next_self s) (fewer (s.queues chip 0) lt (ground arith)))
                (route_next-IsReady s v) (route_next-AllQueued Q s spreads (ground arith) a)
                (route_next-Noticed s n))
      ]
    where
      fewer : (q : Queue) → q.len < suc fuel → 0 < q.len → (advance q).len < fuel
      fewer q h p = unfold advance in omega arith
