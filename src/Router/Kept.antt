-- ===== src/Router/Kept.antt =====
-- What every step of `flush_mc_queues` (spin_emu_dispatcher.c) keeps, it keeps where it ends.
use spi_nnaker_emulator.Base.{
  ℕ, zero, suc, ◌+◌, ◌<◌, ◌≤◌, ◌≡◌, ◌≢◌, inl, inr, arith, false, Bool-cases, Option-cases, ◌==◌,
  Option, none, some,
}
use mathlib.Core.Path.{subst, ap}
use spi_nnaker_emulator.Grid.{num_chips}
use spi_nnaker_emulator.Router.{
  Net, State, route_next, route_one_mc_queue, flush_next, flush_one_mc_queue, for_each, after,
  flush_round, flush_rounds, flush_mc_queues,
}

abbrev state_or : State → Option State → State
state_or s none = s
state_or s (some t) = t

module _ (net : Net) (P : State → Type 0)
    (lowered : (s : State) → P s → P (record s { mc_pending = false }))
    (routed : (chip : ℕ) (s : State)
      → chip < num_chips net.dims
      → 0 < (s.queues chip 0).len
      → P s
      → P (route_next net chip s))
    (flushed : (chip core : ℕ) (s : State)
      → core ≢ 0
      → 0 < (s.queues chip core).len
      → P s
      → P (flush_next chip core s)) where
  -- Where it comes back, the state satisfies `P`.
  abbrev Keeps : Option State → Type 0
  Keeps o = (t : State) → o ≡ some t → P t

  Keeps-some : (s : State) → P s → Keeps (some s)
  Keeps-some s p t e = subst P (ap (state_or s) e) p

  Keeps-none : Keeps none
  Keeps-none t e = cc

  route_one_mc_queue-Keeps :
      (fuel chip : ℕ) (s : State)
      → chip < num_chips net.dims
      → P s
      → Keeps (route_one_mc_queue net fuel chip s)
  unfolding route_one_mc_queue
  route_one_mc_queue-Keeps zero chip s h p = Keeps-none
  route_one_mc_queue-Keeps (suc fuel) chip s h p = elim (Bool-cases ((s.queues chip 0).len == 0)) [
    | inl done ↦ rw (done, route_one_mc_queue) (Keeps-some s p)
    | inr more ↦
        rw (more, route_one_mc_queue)
          (route_one_mc_queue-Keeps fuel chip (route_next net chip s) h
            (routed chip s h (ground arith) p))
  ]

  flush_one_mc_queue-Keeps :
      (fuel chip core : ℕ) (s : State)
      → core ≢ 0
      → P s
      → Keeps (flush_one_mc_queue fuel chip core s)
  unfolding flush_one_mc_queue
  flush_one_mc_queue-Keeps zero chip core s ne p = Keeps-none
  flush_one_mc_queue-Keeps (suc fuel) chip core s ne p =
      elim (Bool-cases ((s.queues chip core).len == 0)) [
        | inl done ↦ rw (done, flush_one_mc_queue) (Keeps-some s p)
        | inr more ↦
            rw (more, flush_one_mc_queue)
              (flush_one_mc_queue-Keeps fuel chip core (flush_next chip core s) ne
                (flushed chip core s ne (ground arith) p))
      ]

  for_each-Keeps :
      (body : ℕ → State → Option State) (n i : ℕ) (s : State)
      → ((j : ℕ) (s : State) → i ≤ j → j < i + n → P s → Keeps (body j s))
      → P s
      → Keeps (for_each n i body s)
  unfolding for_each
  for_each-Keeps body zero i s keep p = Keeps-some s p
  for_each-Keeps body (suc n) i s keep p = elim (Option-cases (body i s)) [
    | inl e ↦ rw (e, for_each) Keeps-none
    | inr (t, e) ↦
        rw (e, for_each)
          (for_each-Keeps body n (i + 1) t (λ j s p q. keep j s (omega arith) (omega arith))
            (keep i s (omega arith) (omega arith) p t e))
  ]

  flush_round-Keeps : (fuel : ℕ) (s : State) → P s → Keeps (flush_round net fuel s)
  unfolding flush_round
  flush_round-Keeps fuel s p =
      let start : State = record s { mc_pending = false } in
      let first =
        for_each-Keeps (route_one_mc_queue net fuel) (num_chips net.dims) 0 start
          (λ j s l h. route_one_mc_queue-Keeps fuel j s (omega arith)) (lowered s p) in
      elim (Option-cases (for_each (num_chips net.dims) 0 (route_one_mc_queue net fuel) start)) [
        | inl e ↦ rw (e, after) Keeps-none
        | inr (t, e) ↦
            rw (e, after)
              (for_each-Keeps (λ c. for_each 7 1 (flush_one_mc_queue fuel c)) (num_chips net.dims) 0
                t
                (λ c s l h.
                  for_each-Keeps (flush_one_mc_queue fuel c) 7 1 s
                    (λ j s l' h'. flush_one_mc_queue-Keeps fuel c j s (λ z. omega arith)))
                (first t e))
      ]

  flush_rounds-Keeps : (fuel rounds : ℕ) (s : State) → P s → Keeps (flush_rounds net fuel rounds s)
  unfolding flush_rounds
  flush_rounds-Keeps fuel zero s p = Keeps-none
  flush_rounds-Keeps fuel (suc rounds) s p = elim (Bool-cases s.mc_pending) [
    | inr idle ↦ rw (idle, flush_rounds) (Keeps-some s p)
    | inl more ↦ elim (Option-cases (flush_round net fuel s)) [
      | inl e ↦ rw (more, e, flush_rounds) Keeps-none
      | inr (t, e) ↦
          rw (more, e, flush_rounds)
            (flush_rounds-Keeps fuel rounds t (flush_round-Keeps fuel s p t e))
    ]
  ]

  pub flush_mc_queues-Keeps :
      (fuel : ℕ) (s t : State) → P s → flush_mc_queues net fuel s ≡ some t → P t
  unfolding flush_mc_queues
  flush_mc_queues-Keeps fuel s t p e = flush_rounds-Keeps fuel fuel s p t e
