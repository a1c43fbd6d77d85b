-- ===== src/Events/Run.antt =====
-- A round of the loop of `spin1_start` (spin_emu_api.c).
use spi_nnaker_emulator.Base.{
  ℕ, ◌≡◌, ◌⊎◌, arith, inl, inr, refl, false, List, [], ◌∷◌, ◌++◌, none, some, put,
}
use mathlib.Core.Bool.{true≢false}
use spi_nnaker_emulator.Events.{
  is_direct, queue_event, num_events, Event, Scheduler, gtz, is_empty, int_max, pick, run_next,
}
use spi_nnaker_emulator.Events.Pick.{NoneReady, IsBest, pick_cases}

-- The state after event `ev` of type `k` was taken off its list and called.
abbrev pub taken : ℕ → List Event → Event → Scheduler → Scheduler
taken k rest ev s = record {
  evinfo = put s.evinfo k (record (s.evinfo k) { queue = rest });
  calls = s.calls ++ ev ∷ [];
}

nonempty-cons :
    (q : List Event) → is_empty q ≡ false → (ev : Event) × (rest : List Event) × (q ≡ ev ∷ rest)
nonempty-cons [] h = absurd (true≢false h)
nonempty-cons (ev ∷ rest) h = (ev, rest, refl)

-- The choice of a round, with the queue of the type that is chosen.
pub choice_cases :
    (s : Scheduler)
    → ((j : ℕ) → gtz (s.evinfo j).priority int_max ≡ false)
    → ((pick s.evinfo ≡ none) × NoneReady s.evinfo num_events)
      ⊎ ((k : ℕ) × (ev : Event) × (rest : List Event) × IsBest s.evinfo num_events k
          × ((s.evinfo k).queue ≡ ev ∷ rest)
          × (pick s.evinfo ≡ some k))
choice_cases s fits = elim (pick_cases s.evinfo fits) [
  | inl (e, quiet) ↦ inl (e, quiet)
  | inr (k, e, best) ↦
      let (ev, rest, q) = nonempty-cons (s.evinfo k).queue (best.ready.1) in
      inr (k, ev, rest, best, q, e)
]

-- Where no priority exceeds INT_MAX, a round of the loop of `spin1_start` either suspends, and no
-- event type with a callback has an event waiting; or it takes the oldest event of the type whose
-- priority value is least among those that have a callback and an event waiting, the last such
-- type if several are, off its list and calls it.
pub run_next_cases :
    (s : Scheduler)
    → ((j : ℕ) → gtz (s.evinfo j).priority int_max ≡ false)
    → ((run_next s ≡ none) × NoneReady s.evinfo num_events)
      ⊎ ((k : ℕ) × (ev : Event) × (rest : List Event) × IsBest s.evinfo num_events k
          × ((s.evinfo k).queue ≡ ev ∷ rest)
          × (run_next s ≡ some (taken k rest ev s)))
unfolding run_next
run_next_cases s fits = elim (choice_cases s fits) [
  | inl (e, quiet) ↦ inl (rw (e, run_next) refl, quiet)
  | inr (k, ev, rest, best, q, e) ↦ inr (k, ev, rest, best, q, rw (e, run_next) (rw q refl))
]

pub queue_event-direct :
    (id arg1 arg2 c : ℕ) (s : Scheduler)
    → is_direct ((queue_event id arg1 arg2 c s).evinfo id) ≡ is_direct (s.evinfo id)
unfolding queue_event
queue_event-direct id arg1 arg2 c s = ground arith
