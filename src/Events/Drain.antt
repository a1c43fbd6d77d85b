-- ===== src/Events/Drain.antt =====
-- The rounds of the loop of `spin1_start` (spin_emu_api.c) up to a suspension, where no events are
-- added in between.
use spi_nnaker_emulator.Base.{
  ℕ, zero, suc, ◌+◌, ◌==◌, ◌<◌, ◌≤◌, ◌≡◌, ◌≢◌, inl, inr, refl, ap, ◌∙◌, arith, List, [], ◌∷◌, none,
  some, put, put_self, put_ne, length, eq-cases, if◌then◌else◌, false,
}
use spi_nnaker_emulator.Events.{num_events, Event, EventInfo, Scheduler, gtz, int_max, pick}
use spi_nnaker_emulator.Events.Pick.{NoneReady, IsBest}
use spi_nnaker_emulator.Events.Run.{taken, choice_cases}

-- The events of a type that its callback waits for.
abbrev pub waiting : EventInfo → ℕ
waiting e = if e.cback == 0 then 0 else length e.queue

-- Their number, for `n` types from `i` on.
unfoldable pub total_from : ℕ → ℕ → (ℕ → EventInfo) → ℕ
total_from zero i evinfo = 0
total_from (suc n) i evinfo = waiting (evinfo i) + total_from n (i + 1) evinfo

abbrev pub total : (ℕ → EventInfo) → ℕ
total evinfo = total_from num_events 0 evinfo

-- The rounds from `s` to the suspension in `t`: the events called, with their types, in order.
pub data Drain (t : Scheduler) : Scheduler → List (ℕ × Event) → Type 0 where
  suspended : pick t.evinfo ≡ none → NoneReady t.evinfo num_events → Drain t t []
  round :
      {s : Scheduler} {picked : List (ℕ × Event)} (k : ℕ) (ev : Event) (rest : List Event)
      → IsBest s.evinfo num_events k
      → (s.evinfo k).queue ≡ ev ∷ rest
      → pick s.evinfo ≡ some k
      → Drain t (taken k rest ev s) picked
      → Drain t s ((k, ev) ∷ picked)

total_from-before :
    (n i k : ℕ) (evinfo : ℕ → EventInfo) (e : EventInfo)
    → k < i
    → total_from n i (put evinfo k e) ≡ total_from n i evinfo
unfolding total_from
total_from-before zero i k evinfo e lt = refl
total_from-before (suc n) i k evinfo e lt = omega (
  arith,
  ap waiting (put_ne evinfo k i e (λ x. omega arith)),
  total_from-before n (i + 1) k evinfo e (omega arith),
)

total_from-put :
    (n i k : ℕ) (evinfo : ℕ → EventInfo) (e : EventInfo)
    → i ≤ k
    → k < i + n
    → waiting (evinfo k) ≡ suc (waiting e)
    → total_from n i evinfo ≡ suc (total_from n i (put evinfo k e))
unfolding total_from
total_from-put zero i k evinfo e le lt w = absurd (omega arith)
total_from-put (suc n) i k evinfo e le lt w = elim (eq-cases i k) [
  | inl same ↦
      let here : waiting (put evinfo k e i) ≡ waiting e =
        rw same (ap waiting (put_self evinfo k e)) in
      let now : waiting (evinfo i) ≡ suc (waiting e) = rw same w in
      omega (arith, here, now, total_from-before n (i + 1) k evinfo e (omega arith))
  | inr ne ↦ omega (
    arith,
    ap waiting (put_ne evinfo k i e (λ x. omega arith)),
    total_from-put n (i + 1) k evinfo e (omega arith) (omega arith) w,
  )
]

waiting_taken :
    (e : EventInfo) (ev : Event) (rest : List Event)
    → e.cback ≢ 0
    → e.queue ≡ ev ∷ rest
    → waiting e ≡ suc (waiting (record e { queue = rest }))
waiting_taken e ev rest ne q = rw q (ground arith)

pub total-taken :
    (s : Scheduler) (k : ℕ) (ev : Event) (rest : List Event)
    → IsBest s.evinfo num_events k
    → (s.evinfo k).queue ≡ ev ∷ rest
    → total s.evinfo ≡ suc (total ((taken k rest ev s).evinfo))
total-taken s k ev rest b q =
    total_from-put num_events 0 k s.evinfo (record (s.evinfo k) { queue = rest }) (omega arith)
      b.below (waiting_taken (s.evinfo k) ev rest (b.ready.0) q)

-- A round adds no event and leaves the callbacks and priorities.
fits_taken :
    (s : Scheduler) (k : ℕ) (ev : Event) (rest : List Event) (j : ℕ)
    → ((j : ℕ) → gtz (s.evinfo j).priority int_max ≡ false)
    → gtz ((taken k rest ev s).evinfo j).priority int_max ≡ false
fits_taken s k ev rest j fits = elim (eq-cases k j) [
  | inl same ↦
      rw (← same) (ap (λ (e : EventInfo). gtz e.priority int_max) (put_self s.evinfo k _) ∙ fits k)
  | inr ne ↦ ap (λ (e : EventInfo). gtz e.priority int_max) (put_ne s.evinfo k j _ ne) ∙ fits j
]

-- Enough rounds come to a suspension.
pub drains :
    (n : ℕ) (s : Scheduler)
    → total s.evinfo ≡ n
    → ((j : ℕ) → gtz (s.evinfo j).priority int_max ≡ false)
    → (t : Scheduler) × (picked : List (ℕ × Event)) × Drain t s picked
drains zero s size fits = elim (choice_cases s fits) [
  | inl (e, quiet) ↦ (s, [], suspended e quiet)
  | inr (k, ev, rest, best, q, e) ↦ absurd (omega (arith, total-taken s k ev rest best q))
]
drains (suc n) s size fits = elim (choice_cases s fits) [
  | inl (e, quiet) ↦ (s, [], suspended e quiet)
  | inr (k, ev, rest, best, q, e) ↦
      let (t, picked, d) =
        drains n (taken k rest ev s) (omega (arith, total-taken s k ev rest best q))
          (λ j. fits_taken s k ev rest j fits) in
      (t, (k, ev) ∷ picked, round k ev rest best q e d)
]
