-- ===== src/Events/Order.antt =====
-- The order in which the loop of `spin1_start` (spin_emu_api.c) calls the events that wait.
use spi_nnaker_emulator.Base.{
  ℕ, zero, suc, ◌+◌, ◌==◌, ◌<◌, ◌≡◌, ◌≢◌, inl, inr, refl, ap, ◌∙◌, sym, arith, List, [], ◌∷◌, ◌++◌,
  map, put_self, put_ne, length, append_assoc, append-nil, eq-cases, All, All-map, if◌then◌else◌,
  false, fun_ext,
}
use spi_nnaker_emulator.Base.Int.{ℤ}
use spi_nnaker_emulator.Events.{num_events, Event, EventInfo, Scheduler, gtz}
use spi_nnaker_emulator.Events.Pick.{IsReady}
use spi_nnaker_emulator.Events.Run.{taken}
use spi_nnaker_emulator.Events.Drain.{
  waiting, total_from, total, Drain, suspended, round, total-taken,
}

-- Each priority value is at most those behind it.
abbrev pub Sorted : (ℕ → ℤ) → List (ℕ × Event) → Type 0
Sorted prio [] = Unit
Sorted prio (p ∷ ps) = All (λ q. gtz (prio (p.0)) (prio (q.0)) ≡ false) ps × Sorted prio ps

-- The events of type `k`.
unfoldable pub of_type : ℕ → List (ℕ × Event) → List Event
of_type k [] = []
of_type k (p ∷ ps) = let rest = of_type k ps in if p.0 == k then p.1 ∷ rest else rest

abbrev pub priority_of : Scheduler → ℕ → ℤ
priority_of s j = (s.evinfo j).priority

abbrev pub event : ℕ × Event → Event
event p = p.1

waiting_quiet : (e : EventInfo) → ¬ (IsReady e) → waiting e ≡ 0
waiting_quiet e quiet = ground arith

total_from_quiet :
    (n i : ℕ) (evinfo : ℕ → EventInfo)
    → ((j : ℕ) → j < i + n → ¬ (IsReady (evinfo j)))
    → total_from n i evinfo ≡ 0
unfolding total_from
total_from_quiet zero i evinfo quiet = refl
total_from_quiet (suc n) i evinfo quiet = omega (
  arith,
  waiting_quiet (evinfo i) (quiet i (omega arith)),
  total_from_quiet n (i + 1) evinfo (λ j lt. quiet j (omega arith)),
)

length-Drain : {t s : Scheduler} {ps : List (ℕ × Event)} → Drain t s ps → length ps ≡ total s.evinfo
length-Drain {t} (suspended e quiet) = sym (total_from_quiet num_events 0 t.evinfo quiet)
length-Drain {t} {s} (round k ev rest b q e d) =
    omega (arith, length-Drain d, total-taken s k ev rest b q)

calls-Drain :
    {t s : Scheduler} {ps : List (ℕ × Event)} → Drain t s ps → t.calls ≡ s.calls ++ map event ps
calls-Drain {t} (suspended e quiet) = sym (append-nil t.calls)
calls-Drain {t} {s} (round k ev rest b q e d) = calls-Drain d ∙ append_assoc s.calls (ev ∷ []) _

-- A round leaves callbacks and priorities, and takes events off the queue of its type only.
cback_taken :
    (s : Scheduler) (k : ℕ) (ev : Event) (rest : List Event) (j : ℕ)
    → ((taken k rest ev s).evinfo j).cback ≡ (s.evinfo j).cback
cback_taken s k ev rest j = ground arith

priority_taken :
    (s : Scheduler) (k : ℕ) (ev : Event) (rest : List Event)
    → priority_of (taken k rest ev s) ≡ priority_of s
priority_taken s k ev rest = fun_ext (λ j. elim (eq-cases k j) [
  | inl same ↦ rw (← same) (ap (λ (e : EventInfo). e.priority) (put_self s.evinfo k _))
  | inr ne ↦ ap (λ (e : EventInfo). e.priority) (put_ne s.evinfo k j _ ne)
])

IsReady-taken :
    (s : Scheduler) (k : ℕ) (ev : Event) (rest : List Event) (j : ℕ)
    → IsReady (s.evinfo k)
    → IsReady ((taken k rest ev s).evinfo j)
    → IsReady (s.evinfo j)
IsReady-taken s k ev rest j r r' = elim (eq-cases k j) [
  | inl same ↦ rw (← same) r
  | inr ne ↦ rw (put_ne s.evinfo k j (record (s.evinfo k) { queue = rest }) ne) at r'
]

IsReady-Drain :
    {t s : Scheduler} {ps : List (ℕ × Event)}
    → Drain t s ps
    → All (λ p. (p.0 < num_events) × IsReady (s.evinfo (p.0))) ps
IsReady-Drain (suspended e quiet) = tt
IsReady-Drain {t} {s} (round k ev rest b q e d) = (
  (b.below, b.ready),
  All-map _ _ _ (λ p h. (h.0, IsReady-taken s k ev rest (p.0) b.ready (h.1))) (IsReady-Drain d),
)

Sorted-Drain : {t s : Scheduler} {ps : List (ℕ × Event)} → Drain t s ps → Sorted (priority_of s) ps
Sorted-Drain (suspended e quiet) = tt
Sorted-Drain {t} {s} (round k ev rest b q e d) = (
  All-map _ _ _ (λ p h. b.least (p.0) (h.0) (IsReady-taken s k ev rest (p.0) b.ready (h.1)))
      (IsReady-Drain d),
  rw (priority_taken s k ev rest) at (Sorted-Drain d),
)

queue_quiet : (e : EventInfo) → e.cback ≢ 0 → ¬ (IsReady e) → [] ≡ e.queue
queue_quiet e c quiet = ground arith

of_type-cons :
    (j k : ℕ) (ev : Event) (ps : List (ℕ × Event))
    → k ≡ j
    → of_type j ((k, ev) ∷ ps) ≡ ev ∷ of_type j ps
unfolding of_type
of_type-cons j k ev ps same = ground arith

of_type-cons_ne :
    (j k : ℕ) (ev : Event) (ps : List (ℕ × Event)) → k ≢ j → of_type j ((k, ev) ∷ ps) ≡ of_type j ps
unfolding of_type
of_type-cons_ne j k ev ps ne = ground arith

of_type-Drain :
    {t s : Scheduler} {ps : List (ℕ × Event)} (j : ℕ)
    → Drain t s ps
    → j < num_events
    → (s.evinfo j).cback ≢ 0
    → of_type j ps ≡ (s.evinfo j).queue
of_type-Drain {t} j (suspended e quiet) lt c =
    unfold of_type in queue_quiet (t.evinfo j) c (quiet j lt)
of_type-Drain {t} {s} j (round {picked = ps} k ev rest b q e d) lt c =
    let later : of_type j ps ≡ ((taken k rest ev s).evinfo j).queue =
      of_type-Drain j d lt (λ z. c (sym (cback_taken s k ev rest j) ∙ z)) in
    elim (eq-cases k j) [
      | inl same ↦
          of_type-cons j k ev ps same
          ∙ ap (λ l. ev ∷ l) (later ∙ ap (λ (i : EventInfo). i.queue) (first same))
          ∙ sym q
          ∙ ap (λ i. (s.evinfo i).queue) same
      | inr ne ↦
          of_type-cons_ne j k ev ps ne
          ∙ later
          ∙ ap (λ (i : EventInfo). i.queue) (put_ne s.evinfo k j _ ne)
    ]
  where
    first : k ≡ j → (taken k rest ev s).evinfo j ≡ record (s.evinfo k) { queue = rest }
    first same = rw (← same) (put_self s.evinfo k _)

-- The calls `picked` between `s` and `t`: as many as events waited, lowest priority value first, and
-- of each type that has a callback all events, oldest first.
pub record IsOrdered (s t : Scheduler) (picked : List (ℕ × Event)) : Type 0 where
  pub number : length picked ≡ total s.evinfo
  pub calls : t.calls ≡ s.calls ++ map event picked
  pub sorted : Sorted (priority_of s) picked
  pub oldest_first :
      (j : ℕ) → j < num_events → (s.evinfo j).cback ≢ 0 → of_type j picked ≡ (s.evinfo j).queue

pub Drain-IsOrdered : {t s : Scheduler} {ps : List (ℕ × Event)} → Drain t s ps → IsOrdered s t ps
Drain-IsOrdered d = record {
  number = length-Drain d;
  calls = calls-Drain d;
  sorted = Sorted-Drain d;
  oldest_first = λ j lt c. of_type-Drain j d lt c;
}
