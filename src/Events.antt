-- ===== src/Events.antt =====
-- The events of a core (spin_emu_api.c): `queue_event` and the loop of `spin1_start`. A callback is
-- the address of a function of the application, 0 for NULL; that it is called is recorded. The
-- linked list of an event type is the list of its events, oldest first.
pub mod Pick
pub mod Run
pub mod Drain
pub mod Order
use spi_nnaker_emulator.Base.{
  ℕ, zero, suc, ◌+◌, ◌==◌, Bool, true, false, not, ◌&&◌, ◌||◌, List, [], ◌∷◌, ◌++◌, Option, none,
  some, ltb, if◌then◌else◌, put,
}
use spi_nnaker_emulator.Base.Int.{ℤ, pos, negsuc}

abbrev pub num_events : ℕ
num_events = 8

-- `struct qevent`.
pub record Event : Type 0 where
  pub arg1 : ℕ
  pub arg2 : ℕ
  pub cback : ℕ

-- An entry of `evinfo`.
pub record EventInfo : Type 0 where
  pub priority : ℤ
  pub cback : ℕ
  pub queue : List Event

-- `evinfo`, and the calls of callbacks so far.
pub record Scheduler : Type 0 where
  pub evinfo : ℕ → EventInfo
  pub calls : List Event

-- a > b
abbrev pub gtz : ℤ → ℤ → Bool
gtz (pos a) (pos b) = ltb b a
gtz (pos a) (negsuc b) = true
gtz (negsuc a) (pos b) = false
gtz (negsuc a) (negsuc b) = ltb a b

abbrev pub call : Event → Scheduler → Scheduler
call ev s = record s { calls = s.calls ++ ev ∷ [] }

abbrev pub add_event : ℕ → Event → Scheduler → Scheduler
add_event id ev s = record s {
  evinfo = put s.evinfo id (record (s.evinfo id) { queue = (s.evinfo id).queue ++ ev ∷ [] });
}

-- Whether `queue_event` calls the callback of an event type at once.
abbrev pub is_direct : EventInfo → Bool
is_direct e = not (e.cback == 0) && not (gtz e.priority (pos 0))

-- `queue_event` as far as the lists of events and the record of calls. An event without a callback is
-- dropped; one of priority 0 or less is called at once. What the call does to the process is in
-- `notify` (Core/Packets) and `queue_or_call` (Core/Runtime).
unfoldable pub queue_event : ℕ → ℕ → ℕ → ℕ → Scheduler → Scheduler
queue_event id arg1 arg2 cbacktoq s =
    let ev : Event = record { arg1 = arg1; arg2 = arg2; cback = cbacktoq } in
    if (s.evinfo id).cback == 0
    then s
    else if gtz (s.evinfo id).priority (pos 0)
    then add_event id ev s
    else call ev s

abbrev pub is_empty : List Event → Bool
is_empty [] = true
is_empty (_ ∷ _) = false

-- INT_MAX.
abbrev pub int_max : ℤ
int_max = pos 0x7FFFFFFF

-- The conditions on which the loop over the event types goes on to the next.
abbrev pub skipped : EventInfo → ℤ → Bool
skipped e minprio = (e.cback == 0 || is_empty e.queue) || gtz e.priority minprio

-- The loop over the event types from `i` on, with `minprio` and `minev`, none for -1.
unfoldable pub pick_from : ℕ → ℕ → ℤ → Option ℕ → (ℕ → EventInfo) → Option ℕ
pick_from zero i minprio minev evinfo = minev
pick_from (suc n) i minprio minev evinfo = elim (skipped (evinfo i) minprio) [
  | true ↦ pick_from n (i + 1) minprio minev evinfo
  | false ↦ pick_from n (i + 1) (evinfo i).priority (some i) evinfo
]

unfoldable pub pick : (ℕ → EventInfo) → Option ℕ
unfolding pick_from
pick evinfo = pick_from num_events 0 int_max none evinfo

-- The oldest event of the picked type is taken off its list and called.
abbrev pub run_first : ℕ → List Event → Scheduler → Option Scheduler
run_first id [] s = none
run_first id (ev ∷ rest) s =
    some (call ev (record s { evinfo = put s.evinfo id (record (s.evinfo id) { queue = rest }) }))

-- A round of the loop of `spin1_start`; none if it suspends the process.
unfoldable pub run_next : Scheduler → Option Scheduler
unfolding pick
run_next s = elim (pick s.evinfo) [ none ↦ none | some id ↦ run_first id (s.evinfo id).queue s ]

-- `spin1_callback_on` and `spin1_callback_off`. Events that are queued stay queued.
unfoldable pub callback_on : ℕ → ℕ → ℤ → Scheduler → Scheduler
callback_on id cback priority s = record s {
  evinfo = put s.evinfo id (record (s.evinfo id) { priority = priority; cback = cback });
}

unfoldable pub callback_off : ℕ → Scheduler → Scheduler
callback_off id s = record s {
  evinfo = put s.evinfo id (record (s.evinfo id) { priority = pos 0; cback = 0 });
}
