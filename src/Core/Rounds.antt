-- ===== src/Core/Rounds.antt =====
-- Rounds of the loop of `spin1_start` (spin_emu_api.c) that call the events that wait.
use spi_nnaker_emulator.Base.{
  ℕ, suc, ◌+◌, ◌<◌, ◌≡◌, refl, ap, ap₂, ◌∙◌, arith, false, List, ◌∷◌, none, some, length,
}
use spi_nnaker_emulator.Base.Outcome.{ok}
use spi_nnaker_emulator.Events.{Event, Scheduler, gtz, int_max, pick}
use spi_nnaker_emulator.Events.Run.{taken}
use spi_nnaker_emulator.Events.Drain.{total, Drain, suspended, round, drains}
use spi_nnaker_emulator.Events.Order.{IsOrdered, Drain-IsOrdered}
use spi_nnaker_emulator.Core.Runtime.{Runtime}
use spi_nnaker_emulator.Core.Simulate.{call_first, start_round, spin1_start}

-- Callbacks that leave the events alone and do not stop the application.
pub record IsModest (cback : Event → Runtime → Runtime) : Type 0 where
  pub events : (ev : Event) (s : Runtime) → (cback ev s).events ≡ s.events
  pub goes_on : (ev : Event) (s : Runtime) → (cback ev s).emu_quit ≡ s.emu_quit

start_round-picked :
    (cback : Event → Runtime → Runtime) (s : Runtime) (k : ℕ) (ev : Event) (rest : List Event)
    → pick s.events.evinfo ≡ some k
    → (s.events.evinfo k).queue ≡ ev ∷ rest
    → start_round cback s ≡ ok (cback ev (record s { events = taken k rest ev s.events }))
unfolding start_round call_first
start_round-picked cback s k ev rest e q = rw (e, start_round) (rw q refl)

start_round-none :
    (cback : Event → Runtime → Runtime) (s : Runtime)
    → pick s.events.evinfo ≡ none
    → start_round cback s ≡ ok s
unfolding start_round
start_round-none cback s e = rw (e, start_round) refl

spin1_start-round :
    (fuel : ℕ) (cback : Event → Runtime → Runtime) (other : ℕ → Runtime → Runtime) (k : ℕ)
    (s s' : Runtime)
    → s.emu_quit ≡ false
    → start_round cback s ≡ ok s'
    → spin1_start (suc fuel) cback other k s ≡ spin1_start fuel cback other (k + 1) (other k s')
unfolding spin1_start
spin1_start-round fuel cback other k s s' goes e = rw (goes, e, spin1_start) refl

module _ (cback : Event → Runtime → Runtime) (other : ℕ → Runtime → Runtime) (m : IsModest cback)
    (end : ℕ) (idle : (j : ℕ) (r : Runtime) → j < end → other j r ≡ r) where
  spin1_start-next :
      (fuel fuel' k j : ℕ) (ev : Event) (rest : List Event) (e : Scheduler) (s : Runtime)
      → fuel' ≡ suc fuel
      → k < end
      → pick e.evinfo ≡ some j
      → (e.evinfo j).queue ≡ ev ∷ rest
      → s.events ≡ e
      → s.emu_quit ≡ false
      → (s' : Runtime) × (spin1_start fuel' cback other k s
          ≡ spin1_start fuel cback other (k + 1) s')
        × (s'.events ≡ taken j rest ev e)
        × (s'.emu_quit ≡ false)
  spin1_start-next fuel fuel' k j ev rest e s more before p q same goes =
      let next : Runtime = record s { events = taken j rest ev s.events } in
      let s₁ = cback ev next in
      (
        s₁,
        ap (λ n. spin1_start n cback other k s) more
            ∙ spin1_start-round fuel cback other k s s₁ goes (
                start_round-picked cback s j ev rest
                  (ap (λ (x : Scheduler). pick x.evinfo) same ∙ p)
                  (ap (λ (x : Scheduler). (x.evinfo j).queue) same ∙ q))
            ∙ ap (spin1_start fuel cback other (k + 1)) (idle k s₁ before),
        m.events ev next ∙ ap (taken j rest ev) same,
        m.goes_on ev next ∙ goes,
      )

  spin1_start-Drain :
      {t : Scheduler} {picked : List (ℕ × Event)} (e : Scheduler)
      → Drain t e picked
      → (fuel fuel' k : ℕ) (s : Runtime) → fuel' ≡ length picked + fuel
      → k + length picked ≡ end
      → s.events ≡ e
      → s.emu_quit ≡ false
      → (s' : Runtime) × (spin1_start fuel' cback other k s ≡ spin1_start fuel cback other end s')
        × (s'.events ≡ t)
        × (s'.emu_quit ≡ false)
        × (start_round cback s' ≡ ok s')
  spin1_start-Drain e (suspended quiet none_left) fuel fuel' k s more upto same goes = (
    s,
    ap₂ (λ n i. spin1_start n cback other i s) (omega (arith, more)) (omega (arith, upto)),
    same,
    goes,
    start_round-none cback s (ap (λ (x : Scheduler). pick x.evinfo) same ∙ quiet),
  )
  spin1_start-Drain e (round {picked = ps} j ev rest b q p d) fuel fuel' k s more upto same goes =
      let (s₁, run, same₁, goes₁) =
        spin1_start-next (length ps + fuel) fuel' k j ev rest e s (omega (arith, more))
          (omega (arith, upto)) p q same goes in
      let (s₂, run', same₂, goes₂, quiet) =
        spin1_start-Drain (taken j rest ev e) d fuel (length ps + fuel) (k + 1) s₁ refl
          (omega (arith, upto)) same₁ goes₁ in
      (s₂, run ∙ run', same₂, goes₂, quiet)

-- Where no priority exceeds INT_MAX, the application is not stopped, its callbacks leave the
-- events alone and do not stop it, and nothing else changes its state, the loop of `spin1_start`
-- calls every event that waits for a callback in as many rounds as there are such events, lowest
-- priority value first and of one type the oldest first, and then suspends the process.
pub spin1_start-IsOrdered :
    (cback : Event → Runtime → Runtime) (other : ℕ → Runtime → Runtime) (fuel k : ℕ) (s : Runtime)
    → IsModest cback
    → ((j : ℕ) (r : Runtime) → j < k + total s.events.evinfo → other j r ≡ r)
    → ((j : ℕ) → gtz (s.events.evinfo j).priority int_max ≡ false)
    → s.emu_quit ≡ false
    → (s' : Runtime) × (picked : List (ℕ × Event)) × (spin1_start
          (total s.events.evinfo + fuel)
          cback
          other
          k
          s
        ≡ spin1_start fuel cback other (k + total s.events.evinfo) s')
      × IsOrdered s.events s'.events picked
      × (start_round cback s' ≡ ok s')
spin1_start-IsOrdered cback other fuel k s m idle fits goes =
    let (t, picked, d) = drains (total s.events.evinfo) s.events refl fits in
    let o = Drain-IsOrdered d in
    let (s', run, same, goes', quiet) =
      spin1_start-Drain cback other m (k + total s.events.evinfo) idle s.events d fuel
        (total s.events.evinfo + fuel) k s (omega (arith, o.number)) (omega (arith, o.number)) refl
        goes in
    (s', picked, run, rw same o, quiet)
