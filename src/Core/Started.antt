-- ===== src/Core/Started.antt =====
-- What `main` of an application (spin_emu_app.c) that `cmd_as` (scamp_emu.c) has started comes to
-- with `rts_init` (spin_emu_api.c).
use spi_nnaker_emulator.Base.{
  ℕ, zero, suc, ◌+◌, ◌^◌, ◌<◌, ◌≤◌, ◌≡◌, refl, sym, ap, ap₂, ◌∙◌, arith, inl, inr, eq-cases, true,
  false, Bool, Bool-cases, List, [], ◌∷◌, ◌++◌, Option, none, some, ltb, not, ◌&&◌, if◌then◌else◌,
}
use spi_nnaker_emulator.Base.Outcome.{Outcome, ok, spent}
use spi_nnaker_emulator.Sdp.Message.{Msg}
use spi_nnaker_emulator.Core.Packets.{rdy1_key}
use spi_nnaker_emulator.Core.Memory.{Bytes}
use spi_nnaker_emulator.Core.Map.{core_regions, dtcm_base, dtcm_size}
use spi_nnaker_emulator.Core.Program.{Globals, Exec, Locals, zeroed, cmd_as, app_main}
use spi_nnaker_emulator.Core.Launch.{IsProcess, app_main-cmd_as}
use spi_nnaker_emulator.Core.Lock.{FileLocks, lock_api_root, lock_name, lock_try}
use spi_nnaker_emulator.Core.Application.{Application, start_application}
use spi_nnaker_emulator.Barrier.{Barrier, core_route, barrier_entry}
use spi_nnaker_emulator.Barrier.Wait.{
  View, Initialised, router_init_wait, rtr_init_lck, init_wait, rts_init,
}

-- What `rts_init` leaves on the root core of a chip, and on another core.
abbrev pub initialised : Bool → ℕ → Barrier → Initialised
initialised root core b =
    if root
    then record {
      barrier = record b {
        root_ap = true;
        entries = b.entries ++ barrier_entry 2 rdy1_key (core_route core) ∷ [];
      };
      counts = some 1;
      lock = some rtr_init_lck;
    }
    else record { barrier = record b { root_ap = false }; counts = none; lock = none }

-- The application of the core of `g` when it calls `c_main`, as the root core or not.
pub record IsReady (g : Globals) (root : Bool) (b : Barrier) (a : Application) : Type 0 where
  pub same_chip : a.globals.chip ≡ g.chip
  pub same_core : a.globals.core ≡ g.core
  pub same_tmpdir : a.globals.tmpdir ≡ g.tmpdir
  pub own_memory : a.regions ≡ core_regions g.chip g.core
  pub role : a.started ≡ initialised root g.core b

before : (now limit : ℕ) (b : Bool) → (ltb now limit && b) ≡ true → now < limit
before now limit b e = ground arith

-- The wait ends at the call of `clock` that finds the time over, or before.
init_wait-ends :
    (fuel n : ℕ) (view : View) (start k : ℕ)
    → start + router_init_wait ≤ (view n).now
    → k ≤ n
    → n < fuel + k
    → (e : ℕ) × (init_wait fuel view start k ≡ some e)
unfolding init_wait
init_wait-ends zero n view start k late lo hi = absurd (omega arith)
init_wait-ends (suc fuel) n view start k late lo hi =
    let test = ltb (view k).now (start + router_init_wait) && ltb (view k).lock rtr_init_lck in
    elim (Bool-cases test) [
      | inl waits ↦ elim (eq-cases k n) [
        | inl same ↦ absurd (
            omega (
              arith,
              before (view k).now (start + router_init_wait) (ltb (view k).lock rtr_init_lck) waits,
              late,
              ap (λ i. (view i).now) same,
            ))
        | inr ne ↦
            let (e, ends) =
              init_wait-ends fuel n view start (k + 1) late (omega arith) (omega arith) in
            (e, rw (init_wait, waits) ends)
      ]
      | inr over ↦ (k + 1, rw (init_wait, over) refl)
    ]

rts_init-ends :
    (root : Bool) (fuel n : ℕ) (view : View) (core : ℕ) (b : Barrier)
    → (view 0).now + router_init_wait ≤ (view n).now
    → n ≤ fuel
    → rts_init root fuel view core b ≡ some (initialised root core b)
unfolding rts_init
rts_init-ends true fuel n view core b late enough = refl
rts_init-ends false fuel zero view core b late enough = absurd (omega arith)
rts_init-ends false fuel (suc n) view core b late enough =
    let (e, ends) =
      init_wait-ends fuel (suc n) view (view 0).now 1 late (omega arith) (omega arith) in
    rw ends refl

module _ (f : FileLocks) where
  open f use {Locks, held, flock_free, flock_held}

  lock_try-takes :
      (print : ℕ → List ℕ) (tmpdir : List ℕ) (chip lock : ℕ) (l : Locks)
      → ((lock_try f print tmpdir chip lock l).0 ≡ not (held (lock_name print tmpdir chip lock) l))
        × (held (lock_name print tmpdir chip lock) ((lock_try f print tmpdir chip lock l).1) ≡ true)
  unfolding lock_try
  lock_try-takes print tmpdir chip lock l =
      let name = lock_name print tmpdir chip lock in
      elim (Bool-cases (held name l)) [
        | inl taken ↦
            let refused = flock_held name l taken in
            (ap (λ r. r.0) refused ∙ sym (ap not taken), ap (λ r. held name (r.1)) refused ∙ taken)
        | inr free ↦ let (given, now) = flock_free name l free in (given ∙ sym (ap not free), now)
      ]

  start_application_after :
      (print : ℕ → List ℕ) (atoi : List ℕ → ℕ) (fuel n : ℕ) (view : View) (b : Barrier) (l : Locks)
      (argv : List (List ℕ)) (ls : Locals) (app : Globals)
      → (view 0).now + router_init_wait ≤ (view n).now
      → n ≤ fuel
      → app_main atoi argv zeroed ≡ ok (ls, app)
      → start_application f print atoi fuel view argv zeroed b l
        ≡ ok (
          record {
            locals = ls;
            globals = app;
            regions = core_regions app.chip app.core;
            started =
                initialised ((lock_try f print app.tmpdir app.chip lock_api_root l).0) app.core b;
          },
          (lock_try f print app.tmpdir app.chip lock_api_root l).1,
        )
  unfolding start_application
  start_application_after print atoi fuel n view b l argv ls app late enough main =
      let root = (lock_try f print app.tmpdir app.chip lock_api_root l).0 in
      let ends = rts_init-ends root fuel n view app.core b late enough in
      let finish : Option Initialised → Outcome (Application × Locks) = λ o. elim o [
        | none ↦ spent
        | some started ↦ ok (
          record {
            locals = ls;
            globals = app;
            regions = core_regions app.chip app.core;
            started = started;
          },
          (lock_try f print app.tmpdir app.chip lock_api_root l).1,
        )
      ] in
      rw main (ap finish ends)

  -- Where `flock` locks as documented, `atoi` reads back what `snprintf` prints for numbers below
  -- 2^31 and the numbers of the process are below it, and some call of `clock` comes 5 seconds
  -- after the first, with at least as much fuel as calls up to it, `main` of a program in the DTCM
  -- that `cmd_as` starts comes to `c_main`: with the chip, the core and the directory of the
  -- process and the memory regions of its core, as the root core, with the entry for RDY1 sent,
  -- both counts at 1 and the lock of the router released, if no process held the lock of its chip,
  -- and otherwise not as the root core and without an entry. Behind it the lock of the chip is
  -- held.
  pub start_application-IsReady :
      (print : ℕ → List ℕ) (atoi : List ℕ → ℕ) (g : Globals) (m : Msg) (mem : Bytes) (fuel n : ℕ)
      (view : View) (b : Barrier) (l : Locks)
      → ((k : ℕ) → k < 2 ^ 31 → atoi (print k) ≡ k)
      → IsProcess g
      → dtcm_base ≤ m.arg1
      → m.arg1 < dtcm_base + dtcm_size
      → (view 0).now + router_init_wait ≤ (view n).now
      → n ≤ fuel
      → (e : Exec) × (a : Application) × (l' : Locks) × (cmd_as print g m mem ≡ ok e)
        × (start_application f print atoi fuel view e.argv zeroed b l ≡ ok (a, l'))
        × IsReady g (not (held (lock_name print g.tmpdir g.chip lock_api_root) l)) b a
        × (held (lock_name print g.tmpdir g.chip lock_api_root) l' ≡ true)
  start_application-IsReady print atoi g m mem fuel n view b l reads v lo hi late enough =
      let (e, ls, app, made, main, q) = app_main-cmd_as print atoi g m mem reads v lo hi in
      let r = lock_try f print app.tmpdir app.chip lock_api_root l in
      let (root, now) = lock_try-takes print app.tmpdir app.chip lock_api_root l in
      let same : lock_name print app.tmpdir app.chip lock_api_root
          ≡ lock_name print g.tmpdir g.chip lock_api_root =
        ap₂ (λ t c. lock_name print t c lock_api_root) (q.same_tmpdir) (q.same_chip) in
      (
        e,
        record {
          locals = ls;
          globals = app;
          regions = core_regions app.chip app.core;
          started = initialised (r.0) app.core b;
        },
        r.1,
        made,
        start_application_after print atoi fuel n view b l e.argv ls app late enough main,
        record {
          same_chip = q.same_chip;
          same_core = q.same_core;
          same_tmpdir = q.same_tmpdir;
          own_memory = ap₂ core_regions (q.same_chip) (q.same_core);
          role =
              ap (λ x. initialised x app.core b) (root ∙ ap (λ name. not (held name l)) same)
              ∙ ap
                  (λ c.
                    initialised (not (held (lock_name print g.tmpdir g.chip lock_api_root) l)) c b)
                  (q.same_core);
        },
        sym (ap (λ name. held name (r.1)) same) ∙ now,
      )
