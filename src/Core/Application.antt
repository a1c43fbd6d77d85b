-- ===== src/Core/Application.antt =====
-- The `main` of an application (spin_emu_app.c) up to the call of `c_main`. The signal handlers, the
-- priority of the process and the thread that it starts for `spin_emu_controller` are left out.
use spi_nnaker_emulator.Base.{ℕ, List, none, some}
use spi_nnaker_emulator.Base.Outcome.{Outcome, ok, spent, ◌>>=◌}
use spi_nnaker_emulator.Core.Map.{Region, core_regions}
use spi_nnaker_emulator.Core.Program.{Globals, Locals, app_main}
use spi_nnaker_emulator.Core.Lock.{FileLocks, lock_api_root, lock_try}
use spi_nnaker_emulator.Barrier.{Barrier}
use spi_nnaker_emulator.Barrier.Wait.{View, Initialised, rts_init}

-- The process when it calls `c_main`.
pub record Application : Type 0 where
  pub locals : Locals
  pub globals : Globals
  pub regions : List Region
  pub started : Initialised

module _ (f : FileLocks) where
  open f use {Locks}

  -- `main` with `spin_emu_mmap_core_mem` and `rts_init`; `print` is that of `sprintf`, `view` what
  -- the calls of `clock` see, and `fuel` bounds the wait for the root core.
  unfoldable pub start_application :
      (ℕ → List ℕ)
      → (List ℕ → ℕ)
      → ℕ
      → View
      → List (List ℕ)
      → Globals
      → Barrier
      → Locks
      → Outcome (Application × Locks)
  unfolding app_main core_regions lock_try rts_init
  start_application print atoi fuel view argv g b l = app_main atoi argv g >>= λ r.
      let app = r.1 in
      let (root, l') = lock_try f print app.tmpdir app.chip lock_api_root l in
      elim (rts_init root fuel view app.core b) [
        | none ↦ spent
        | some started ↦ ok (
          record {
            locals = r.0;
            globals = app;
            regions = core_regions app.chip app.core;
            started = started;
          },
          l',
        )
      ]
