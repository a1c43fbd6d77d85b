-- ===== src/Examples/Programs.antt =====
-- Memory, programs and transfers of a core.
use spi_nnaker_emulator.Base.{
  ℕ, ◌+◌, ◌^◌, ◌≤◌, ◌≡◌, ◌-◌, ◌⊎◌, refl, arith, true, false, List, [], ◌∷◌, none, some,
}
use spi_nnaker_emulator.Base.Outcome.{ok}
use spi_nnaker_emulator.Sdp.Message.{Msg}
use spi_nnaker_emulator.Core.Memory.{Bytes}
use spi_nnaker_emulator.Core.Map.{sdram, dtcm_base, dtcm_size, core_regions, resolve}
use spi_nnaker_emulator.Core.Isolation.{resolve_apart}
use spi_nnaker_emulator.Core.Program.{Globals, Exec, Locals, zeroed, cmd_as, app_main}
use spi_nnaker_emulator.Core.Launch.{IsLaunched, app_main-cmd_as}
use spi_nnaker_emulator.Core.Runtime.{Runtime, Callbacks}
use spi_nnaker_emulator.Core.Transfer.{malloc_all, Consecutive, malloc_all-Consecutive}
use spi_nnaker_emulator.Examples.Tags.{request}
use spi_nnaker_emulator.Examples.Cores.{scheduler}

at_sdram : (core : ℕ) → resolve (core_regions 3 core) 0x60000010 ≡ some (sdram 3, 16)
unfolding resolve core_regions
at_sdram core = refl

resolve_apart_example :
    ◌≡◌ {A = ℕ} 0x60000010 0x60000010
    × ◌≡◌ {A = ℕ} 3 3
    × (◌≡◌ {A = ℕ} 1 2 ⊎ (dtcm_base + dtcm_size ≤ 0x60000010))
resolve_apart_example =
    resolve_apart 3 1 3 2 0x60000010 0x60000010 (sdram 3, 16) (at_sdram 1) (at_sdram 2)

-- A number printed as itself.
abbrev pub print : ℕ → List ℕ
print n = n ∷ []

abbrev pub atoi : List ℕ → ℕ
atoi [] = 0
atoi (n ∷ _) = n

abbrev pub process : Globals
process = record {
  dims = record { chips_x = 2; chips_y = 2 };
  chip = 3;
  core = 1;
  tmpdir = 0x2F ∷ [];
  slow_down = 1;
}

abbrev pub start : Msg
start = request (0x00400000) 0 0

abbrev pub noise : Bytes
noise a = a

app_main-cmd_as_example :
    (e : Exec) × (l : Locals) × (app : Globals) × (cmd_as print process start noise ≡ ok e)
    × (app_main atoi e.argv zeroed ≡ ok (l, app))
    × IsLaunched process 0x00400000 noise e l app
app_main-cmd_as_example =
    app_main-cmd_as print atoi process start noise (λ n h. refl)
      (record {
        chip_fits = omega arith;
        core_fits = omega arith;
        x_fits = omega arith;
        y_fits = omega arith;
        slow_down_fits = omega arith;
      })
      (omega arith) (omega arith)

abbrev pub runtime : Runtime
runtime = record {
  maps = λ a. true;
  mem = noise;
  events = scheduler;
  dma_id = 2 ^ 32 - 1;
  flip = 0;
  interrupt_mode = 0;
  alarms_blocked = false;
  sim_time = 0;
  tick = 0;
  warning = 0;
  slow_down = 1;
  alarm = none;
  emu_quit = false;
  retval = 0;
  sent = [];
}

abbrev calls_nothing : Callbacks
calls_nothing ev s = s

malloc_all-Consecutive_example :
    Consecutive dtcm_base (dtcm_base + dtcm_size) ((malloc_all (16 ∷ 0 ∷ 40 ∷ []) dtcm_base).0)
    × ((malloc_all (16 ∷ 0 ∷ 40 ∷ []) dtcm_base).1 ≡ dtcm_base + 56)
malloc_all-Consecutive_example =
    malloc_all-Consecutive (16 ∷ 0 ∷ 40 ∷ []) dtcm_base (omega arith) (omega arith)
