-- ===== src/Core/Launch.antt =====
-- What an application knows of its board once `cmd_as` (scamp_emu.c) has started it and its `main`
-- (spin_emu_app.c) has read its arguments.
use spi_nnaker_emulator.Base.{
  ℕ, ◌*◌, ◌^◌, ◌<◌, ◌≤◌, ◌≡◌, refl, ◌∙◌, arith, List, [], ◌∷◌, ◌++◌, none, ◌-◌, ◌+◌,
}
use spi_nnaker_emulator.Base.Outcome.{ok, died}
use spi_nnaker_emulator.Grid.{num_chips, get_chip_id}
use spi_nnaker_emulator.Sdp.Message.{Msg}
use spi_nnaker_emulator.Core.Memory.{Bytes, emu_addr, bytes_from}
use spi_nnaker_emulator.Core.Map.{program_size, dtcm_base, dtcm_size}
use spi_nnaker_emulator.Core.Isolation.{program_size-emu_addr}
use spi_nnaker_emulator.Core.Program.{Globals, Exec, Locals, zeroed, tempapp, cmd_as, app_main}
use spi_nnaker_emulator.Barrier.{Barrier, barrier_setup}

-- The numbers of a process fit an `int`.
pub record IsProcess (g : Globals) : Type 0 where
  pub chip_fits : g.chip < 2 ^ 31
  pub core_fits : g.core < 2 ^ 31
  pub x_fits : g.dims.chips_x < 2 ^ 31
  pub y_fits : g.dims.chips_y < 2 ^ 31
  pub slow_down_fits : g.slow_down < 2 ^ 31

-- The application of the core of `g`, started from address `a` of the memory `mem`.
pub record IsLaunched (g : Globals) (a : ℕ) (mem : Bytes) (e : Exec) (l : Locals) (app : Globals)
    : Type 0 where
  pub whole : e.image ≡ bytes_from (dtcm_base + dtcm_size - a) a mem
  pub same_chip : app.chip ≡ g.chip
  pub same_core : app.core ≡ g.core
  pub same_tmpdir : app.tmpdir ≡ g.tmpdir
  pub local_board : l ≡ record {
    num_chips_x = g.dims.chips_x;
    num_chips_y = g.dims.chips_y;
    num_chips = num_chips g.dims;
    slow_down = g.slow_down;
  }
  pub no_board : get_chip_id app.dims app.chip ≡ none
  pub no_barrier :
      (chips : ℕ) (core_map : List ℕ) (b : Barrier)
      → barrier_setup app.dims app.chip app.core chips core_map b ≡ died

no_chip_id : (chip : ℕ) → get_chip_id (zeroed.dims) chip ≡ none
unfolding get_chip_id
no_chip_id chip = ground arith

no_barrier_lem :
    (chip core chips : ℕ) (core_map : List ℕ) (b : Barrier)
    → barrier_setup (zeroed.dims) chip core chips core_map b ≡ died
unfolding barrier_setup
no_barrier_lem chip core chips core_map b = rw (no_chip_id chip) refl

as_size :
    (a : ℕ)
    → dtcm_base ≤ a
    → a < dtcm_base + dtcm_size
    → (program_size (emu_addr a) ≡ ok (dtcm_base + dtcm_size - a)) × (emu_addr a ≡ a)
unfolding emu_addr
as_size a lo hi = (program_size-emu_addr a (omega arith) ∙ ground arith, ground arith)

-- If `atoi` reads back what `snprintf` prints for numbers below 2^31, and the numbers of the
-- process are below it, `cmd_as` of a program in the DTCM starts it from the bytes of memory from
-- its address to the end of the DTCM, and `main` of the program gets the chip, the core and the
-- directory of the process. It stores the size of the board and the slow-down factor in local
-- variables only: in the application `spin1_get_chip_id` fails its assertion, and `barrier_setup`
-- ends the process.
pub app_main-cmd_as :
    (print : ℕ → List ℕ) (atoi : List ℕ → ℕ) (g : Globals) (m : Msg) (mem : Bytes)
    → ((n : ℕ) → n < 2 ^ 31 → atoi (print n) ≡ n)
    → IsProcess g
    → dtcm_base ≤ m.arg1
    → m.arg1 < dtcm_base + dtcm_size
    → (e : Exec) × (l : Locals) × (app : Globals) × (cmd_as print g m mem ≡ ok e)
      × (app_main atoi e.argv zeroed ≡ ok (l, app))
      × IsLaunched g m.arg1 mem e l app
unfolding cmd_as app_main
app_main-cmd_as print atoi g m mem reads v lo hi =
    let (size, same) = as_size m.arg1 lo hi in
    (
      record {
        executable = g.tmpdir ++ (tempapp ++ (print g.chip ++ print g.core));
        image = bytes_from (dtcm_base + dtcm_size - m.arg1) m.arg1 mem;
        argv =
            print g.chip
            ∷ print g.core
            ∷ print g.dims.chips_x
            ∷ print g.dims.chips_y
            ∷ g.tmpdir
            ∷ print g.slow_down
            ∷ [];
      },
      record {
        num_chips_x = atoi (print g.dims.chips_x);
        num_chips_y = atoi (print g.dims.chips_y);
        num_chips = atoi (print g.dims.chips_x) * atoi (print g.dims.chips_y);
        slow_down = atoi (print g.slow_down);
      },
      record zeroed { chip = atoi (print g.chip); core = atoi (print g.core); tmpdir = g.tmpdir },
      rw (size, same) refl,
      refl,
      record {
        whole = refl;
        same_chip = reads g.chip v.chip_fits;
        same_core = reads g.core v.core_fits;
        same_tmpdir = refl;
        local_board =
            rw
              (
                reads g.dims.chips_x v.x_fits,
                reads g.dims.chips_y v.y_fits,
                reads g.slow_down v.slow_down_fits,
              )
              refl;
        no_board = no_chip_id _;
        no_barrier = λ chips core_map b. no_barrier_lem _ _ chips core_map b;
      },
    )
