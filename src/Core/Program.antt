-- ===== src/Core/Program.antt =====
-- How a core starts an application: `cmd_as` (scamp_emu.c) and the `main` of the application
-- (spin_emu_app.c). `snprintf` of an `int` that is not negative and `atoi` are parameters; strings
-- are without the closing zero. The file operations and `execv` are taken to succeed.
use spi_nnaker_emulator.Base.{ℕ, ◌*◌, List, [], ◌∷◌, ◌++◌}
use spi_nnaker_emulator.Base.Outcome.{Outcome, ok, fault, ◌>>=◌}
use spi_nnaker_emulator.Grid.{Dims}
use spi_nnaker_emulator.Sdp.Message.{Msg}
use spi_nnaker_emulator.Core.Memory.{Bytes, emu_addr, bytes_from}
use spi_nnaker_emulator.Core.Map.{program_size}

-- The global variables of a core's process that its start sets.
pub record Globals : Type 0 where
  pub dims : Dims
  pub chip : ℕ
  pub core : ℕ
  pub tmpdir : List ℕ
  pub slow_down : ℕ

-- The program that a process goes on with: the file, what was written to it, and the arguments.
pub record Exec : Type 0 where
  pub executable : List ℕ
  pub image : List ℕ
  pub argv : List (List ℕ)

-- The local variables of `main` that have the names of global ones.
pub record Locals : Type 0 where
  pub num_chips_x : ℕ
  pub num_chips_y : ℕ
  pub num_chips : ℕ
  pub slow_down : ℕ

-- "/tempapp".
abbrev pub tempapp : List ℕ
tempapp = 0x2F ∷ 0x74 ∷ 0x65 ∷ 0x6D ∷ 0x70 ∷ 0x61 ∷ 0x70 ∷ 0x70 ∷ []

-- The global variables of a program that has just been started.
abbrev pub zeroed : Globals
zeroed = record {
  dims = record { chips_x = 0; chips_y = 0 };
  chip = 0;
  core = 0;
  tmpdir = [];
  slow_down = 0;
}

-- `cmd_as`.
unfoldable pub cmd_as : (ℕ → List ℕ) → Globals → Msg → Bytes → Outcome Exec
unfolding emu_addr program_size
cmd_as print g m mem = program_size (emu_addr m.arg1) >>= λ size. ok (record {
  executable = g.tmpdir ++ (tempapp ++ (print g.chip ++ print g.core));
  image = bytes_from size (emu_addr m.arg1) mem;
  argv =
      print g.chip
      ∷ print g.core
      ∷ print g.dims.chips_x
      ∷ print g.dims.chips_y
      ∷ g.tmpdir
      ∷ print g.slow_down
      ∷ [];
})

-- What `main` does with its arguments.
unfoldable pub app_main : (List ℕ → ℕ) → List (List ℕ) → Globals → Outcome (Locals × Globals)
app_main atoi (a₀ ∷ a₁ ∷ a₂ ∷ a₃ ∷ a₄ ∷ a₅ ∷ []) g = ok (
  record {
    num_chips_x = atoi a₂;
    num_chips_y = atoi a₃;
    num_chips = atoi a₂ * atoi a₃;
    slow_down = atoi a₅;
  },
  record g { chip = atoi a₀; core = atoi a₁; tmpdir = a₄ },
)
app_main atoi _ g = fault
