-- ===== src/Spawn.antt =====
-- The sockets and processes of the cores (`spin_emu_setup_channels`, `spin_emu_spawn_cores` and
-- `run_core`, spin_emu.c and spin_emu_dispatcher.c). What `socketpair` and `fork` answer are
-- arguments; `dup2` and the calls behind the memory maps are taken to succeed.
use spi_nnaker_emulator.Base.{
  ℕ, Bool, List, [], ◌∷◌, ◌++◌, Option, none, some, Table, update, count_up_ok,
}
use spi_nnaker_emulator.Base.Outcome.{Outcome, ok, died, ◌>>=◌}
use spi_nnaker_emulator.Grid.{Dims, num_chips, num_cpus}
use spi_nnaker_emulator.Core.Map.{Region, core_regions}

-- The descriptors in `spin_emu_socket_dispatch` and `spin_emu_socket_core`.
pub record Sockets : Type 0 where
  pub dispatch : Table ℕ
  pub core : Table ℕ

-- The body of the loops of `spin_emu_setup_channels`. `pairs c i` are the two ends that the call of
-- `socketpair` for core `i` of chip `c` gives, none if it fails.
unfoldable pub open_channel : Table (Option (ℕ × ℕ)) → ℕ → ℕ → Sockets → Outcome Sockets
open_channel pairs c i s = elim (pairs c i) [
  | none ↦ died
  | some fd ↦
      ok (record { dispatch = update s.dispatch c i (fd.0); core = update s.core c i (fd.1) })
]

-- `spin_emu_setup_channels`.
unfoldable pub setup_channels : Dims → Table (Option (ℕ × ℕ)) → Sockets → Outcome Sockets
unfolding count_up_ok open_channel
setup_channels d pairs s =
    count_up_ok (num_chips d) 0 (λ c. count_up_ok num_cpus 0 (open_channel pairs c)) s

-- The process of a core: `spin_emu_chip`, `spin_emu_core`, the socket that SPIN_EMU_SOCK stands
-- for, and its memory.
pub record CoreProcess : Type 0 where
  pub chip : ℕ
  pub core : ℕ
  pub emu_sock : ℕ
  pub regions : List Region

-- What `run_core` does before it waits for packets in `spin_emu_controller`.
unfoldable pub run_core : Sockets → ℕ → ℕ → CoreProcess
unfolding core_regions
run_core s chip core = record {
  chip = chip;
  core = core;
  emu_sock = s.core chip core;
  regions = core_regions chip core;
}

-- `spin_emu_child_pid`, and the processes that were started, oldest first.
pub record Children : Type 0 where
  pub child_pid : Table ℕ
  pub started : List CoreProcess

-- The body of the loops of `spin_emu_spawn_cores`. `pids c i` is what the call of `fork` for core
-- `i` of chip `c` answers in the dispatcher, none if it fails; in the child it answers 0, and the
-- child stays in `run_core`.
unfoldable pub spawn_core : Table (Option ℕ) → Sockets → ℕ → ℕ → Children → Outcome Children
unfolding run_core
spawn_core pids s c i ch = elim (pids c i) [
  | none ↦ died
  | some pid ↦ ok (record {
    child_pid = update ch.child_pid c i pid;
    started = ch.started ++ run_core s c i ∷ [];
  })
]

-- `spin_emu_spawn_cores`.
unfoldable pub spawn_cores : Dims → Table (Option ℕ) → Sockets → Children → Outcome Children
unfolding count_up_ok spawn_core
spawn_cores d pids s ch =
    count_up_ok (num_chips d) 0 (λ c. count_up_ok num_cpus 0 (spawn_core pids s c)) ch

-- The calls of both in `cmd_p2pc` (spin_emu_dispatcher.c), with the memory from `malloc`.
unfoldable pub start_cores :
    Dims
    → Table (Option (ℕ × ℕ))
    → Table (Option ℕ)
    → Sockets
    → Table ℕ
    → Outcome (Sockets × Children)
unfolding setup_channels spawn_cores
start_cores d pairs pids s child_pid = setup_channels d pairs s >>= λ s'.
    spawn_cores d pids s' (record { child_pid = child_pid; started = [] }) >>= λ ch. ok (s', ch)

-- What the calls that `cmd_p2pc` makes of the operating system answer: whether every `malloc` gives
-- memory and `mkdtemp` a directory, whose name is as long as its template, the sockets and the
-- processes, and what the memory for their tables holds.
pub record Calls : Type 0 where
  pub malloc : Bool
  pub mkdtemp : Bool
  pub pairs : Table (Option (ℕ × ℕ))
  pub pids : Table (Option ℕ)
  pub sockets : Sockets
  pub child_pid : Table ℕ
