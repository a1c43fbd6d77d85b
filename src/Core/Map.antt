-- ===== src/Core/Map.antt =====
-- The memory of a core: the maps that `spin_emu_mmap_core_mem` (spin_emu.c) makes with `setup_map`,
-- `spin1_malloc` (spin_emu_api.c), and the size of a program in `cmd_as` (scamp_emu.c). The calls of
-- `open`, `ftruncate` and `mmap` are taken to succeed.
use spi_nnaker_emulator.Base.{
  ℕ, ◌+◌, ◌-◌, ◌*◌, Bool, true, false, ◌&&◌, List, [], ◌∷◌, Option, none, some, ltb, leb,
  if◌then◌else◌, u32,
}
use spi_nnaker_emulator.Base.Outcome.{Outcome, ok, fault}

-- The files, by the chip and the core in their names.
pub data File : Type 0 where
  dtcm : ℕ → ℕ → File
  sysram : ℕ → File
  sdram : ℕ → File

-- A file that is mapped at `base`.
pub record Region : Type 0 where
  pub file : File
  pub base : ℕ
  pub size : ℕ

abbrev pub dtcm_base : ℕ
dtcm_base = 0x00400000

abbrev pub dtcm_size : ℕ
dtcm_size = 0x00010000

abbrev pub sysram_base : ℕ
sysram_base = 0xF5000000

abbrev pub sysram_size : ℕ
sysram_size = 0x00008000

abbrev pub sdram_base : ℕ
sdram_base = 0x60000000

abbrev pub sdram_size : ℕ
sdram_size = 128 * 1024 * 1024

-- `spin_emu_mmap_core_mem`.
unfoldable pub core_regions : ℕ → ℕ → List Region
core_regions chip core =
    record { file = dtcm chip core; base = dtcm_base; size = dtcm_size }
    ∷ record { file = sysram chip; base = sysram_base; size = sysram_size + 0x00010000 }
    ∷ record { file = sdram chip; base = sdram_base; size = sdram_size }
    ∷ []

abbrev pub is_inside : Region → ℕ → Bool
is_inside r a = leb r.base a && ltb a (r.base + r.size)

-- The file and the offset in it that an address stands for; `none` is no mapped address.
unfoldable pub resolve : List Region → ℕ → Option (File × ℕ)
resolve [] a = none
resolve (r ∷ rs) a = if is_inside r a then some (r.file, a - r.base) else resolve rs a

-- Whether the core can read and write an address.
abbrev pub is_mapped : Option (File × ℕ) → Bool
is_mapped none = false
is_mapped (some at) = true

unfoldable pub core_maps : ℕ → ℕ → ℕ → Bool
unfolding resolve core_regions
core_maps chip core a = is_mapped (resolve (core_regions chip core) a)

-- `size` in `cmd_as` for the address after the translation; nothing sets it elsewhere.
unfoldable pub program_size : ℕ → Outcome ℕ
program_size a =
    if leb sysram_base a && ltb a (sysram_base + sysram_size)
    then ok (sysram_base + sysram_size - a)
    else if leb dtcm_base a && ltb a (dtcm_base + dtcm_size)
    then ok (dtcm_base + dtcm_size - a)
    else fault

-- `spin1_malloc` with `spin_emu_dtcm_freeptr`: the address that it returns, and the next.
unfoldable pub spin1_malloc : ℕ → ℕ → ℕ × ℕ
spin1_malloc bytes freeptr = (freeptr, u32 (freeptr + bytes))
