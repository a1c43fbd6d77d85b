-- ===== src/Core/Isolation.antt =====
-- Which cores share memory (`spin_emu_mmap_core_mem`, spin_emu.c), and the addresses that `cmd_read`,
-- `cmd_write` and `cmd_as` (scamp_emu.c) translate.
use spi_nnaker_emulator.Base.{
  ℕ, ◌+◌, ◌-◌, ◌<◌, ◌≤◌, ◌≡◌, refl, ◌∙◌, sym, arith, false, ◌&&◌, none, some, ltb, leb,
  if◌then◌else◌, Bool-cases, ◌⊎◌, inl, inr,
}
use mathlib.Core.Option.{some-injective, none-ne-some}
use spi_nnaker_emulator.Base.Outcome.{ok, fault}
use spi_nnaker_emulator.Core.Memory.{emu_addr}
use spi_nnaker_emulator.Core.Map.{
  File, dtcm, sysram, sdram, dtcm_base, dtcm_size, sysram_base, sdram_base, sdram_size,
  core_regions, resolve, program_size,
}

-- Where the address is in one of the three maps.
abbrev Where : ℕ → ℕ → ℕ → File × ℕ → Type 0
Where chip core a p =
    ((p ≡ (dtcm chip core, a - dtcm_base)) × (dtcm_base ≤ a) × (a < dtcm_base + dtcm_size))
    ⊎ (((p ≡ (sysram chip, a - sysram_base)) × (sysram_base ≤ a) × (a < sysram_base + 0x18000))
        ⊎ ((p ≡ (sdram chip, a - sdram_base)) × (sdram_base ≤ a) × (a < sdram_base + sdram_size)))

resolve_nowhere :
    (chip core a : ℕ)
    → (leb dtcm_base a && ltb a (dtcm_base + dtcm_size)) ≡ false
    → (leb sysram_base a && ltb a (sysram_base + 0x18000)) ≡ false
    → (leb sdram_base a && ltb a (sdram_base + sdram_size)) ≡ false
    → resolve (core_regions chip core) a ≡ none
unfolding resolve core_regions
resolve_nowhere chip core a i j k = rw (i, j, k) refl

resolve-Where :
    (chip core a : ℕ) (p : File × ℕ)
    → resolve (core_regions chip core) a ≡ some p
    → Where chip core a p
unfolding resolve core_regions
resolve-Where chip core a p e =
    elim (Bool-cases (leb dtcm_base a && ltb a (dtcm_base + dtcm_size))) [
      | inl i ↦ inl (some-injective _ _ (sym e ∙ rw i refl), ground arith, ground arith)
      | inr i ↦ elim (Bool-cases (leb sysram_base a && ltb a (sysram_base + 0x18000))) [
        | inl j ↦
            inr (inl (some-injective _ _ (sym e ∙ rw (i, j) refl), ground arith, ground arith))
        | inr j ↦ elim (Bool-cases (leb sdram_base a && ltb a (sdram_base + sdram_size))) [
          | inl k ↦
              inr (inr (some-injective _ _ (sym e ∙ rw (i, j, k) refl), ground arith, ground arith))
          | inr k ↦ absurd (none-ne-some p (sym (resolve_nowhere chip core a i j k) ∙ e))
        ]
      ]
    ]

same_file :
    (chip core chip' core' a a' : ℕ) (p : File × ℕ)
    → Where chip core a p
    → Where chip' core' a' p
    → (a ≡ a') × (chip ≡ chip') × ((core ≡ core') ⊎ (dtcm_base + dtcm_size ≤ a))
same_file chip core chip' core' a a' p (inl (e, l, h)) (inl (e', l', h')) = ground arith
same_file chip core chip' core' a a' p (inl (e, l, h)) (inr (inl (e', l', h'))) = ground arith
same_file chip core chip' core' a a' p (inl (e, l, h)) (inr (inr (e', l', h'))) = ground arith
same_file chip core chip' core' a a' p (inr (inl (e, l, h))) (inl (e', l', h')) = ground arith
same_file chip core chip' core' a a' p (inr (inl (e, l, h))) (inr (inl (e', l', h'))) = ground arith
same_file chip core chip' core' a a' p (inr (inl (e, l, h))) (inr (inr (e', l', h'))) = ground arith
same_file chip core chip' core' a a' p (inr (inr (e, l, h))) (inl (e', l', h')) = ground arith
same_file chip core chip' core' a a' p (inr (inr (e, l, h))) (inr (inl (e', l', h'))) = ground arith
same_file chip core chip' core' a a' p (inr (inr (e, l, h))) (inr (inr (e', l', h'))) = ground arith

-- Every address of 32 bits from SYSRAM_BASE on is translated by `cmd_read`, `cmd_write` and
-- `cmd_as` to an address that no core maps.
pub emu_addr_unmapped :
    (chip core a : ℕ)
    → sysram_base ≤ a
    → a < 0x100000000
    → resolve (core_regions chip core) (emu_addr a) ≡ none
unfolding resolve core_regions emu_addr
emu_addr_unmapped chip core a lo hi = ground arith

pub program_size-emu_addr :
    (a : ℕ)
    → a < 0x100000000
    → program_size (emu_addr a) ≡ (
        if leb dtcm_base a && ltb a (dtcm_base + dtcm_size)
        then ok (dtcm_base + dtcm_size - a)
        else fault)
unfolding program_size emu_addr
program_size-emu_addr a hi = ground arith

-- If an address of one core and an address of another stand for the same byte of the same file,
-- then the addresses are equal, the cores are on the same chip, and they are the same core or the
-- address is above the DTCM.
pub resolve_apart :
    (chip core chip' core' a a' : ℕ) (p : File × ℕ)
    → resolve (core_regions chip core) a ≡ some p
    → resolve (core_regions chip' core') a' ≡ some p
    → (a ≡ a') × (chip ≡ chip') × ((core ≡ core') ⊎ (dtcm_base + dtcm_size ≤ a))
resolve_apart chip core chip' core' a a' p e e' =
    same_file chip core chip' core' a a' p (resolve-Where chip core a p e)
      (resolve-Where chip' core' a' p e')
