-- ===== src/Core/Transfer.antt =====
-- Copies between the memory of a core and of its chip (`spin1_dma_transfer`), and the allocation of a
-- core's memory (`spin1_malloc`, spin_emu_api.c).
use spi_nnaker_emulator.Base.{
  ℕ, ◌+◌, ◌-◌, ◌%◌, ◌==◌, ◌≤◌, ◌≡◌, refl, ◌∙◌, arith, true, ◌&&◌, List, [], ◌∷◌, ltb, leb,
  if◌then◌else◌, u32, ◌⊎◌,
}
use spi_nnaker_emulator.Base.Outcome.{Outcome}
use spi_nnaker_emulator.Events.{queue_event}
use spi_nnaker_emulator.Core.Memory.{Bytes, Maps, all_mapped}
use spi_nnaker_emulator.Core.Map.{spin1_malloc, dtcm_base, dtcm_size}
use spi_nnaker_emulator.Core.Runtime.{Runtime, dma_transfer_done}

-- Memory after a copy.
abbrev copied : ℕ → ℕ → ℕ → Bytes → Bytes
copied dst src len mem a = if leb dst a && ltb a (dst + len) then mem (src + (a - dst)) else mem a

abbrev pub Apart : ℕ → ℕ → ℕ → Type 0
Apart a b len = (a + len ≤ b) ⊎ (b + len ≤ a)

-- Both regions are mapped.
abbrev pub AreMapped : Maps → ℕ → ℕ → ℕ → Type 0
AreMapped maps a b len = (all_mapped maps a len ≡ true) × (all_mapped maps b len ≡ true)

-- The state behind the copy, where no callback is called.
abbrev done : ℕ → Bytes → Runtime → Runtime
done tag mem s = record s {
  mem = mem;
  flip = if s.flip % 2 == 0 then s.flip + 1 else s.flip - 1;
  events =
      queue_event dma_transfer_done s.dma_id tag (s.events.evinfo dma_transfer_done).cback s.events;
  dma_id = u32 (s.dma_id + 1);
}

-- The blocks of requests made one after the other, and the free pointer behind them.
abbrev pub malloc_all : List ℕ → ℕ → List (ℕ × ℕ) × ℕ
malloc_all [] freeptr = ([], freeptr)
malloc_all (bytes ∷ requests) freeptr =
    let r = spin1_malloc bytes freeptr in
    let rest = malloc_all requests (r.1) in (((r.0, bytes) ∷ rest.0), rest.1)

abbrev pub total : List ℕ → ℕ
total [] = 0
total (bytes ∷ requests) = bytes + total requests

-- Each block begins where the one before ended, the first at `lo`, and none ends behind `hi`.
abbrev pub Consecutive : ℕ → ℕ → List (ℕ × ℕ) → Type 0
Consecutive lo hi [] = lo ≤ hi
Consecutive lo hi (block ∷ blocks) = (block.0 ≡ lo) × Consecutive (lo + block.1) hi blocks

-- While the free pointer is in the DTCM and the requests fit behind it, `spin1_malloc` gives them
-- blocks in the DTCM that follow one another without a gap, and the free pointer moves by their
-- total.
pub malloc_all-Consecutive :
    (requests : List ℕ) (freeptr : ℕ)
    → dtcm_base ≤ freeptr
    → freeptr + total requests ≤ dtcm_base + dtcm_size
    → Consecutive freeptr (dtcm_base + dtcm_size) ((malloc_all requests freeptr).0)
      × ((malloc_all requests freeptr).1 ≡ freeptr + total requests)
unfolding spin1_malloc
malloc_all-Consecutive [] freeptr lo fits = (omega arith, omega arith)
malloc_all-Consecutive (bytes ∷ requests) freeptr lo fits =
    let next : u32 (freeptr + bytes) ≡ freeptr + bytes = omega arith in
    let rest = malloc_all-Consecutive requests (freeptr + bytes) (omega arith) (omega arith) in
    rw next ((refl, rest.0), rest.1 ∙ omega arith)
