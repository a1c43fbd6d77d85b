-- ===== src/McQueue.antt =====
-- The queues of multicast packets (spin_emu.h, `queue_mc` and the queue handling of the flush loops
-- in spin_emu_dispatcher.c): 1024 slots used in a circle.
pub mod Fifo
use spi_nnaker_emulator.Base.{
  ℕ, zero, suc, ◌+◌, ◌-◌, ◌%◌, Bool, true, List, [], ◌∷◌, leb, put, if◌then◌else◌,
}

-- `struct spin_emu_mc_t`.
pub record Mc : Type 0 where
  pub key : ℕ
  pub payload : ℕ
  pub has_payload : ℕ

-- SPIN_EMU_MC_QUEUE_SIZE.
abbrev pub queue_size : ℕ
queue_size = 1024

-- `struct spin_emu_mc_queue`. Every index into the slots is taken modulo the size.
pub record Queue : Type 0 where
  pub pos : ℕ
  pub len : ℕ
  pub slots : ℕ → Mc

-- The new queue and the new `mc_pending`. A full queue drops the packet.
unfoldable pub queue_mc : Queue → Bool → Mc → Queue × Bool
queue_mc q mc_pending mc =
    if leb queue_size q.len
    then (q, mc_pending)
    else (record q { slots = put q.slots ((q.pos + q.len) % queue_size) mc; len = q.len + 1 }, true)

-- The packet that a flush loop takes next.
unfoldable pub front : Queue → Mc
front q = q.slots (q.pos % queue_size)

-- `q->pos++; q->len--;`, which runs only at `q->len` other than 0.
unfoldable pub advance : Queue → Queue
advance q = record q { pos = q.pos + 1; len = q.len - 1 }

-- The `n` packets from position `p` on.
pub window : (ℕ → Mc) → ℕ → ℕ → List Mc
window slots p zero = []
window slots p (suc n) = slots (p % queue_size) ∷ window slots (p + 1) n

-- The packets that a queue holds, oldest first.
unfoldable pub contents : Queue → List Mc
unfolding window
contents q = window q.slots q.pos q.len
