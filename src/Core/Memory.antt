-- ===== src/Core/Memory.antt =====
-- `cmd_write` and `cmd_read` (scamp_emu.c). Memory is a function from addresses to bytes; an access
-- outside the maps of the process is undefined.
use spi_nnaker_emulator.Base.{
  ℕ, zero, suc, ◌+◌, ◌-◌, ◌*◌, ◌/◌, ◌==◌, Bool, true, ◌&&◌, ◌||◌, List, [], ◌∷◌, ltb, leb,
  if◌then◌else◌, put, get_or, count_up,
}
use spi_nnaker_emulator.Base.Outcome.{Outcome, ok, ◌>>◌, in_bounds}
use spi_nnaker_emulator.Sdp.Message.{Msg, buf_size, overlay}
use spi_nnaker_emulator.IpTag.{rc_arg}

abbrev pub Bytes : Type 0
Bytes = ℕ → ℕ

-- The addresses that a process can read and write.
abbrev pub Maps : Type 0
Maps = ℕ → Bool

-- The `n` bytes from an address on are mapped.
abbrev pub all_mapped : Maps → ℕ → ℕ → Bool
all_mapped maps a zero = true
all_mapped maps a (suc n) = maps a && all_mapped maps (a + 1) n

abbrev pub type_byte : ℕ
type_byte = 0

abbrev pub type_half : ℕ
type_half = 1

abbrev pub type_word : ℕ
type_word = 2

-- The bytes of one element of the access type.
abbrev pub width : ℕ → ℕ
width type = if type == type_byte then 1 else if type == type_half then 2 else 4

-- Addresses of the system RAM of the board lie elsewhere in the emulator. The result is below
-- 0xf5000000, so that no access of 256 bytes wraps round.
unfoldable pub emu_addr : ℕ → ℕ
emu_addr a = if leb 0xf5000000 a then a - (0xf5000000 - 0x1FFF8000) else a

-- The argument test of both commands.
abbrev pub bad_access : Msg → Bool
bad_access m = ltb buf_size m.arg2 || ltb type_word m.arg3

-- `mem[i] = buf[i]` for elements of `w` bytes.
unfoldable pub store_element : ℕ → ℕ → List ℕ → ℕ → Bytes → Bytes
unfolding count_up
store_element w addr buf i mem =
    count_up w 0 (λ b mem. put mem (addr + (w * i + b)) (get_or buf (w * i + b) 0)) mem

-- `cmd_write`: the number that it returns, the message, and the memory.
unfoldable pub core_write : Maps → Msg → Bytes → Outcome (ℕ × Msg × Bytes)
unfolding emu_addr store_element count_up
core_write maps m mem =
    let addr = emu_addr m.arg1 in
    let w = width m.arg3 in
    if bad_access m
    then ok (0, record m { cmd_rc = rc_arg }, mem)
    else (in_bounds (all_mapped maps addr (w * (m.arg2 / w)))
        >> ok (
          m.arg2,
          record m { arg1 = addr },
          count_up (m.arg2 / w) 0 (store_element w addr m.body) mem,
        ))

-- The `n` bytes of memory from an address on.
abbrev pub bytes_from : ℕ → ℕ → Bytes → List ℕ
bytes_from zero a mem = []
bytes_from (suc n) a mem = mem a ∷ bytes_from n (a + 1) mem

-- `cmd_read`: the number that it returns, and the message. The bytes go to the message from `arg1`
-- on.
unfoldable pub core_read : Maps → Msg → Bytes → Outcome (ℕ × Msg)
unfolding emu_addr overlay
core_read maps m mem =
    let addr = emu_addr m.arg1 in
    let w = width m.arg3 in
    if bad_access m
    then ok (0, record m { cmd_rc = rc_arg })
    else (in_bounds (all_mapped maps addr (w * (m.arg2 / w)))
        >> ok (m.arg2, overlay (bytes_from (w * (m.arg2 / w)) addr mem) (record m { arg1 = addr })))
