-- ===== src/Core/Print.antt =====
-- `io_printf` (spin_emu_io.c). The text that `snprintf` and `vsnprintf` make of the prefix and of the
-- arguments is an argument, and so is what the new message holds.
use spi_nnaker_emulator.Base.{
  ℕ, zero, suc, false, ◌+◌, ◌-◌, ◌<◌, ◌≡◌, refl, arith, ◌==◌, List, [], ◌∷◌, ◌++◌, leb,
  if◌then◌else◌, u16, le_bytes, length, take, drop,
}
use spi_nnaker_emulator.Base.Outcome.{Outcome, ok, died, fault, ◌>>=◌, ◌>>◌, in_bounds}
use spi_nnaker_emulator.Grid.{get_chip_id}
use spi_nnaker_emulator.Sdp.Message.{Msg, overlay, word_at}
use spi_nnaker_emulator.Dispatcher.Commands.{asserted}
use spi_nnaker_emulator.Core.Packets.{Core}

abbrev pub io_std : ℕ
io_std = 0

abbrev pub io_dbg : ℕ
io_dbg = 1

abbrev pub io_buf : ℕ
io_buf = 2

abbrev pub io_null : ℕ
io_null = 3

-- PORT_ETH.
abbrev pub port_eth : ℕ
port_eth = 255

-- What a call prints: a message to the host, text on `stderr`, or nothing.
pub data Printed : Type 0 where
  message : Msg → Printed
  text : List ℕ → Printed
  nothing : Printed

-- `memcpy(&msg->arg1, buf, len)`: the bytes from `arg1` on, and the 4 bytes of padding behind the
-- data; more run past the end of the message.
unfoldable pub copy_text : List ℕ → Msg → Outcome Msg
unfolding overlay
copy_text buf m =
    in_bounds (leb (length buf) 272)
    >> ok (record (overlay (take 268 buf) m) {
      pad = word_at (drop 268 buf ++ drop (length buf - 268) (le_bytes m.pad)) 0;
    })

-- The text in `buf`, of 1024 bytes with the closing zero.
abbrev pub buf_text : List ℕ → List ℕ
buf_text formatted = take 1023 formatted

unfoldable pub io_printf : ℕ → List ℕ → Msg → Core → Outcome Printed
unfolding copy_text get_chip_id
io_printf stream formatted fresh s =
    let buf = buf_text formatted in
    if stream == io_std
    then (copy_text buf fresh >>= λ m. asserted (get_chip_id s.dims s.chip) >>= λ id. ok (
        message (record m {
          tag = 0;
          dest_port = port_eth;
          dest_addr = 0;
          srce_port = s.core;
          srce_addr = u16 id;
          cmd_rc = 64;
          length = u16 (length buf + 12);
        })))
    else if stream == io_dbg
    then ok (text buf)
    else if stream == io_buf
    then ok (text buf)
    else if stream == io_null
    then ok nothing
    else died

take-long : (n m : ℕ) (xs : List ℕ) → n < m → n < length xs → n < length (take m xs)
take-long n zero xs h l = absurd (omega arith)
take-long n (suc m) [] h l = absurd (omega arith)
take-long zero (suc m) (x ∷ xs) h l = omega arith
take-long (suc n) (suc m) (x ∷ xs) h l = omega (arith, take-long n m xs (omega arith) (omega arith))

-- A text of more than 272 bytes overruns the message.
io_printf_overrun :
    (formatted : List ℕ) (fresh : Msg) (s : Core)
    → 272 < length formatted
    → io_printf io_std formatted fresh s ≡ fault
unfolding io_printf copy_text
io_printf_overrun formatted fresh s long =
    rw (lt→leb 272 (length (buf_text formatted)) (take-long 272 1023 formatted (omega arith) long))
      refl
  where
    lt→leb : (a b : ℕ) → a < b → leb b a ≡ false
    lt→leb a b h = ground arith
