-- ===== src/Dispatcher/Requests.antt =====
-- The immediate answers of `receive_msg_from_ether` (spin_emu_dispatcher.c).
use spi_nnaker_emulator.Base.{◌≤◌, ◌≡◌, ◌⊎◌, inl, inr, ◌∙◌, arith, length, ntohs, if◌then◌else◌}
use spi_nnaker_emulator.Dispatcher.State.{Dispatcher, Memory}
use spi_nnaker_emulator.Dispatcher.Process.{
  cmd_read, cmd_iptag_code, process_message, Received, ether_msg, answers_at_once, acknowledge,
  remember, receive_msg,
}

-- A datagram that fits the receive buffer's message.
abbrev pub Fits : Received → Type 0
Fits r = (2 ≤ length r.bytes) × (length r.bytes ≤ 286)

receive_msg-Fits :
    (mem : Memory) (r : Received) (s : Dispatcher)
    → Fits r
    → receive_msg mem r s
      ≡ process_message mem (ether_msg r.bytes) (
          if answers_at_once (ether_msg r.bytes)
          then acknowledge r s
          else remember r (ether_msg r.bytes) s)
unfolding receive_msg
receive_msg-Fits mem r s (lo, hi) = ground arith

-- A READ or IPTAG request in network byte order, of 2 to 286 bytes, is acknowledged at once, and
-- its sender is not remembered, before `process_message` handles it.
pub receive_msg_answers :
    (mem : Memory) (r : Received) (s : Dispatcher)
    → Fits r
    → (ntohs (ether_msg r.bytes).cmd_rc ≡ cmd_read)
      ⊎ (ntohs (ether_msg r.bytes).cmd_rc ≡ cmd_iptag_code)
    → receive_msg mem r s ≡ process_message mem (ether_msg r.bytes) (acknowledge r s)
receive_msg_answers mem r s fits (inl e) = receive_msg-Fits mem r s fits ∙ ground arith
receive_msg_answers mem r s fits (inr e) = receive_msg-Fits mem r s fits ∙ ground arith
