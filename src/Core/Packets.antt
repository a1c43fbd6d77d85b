-- ===== src/Core/Packets.antt =====
-- What a core does with a packet (`read_mc`, `read_sdp`, spin_emu_api.c) and with a request for its
-- version (`cmd_ver`, scamp_emu.c).
use spi_nnaker_emulator.Base.{
  ℕ, ◌+◌, ◌*◌, ◌^◌, ◌%◌, ◌-◌, ◌==◌, Bool, true, List, [], ◌∷◌, ◌++◌, ltb, if◌then◌else◌, u16, u32,
  shl, shr, length, drop,
}
use spi_nnaker_emulator.Base.Outcome.{Outcome, ok, died, ◌>>=◌, ◌>>◌, assert}
use spi_nnaker_emulator.Grid.{Dims, get_chip_id}
use spi_nnaker_emulator.McQueue.{Mc}
use spi_nnaker_emulator.Wire.{parse_mc, packet_sdp}
use spi_nnaker_emulator.Sdp.Message.{Msg, msg_size, buf_size, msg_of_bytes, struct_bytes}
use spi_nnaker_emulator.Events.{Event, Scheduler, queue_event, is_direct}
use spi_nnaker_emulator.Dispatcher.Commands.{
  packet_write, packet_read, packet_ver, packet_as, asserted,
}
use spi_nnaker_emulator.Core.Map.{core_maps}
use spi_nnaker_emulator.Core.Memory.{Bytes, core_write, core_read}

abbrev pub go_key : ℕ
go_key = 0x1ffff * 2 ^ 11

abbrev pub rdygo_key : ℕ
rdygo_key = go_key + 1

abbrev pub rdy1_key : ℕ
rdy1_key = go_key + 2

abbrev pub rdy2_key : ℕ
rdy2_key = go_key + 3

abbrev pub mc_packet_received : ℕ
mc_packet_received = 0

abbrev pub sdp_packet_rx : ℕ
sdp_packet_rx = 3

-- The variables of a core that its receiver thread changes, and the messages that it sent.
-- `spin_emu_chip` is `chip`, `spin_emu_core` is `core`.
pub record Core : Type 0 where
  pub dims : Dims
  pub chip : ℕ
  pub core : ℕ
  pub mem : Bytes
  pub events : Scheduler
  pub barrier_go : Bool
  pub barrier_rdygo : Bool
  pub barrier_rdy1_cnt : ℕ
  pub barrier_rdy2_cnt : ℕ
  pub sent : List Msg

-- An event with the callback that is registered for its type.
-- What the call of a callback of the application does.
abbrev pub Callbacks : Type 0
Callbacks = Event → Core → Core

-- `queue_event` with the callback of the event, which is called at once or later.
unfoldable pub notify : Callbacks → ℕ → ℕ → ℕ → Core → Core
unfolding queue_event
notify cback id arg1 arg2 s =
    let info = s.events.evinfo id in
    let s' : Core = record s { events = queue_event id arg1 arg2 info.cback s.events } in
    if is_direct info
    then cback (record { arg1 = arg1; arg2 = arg2; cback = info.cback }) s'
    else s'

-- The switch of `read_mc`.
unfoldable pub take_mc : Callbacks → Mc → Core → Core
unfolding notify
take_mc cback mc s =
    if mc.key == rdygo_key
    then record s { barrier_rdygo = true }
    else if mc.key == go_key
    then record s { barrier_go = true }
    else if mc.key == rdy1_key
    then record s { barrier_rdy1_cnt = u32 (s.barrier_rdy1_cnt + 1) }
    else if mc.key == rdy2_key
    then record s { barrier_rdy2_cnt = u32 (s.barrier_rdy2_cnt + 1) }
    else notify cback mc_packet_received mc.key mc.payload s

-- `read_mc`. A packet without a payload has 0 for the second argument.
unfoldable pub read_mc : Callbacks → List ℕ → Core → Outcome Core
unfolding parse_mc take_mc
read_mc cback buf s = parse_mc buf >>= λ mc. ok (take_mc cback mc s)

-- VER_STR, "SC&MP Emulator/SpiNNaker", and its end.
abbrev pub ver_str : List ℕ
ver_str =
    0x53 ∷ 0x43 ∷ 0x26 ∷ 0x4D ∷ 0x50 ∷ 0x20 ∷ 0x45 ∷ 0x6D ∷ 0x75 ∷ 0x6C ∷ 0x61 ∷ 0x74 ∷ 0x6F ∷ 0x72
    ∷ 0x2F ∷ 0x53 ∷ 0x70 ∷ 0x69 ∷ 0x4E ∷ 0x4E ∷ 0x61 ∷ 0x6B ∷ 0x65 ∷ 0x72 ∷ 0 ∷ []

-- A `char` of i686 as a `uint`.
abbrev pub char_word : ℕ → ℕ
char_word n = if ltb (n % 2 ^ 8) 128 then n % 2 ^ 8 else n % 2 ^ 8 + 2 ^ 32 - 2 ^ 8

-- `cmd_ver` at time `now` on the core with packed chip coordinates `id`: its result and the message.
unfoldable pub core_ver : ℕ → ℕ → ℕ → Msg → ℕ × Msg
core_ver now id core m = (
  12 + length ver_str,
  record m {
    arg1 = u32 (shl (char_word id) 16 + id * 2 ^ 8 + core);
    arg2 = buf_size;
    arg3 = u32 now;
    body = ver_str ++ drop (length ver_str) m.body;
  },
)

-- The reply to the sender of a request, with `n` bytes of result.
unfoldable pub reply : ℕ → ℕ → Msg → Core → Core
reply id n m s = record s {
  sent =
      s.sent
      ++ record m {
        dest_port = m.srce_port;
        dest_addr = m.srce_addr;
        srce_port = s.core % 256;
        srce_addr = u16 id;
        cmd_rc = 0x80;
        length = u16 (n + 12);
      }
        ∷ [];
}

-- The switch of `read_sdp`, for a message that `xmalloc` put at address `at`. `cmd_as` does not come
-- back: it replaces the program of the process, or ends it.
unfoldable pub take_sdp : Callbacks → ℕ → ℕ → Msg → Core → Outcome Core
unfolding core_write core_read core_ver reply get_chip_id core_maps notify
take_sdp cback now at m s =
    let id = asserted (get_chip_id s.dims s.chip) in
    if m.cmd_rc == packet_write
    then (core_write (core_maps s.chip s.core) m s.mem >>= λ r. ok (record s { mem = r.2 }))
    else if m.cmd_rc == packet_read
    then (core_read (core_maps s.chip s.core) m s.mem >>= λ r.
        id >>= λ i. ok (reply i (r.0) (r.1) s))
    else if m.cmd_rc == packet_ver
    then (id >>= λ i. ok (reply i ((core_ver now i s.core m).0) ((core_ver now i s.core m).1) s))
    else if m.cmd_rc == packet_as
    then died
    else ok (notify cback sdp_packet_rx at (shr m.dest_port 5) s)

-- `read_sdp`.
unfoldable pub read_sdp : Callbacks → ℕ → ℕ → List ℕ → Core → Outcome Core
unfolding take_sdp msg_of_bytes
read_sdp cback now at buf s = do
  assert (length buf == msg_size)
  take_sdp cback now at (msg_of_bytes buf) s

-- What `spin1_send_sdp_msg` sends for a message whose field `next` has the value `next`.
unfoldable pub send_sdp_msg : ℕ → Msg → List ℕ
unfolding struct_bytes
send_sdp_msg next m = packet_sdp ∷ struct_bytes next m
