-- ===== src/Examples/Cores.antt =====
-- A core with two events waiting, and requests that it answers.
use spi_nnaker_emulator.Base.{
  ℕ, true, inr, ◌≡◌, List, ◌++◌, All, All-replicate, replicate, ◌↔◌, refl, arith, ◌==◌, false, [],
  ◌∷◌, some, if◌then◌else◌, drop,
}
use spi_nnaker_emulator.Base.Int.{pos}
use spi_nnaker_emulator.Base.Outcome.{ok, fault}
use spi_nnaker_emulator.Grid.{get_chip_id}
use spi_nnaker_emulator.Sdp.Message.{Msg, word_at, struct_bytes, msg_of_bytes}
use spi_nnaker_emulator.Sdp.Struct.{IsStruct, packed, declared, packed-msg_of_bytes}
use spi_nnaker_emulator.Events.{Event, EventInfo, Scheduler, pick}
use spi_nnaker_emulator.Dispatcher.Commands.{packet_read, packet_write}
use spi_nnaker_emulator.Core.Memory.{Bytes, all_mapped, emu_addr}
use spi_nnaker_emulator.Core.Map.{core_maps}
use spi_nnaker_emulator.Core.Access.{covered}
use spi_nnaker_emulator.Core.Packets.{Core, Callbacks, take_sdp, read_sdp, send_sdp_msg}
use spi_nnaker_emulator.Core.Reply.{IsAnswered, take_sdp_write-read, take_sdp_unmapped}
use spi_nnaker_emulator.Core.Transport.{sdp_arrives}
use spi_nnaker_emulator.Dispatcher.Process.{dispatch_sdp_one, dispatch_sdp}
use spi_nnaker_emulator.Sdp.RoundTrip.{IsMsg}
use spi_nnaker_emulator.Sdp.Overlay.{IsByte}
use spi_nnaker_emulator.Core.Print.{io_std, message, io_printf}
use spi_nnaker_emulator.Core.Tube.{tube_header, told_host, dispatch_sdp-io_printf}
use spi_nnaker_emulator.Examples.Tags.{request}
use spi_nnaker_emulator.Examples.Messages.{dispatcher}

abbrev tick : Event
tick = record { arg1 = 7; arg2 = 0; cback = 11 }

-- Types 2 and 4 have an event waiting, at priorities 3 and 1.
abbrev registered : ℕ → EventInfo
registered j =
    if j == 2
    then record { priority = pos 3; cback = 11; queue = tick ∷ [] }
    else if j == 4
    then record { priority = pos 1; cback = 12; queue = tick ∷ [] }
    else record { priority = pos 0; cback = 0; queue = [] }

abbrev pub scheduler : Scheduler
scheduler = record { evinfo = registered; calls = [] }

picks_four : pick registered ≡ some 4
unfolding pick
picks_four = refl

abbrev zeros : Bytes
zeros a = 0

-- Seven bytes as half words at 0x60000000.
abbrev write : Msg
write = record (request 0x60000000 7 1) {
  cmd_rc = packet_write;
  body = 1 ∷ 2 ∷ 3 ∷ 4 ∷ 5 ∷ 6 ∷ 7 ∷ [];
}

abbrev read : Msg
read = record (request 0x60000000 7 1) { cmd_rc = packet_read }

abbrev pub core_one : Core
core_one = record {
  dims = record { chips_x = 2; chips_y = 2 };
  chip = 3;
  core = 1;
  mem = zeros;
  events = scheduler;
  barrier_go = false;
  barrier_rdygo = false;
  barrier_rdy1_cnt = 0;
  barrier_rdy2_cnt = 0;
  sent = [];
}

abbrev pub calls_nothing : Callbacks
calls_nothing ev s = s

on_board : get_chip_id core_one.dims 3 ≡ some 257
unfolding get_chip_id
on_board = refl

write-AreBytes : All IsByte (write.body)
write-AreBytes = (
  omega arith,
  (omega arith, (omega arith, (omega arith, (omega arith, (omega arith, (omega arith, tt)))))),
)

write_mapped :
    all_mapped (core_maps core_one.chip core_one.core) (emu_addr write.arg1) (covered write) ≡ true
unfolding core_maps emu_addr
write_mapped = refl

take_sdp_write-read_example :
    (s₁ s₂ : Core) × (take_sdp calls_nothing 0 4096 write core_one ≡ ok s₁)
    × (take_sdp calls_nothing 0 4096 read s₁ ≡ ok s₂)
    × IsAnswered write read core_one s₂
take_sdp_write-read_example =
    take_sdp_write-read calls_nothing 0 4096 0 4096 257 write read core_one on_board refl refl refl
      write_mapped (refl, refl, refl) (omega arith) refl write-AreBytes
      (All-replicate IsByte 256 0 (omega arith))

-- The system RAM of the chip.
take_sdp_unmapped_example :
    take_sdp calls_nothing 0 4096 (record read { arg1 = 0xF5000100 }) core_one ≡ fault
take_sdp_unmapped_example =
    take_sdp_unmapped calls_nothing 0 4096 (record read { arg1 = 0xF5000100 }) core_one (inr refl)
      refl (omega arith) (omega arith) (omega arith)

request-IsMsg : IsMsg (request 1 2 3)
request-IsMsg = record {
  length_fits = omega arith;
  checksum_fits = omega arith;
  dest_addr_fits = omega arith;
  srce_addr_fits = omega arith;
  cmd_rc_fits = omega arith;
  seq_fits = omega arith;
  arg1_fits = omega arith;
  arg2_fits = omega arith;
  arg3_fits = omega arith;
  pad_fits = omega arith;
  body_fits = refl;
}

sdp_arrives_example :
    (dispatch_sdp (drop 1 (send_sdp_msg 0 (request 1 2 3))) dispatcher
      ≡ dispatch_sdp_one (request 1 2 3) dispatcher)
    × (read_sdp calls_nothing 0 4096 (drop 1 (send_sdp_msg 0 (request 1 2 3))) core_one
        ≡ take_sdp calls_nothing 0 4096 (request 1 2 3) core_one)
sdp_arrives_example =
    sdp_arrives calls_nothing 0 0 4096 (request 1 2 3) dispatcher core_one request-IsMsg

abbrev hi : List ℕ
hi = 104 ∷ 105 ∷ []

dispatch_sdp-io_printf_example :
    (m : Msg) × (io_printf io_std hi (request 1 2 3) core_one ≡ ok (message m))
    × (dispatch_sdp (drop 1 (send_sdp_msg 0 m)) dispatcher
        ≡ ok (told_host (tube_header 257 (request 1 2 3) core_one ++ hi) dispatcher))
dispatch_sdp-io_printf_example =
    dispatch_sdp-io_printf hi (request 1 2 3) core_one 257 (omega arith)
      (omega arith, (omega arith, tt)) request-IsMsg (All-replicate IsByte 256 0 (omega arith))
      on_board 0 dispatcher

abbrev image : List ℕ
image = 7 ∷ replicate 291 1

image-AreBytes : All IsByte image
image-AreBytes = (omega arith, All-replicate IsByte 291 1 (omega arith))

request-IsStruct : IsStruct (request 1 2 3)
request-IsStruct = record {
  words = request-IsMsg;
  flags_fits = omega arith;
  tag_fits = omega arith;
  dest_port_fits = omega arith;
  srce_port_fits = omega arith;
  body_bytes = All-replicate IsByte 256 0 (omega arith);
}

image-IsStruct : IsStruct (msg_of_bytes image)
image-IsStruct =
    (packed-msg_of_bytes image 0 (request 1 2 3) refl image-AreBytes (omega arith)
      request-IsStruct).0

packed-msg_of_bytes_example :
    IsStruct (msg_of_bytes image)
    × (struct_bytes 0x01010107 (msg_of_bytes image)
        ≡ packed (declared 0x01010107 (msg_of_bytes image)))
    × ((packed (declared 0x01010107 (msg_of_bytes image)) ≡ image)
        ↔ ((0x01010107 ≡ word_at image 0) × (msg_of_bytes image ≡ msg_of_bytes image)))
packed-msg_of_bytes_example =
    packed-msg_of_bytes image 0x01010107 (msg_of_bytes image) refl image-AreBytes (omega arith)
      image-IsStruct
