-- ===== src/Dispatcher/Process.antt =====
-- What the dispatcher does with a message from the ethernet and with a packet from a core.
use spi_nnaker_emulator.Base.{
  ℕ, ◌+◌, ◌-◌, ◌==◌, Bool, not, ◌&&◌, List, [], ◌∷◌, ◌++◌, leb, if◌then◌else◌, shr, low_bits, u16,
  ntohl, ntohs, length, take, drop, set, replicate, update,
}
use spi_nnaker_emulator.Base.Int.{dec}
use spi_nnaker_emulator.Base.Outcome.{Outcome, ok, died, ◌>>=◌, ◌>>◌, assert, in_bounds}
use spi_nnaker_emulator.Wire.{packet_mc, packet_sdp, packet_route, packet_finished, store_route}
use spi_nnaker_emulator.Router.{dispatch_mc}
use spi_nnaker_emulator.Sdp.Message.{Msg, msg_size, flags_offset, msg_of_bytes}
use spi_nnaker_emulator.IpTag.{cmd_iptag}
use spi_nnaker_emulator.Dispatcher.State.{Dispatcher, Memory}
use spi_nnaker_emulator.Dispatcher.Commands.{
  packet_write, packet_read, packet_ver, queue_sdp, dispatch_as, flood_as, cmd_floodfill,
  dispatch_sdp_to_ether, cmd_p2pc,
}

-- Codes of `enum sark_scp_command_codes`.
abbrev pub cmd_ver : ℕ
cmd_ver = 0

abbrev pub cmd_read : ℕ
cmd_read = 2

abbrev pub cmd_write : ℕ
cmd_write = 3

abbrev pub cmd_nnp : ℕ
cmd_nnp = 20

abbrev pub cmd_ffd : ℕ
cmd_ffd = 23

abbrev pub cmd_as : ℕ
cmd_as = 24

abbrev pub cmd_iptag_code : ℕ
cmd_iptag_code = 26

abbrev pub cmd_p2pc_code : ℕ
cmd_p2pc_code = 33

-- The case CMD_NNP: start or end of a flood fill.
unfoldable pub process_nnp : Msg → Dispatcher → Outcome Dispatcher
unfolding flood_as
process_nnp m s =
    let cmd = shr m.arg1 24 in
    if cmd == 6
    then ok (record s { floodfill = m.arg2 })
    else if cmd == 15
    then flood_as m s
    else ok s

-- The case CMD_IPTAG: the reply's code is 128 whatever `cmd_iptag` left there.
unfoldable pub process_iptag : Msg → Dispatcher → Outcome Dispatcher
unfolding cmd_iptag dispatch_sdp_to_ether
process_iptag m s = do
  r ← cmd_iptag m s.tags
  dispatch_sdp_to_ether (record (r.1) { cmd_rc = 128; length = u16 (r.0 + 28) })
      (record s { tags = r.2 })

-- The case CMD_P2PC.
unfoldable pub process_p2pc : Memory → Msg → Dispatcher → Outcome Dispatcher
unfolding cmd_p2pc
process_p2pc mem m s =
    let x = low_bits (ntohl m.arg2) 8 in
    let y = low_bits (shr (ntohl m.arg2) 8) 8 in if s.initialised then ok s else cmd_p2pc mem x y s

-- `process_message`.
unfoldable pub process_message : Memory → Msg → Dispatcher → Outcome Dispatcher
unfolding queue_sdp process_nnp process_p2pc cmd_floodfill dispatch_as process_iptag
process_message mem m s =
    let type = ntohs m.cmd_rc in
    if type == cmd_ver
    then queue_sdp (record m { cmd_rc = packet_ver }) s
    else if type == cmd_read
    then queue_sdp (record m { cmd_rc = packet_read }) s
    else if type == cmd_write
    then queue_sdp (record m { cmd_rc = packet_write }) s
    else if type == cmd_nnp
    then process_nnp m s
    else if type == cmd_p2pc_code
    then process_p2pc mem m s
    else if type == cmd_ffd
    then cmd_floodfill m s
    else if type == cmd_as
    then dispatch_as m s
    else if type == cmd_iptag_code
    then process_iptag m s
    else queue_sdp m s

-- A datagram from the ethernet: its bytes, what the receive buffer holds behind them, and its source.
pub record Received : Type 0 where
  pub bytes : List ℕ
  pub stale : List ℕ
  pub port : ℕ
  pub ip : ℕ
  pub ip_bytes : List ℕ

-- The message of a datagram: its bytes from the third on become the struct's from `flags` on.
unfoldable pub ether_msg : List ℕ → Msg
unfolding msg_of_bytes
ether_msg bytes = record (msg_of_bytes (replicate flags_offset 0 ++ drop 2 bytes)) {
  length = u16 (length bytes - 2);
}

-- The test on which the dispatcher answers at once. The command is compared as it was received.
abbrev pub answers_at_once : Msg → Bool
answers_at_once m =
    not (m.cmd_rc == cmd_ver) && (not (m.cmd_rc == cmd_read) && not (m.cmd_rc == cmd_iptag_code))

-- The answer: the bytes received with byte 10 overwritten, and two more of the buffer.
unfoldable pub acknowledge : Received → Dispatcher → Dispatcher
acknowledge r s = record s {
  ether =
      s.ether
      ++ record {
        bytes = take (length r.bytes + 2) (set (r.bytes ++ r.stale) 10 0x80);
        to_port = r.port;
        to_ip = r.ip_bytes;
      }
        ∷ [];
}

unfoldable pub remember : Received → Msg → Dispatcher → Dispatcher
remember r m s = record s { sender = record { ip = r.ip; port = r.port; seq = m.seq } }

-- The loop body of `receive_msg_from_ether`. More than 284 bytes behind the padding overrun the
-- message.
unfoldable pub receive_msg : Memory → Received → Dispatcher → Outcome Dispatcher
unfolding process_message ether_msg acknowledge remember
receive_msg mem r s = do
  in_bounds (leb 2 (length r.bytes) && leb (length r.bytes) 286)
  let m = ether_msg r.bytes
  process_message mem m (if answers_at_once m then acknowledge r s else remember r m s)

-- `dispatch_sdp_one`: port 255 is the ethernet.
unfoldable pub dispatch_sdp_one : Msg → Dispatcher → Outcome Dispatcher
unfolding queue_sdp dispatch_sdp_to_ether
dispatch_sdp_one m s = if m.dest_port == 255 then dispatch_sdp_to_ether m s else queue_sdp m s

unfoldable pub dispatch_sdp : List ℕ → Dispatcher → Outcome Dispatcher
unfolding dispatch_sdp_one msg_of_bytes
dispatch_sdp buf s = do assert (leb (length buf) msg_size); dispatch_sdp_one (msg_of_bytes buf) s

-- The loop body of `do_dispatch` for a packet of type `type`, without its type byte.
unfoldable pub dispatch_packet : ℕ → ℕ → ℕ → List ℕ → Dispatcher → Outcome Dispatcher
unfolding dispatch_mc dispatch_sdp store_route
dispatch_packet chip core type buf s =
    if type == packet_mc
    then (dispatch_mc chip 0 buf s.router >>= λ router. ok (record s { router = router }))
    else if type == packet_sdp
    then dispatch_sdp buf s
    else if type == packet_route
    then (store_route s.net.routes chip buf >>= λ routes.
        ok (record s { net = record s.net { routes = routes } }))
    else if type == packet_finished
    then ok
        (record s { running = update s.running chip core 0; running_count = dec s.running_count })
    else died
