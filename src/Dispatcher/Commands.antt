-- ===== src/Dispatcher/Commands.antt =====
-- The command handlers of the dispatcher: queueing for a core, starting applications, flood fill,
-- replies over the ethernet, and `cmd_p2pc`.
use spi_nnaker_emulator.Base.{
  ℕ, ◌+◌, ◌*◌, ◌^◌, ◌&&◌, ◌==◌, true, [], ◌∷◌, ◌++◌, Option, none, some, ltb, leb, if◌then◌else◌,
  has_bit, shr, low_bits, ntohl, ntohs, le_bytes, take, update, count_up_ok,
}
use spi_nnaker_emulator.Base.Int.{pos, inc}
use spi_nnaker_emulator.Base.Outcome.{Outcome, ok, died, ◌>>=◌, ◌>>◌, assert, in_bounds}
use spi_nnaker_emulator.Grid.{Dims, num_chips, num_cpus, chip_id}
use spi_nnaker_emulator.Sdp.Message.{Msg, msg_bytes}
use spi_nnaker_emulator.Sdp.Store.{queue_sdp_xy}
use spi_nnaker_emulator.IpTag.{tag_table_size}
use spi_nnaker_emulator.Router
use spi_nnaker_emulator.Board.{setup_net}
use spi_nnaker_emulator.Spawn.{start_cores}
use spi_nnaker_emulator.Dispatcher.State.{Dispatcher, Memory}

abbrev pub packet_write : ℕ
packet_write = 0x49

abbrev pub packet_read : ℕ
packet_read = 0x4a

abbrev pub packet_ver : ℕ
packet_ver = 0x4b

abbrev pub packet_as : ℕ
packet_as = 0x4c

-- A failed assertion of `chip_id`.
abbrev pub asserted : Option ℕ → Outcome ℕ
asserted none = died
asserted (some a) = ok a

-- The chip that the address of a message names.
unfoldable pub dest_chip : Msg → Dispatcher → Outcome ℕ
unfolding chip_id
dest_chip m s =
    asserted (chip_id s.net.dims (pos (shr m.dest_addr 8)) (pos (low_bits m.dest_addr 8)))

-- `queue_sdp_xy` at core `c`; the arrays have NUM_CPUS entries for each chip.
unfoldable pub queue_for : Msg → ℕ → ℕ → Dispatcher → Outcome Dispatcher
unfolding queue_sdp_xy
queue_for m id c s = do
  in_bounds (ltb c num_cpus)
  sdp ← queue_sdp_xy m id c s.sdp
  ok (record s { sdp = sdp })

-- `queue_sdp`; the core is the low five bits of the port.
unfoldable pub queue_sdp : Msg → Dispatcher → Outcome Dispatcher
unfolding dest_chip queue_for
queue_sdp m s = do id ← dest_chip m s; queue_for m id (low_bits m.dest_port 5) s

-- The body of the loops of `dispatch_as` and `flood_as` for a core in the mask.
unfoldable pub start_core : Msg → ℕ → ℕ → Dispatcher → Outcome Dispatcher
unfolding queue_for
start_core m c i s = do
  s' ← queue_for (record m { cmd_rc = packet_as }) c i s
  ok (record s' { running = update s'.running c i 1; running_count = inc s'.running_count })

unfoldable pub start_masked : ℕ → Msg → ℕ → ℕ → Dispatcher → Outcome Dispatcher
unfolding start_core
start_masked mask m c i s = if has_bit mask i then start_core m c i s else ok s

-- `dispatch_as`: the cores in the mask, on the chip of the address.
unfoldable pub dispatch_as : Msg → Dispatcher → Outcome Dispatcher
unfolding dest_chip start_masked count_up_ok
dispatch_as m s = do
  id ← dest_chip m s
  count_up_ok (num_chips s.net.dims) 0
      (λ c s. if c == id then count_up_ok num_cpus 0 (start_masked (ntohl m.arg2) m c) s else ok s)
      s

-- `flood_as`: the cores in the mask, on every chip, at the address of the flood fill.
unfoldable pub flood_as : Msg → Dispatcher → Outcome Dispatcher
unfolding start_masked count_up_ok
flood_as m s =
    count_up_ok (num_chips s.net.dims) 0
      (λ c s. count_up_ok num_cpus 0 (start_masked m.arg2 (record m { arg1 = s.floodfill }) c) s) s

-- The write request that `cmd_floodfill` makes of a flood fill packet: words become bytes.
unfoldable pub write_request : Msg → Msg
write_request m = record m {
  cmd_rc = packet_write;
  arg1 = m.arg3;
  arg2 = (low_bits (shr m.arg2 8) 8 + 1) * 4;
  arg3 = 0;
}

-- `cmd_floodfill`: core 1 of every chip writes.
unfoldable pub cmd_floodfill : Msg → Dispatcher → Outcome Dispatcher
unfolding write_request queue_for count_up_ok
cmd_floodfill m s =
    count_up_ok (num_chips s.net.dims) 0 (λ c s. queue_for (write_request m) c 1 s) s

-- `dispatch_sdp_to_ether`. The assertion allows 288 bytes, but only 284 follow the checksum.
unfoldable pub dispatch_sdp_to_ether : Msg → Dispatcher → Outcome Dispatcher
unfolding msg_bytes
dispatch_sdp_to_ether m s = do
  assert (leb m.length 288)
  let known = ltb m.tag tag_table_size
  let m' = if known then m else record m { seq = s.sender.seq }
  in_bounds (leb m.length 284)
  ok (record s {
    ether =
        s.ether
        ++ record {
          bytes = 1 ∷ 0 ∷ take m.length (msg_bytes m');
          to_port = if known then ntohs (s.tags.table m.tag).port else s.sender.port;
          to_ip = if known then (s.tags.table m.tag).ip else le_bytes s.sender.ip;
        }
          ∷ [];
  })

abbrev pub set_up : Option Router.Net → (Router.Net → Outcome Dispatcher) → Outcome Dispatcher
set_up none k = died
set_up (some net) k = k net

-- `cmd_p2pc`. The counters that exist before keep their values. NUM_CHIPS, an `int`, and the sizes
-- of arrays with an entry of 4 bytes for each chip have to be right, and memory is used unchecked.
-- The tables that it fills between the two calls of `start_cores` do not depend on them.
unfoldable pub cmd_p2pc : Memory → ℕ → ℕ → Dispatcher → Outcome Dispatcher
unfolding setup_net start_cores
cmd_p2pc mem x y s =
    let d : Dims = record { chips_x = x; chips_y = y } in
    let os = mem.calls in
    let spawned = start_cores d os.pairs os.pids os.sockets os.child_pid in
    let made =
      in_bounds (ltb (x * y) (2 ^ 30) && os.malloc)
      >> (assert os.mkdtemp
          >> set_up (setup_net d mem.routes mem.targets) (λ net. spawned >>= λ r. ok (record s {
            initialised = true;
            net = net;
            router = record s.router { queues = mem.queues };
            sdp = record s.sdp { head = mem.head; tail = mem.tail };
            running = mem.running;
            sockets = r.0;
            children = r.1;
          }))) in
    if s.initialised then ok s else made
