-- ===== src/Lib.antt =====
-- SpiNNakerEmulator: the dispatcher of an emulated SpiNNaker board, and what it exchanges with the
-- cores and the host.
--
-- The program. One dispatcher process (spin_emu_dispatcher.c) owns the board: the multicast queues,
-- routing tables and link table of every chip, the SDP message queues of every core, and the IP
-- tags. Every core is a process that talks to it over a socket (spin_emu_api.c, spin_emu_util.c):
-- multicast packets, SDP messages and routing entries go to the dispatcher, packets and messages come
-- back. The host sends SDP messages over UDP. A round of the loop of the dispatcher handles the
-- datagrams that wait on its sockets and calls `flush_mc_queues` and `flush_sdp_queues`.
--
-- The modules.
--   Base        numbers of fixed width, Boolean tests, lists, arrays as functions of their indices,
--               the counting loops of C, and `Outcome`, what a call can come to: a result, the end
--               of the process, an undefined memory access, or the end of a loop's fuel.
--   Grid        `chip_id`, `chip_my_x`, `chip_my_y` (spin_emu.h), the link values computed in
--               `cmd_p2pc` (spin_emu_dispatcher.c), `p2p_get` and `spin1_get_chip_id`
--               (spin_emu_api.c).
--   McQueue     `struct spin_emu_mc_queue` (spin_emu.h), `queue_mc` (spin_emu_dispatcher.c).
--   Wire        `spin_emu_send_mc`, `spin_emu_send_route` (spin_emu_util.c), `store_route` and the
--               parsing in `dispatch_mc` (spin_emu_dispatcher.c), `spin1_set_mc_table_entry`
--               (spin_emu_api.c).
--   Spawn       `spin_emu_setup_channels`, `spin_emu_spawn_cores` (spin_emu.c) and `run_core`
--               (spin_emu_dispatcher.c): the processes that `cmd_p2pc` starts, and what its calls of
--               the operating system answer.
--   Start       `main` (spin_emu_main.c): the configuration; Start/Cores is about Spawn.
--   Router      `route_mc`, `route_one_mc_queue`, `flush_one_mc_queue`, `flush_mc_queues`,
--               `dispatch_mc` (spin_emu_dispatcher.c); Router/Broadcast, Wave, WaveStep and Reached
--               follow one packet that spreads over the board.
--   Board       the tables that `cmd_p2pc` fills (spin_emu_dispatcher.c).
--   Sdp         `sdp_msg_t` (spin_emu.h), `queue_sdp_xy`, `flush_sdp_queues`
--               (spin_emu_dispatcher.c), with the heap of nodes as a function from addresses.
--   IpTag       `iptag_t` (spin_emu.h), `iptag_init`, `iptag_new`, `cmd_iptag`
--               (spin_emu_dispatcher.c).
--   Dispatcher  the process's variables, `queue_sdp`, `dispatch_as`, `flood_as`, `cmd_floodfill`,
--               `cmd_p2pc`, `dispatch_sdp_to_ether`, `dispatch_sdp_one`, `process_message`,
--               `receive_msg_from_ether`, `do_dispatch`, `spin_emu_dispatcher` (spin_emu_dispatcher.c).
--   Events      `evinfo`, `queue_event`, the choice of the next event in `spin1_start`, the order in
--               which events come out, and `spin1_callback_on`/`spin1_callback_off`
--               (spin_emu_api.c).
--   Core        `read_mc`, `read_sdp`, `read_packets`, the loop of `spin1_start`, `lock_try`
--               (spin_emu_api.c), `cmd_write`, `cmd_read`, `cmd_ver`, `spin_emu_controller`
--               (scamp_emu.c): what a core does with the packets that it receives and which
--               callbacks it calls; its memory (spin_emu.c), the start of an application (`cmd_as`,
--               scamp_emu.c, and `main`, spin_emu_app.c), DMA, timer, interrupts and `spin1_malloc`
--               (spin_emu_api.c), `io_printf` (spin_emu_io.c).
--   Barrier     `spin1_set_core_map`, `barrier_setup`, `barrier_wait`, `rts_init` (spin_emu_api.c): the
--               meeting of the cores of an application, with the routing entries that it sends and
--               the way of its GO packet over the board.
--   Examples    runs on small boards.
--
-- State is passed explicitly. Numbers are natural numbers with the wrap-around of the C types written
-- out; signed values that can be negative are integers. Memory from `malloc` holds values that are
-- arguments of the model. Bytes are in the order of i686.
--
-- Fuel. The loops of `flush_mc_queues` run until the queues are empty. They run on fuel; more fuel
-- than a queue has room for packets (1024), and than the longest way of a packet has hops, is enough.
-- Where the routing entries send a packet round in a circle no fuel is enough, as the loops of the code
-- would not end. The loop of `flush_sdp_queues` over a linked list has the next free address as its fuel,
-- which is more than the list has nodes.
--
-- The waits of `barrier_wait` run on fuel too: more than the calls of `clock` that 50 seconds take, and
-- three, is enough. For the wait of `rts_init` the calls that 5 seconds take are.
--
-- The loop of `spin1_start` runs on fuel as well: one round for each event that waits for a callback,
-- and the one that suspends the process, are enough.
--
-- Undefined behaviour is an outcome of its own: an access outside an array or outside the memory that
-- a process maps, an overlapping `memcpy`, and a board whose number of chips, or whose arrays with an
-- entry of 4 bytes for each chip, overflow. The memory that READ and WRITE requests can access is that
-- of `spin_emu_mmap_core_mem`.
--
-- Callbacks of the application are functions on the state of the process; those of priority 0 or
-- less run inside `queue_event`.
--
-- Arguments: what `malloc`, `mkdtemp`, `socketpair`, `fork`, `select`, `recv` and `clock` answer, what the configuration
-- parser (lcfg_static.c, a copy of liblcfg) finds in the file, what `snprintf` prints and `atoi`
-- reads, and the callbacks of an application. The locks of the kernel (`flock`) are an interface.
--
-- Not modelled: lcfg_static.c itself; the calls that bind the socket of the ethernet, unmap or sync
-- memory, and set signal handlers and masks; mutexes and the threads of a core at a grain finer than
-- a round of `spin1_start`; whether the kernel takes a datagram; debug output and the calls for
-- LEDs; the headers spinn_net.h, dma.h and emu_dma.h, of which nothing runs; the overflow of the
-- position of a queue after 2 ^ 31 packets.
pub mod Base
pub mod Grid
pub mod McQueue
pub mod Wire
pub mod Router
pub mod Barrier
pub mod Board
pub mod Sdp
pub mod IpTag
pub mod Dispatcher
pub mod Examples
pub mod Events
pub mod Core
pub mod Start
pub mod Spawn
