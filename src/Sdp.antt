-- ===== src/Sdp.antt =====
-- SDP messages (spin_emu.h) and the queues in which the dispatcher keeps them for the cores: linked
-- lists with a pointer to each end (`queue_sdp_xy` and `flush_sdp_queues`, spin_emu_dispatcher.c).
pub mod Message
pub mod Store
pub mod Chain
pub mod Invariant
pub mod Fifo
pub mod Flush
pub mod FlushOne
pub mod RoundTrip
pub mod Overlay
pub mod Layout
pub mod Struct
