-- ===== src/Dispatcher.antt =====
-- The dispatcher process (spin_emu_dispatcher.c): its state, the commands that it takes from the
-- ethernet and the packets that it takes from the cores.
pub mod State
pub mod Commands
pub mod Process
pub mod Delivery
pub mod Start
pub mod Requests
pub mod Keep
pub mod Loop
pub mod Running
pub mod Rounds
pub mod Steps
