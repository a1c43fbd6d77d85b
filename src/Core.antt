-- ===== src/Core.antt =====
-- A core of the emulated board: what it does with the packets that the dispatcher sends it
-- (scamp_emu.c, and `read_mc` and `read_sdp` of spin_emu_api.c).
pub mod Memory
pub mod Access
pub mod Packets
pub mod Receive
pub mod Later
pub mod Arrivals
pub mod Ready
pub mod Reply
pub mod Transport
pub mod Tube
pub mod Map
pub mod Isolation
pub mod Program
pub mod Launch
pub mod Runtime
pub mod Transfer
pub mod Lock
pub mod Roots
pub mod Application
pub mod Started
pub mod Simulate
pub mod Rounds
pub mod Print
