-- ===== src/Examples.antt =====
-- Runs of the emulator on small boards.
mod Routing
mod Messages
mod Tags
mod Boards
mod Cores
mod Rounds
mod Barriers
mod Programs
mod Starts
mod Applications
