-- ===== src/Sender.antt =====
-- lab3/mrt_sender.c: the sender of the Mini Reliable Transport.
pub mod State
pub mod Build
pub mod Threads
pub mod Moving
pub mod Api
pub mod Invariant
pub mod Window
pub mod Fragments
pub mod Transmissions
pub mod Process
