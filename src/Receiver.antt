-- ===== src/Receiver.antt =====
-- lab3/mrt_receiver.c: the receiver of the Mini Reliable Transport.
pub mod State
pub mod Build
pub mod Handle
pub mod Api
pub mod Lookup
pub mod Invariant
pub mod Transmissions
pub mod Deliver
pub mod Probe
pub mod AcceptAll
pub mod Receive1
