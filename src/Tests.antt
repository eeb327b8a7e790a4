-- ===== src/Tests.antt =====
-- Runs of the theorems on small inputs.
pub mod Queues
pub mod Processes
pub mod Packets
pub mod Receivers
pub mod Senders
pub mod Transports
pub mod Chats
pub mod Stuns
