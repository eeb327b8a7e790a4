-- ===== src/Chat.antt =====
-- lab2/client.c and lab2/server.c: the chatroom.
pub mod Client
pub mod Server
pub mod Hearing
pub mod Speaking
pub mod System
pub mod Distinct
pub mod Serving
pub mod Broadcast
pub mod Conversation
pub mod Leaving
pub mod Reuse
pub mod Safety
pub mod Naming
pub mod Sockets
use cosc_60_computer_network.Prelude.{ℕ, List}

-- What recv() returns: an error, the end of the connection, or a first byte and
-- the others, for the buffer.
pub data Recv : Type 0 where
  failed : Recv
  disconnected : Recv
  bytes : ℕ → List ℕ → Recv
