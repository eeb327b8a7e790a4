-- ===== src/Transport/Call.antt =====
-- One call of mrt_send() of lab3/mrt_sender.c, from its first lookup to its return, with the steps of
-- the other threads and of the network between its rounds. The connection may be closed and taken out
-- of the queue meanwhile. No second mrt_send() works on the connection, as the comment above
-- mrt_send() demands, and no mrt_disconnect(). A lookup and what follows it in a round are one step.
pub mod Copies
pub mod Closing
pub mod Events
pub mod Rounds
pub mod Returns
use cosc_60_computer_network.Prelude.{
  ℕ, Bool, true, false, not, ◌&&◌, Option, none, some, List, [], ◌∷◌, length, if◌then◌else◌, ◌>>=◌,
}
use cosc_60_computer_network.Prelude.Int.{ℤ, negsuc}
use cosc_60_computer_network.Sender.State.{Connection}
use cosc_60_computer_network.Sender.Threads.{checker_round}
use cosc_60_computer_network.Sender.Api.{
  SendRound, returns, goes_on, sleeps, final_frag, send_round,
}
use cosc_60_computer_network.Receiver.State.{SockaddrIn, Ptr}
use cosc_60_computer_network.Transport.{
  Net, Action, send, arrive, acknowledge, read, after_buffer, act,
}

-- What may happen between two rounds of the call: a round of sender(), a datagram at either side, a
-- round of mrt_receive1(), a round of the sender's checker(), the end of handler().
pub data Event : Type 0 where
  sends : Event
  arrives : (place : ℕ) (block : Ptr) (garbage : List ℕ) → Event
  acknowledges : (place : ℕ) → Event
  reads : (len : ℕ) → Event
  checks : Event
  drops : Event

-- Whether the connection is in the queue, and both sides.
abbrev pub Held : Type 0
Held = Bool × Net

abbrev pub still : Bool → Option Net → Option Held
still queued o = o >>= λ n. some (queued, n)

-- A thread of the sender, which ends when it finds the flag set.
abbrev pub unless_closed : Bool → Net → Option Net → Option Held
unless_closed queued n o = if n.connection.should_close then some (queued, n) else still queued o

abbrev pub after_check : Net → Net
after_check n = record n { connection = checker_round n.connection }

-- handler() takes the connection out of the queue when it finds the flag set.
unfoldable pub happen : SockaddrIn → Event → Bool → Net → Option Held
happen id sends queued n = unless_closed queued n (act id send n)
happen id (arrives place block garbage) queued n =
    still queued (act id (arrive place block garbage) n)
happen id (acknowledges place) queued n = unless_closed queued n (act id (acknowledge place) n)
happen id (reads len) queued n = still queued (act id (read len) n)
happen id checks queued n = unless_closed queued n (some (after_check n))
happen id drops queued n = some (queued && not n.connection.should_close, n)

-- A round of the call's loop, or an event.
pub data Turn : Type 0 where
  round : Turn
  event : Event → Turn

-- The call has returned, or goes on with `num_bytes_copied`.
pub data Progress : Type 0 where
  returned : ℤ → Net → Progress
  running : ℕ → Net → Progress

abbrev pub progress_of : ℕ → Net → SendRound → Progress
progress_of copied n (returns z) = returned z n
progress_of copied n (goes_on c k) = running k n
progress_of copied n sleeps = running copied n

-- get_item_q() with the connection's number.
abbrev pub lookup : Bool → Net → Option Connection
lookup true n = some n.connection
lookup false n = none

unfoldable pub call_round : ℤ → List ℕ → ℕ → Bool → Net → Option Progress
call_round final bytes copied queued n =
    send_round final bytes (length bytes) copied (lookup queued n) >>= λ r.
    after_buffer bytes copied n r >>= λ n'. some (progress_of copied n' r)

-- What the turns make of the call; those behind its return are left out.
unfoldable pub loop : SockaddrIn → ℤ → List ℕ → List Turn → ℕ → Bool → Net → Option Progress
loop id final bytes [] copied queued n = some (running copied n)
loop id final bytes (event e ∷ rest) copied queued n =
    happen id e queued n >>= λ h. loop id final bytes rest copied h.0 h.1
loop id final bytes (round ∷ rest) copied queued n = call_round final bytes copied queued n >>= λ o.
    elim o [
      | returned z n' ↦ some (returned z n')
      | running k n' ↦ loop id final bytes rest k queued n'
    ]

-- mrt_send(id, bytes, length bytes)
unfoldable pub mrt_send : SockaddrIn → List ℕ → List Turn → Bool → Net → Option Progress
mrt_send id bytes turns queued n = elim (lookup queued n) [
  | none ↦ some (returned (negsuc 0) n)
  | some c ↦ loop id (final_frag c (length bytes)) bytes turns 0 queued n
]
