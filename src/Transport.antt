-- ===== src/Transport.antt =====
-- lab3/mrt_sender.c and lab3/mrt_receiver.c together: a connection that both sides have opened, and
-- a network between them that loses, repeats and reorders datagrams. Whatever a side has sent may
-- come in whole at any time, any number of times, or never.
pub mod Datagrams
pub mod Emission
pub mod Progress
pub mod Reading
pub mod Buffering
pub mod Acknowledging
pub mod InStep
pub mod Run
pub mod Delivery
pub mod Sending
pub mod Receiving
pub mod Call
pub mod RoundRobin
use cosc_60_computer_network.Prelude.{
  ℕ, ◌+◌, ◌-◌, Option, none, some, List, [], ◌∷◌, ◌++◌, map, length, ltb, if◌then◌else◌, get_elem?,
  ◌>>=◌,
}
use cosc_60_computer_network.Prelude.Int.{ℤ}
use cosc_60_computer_network.Bytes.{slice}
use cosc_60_computer_network.Sender.State.{Connection}
use cosc_60_computer_network.Sender.Threads
use cosc_60_computer_network.Sender.Api.{SendRound, returns, goes_on, sleeps, send_round}
use cosc_60_computer_network.Receiver.State.{SockaddrIn, Ptr, Receiver}
use cosc_60_computer_network.Receiver.Handle.{Arrival, Sent}
use cosc_60_computer_network.Receiver.Handle
use cosc_60_computer_network.Receiver.Api.{Receive1, receive1_round}

-- Both sides, everything that they have sent to each other, the payloads that mrt_send() has
-- buffered in all, and the bytes that mrt_receive1() has returned.
pub record Net : Type 0 where
  pub connection : Connection
  pub receiver : Receiver
  pub to_receiver : List (List ℕ)
  pub to_sender : List (List ℕ)
  pub submitted : List (List ℕ)
  pub delivered : List ℕ

-- One step: a round of sender(), a round of mrt_send() with so many bytes copied, a datagram that
-- comes in at either side (the place where it stands among those sent), a round of mrt_receive1().
pub data Action : Type 0 where
  send : Action
  buffer : (final : ℤ) (bytes : List ℕ) (copied : ℕ) → Action
  arrive : (place : ℕ) (block : Ptr) (garbage : List ℕ) → Action
  acknowledge : (place : ℕ) → Action
  read : (len : ℕ) → Action

abbrev pub bytes_of : Sent → List ℕ
bytes_of s = s.bytes

abbrev pub after_send : Net → Connection × List ℕ → Option Net
after_send n (c, d) = some (record n { connection = c; to_receiver = d ∷ n.to_receiver })

-- A round that copies bytes adds a payload.
abbrev pub after_buffer : List ℕ → ℕ → Net → SendRound → Option Net
after_buffer bytes copied n (goes_on c k) = some (record n {
  connection = c;
  submitted =
      if ltb copied k then n.submitted ++ (slice copied (k - copied) bytes ∷ []) else n.submitted;
})
after_buffer bytes copied n (returns z) = some n
after_buffer bytes copied n sleeps = some n

abbrev pub after_arrive : Net → Receiver × List Sent → Option Net
after_arrive n (r, sents) =
    some (record n { receiver = r; to_sender = map bytes_of sents ++ n.to_sender })

abbrev pub bytes_returned : Receive1 → List ℕ
bytes_returned Receive1.waits = []
bytes_returned (Receive1.returns z bytes) = bytes

abbrev pub after_read : Net → Receive1 × Receiver → Option Net
after_read n (o, r) = some (record n { receiver = r; delivered = n.delivered ++ bytes_returned o })

abbrev pub arrived : SockaddrIn → ℕ → List ℕ → Net → Option (List ℕ) → Option Net
arrived id block garbage n none = some n
arrived id block garbage n (some d) =
    Handle.handle_datagram (record { source = id; datagram = d; block = block; garbage = garbage })
      n.receiver
    >>= after_arrive n

abbrev pub acknowledged : Net → Option (List ℕ) → Option Net
acknowledged n none = some n
acknowledged n (some d) =
    Threads.handle_datagram d n.connection >>= λ c. some (record n { connection = c })

-- `id` is the sender's address.
unfoldable pub act : SockaddrIn → Action → Net → Option Net
act id send n = Threads.sender_round n.connection >>= after_send n
act id (buffer final bytes copied) n =
    send_round final bytes (length bytes) copied (some n.connection) >>= after_buffer bytes copied n
act id (arrive place block garbage) n = arrived id block garbage n (get_elem? n.to_receiver place)
act id (acknowledge place) n = acknowledged n (get_elem? n.to_sender place)
act id (read len) n = receive1_round id len n.receiver >>= after_read n

unfoldable pub run : SockaddrIn → List Action → Net → Option Net
run id [] n = some n
run id (a ∷ rest) n = act id a n >>= run id rest
