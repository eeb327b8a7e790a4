-- ===== src/Receiver/Invariant.antt =====
-- What holds of the receiver's state between two steps, while main_handler() runs.
pub mod Parts
pub mod Search
pub mod Answer
pub mod Handler
pub mod Calls
use cosc_60_computer_network.Prelude.{ℕ, ◌+◌, ◌≤◌, ◌≡◌, Option, some, List, [], length, drop, true}
use cosc_60_computer_network.Hash.Coverage.{HasNul}
use cosc_60_computer_network.Receiver.State.{
  Ptr, Sender, SenderQueue, unset, live, freed, Receiver, Memory, receiver_max_window_size,
}
use cosc_60_computer_network.Receiver.Lookup.{count}

abbrev pub waiting : SenderQueue → List Ptr
waiting unset = []
waiting (live ps) = ps
waiting freed = []

-- The unread bytes stand in the buffer, which has its full size.
pub record IsValidSender (s : Sender) : Type 0 where
  pub size : length s.buffer ≡ receiver_max_window_size
  pub within : s.bytes_unread ≤ receiver_max_window_size

-- How often a sender is held: by the two queues, and by an mrt_accept1() between its two locks.
abbrev pub held : Receiver → List Ptr → Ptr → ℕ
held r flight p =
    count p (waiting r.pending_senders_q) + count p (waiting r.connected_senders_q) + count p flight

abbrev pub ValidAt : Memory → Ptr → Type 0
ValidAt m p = (s : Sender) × (m p ≡ some s) × IsValidSender s

pub record IsValid (r : Receiver) (flight : List Ptr) : Type 0 where
  pub once : (p : Ptr) → held r flight p ≤ 1
  pub valid : (p : Ptr) → 1 ≤ held r flight p → ValidAt r.senders p
  pub pending_live : r.pending_senders_q ≡ live (waiting r.pending_senders_q)
  pub connected_live : r.connected_senders_q ≡ live (waiting r.connected_senders_q)
  pub incoming_size : length r.incoming_buffer ≡ 509
  pub incoming_nul : HasNul (drop 8 r.incoming_buffer)
  pub outgoing_size : length r.outgoing_buffer ≡ 21
