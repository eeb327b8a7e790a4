-- ===== src/Receiver/Handle.antt =====
-- main_handler(): one round of its loop, and the clean-up behind the loop. What q_lock guards is
-- one step. `none` is a fault.
use cosc_60_computer_network.Prelude.{
  ℕ, ◌+◌, Bool, true, false, ◌&&◌, Option, none, some, List, [], ◌∷◌, length, take, if◌then◌else◌,
  ◌>>=◌,
}
use cosc_60_computer_network.Prelude.Int.{ℤ, pos, negsuc, ◌+ℤ◌, ◌-ℤ◌, sub_ℕ, leb_ℤ, ◌==ℤ◌, wrap}
use cosc_60_computer_network.Bytes.{splice, slice}
use cosc_60_computer_network.Mrt.{
  rcon_type, data_type, rcls_type, type_location, fragment_location, payload_location,
  header_length,
}
use cosc_60_computer_network.Packet.{get_int, receive, checksum_matches}
use cosc_60_computer_network.Receiver.State.{
  SockaddrIn, Ptr, Sender, SenderQueue, unset, live, freed, Receiver, Memory, update, get_item_q,
  enq_q, pop_item_q, free_sender, receiver_max_window_size, timeout_threshold,
}
use cosc_60_computer_network.Receiver.Build.{build_acon, build_adat, build_acls}

-- A sendto(): where to, and the bytes.
pub record Sent : Type 0 where
  pub dest : SockaddrIn
  pub bytes : List ℕ

abbrev pub Outcome : Type 0
Outcome = Receiver × List Sent

-- What the environment gives to a round: recvfrom()'s bytes and address, and for the case that
-- malloc() is called, the block: where it is and what its bytes are.
pub record Arrival : Type 0 where
  pub source : SockaddrIn
  pub datagram : List ℕ
  pub block : Ptr
  pub garbage : List ℕ

-- A new `sender_t`.
unfoldable pub new_sender : Arrival → ℤ → Sender
new_sender a frag = record {
  addr = a.source;
  buffer = a.garbage;
  bytes_unread = 0;
  next_frag = wrap (frag +ℤ pos 1);
  inactive_time = 0;
}

-- The answer to an RCON of a sender that is not pending: `found` is where it is connected.
unfoldable pub answer_rcon : Arrival → ℤ → Receiver → Option Ptr → Option Outcome
answer_rcon a frag r (some p) = do
  outgoing ← build_acon frag r.outgoing_buffer
  some (
    record r { outgoing_buffer = outgoing },
    record { dest = a.source; bytes = take header_length outgoing } ∷ [],
  )
answer_rcon a frag r none = do
  pending ← enq_q r.pending_senders_q a.block
  some (
    record r {
      senders = update r.senders a.block (some (new_sender a frag));
      pending_senders_q = pending;
    },
    [],
  )

unfoldable pub unless_pending : Arrival → ℤ → Receiver → Option Ptr → Option Outcome
unless_pending a frag r (some p) = some (r, [])
unless_pending a frag r none = do
  connected ← get_item_q r.senders a.source r.connected_senders_q
  answer_rcon a frag r connected

-- case MRT_RCON
unfoldable pub handle_rcon : Arrival → ℤ → Receiver → Option Outcome
handle_rcon a frag r = do
  pending ← get_item_q r.senders a.source r.pending_senders_q
  unless_pending a frag r pending

-- memmove() of the payload behind the unread bytes. A negative size is a huge `size_t`: a fault.
unfoldable pub copy_payload : ℤ → List ℕ → ℤ → Sender → Option (Sender × ℤ)
copy_payload (negsuc n) incoming window s = none
copy_payload (pos n) incoming window s = some (
  record s {
    buffer = splice s.bytes_unread (slice payload_location n incoming) s.buffer;
    bytes_unread = s.bytes_unread + n;
    next_frag = wrap (s.next_frag +ℤ pos 1);
  },
  window -ℤ pos n,
)

-- The sender behind the test for space and order, and the window that is left.
unfoldable pub buffer_payload : ℕ → ℤ → List ℕ → Sender → Option (Sender × ℤ)
buffer_payload num_bytes_received frag incoming s =
    let window = sub_ℕ receiver_max_window_size s.bytes_unread in
    let payload_size = sub_ℕ num_bytes_received header_length in
    if leb_ℤ payload_size window && (s.next_frag ==ℤ frag)
    then copy_payload payload_size incoming window s
    else some (s, window)

-- The ADAT of either way, and the sender put back with its inactivity counter reset.
unfoldable pub send_adat : SockaddrIn → Ptr → Receiver → Sender × ℤ → Option Outcome
send_adat source p r (s, window) = do
  outgoing ← build_adat (wrap (s.next_frag -ℤ pos 1)) window r.outgoing_buffer
  some (
    record r {
      senders = update r.senders p (some (record s { inactive_time = 0 }));
      outgoing_buffer = outgoing;
    },
    record { dest = source; bytes = take header_length outgoing } ∷ [],
  )

unfoldable pub answer_data : Arrival → ℤ → Receiver → Option Ptr → Option Outcome
answer_data a frag r none = some (r, [])
answer_data a frag r (some p) = do
  s ← r.senders p
  buffered ← buffer_payload (length a.datagram) frag r.incoming_buffer s
  send_adat a.source p r buffered

-- case MRT_DATA
unfoldable pub handle_data : Arrival → ℤ → Receiver → Option Outcome
handle_data a frag r = do
  connected ← get_item_q r.senders a.source r.connected_senders_q
  answer_data a frag r connected

unfoldable pub answer_rcls : Arrival → Receiver → Option Ptr → Option Outcome
answer_rcls a r (some p) = do
  s ← r.senders p
  outgoing ← build_acls r.outgoing_buffer
  some (
    record r {
      senders = update r.senders p (some (record s { inactive_time = timeout_threshold }));
      outgoing_buffer = outgoing;
    },
    record { dest = a.source; bytes = take 12 outgoing } ∷ [],
  )
answer_rcls a r none = do
  (popped, pending) ← pop_item_q r.senders a.source r.pending_senders_q
  some (record r { senders = free_sender r.senders popped; pending_senders_q = pending }, [])

-- case MRT_RCLS
unfoldable pub handle_rcls : Arrival → Receiver → Option Outcome
handle_rcls a r = do
  connected ← get_item_q r.senders a.source r.connected_senders_q
  answer_rcls a r connected

-- The switch.
unfoldable pub dispatch : Arrival → ℤ → ℤ → Receiver → Option Outcome
dispatch a type frag r =
    if type ==ℤ rcon_type
    then handle_rcon a frag r
    else if type ==ℤ data_type
    then handle_data a frag r
    else if type ==ℤ rcls_type
    then handle_rcls a r
    else some (r, [])

unfoldable pub if_checked : Arrival → Receiver → Bool → Option Outcome
if_checked a r false = some (r, [])
if_checked a r true =
    dispatch a (get_int type_location r.incoming_buffer)
      (get_int fragment_location r.incoming_buffer) r

-- A round of the loop that does not find `should_close` set.
unfoldable pub handle_datagram : Arrival → Receiver → Option Outcome
handle_datagram a r = do
  let r' : Receiver = record r { incoming_buffer = receive a.datagram r.incoming_buffer }
  checked ← checksum_matches r'.incoming_buffer
  if_checked a r' checked

unfoldable pub free_all : Memory → List Ptr → Memory
free_all m [] = m
free_all m (p ∷ ps) = free_all (update m p none) ps

-- What stands in a queue, where its pointer may be read.
unfoldable pub queue_items : SenderQueue → Option (List Ptr)
queue_items unset = some []
queue_items (live ps) = some ps
queue_items freed = none

unfoldable pub delete_q : SenderQueue → SenderQueue
delete_q unset = unset
delete_q (live ps) = freed
delete_q freed = freed

-- Behind the loop: every sender is freed and its checker cancelled, and both queues are freed.
unfoldable pub clean_up : Receiver → Option Receiver
clean_up r = do
  pending ← queue_items r.pending_senders_q
  connected ← queue_items r.connected_senders_q
  some (record r {
    senders = free_all (free_all r.senders pending) connected;
    pending_senders_q = delete_q r.pending_senders_q;
    connected_senders_q = delete_q r.connected_senders_q;
    checkers = [];
  })

-- A round of the loop: the flag is read behind recvfrom(), so a close takes one more datagram.
unfoldable pub main_handler_round : Arrival → Receiver → Option Outcome
main_handler_round a r =
    if r.should_close
    then (clean_up (record r { incoming_buffer = splice 0 a.datagram r.incoming_buffer }) >>= λ r'.
        some (r', []))
    else handle_datagram a r
