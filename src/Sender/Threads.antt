-- ===== src/Sender/Threads.antt =====
-- handler(), sender() and checker(): one round of each loop. What a lock guards is one step, and a
-- round that takes several locks in a row is taken whole. `none` is a fault.
use cosc_60_computer_network.Prelude.{
  ℕ, suc, ◌+◌, ◌*◌, ◌/◌, Bool, true, false, ◌||◌, Option, none, some, List, take, get_elem?, length,
  ◌==◌, ltb, leb, if◌then◌else◌, ◌>>=◌,
}
use cosc_60_computer_network.Prelude.Int.{ℤ, pos, negsuc, sub_ℕ, ◌+ℤ◌, ◌-ℤ◌, ltb_ℤ, ◌==ℤ◌, wrap}
use cosc_60_computer_network.Bytes.{splice, slice}
use cosc_60_computer_network.Mrt.{
  acon_type, adat_type, acls_type, type_location, fragment_location, windowsize_location,
  payload_location, max_mrt_payload_length,
}
use cosc_60_computer_network.Packet.{get_int, receive, checksum_matches}
use cosc_60_computer_network.Sender.State.{
  Connection, empty_data_period, resend_timeout_threshold, close_timeout_increment,
  close_timeout_threshold,
}
use cosc_60_computer_network.Sender.Build.{build_data_empty, build_data, short_length}

-- case MRT_ACON: the first one starts the other two threads.
unfoldable pub handle_acon : Connection → Connection
handle_acon c =
    if c.last_acknowledged_frag ==ℤ negsuc 0
    then record c { last_acknowledged_frag = pos 0; sending = true; checking = true }
    else c

-- k * z
abbrev pub scale : ℕ → ℤ → ℤ
scale k (pos n) = pos (k * n)
scale k (negsuc n) = sub_ℕ 0 (k * suc n)

-- memmove() of what stands at a place of a buffer to its front. A negative size is a huge `size_t`,
-- and what is read ends behind the buffer at most: a fault otherwise.
unfoldable pub move_front : (place size : ℤ) → List ℕ → Option (List ℕ)
move_front place (negsuc k) b = none
move_front (negsuc i) (pos n) b = if n == 0 then some b else none
move_front (pos i) (pos n) b =
    if n == 0 || leb (i + n) (length b) then some (splice 0 (slice i n b) b) else none

-- The same of an array of `int`, for a size in bytes.
unfoldable pub move_ints : ℕ → ℤ → List ℕ → Option (List ℕ)
unfolding move_front
move_ints place (negsuc k) xs = none
move_ints place (pos n) xs = move_front (pos place) (pos (n / 4)) xs

abbrev pub with_moved : ℕ → Connection → (buffer lengths : List ℕ) → Connection
with_moved n c buffer lengths = record c {
  sender_buffer = buffer;
  num_bytes_buffered = lengths;
  last_payload_index = wrap (c.last_payload_index -ℤ pos n);
}

-- The two memmove() of an ADAT that frees `n` payloads, where `left` is the number of those that are
-- left. The products are of type `int`.
unfoldable pub free_payloads : ℕ → ℤ → Connection → Option Connection
free_payloads n left c = do
  buffer ←
      move_front (wrap (pos (max_mrt_payload_length * n)))
        (wrap (scale max_mrt_payload_length left)) c.sender_buffer
  lengths ← move_ints n (wrap (scale 4 left)) c.num_bytes_buffered
  some (with_moved n c buffer lengths)

-- The update of the acknowledged fragment and the window, by `frag_difference` >= 0.
unfoldable pub acknowledge : ℤ → ℤ → Connection → Connection
acknowledge frag winsize c = record c {
  last_acknowledged_frag = frag;
  receiver_window_size =
      if ltb_ℤ c.receiver_window_size winsize then winsize else c.receiver_window_size;
}

-- By the sign of `frag_difference`.
unfoldable pub by_difference : ℤ → ℤ → ℤ → Connection → Option Connection
by_difference (negsuc k) frag winsize c = some c
by_difference (pos n) frag winsize c =
    if leb n 0
    then some (acknowledge frag winsize c)
    else free_payloads n (wrap (wrap (c.last_payload_index -ℤ pos n) +ℤ pos 1))
        (acknowledge frag winsize c)

-- case MRT_ADAT
unfoldable pub handle_adat : ℤ → ℤ → Connection → Option Connection
handle_adat frag winsize c =
    by_difference (wrap (frag -ℤ c.last_acknowledged_frag)) frag winsize
      (record c { inactive_time = 0 })

-- case MRT_ACLS
unfoldable pub handle_acls : Connection → Connection
handle_acls c = record c { inactive_time = close_timeout_threshold + 1 }

unfoldable pub dispatch : ℤ → ℤ → ℤ → Connection → Option Connection
dispatch type frag winsize c =
    if type ==ℤ acon_type
    then some (handle_acon c)
    else if type ==ℤ adat_type
    then handle_adat frag winsize c
    else if type ==ℤ acls_type
    then some (handle_acls c)
    else some c

unfoldable pub if_checked : Connection → Bool → Option Connection
if_checked c false = some c
if_checked c true =
    dispatch (get_int type_location c.incoming_buffer) (get_int fragment_location c.incoming_buffer)
      (get_int windowsize_location c.incoming_buffer) c

-- A round of handler() that does not find `should_close` set.
unfoldable pub handle_datagram : List ℕ → Connection → Option Connection
handle_datagram datagram c = do
  let c' : Connection = record c { incoming_buffer = receive datagram c.incoming_buffer }
  checked ← checksum_matches c'.incoming_buffer
  if_checked c' checked

-- A sendto() to the receiver.
abbrev pub Sent : Type 0
Sent = List ℕ

-- Nothing to send, or no room for it: the resend timer, and an empty DATA.
unfoldable pub resend_timer : Bool → Connection → Connection
resend_timer nothing_to_send c =
    if nothing_to_send
    then (if ltb resend_timeout_threshold c.resend_time
        then record c { last_sent_index = negsuc 0; resend_time = 0 }
        else record c { resend_time = c.resend_time + empty_data_period })
    else record c { resend_time = 0 }

unfoldable pub send_empty : Connection → Option (Connection × Sent)
send_empty c = do
  outgoing ← build_data_empty c.outgoing_buffer
  some (record c { outgoing_buffer = outgoing }, take short_length outgoing)

-- The payload at `next_payload_index`. A negative index is a fault.
unfoldable pub send_payload : ℤ → Connection → Option (Connection × Sent)
send_payload (negsuc k) c = none
send_payload (pos i) c = do
  payload_length ← get_elem? c.num_bytes_buffered i
  outgoing ← build_data c i payload_length
  some (
    record c {
      outgoing_buffer = outgoing;
      last_sent_index = wrap (c.last_sent_index +ℤ pos 1);
      resend_time = 0;
    },
    take (payload_location + payload_length) outgoing,
  )

-- A round of sender() that does not find `should_close` set.
unfoldable pub sender_round : Connection → Option (Connection × Sent)
sender_round c =
    let next_payload_index = wrap (c.last_sent_index +ℤ pos 1) in
    let nothing_to_send = ltb_ℤ c.last_payload_index next_payload_index in
    if ltb_ℤ c.receiver_window_size (pos max_mrt_payload_length) || nothing_to_send
    then send_empty (resend_timer nothing_to_send c)
    else send_payload next_payload_index c

-- A round of checker(): past the threshold the flag is set and the thread ends.
unfoldable pub checker_round : Connection → Connection
checker_round c =
    let inactive_time = c.inactive_time + close_timeout_increment in
    if ltb close_timeout_threshold inactive_time
    then record c { inactive_time = inactive_time; should_close = true; checking = false }
    else record c { inactive_time = inactive_time }
