-- ===== src/Sender/Window/Handler.antt =====
-- handler() keeps a connection valid, through every kind of transmission.
use cosc_60_computer_network.Prelude.{
  ℕ, ◌≤◌, ◌≡◌, refl, ◌∙◌, inl, inr, Bool, true, false, List, length, Yields, yields, Yields-weaken,
  Bool-cases, arith,
}
use cosc_60_computer_network.Prelude.Int.{ℤ, pos, negsuc, ◌-ℤ◌, ◌==ℤ◌, wrap}
use cosc_60_computer_network.Mrt.{acon_type, adat_type, acls_type}
use cosc_60_computer_network.Packet.{get_int, receive}
use cosc_60_computer_network.Packet.Seal.{receive-HasNul, checksum_matches-total, length-receive}
use cosc_60_computer_network.Sender.State.{Connection}
use cosc_60_computer_network.Sender.Threads.{
  handle_acon, handle_adat, handle_acls, dispatch, if_checked, handle_datagram,
}
use cosc_60_computer_network.Sender.Invariant.{IsValid}
use cosc_60_computer_network.Sender.Window.Acknowledge.{handle_adat-frees, handle_adat-older}

-- Steps that write only these fields.
abbrev pub with_others :
    (c : Connection) (frag winsize : ℤ) (time : ℕ) (sending checking : Bool)
    → IsValid c
    → IsValid (record c {
      last_acknowledged_frag = frag;
      receiver_window_size = winsize;
      inactive_time = time;
      sending = sending;
      checking = checking;
    })
with_others c frag winsize time sending checking v = record {
  count = v.count;
  sent = v.sent;
  last_payload = v.last_payload;
  last_sent = v.last_sent;
  count_le = v.count_le;
  sent_le = v.sent_le;
  buffer_size = v.buffer_size;
  lengths_size = v.lengths_size;
  lengths_short = v.lengths_short;
  incoming_size = v.incoming_size;
  incoming_nul = v.incoming_nul;
  outgoing_size = v.outgoing_size;
}

abbrev pub received-IsValid :
    (datagram : List ℕ) (c : Connection)
    → IsValid c
    → length datagram ≤ 20
    → IsValid (record c { incoming_buffer = receive datagram c.incoming_buffer })
received-IsValid datagram c v short = record {
  count = v.count;
  sent = v.sent;
  last_payload = v.last_payload;
  last_sent = v.last_sent;
  count_le = v.count_le;
  sent_le = v.sent_le;
  buffer_size = v.buffer_size;
  lengths_size = v.lengths_size;
  lengths_short = v.lengths_short;
  incoming_size = length-receive datagram c.incoming_buffer ∙ v.incoming_size;
  incoming_nul =
      receive-HasNul datagram c.incoming_buffer (omega (arith, v.incoming_size)) v.incoming_nul;
  outgoing_size = v.outgoing_size;
}

handle_acon-IsValid : (c : Connection) → IsValid c → IsValid (handle_acon c)
unfolding handle_acon
handle_acon-IsValid c v = elim (Bool-cases (c.last_acknowledged_frag ==ℤ negsuc 0)) [
  | inl first ↦ rw first (with_others c (pos 0) c.receiver_window_size c.inactive_time true true v)
  | inr again ↦ rw again v
]

handle_acls-IsValid : (c : Connection) → IsValid c → IsValid (handle_acls c)
unfolding handle_acls
handle_acls-IsValid c v =
    with_others c c.last_acknowledged_frag c.receiver_window_size 120001 c.sending c.checking v

-- An ADAT acknowledges no more than is buffered.
abbrev pub InWindow : ℤ → (c : Connection) → IsValid c → Type 0
InWindow frag c v = (n : ℕ) → wrap (frag -ℤ c.last_acknowledged_frag) ≡ pos n → n ≤ v.count

handle_adat-IsValid :
    (frag winsize : ℤ) (c : Connection) (v : IsValid c) (difference : ℤ)
    → wrap (frag -ℤ c.last_acknowledged_frag) ≡ difference
    → InWindow frag c v
    → Yields IsValid (handle_adat frag winsize c)
handle_adat-IsValid frag winsize c v (pos n) e inside =
    Yields-weaken (handle_adat-frees c v frag winsize n e (inside n e)) (λ c' h. h.valid)
handle_adat-IsValid frag winsize c v (negsuc k) e inside =
    rw (handle_adat-older c frag winsize k e) (
      yields
        (with_others c c.last_acknowledged_frag c.receiver_window_size 0 c.sending c.checking v))

dispatch-IsValid :
    (type frag winsize : ℤ) (c : Connection) (v : IsValid c)
    → ((type ==ℤ adat_type) ≡ true → InWindow frag c v)
    → Yields IsValid (dispatch type frag winsize c)
unfolding dispatch
dispatch-IsValid type frag winsize c v inside = elim (Bool-cases (type ==ℤ acon_type)) [
  | inl acon ↦ rw acon (yields (handle_acon-IsValid c v))
  | inr other ↦ elim (Bool-cases (type ==ℤ adat_type)) [
    | inl adat ↦ rw (other, adat) (handle_adat-IsValid frag winsize c v _ refl (inside adat))
    | inr neither ↦ elim (Bool-cases (type ==ℤ acls_type)) [
      | inl acls ↦ rw (other, neither, acls) (yields (handle_acls-IsValid c v))
      | inr unknown ↦ rw (other, neither, unknown) (yields v)
    ]
  ]
]

if_checked-IsValid :
    (c : Connection) (v : IsValid c) (checked : Bool)
    → ((get_int 8 c.incoming_buffer ==ℤ adat_type) ≡ true
        → InWindow (get_int 12 c.incoming_buffer) c v)
    → Yields IsValid (if_checked c checked)
unfolding if_checked
if_checked-IsValid c v false inside = yields v
if_checked-IsValid c v true inside = dispatch-IsValid _ _ _ c v inside

-- A round of handler() on a valid connection, with a datagram of at most 20 bytes that, if it is an
-- ADAT, acknowledges no more than is buffered, ends without a fault and leaves a valid connection.
pub handler_round-IsValid :
    (datagram : List ℕ) (c : Connection) (v : IsValid c)
    → length datagram ≤ 20
    → ((get_int 8 (receive datagram c.incoming_buffer) ==ℤ adat_type) ≡ true
        → InWindow (get_int 12 (receive datagram c.incoming_buffer)) c v)
    → Yields IsValid (handle_datagram datagram c)
unfolding handle_datagram
handler_round-IsValid datagram c v short inside =
    let v' = received-IsValid datagram c v short in
    let (checked, e) =
      checksum_matches-total (receive datagram c.incoming_buffer) v'.incoming_nul in
    rw e (
      if_checked-IsValid (record c { incoming_buffer = receive datagram c.incoming_buffer }) v'
        checked inside)
