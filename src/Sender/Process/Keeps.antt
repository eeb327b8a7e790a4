-- ===== src/Sender/Process/Keeps.antt =====
-- No step changes the number of a connection, and only handler() the last acknowledged fragment.
use cosc_60_computer_network.Prelude.{
  ℕ, ◌+◌, ◌≡◌, refl, Bool, true, false, ◌||◌, some, List, ltb, leb, inl, inr, Bool-cases, get_elem?,
  Whenever, faults, gives, Whenever->>=, Whenever-any,
}
use cosc_60_computer_network.Prelude.Int.{ℤ, pos, negsuc, ◌+ℤ◌, ◌-ℤ◌, leb_ℤ, ltb_ℤ, ◌==ℤ◌, wrap}
use cosc_60_computer_network.Packet.{receive, checksum_matches}
use cosc_60_computer_network.Mrt.{acon_type, adat_type, acls_type}
use cosc_60_computer_network.Sender.Moving.{free_payloads-Whenever}
use cosc_60_computer_network.Sender.State.{Connection}
use cosc_60_computer_network.Sender.Build.{build_data_empty, build_data, build_rcls}
use cosc_60_computer_network.Sender.Threads.{
  handle_acon, handle_adat, handle_acls, free_payloads, acknowledge, by_difference, dispatch,
  if_checked, handle_datagram, resend_timer, send_empty, send_payload, sender_round, checker_round,
}
use cosc_60_computer_network.Sender.Api.{
  SendRound, returns, goes_on, sleeps, copy_payload, buffer_more, send_round, DisconnectRound,
  closes, dropped, waits, disconnect_round,
}

-- With the number and the flag of `c`.
abbrev pub Same : Connection → Connection → Type 0
Same c c' = (c'.id ≡ c.id) × (c'.should_close ≡ c.should_close)

handle_acon-Same : (c : Connection) → Same c (handle_acon c)
unfolding handle_acon
handle_acon-Same c = elim (Bool-cases (c.last_acknowledged_frag ==ℤ negsuc 0)) [
  | inl e ↦ rw e (refl, refl)
  | inr e ↦ rw e (refl, refl)
]

free_payloads-Same :
    (n : ℕ) (left : ℤ) (c : Connection) → Whenever (Same c) (free_payloads n left c)
free_payloads-Same n left c = free_payloads-Whenever n c (λ b l. (refl, refl)) left

by_difference-Same :
    (difference frag winsize : ℤ) (c : Connection)
    → Whenever (Same c) (by_difference difference frag winsize c)
unfolding by_difference acknowledge
by_difference-Same (negsuc k) frag winsize c = gives (refl, refl)
by_difference-Same (pos n) frag winsize c = elim (Bool-cases (leb n 0)) [
  | inl e ↦ rw e (gives (refl, refl))
  | inr e ↦ rw e (free_payloads-Same n _ _)
]

handle_adat-Same :
    (frag winsize : ℤ) (c : Connection) → Whenever (Same c) (handle_adat frag winsize c)
unfolding handle_adat
handle_adat-Same frag winsize c =
    by_difference-Same (wrap (frag -ℤ c.last_acknowledged_frag)) frag winsize
      (record c { inactive_time = 0 })

dispatch-Same :
    (type frag winsize : ℤ) (c : Connection) → Whenever (Same c) (dispatch type frag winsize c)
unfolding dispatch handle_acls
dispatch-Same type frag winsize c = elim (Bool-cases (type ==ℤ acon_type)) [
  | inl e ↦ rw e (gives (handle_acon-Same c))
  | inr e ↦ elim (Bool-cases (type ==ℤ adat_type)) [
    | inl d ↦ rw (e, d) (handle_adat-Same frag winsize c)
    | inr d ↦ elim (Bool-cases (type ==ℤ acls_type)) [
      | inl l ↦ rw (e, d, l) (gives (refl, refl))
      | inr l ↦ rw (e, d, l) (gives (refl, refl))
    ]
  ]
]

if_checked-Same : (c : Connection) (b : Bool) → Whenever (Same c) (if_checked c b)
unfolding if_checked
if_checked-Same c true = dispatch-Same _ _ _ c
if_checked-Same c false = gives (refl, refl)

pub handle_datagram-Same :
    (datagram : List ℕ) (c : Connection) → Whenever (Same c) (handle_datagram datagram c)
unfolding handle_datagram
handle_datagram-Same datagram c =
    Whenever->>= (Whenever-any (checksum_matches (receive datagram c.incoming_buffer)))
      (λ b _. if_checked-Same (record c { incoming_buffer = receive datagram c.incoming_buffer }) b)

-- With the number and the last acknowledged fragment of `c`.
pub record Stays (c c' : Connection) : Type 0 where
  pub same_id : c'.id ≡ c.id
  pub same_last : c'.last_acknowledged_frag ≡ c.last_acknowledged_frag

resend_timer-Stays : (c : Connection) (b : Bool) → Stays c (resend_timer b c)
unfolding resend_timer
resend_timer-Stays c false = record { same_id = refl; same_last = refl }
resend_timer-Stays c true = elim (Bool-cases (ltb 60000 c.resend_time)) [
  | inl e ↦ rw e (record { same_id = refl; same_last = refl })
  | inr e ↦ rw e (record { same_id = refl; same_last = refl })
]

send_empty-Stays : (c0 c : Connection) → Stays c0 c → Whenever (λ r. Stays c0 r.0) (send_empty c)
unfolding send_empty
send_empty-Stays c0 c k =
    Whenever->>= (Whenever-any (build_data_empty c.outgoing_buffer))
      (λ o _. gives (record { same_id = k.same_id; same_last = k.same_last }))

send_payload-Stays : (c : Connection) (i : ℤ) → Whenever (λ r. Stays c r.0) (send_payload i c)
unfolding send_payload
send_payload-Stays c (negsuc k) = faults
send_payload-Stays c (pos i) =
    Whenever->>= (Whenever-any (get_elem? c.num_bytes_buffered i)) (λ n _.
      Whenever->>= (Whenever-any (build_data c i n))
        (λ o _. gives (record { same_id = refl; same_last = refl })))

pub sender_round-Stays : (c : Connection) → Whenever (λ r. Stays c r.0) (sender_round c)
unfolding sender_round
sender_round-Stays c =
    let next = wrap (c.last_sent_index +ℤ pos 1) in
    let idle = ltb_ℤ c.last_payload_index next in
    elim (Bool-cases (ltb_ℤ c.receiver_window_size (pos 488) || idle)) [
      | inl e ↦ rw e (send_empty-Stays c (resend_timer idle c) (resend_timer-Stays c idle))
      | inr e ↦ rw e (send_payload-Stays c next)
    ]

pub checker_round-Stays : (c : Connection) → Stays c (checker_round c)
unfolding checker_round
checker_round-Stays c = elim (Bool-cases (ltb 120000 (c.inactive_time + 40000))) [
  | inl e ↦ rw e (record { same_id = refl; same_last = refl })
  | inr e ↦ rw e (record { same_id = refl; same_last = refl })
]

-- A round that goes on.
abbrev pub GoesOn : Connection → SendRound → Type 0
GoesOn c (goes_on c' k) = Stays c c'
GoesOn c (returns z) = Unit
GoesOn c sleeps = Unit

copy_payload-Stays :
    (buffer : List ℕ) (len copied : ℕ) (i : ℤ) (c : Connection)
    → Whenever (GoesOn c) (copy_payload buffer len copied i c)
unfolding copy_payload
copy_payload-Stays buffer len copied (pos i) c = gives (record { same_id = refl; same_last = refl })
copy_payload-Stays buffer len copied (negsuc i) c = faults

buffer_more-Stays :
    (buffer : List ℕ) (len copied : ℕ) (c : Connection)
    → Whenever (GoesOn c) (buffer_more buffer len copied c)
unfolding buffer_more
buffer_more-Stays buffer len copied c =
    let first_free = wrap (c.last_payload_index +ℤ pos 1) in
    elim (Bool-cases (ltb_ℤ (pos 0) (wrap (pos 10 -ℤ first_free)))) [
      | inl e ↦ rw e (copy_payload-Stays buffer len copied first_free c)
      | inr e ↦ rw e (gives (record { same_id = refl; same_last = refl }))
    ]

pub send_round-Stays :
    (final : ℤ) (buffer : List ℕ) (len copied : ℕ) (c : Connection)
    → Whenever (GoesOn c) (send_round final buffer len copied (some c))
unfolding send_round
send_round-Stays final buffer len copied c =
    elim (Bool-cases (leb_ℤ final c.last_acknowledged_frag)) [
      | inl all ↦ rw all (gives tt)
      | inr e ↦ elim (Bool-cases (ltb copied len)) [
        | inl more ↦ rw (e, more) (buffer_more-Stays buffer len copied c)
        | inr done ↦ rw (e, done) (gives tt)
      ]
    ]

-- A round that sends the RCLS.
abbrev pub Closes : Connection → DisconnectRound → Type 0
Closes c (closes c' sent) = Stays c c'
Closes c dropped = Unit
Closes c waits = Unit

pub disconnect_round-Stays : (c : Connection) → Whenever (Closes c) (disconnect_round (some c))
unfolding disconnect_round
disconnect_round-Stays c = elim (Bool-cases (ltb_ℤ c.last_payload_index (pos 0))) [
  | inl empty ↦ rw empty (
      Whenever->>= (Whenever-any (build_rcls c.outgoing_buffer))
        (λ o _. gives (record { same_id = refl; same_last = refl })))
  | inr more ↦ rw more (gives tt)
]
