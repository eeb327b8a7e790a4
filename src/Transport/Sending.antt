-- ===== src/Transport/Sending.antt =====
-- What the sender's steps leave as it is, and what sender() puts on the network.
use cosc_60_computer_network.Prelude.{
  ◌≡◌, refl, Bool, true, false, ◌||◌, get_elem?, ltb, inl, inr, Bool-cases, Whenever, faults, gives,
  Whenever->>=, Whenever-any,
}
use cosc_60_computer_network.Prelude.Int.{ℤ, pos, negsuc, ◌+ℤ◌, ltb_ℤ, wrap}
use cosc_60_computer_network.Sender.State.{Connection}
use cosc_60_computer_network.Sender.Build.{build_data_empty, build_data}
use cosc_60_computer_network.Sender.Threads.{resend_timer, send_empty, send_payload, sender_round}

-- A round of sender() leaves the payloads and the acknowledged fragment.
pub record Keeps (c c' : Connection) : Type 0 where
  pub buffer : c'.sender_buffer ≡ c.sender_buffer
  pub lengths : c'.num_bytes_buffered ≡ c.num_bytes_buffered
  pub last_payload : c'.last_payload_index ≡ c.last_payload_index
  pub last_acknowledged : c'.last_acknowledged_frag ≡ c.last_acknowledged_frag
  pub same_close : c'.should_close ≡ c.should_close

resend_timer-Keeps : (c : Connection) (b : Bool) → Keeps c (resend_timer b c)
unfolding resend_timer
resend_timer-Keeps c false = record {
  buffer = refl;
  lengths = refl;
  last_payload = refl;
  last_acknowledged = refl;
  same_close = refl;
}
resend_timer-Keeps c true = elim (Bool-cases (ltb 60000 c.resend_time)) [
  | inl e ↦ rw e (record {
    buffer = refl;
    lengths = refl;
    last_payload = refl;
    last_acknowledged = refl;
    same_close = refl;
  })
  | inr e ↦ rw e (record {
    buffer = refl;
    lengths = refl;
    last_payload = refl;
    last_acknowledged = refl;
    same_close = refl;
  })
]

send_empty-Keeps : (c0 c : Connection) → Keeps c0 c → Whenever (λ r. Keeps c0 r.0) (send_empty c)
unfolding send_empty
send_empty-Keeps c0 c k = Whenever->>= (Whenever-any (build_data_empty c.outgoing_buffer)) (λ o _.
    gives (record {
      buffer = k.buffer;
      lengths = k.lengths;
      last_payload = k.last_payload;
      last_acknowledged = k.last_acknowledged;
      same_close = k.same_close;
    }))

send_payload-Keeps : (c : Connection) (i : ℤ) → Whenever (λ r. Keeps c r.0) (send_payload i c)
unfolding send_payload
send_payload-Keeps c (negsuc k) = faults
send_payload-Keeps c (pos i) =
    Whenever->>= (Whenever-any (get_elem? c.num_bytes_buffered i)) (λ n _.
      Whenever->>= (Whenever-any (build_data c i n)) (λ o _. gives (record {
        buffer = refl;
        lengths = refl;
        last_payload = refl;
        last_acknowledged = refl;
        same_close = refl;
      })))

pub sender_round-Keeps : (c : Connection) → Whenever (λ r. Keeps c r.0) (sender_round c)
unfolding sender_round
sender_round-Keeps c =
    let next = wrap (c.last_sent_index +ℤ pos 1) in
    let idle = ltb_ℤ c.last_payload_index next in
    elim (Bool-cases (ltb_ℤ c.receiver_window_size (pos 488) || idle)) [
      | inl e ↦ rw e (send_empty-Keeps c (resend_timer idle c) (resend_timer-Keeps c idle))
      | inr e ↦ rw e (send_payload-Keeps c next)
    ]
