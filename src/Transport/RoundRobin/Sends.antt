-- ===== src/Transport/RoundRobin/Sends.antt =====
-- sender() where the receiver has room: it sends the next payload, or its timer goes on, or it goes
-- back to the first payload.
use cosc_60_computer_network.Prelude.{
  ◌∙◌, sym, ℕ, ◌+◌, ◌≤◌, ◌<◌, ◌≡◌, refl, false, List, length, ltb, inl, inr, Bool-cases, get_elem?,
  Whenever, faults, gives, Whenever->>=, Whenever-any, Yields, yields, Yields-weaken,
  Yields-Whenever, arith,
}
use native.Mathlib.Decide.{dec_lt}
use cosc_60_computer_network.Prelude.Int.{ℤ, pos, negsuc, ltb_ℤ}
use cosc_60_computer_network.Packet.{get_int, receive}
use cosc_60_computer_network.Sender.State.{Connection}
use cosc_60_computer_network.Sender.Build.{build_data, sending_frag}
use cosc_60_computer_network.Sender.Threads.{Sent, send_payload, sender_round}
use cosc_60_computer_network.Sender.Invariant.{IsValid, with_sent}
use cosc_60_computer_network.Sender.Window.Send.{
  next, unsent, sender_round-SendsNext, send_empty-total, sending_frag_lem,
}
use cosc_60_computer_network.Sender.Window.Resend.{idle_round, timer_over, timer_under}

-- What a round does to the index of the last payload sent and to the timer.
pub data Moves (c : Connection) (v : IsValid c) (incoming : List ℕ) (r : Connection × Sent)
    : Type 0 where
  advanced :
      v.sent < v.count
      → (r.0).last_sent_index ≡ pos v.sent
      → (r.0).resend_time ≡ 0
      → get_int 12 (receive r.1 incoming) ≡ sending_frag c v.sent
      → Moves c v incoming r
  ticked :
      v.count ≤ v.sent
      → c.resend_time ≤ 60000
      → (r.0).last_sent_index ≡ c.last_sent_index
      → (r.0).resend_time ≡ c.resend_time + 20000
      → Moves c v incoming r
  reset :
      v.count ≤ v.sent
      → (r.0).last_sent_index ≡ negsuc 0
      → (r.0).resend_time ≡ 0
      → Moves c v incoming r

send_payload-time :
    (c : Connection) (i : ℤ) → Whenever (λ r. (r.0).resend_time ≡ 0) (send_payload i c)
unfolding send_payload
send_payload-time c (negsuc k) = faults
send_payload-time c (pos i) =
    Whenever->>= (Whenever-any (get_elem? c.num_bytes_buffered i))
      (λ n _. Whenever->>= (Whenever-any (build_data c i n)) (λ o _. gives refl))

sender_round-time :
    (c : Connection) (v : IsValid c)
    → v.sent < v.count
    → ltb_ℤ c.receiver_window_size (pos 488) ≡ false
    → Whenever (λ r. (r.0).resend_time ≡ 0) (sender_round c)
unfolding sender_round
sender_round-time c v more wide =
    rw (next c v, unsent c v more, wide) (send_payload-time c (pos v.sent))

pub sender_round-Moves :
    (c : Connection) (v : IsValid c) (incoming : List ℕ)
    → length incoming ≡ 509
    → ltb_ℤ c.receiver_window_size (pos 488) ≡ false
    → Yields (Moves c v incoming) (sender_round c)
sender_round-Moves c v incoming room wide = elim (dec_lt v.sent v.count) [
  | yes more ↦
      Yields-weaken
        (Yields-Whenever (sender_round-SendsNext c v incoming room more wide)
          (sender_round-time c v more wide))
        (λ r (s, time).
          advanced more s.advanced time (s.frag_read ∙ sym (sending_frag_lem c v.sent)))
  | no done ↦ elim (Bool-cases (ltb 60000 c.resend_time)) [
    | inl over ↦
        let (o, e, size) =
          send_empty-total (record c { last_sent_index = negsuc 0; resend_time = 0 })
            (with_sent c v 0 0 (negsuc 0) refl (omega arith)) in
        rw (idle_round c v (omega arith), timer_over c over, e)
          (yields (reset (omega arith) refl refl))
    | inr under ↦
        let (o, e, size) =
          send_empty-total (record c { resend_time = c.resend_time + 20000 })
            (with_sent c v v.sent (c.resend_time + 20000) c.last_sent_index v.last_sent
              v.sent_le) in
        rw (idle_round c v (omega arith), timer_under c under, e)
          (yields (ticked (omega arith) (ground arith) refl refl))
  ]
]
