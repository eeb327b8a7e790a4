-- ===== src/Sender/Window/Resend.antt =====
-- sender() with all payloads sent: the resend timer takes it back to the first of them.
use cosc_60_computer_network.Prelude.{
  ℕ, zero, suc, ◌+◌, ◌*◌, ◌≤◌, ◌<◌, ◌≡◌, refl, ap, ◌∙◌, inl, inr, true, false, some, ltb,
  Bool-cases, arith,
}
use cosc_60_computer_network.Prelude.Int.{negsuc, pos, sub_ℕ, ltb_ℤ}
use cosc_60_computer_network.Sender.State.{Connection}
use cosc_60_computer_network.Sender.Threads.{Sent, send_empty, sender_round, resend_timer}
use cosc_60_computer_network.Sender.Invariant.{IsValid, with_sent, with_outgoing}
use cosc_60_computer_network.Sender.Window.Send.{next, send_empty-total, or_true}

-- Within `n` rounds of sender(), and with no other step in between, no payload counts as sent.
pub data GoesBack : ℕ → Connection → Type 0 where
  back : {n : ℕ} {c : Connection} → c.last_sent_index ≡ negsuc 0 → GoesBack n c
  later :
      {n : ℕ} {c c' : Connection} {d : Sent}
      → sender_round c ≡ some (c', d)
      → GoesBack n c'
      → GoesBack (suc n) c

done_lem : (count sent : ℕ) → count ≤ sent → ltb_ℤ (sub_ℕ count 1) (pos sent) ≡ true
done_lem count sent h = ground arith

-- A round with nothing left to send.
pub idle_round :
    (c : Connection) (v : IsValid c)
    → v.count ≤ v.sent
    → sender_round c ≡ send_empty (resend_timer true c)
unfolding sender_round
idle_round c v h =
    let all_sent : ltb_ℤ c.last_payload_index (pos v.sent) ≡ true =
      ap (λ z. ltb_ℤ z (pos v.sent)) v.last_payload ∙ done_lem v.count v.sent h in
    rw (next c v, all_sent, or_true _)

pub timer_over :
    (c : Connection)
    → ltb 60000 c.resend_time ≡ true
    → resend_timer true c ≡ record c { last_sent_index = negsuc 0; resend_time = 0 }
unfolding resend_timer
timer_over c e = rw e

pub timer_under :
    (c : Connection)
    → ltb 60000 c.resend_time ≡ false
    → resend_timer true c ≡ record c { resend_time = c.resend_time + 20000 }
unfolding resend_timer
timer_under c e = rw e

over_round :
    (n : ℕ) (c : Connection) (v : IsValid c)
    → v.count ≤ v.sent
    → ltb 60000 c.resend_time ≡ true
    → GoesBack (suc n) c
over_round n c v h over =
    let v1 = with_sent c v 0 0 (negsuc 0) refl (omega arith) in
    let (o, e, size) =
      send_empty-total (record c { last_sent_index = negsuc 0; resend_time = 0 }) v1 in
    later (idle_round c v h ∙ ap send_empty (timer_over c over) ∙ e) (back refl)

rounds-GoesBack :
    (m : ℕ) (c : Connection) (v : IsValid c)
    → v.count ≤ v.sent
    → 60000 < m * 20000 + c.resend_time
    → GoesBack (suc m) c
rounds-GoesBack zero c v h late = over_round 0 c v h (ground arith)
rounds-GoesBack (suc m) c v h late = elim (Bool-cases (ltb 60000 c.resend_time)) [
  | inl over ↦ over_round (suc m) c v h over
  | inr under ↦
      let c1 : Connection = record c { resend_time = c.resend_time + 20000 } in
      let v1 =
        with_sent c v v.sent (c.resend_time + 20000) c.last_sent_index v.last_sent v.sent_le in
      let (o, e, size) = send_empty-total c1 v1 in
      later (idle_round c v h ∙ ap send_empty (timer_under c under) ∙ e) (
        rounds-GoesBack m (record c1 { outgoing_buffer = o }) (with_outgoing c1 o v1 size) h
          (omega arith))
]

-- On a valid connection with every buffered payload sent, and with no other step in between, sender()
-- marks the payloads as not sent within five rounds, so that it sends them again.
pub sender_round-GoesBack : (c : Connection) (v : IsValid c) → v.count ≤ v.sent → GoesBack 5 c
sender_round-GoesBack c v h = rounds-GoesBack 4 c v h (omega arith)
