-- ===== src/Receiver/Invariant/Answer.antt =====
-- RCON and DATA keep the invariant, and where they fault.
use cosc_60_computer_network.Prelude.{
  ◌+◌, ◌≡◌, inl, inr, refl, ap, ◌∙◌, Option, none, some, List, [], ◌∷◌, ◌++◌, length, ◌==◌,
  if◌then◌else◌, Bool-cases, arith,
}
use cosc_60_computer_network.Prelude.Int.{ℤ}
use cosc_60_computer_network.Receiver.State.{
  Ptr, Sender, live, Receiver, update, receiver_max_window_size, enq_q,
}
use cosc_60_computer_network.Receiver.Lookup.{count, count-append}
use cosc_60_computer_network.Receiver.Handle.{
  Arrival, new_sender, answer_rcon, unless_pending, handle_rcon, answer_data, handle_data,
}
use cosc_60_computer_network.Receiver.Invariant.{IsValid, IsValidSender, held, waiting}
use cosc_60_computer_network.Receiver.Invariant.Parts.{
  Runs, runs, ValidAt-update, NotShort, buffer_payload-IsValidSender, send_adat-Runs,
  build_acon-total,
}
use cosc_60_computer_network.Receiver.Invariant.Search.{
  IsFound, Found-Runs, find_pending, find_connected, not-held,
}

module _ {r : Receiver} {flight : List Ptr} (v : IsValid r flight) where
  -- Where `a` stands in the pending queue behind a new sender at `p`.
  held-enqueued :
      (p a : Ptr)
      → r.senders p ≡ none
      → count a (waiting r.pending_senders_q ++ (p ∷ []))
          + count a (waiting r.connected_senders_q)
          + count a flight
        ≡ (if a == p then 1 else held r flight a)
  held-enqueued p a unused = elim (Bool-cases (a == p)) [
    | inl same ↦
        let e : a ≡ p = ground arith in
        let z : held r flight a ≡ 0 = not-held v a (ap r.senders e ∙ unused) in
        ground (arith, count-append a (waiting r.pending_senders_q) (p ∷ []))
    | inr other ↦ ground (arith, count-append a (waiting r.pending_senders_q) (p ∷ []))
  ]

  enqueue-IsValid :
      (p : Ptr) (s : Sender)
      → r.senders p ≡ none
      → IsValidSender s
      → IsValid
          (record r {
            senders = update r.senders p (some s);
            pending_senders_q = live (waiting r.pending_senders_q ++ (p ∷ []));
          })
          flight
  enqueue-IsValid p s unused vs = record {
    once = λ a. ground (arith, held-enqueued p a unused, v.once a);
    valid = λ a h.
        ValidAt-update r.senders p s a vs
          (λ ne. v.valid a (ground (arith, held-enqueued p a unused)));
    pending_live = refl;
    connected_live = v.connected_live;
    incoming_size = v.incoming_size;
    incoming_nul = v.incoming_nul;
    outgoing_size = v.outgoing_size;
  }

  answer_rcon-Runs :
      (a : Arrival) (frag : ℤ) (found : Option Ptr)
      → r.senders a.block ≡ none
      → length a.garbage ≡ receiver_max_window_size
      → Runs flight (answer_rcon a frag r found)
  unfolding answer_rcon new_sender
  answer_rcon-Runs a frag none unused size =
      let e : enq_q r.pending_senders_q a.block
          ≡ some (live (waiting r.pending_senders_q ++ (a.block ∷ []))) =
        ap (λ q. enq_q q a.block) v.pending_live ∙ unfold enq_q in refl in
      rw e (
        runs (
          enqueue-IsValid a.block (new_sender a frag) unused
            (record { size = size; within = omega arith })))
  answer_rcon-Runs a frag (some p) unused size =
      let (o, e, osize) = build_acon-total r.outgoing_buffer v.outgoing_size frag in
      rw e (
        runs (record {
          once = v.once;
          valid = v.valid;
          pending_live = v.pending_live;
          connected_live = v.connected_live;
          incoming_size = v.incoming_size;
          incoming_nul = v.incoming_nul;
          outgoing_size = osize;
        }))

  unless_pending-Runs :
      (a : Arrival) (frag : ℤ) (found : Option Ptr)
      → r.senders a.block ≡ none
      → length a.garbage ≡ receiver_max_window_size
      → Runs flight (unless_pending a frag r found)
  unfolding unless_pending
  unless_pending-Runs a frag (some p) unused size = runs v
  unless_pending-Runs a frag none unused size =
      Found-Runs _ (find_connected v a.source)
        (λ found _. answer_rcon-Runs a frag found unused size)

  pub handle_rcon-Runs :
      (a : Arrival) (frag : ℤ)
      → r.senders a.block ≡ none
      → length a.garbage ≡ receiver_max_window_size
      → Runs flight (handle_rcon a frag r)
  unfolding handle_rcon
  handle_rcon-Runs a frag unused size =
      Found-Runs _ (find_pending v a.source)
        (λ found _. unless_pending-Runs a frag found unused size)

  answer_data-Runs :
      (a : Arrival) (frag : ℤ) (found : Option Ptr)
      → IsFound r.senders a.source (waiting r.connected_senders_q) found
      → ((p : Ptr) (s : Sender) → r.senders p ≡ some s → NotShort (length a.datagram) frag s)
      → Runs flight (answer_data a frag r found)
  unfolding answer_data
  answer_data-Runs a frag none is fits = runs v
  answer_data-Runs a frag (some p) (_, c, _, _) fits =
      let (s, e, vs) = v.valid p (omega arith) in
      let (s', w, e', vs') =
        buffer_payload-IsValidSender (length a.datagram) frag r.incoming_buffer s vs (fits p s e) in
      rw (e, e') (send_adat-Runs a.source p s' w v vs')

  pub handle_data-Runs :
      (a : Arrival) (frag : ℤ)
      → ((p : Ptr) (s : Sender) → r.senders p ≡ some s → NotShort (length a.datagram) frag s)
      → Runs flight (handle_data a frag r)
  unfolding handle_data
  handle_data-Runs a frag fits =
      Found-Runs _ (find_connected v a.source) (λ found is. answer_data-Runs a frag found is fits)
