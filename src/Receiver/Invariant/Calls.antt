-- ===== src/Receiver/Invariant/Calls.antt =====
-- The user's calls and the checker keep the invariant, and never fault while main_handler() runs.
use cosc_60_computer_network.Prelude.{
  ℕ, ◌+◌, ◌≤◌, ◌≡◌, inl, inr, refl, ap, ◌∙◌, Option, none, some, List, [], ◌∷◌, ◌++◌, ◌==◌, ltb,
  Bool-cases, Yields, yields, arith, ◌>>=◌,
}
use cosc_60_computer_network.Prelude.Int.{pos, ◌-ℤ◌, wrap}
use cosc_60_computer_network.Bytes.{length-splice}
use cosc_60_computer_network.Receiver.State.{
  Ptr, Sender, live, Receiver, SockaddrIn, update, enq_q, deq_q,
}
use cosc_60_computer_network.Receiver.Lookup.{count, count-append, Found, absent, present}
use cosc_60_computer_network.Receiver.Api.{
  accept1_take, accept1_connect, bytes_to_read, take_unread, read_from, receive1_found,
  receive1_round, checker_round,
}
use cosc_60_computer_network.Receiver.Invariant.{IsValid, IsValidSender, held, waiting}
use cosc_60_computer_network.Receiver.Invariant.Parts.{ValidAt-update, build_acon-total}
use cosc_60_computer_network.Receiver.Invariant.Search.{find_connected}

-- What mrt_accept1() holds between its locks.
abbrev pub in_flight : Option Ptr → List Ptr → List Ptr
in_flight none flight = flight
in_flight (some p) flight = p ∷ flight

-- A round of the first loop moves the oldest pending sender, if there is one, to the caller.
take-IsValid :
    {r : Receiver} {flight : List Ptr} (ps : List Ptr)
    → IsValid r flight
    → waiting r.pending_senders_q ≡ ps
    → Yields (λ o. IsValid o.1 (in_flight o.0 flight)) (accept1_take r)
unfolding accept1_take deq_q
take-IsValid {r} [] v e =
    let e' : deq_q r.pending_senders_q ≡ some (none, live []) =
      ap deq_q (v.pending_live ∙ ap live e) in
    rw e' (
      yields (record {
        once = λ p. ground (arith, v.once p, ap (count p) e);
        valid = λ p h. v.valid p (ground (arith, ap (count p) e));
        pending_live = refl;
        connected_live = v.connected_live;
        incoming_size = v.incoming_size;
        incoming_nul = v.incoming_nul;
        outgoing_size = v.outgoing_size;
      }))
take-IsValid {r} (p ∷ ps) v e =
    let e' : deq_q r.pending_senders_q ≡ some (some p, live ps) =
      ap deq_q (v.pending_live ∙ ap live e) in
    rw e' (
      yields (record {
        once = λ a. ground (arith, v.once a, ap (count a) e);
        valid = λ a h. v.valid a (ground (arith, ap (count a) e));
        pending_live = refl;
        connected_live = v.connected_live;
        incoming_size = v.incoming_size;
        incoming_nul = v.incoming_nul;
        outgoing_size = v.outgoing_size;
      }))

-- The first lock of mrt_accept1() ends without a fault and keeps the invariant, the oldest
-- pending sender being held by the call from then on.
pub accept1_take-IsValid :
    {r : Receiver} {flight : List Ptr}
    → IsValid r flight
    → Yields (λ o. IsValid o.1 (in_flight o.0 flight)) (accept1_take r)
accept1_take-IsValid {r} v = take-IsValid (waiting r.pending_senders_q) v refl

-- The second lock of mrt_accept1(), for a sender that the call holds, ends without a fault and
-- keeps the invariant, the sender being held by the queue from then on.
pub accept1_connect-IsValid :
    {r : Receiver} {flight : List Ptr} (p : Ptr)
    → IsValid r (p ∷ flight)
    → Yields (λ o. IsValid o.receiver flight) (accept1_connect p r)
unfolding accept1_connect
accept1_connect-IsValid {r} {flight} p v =
    let (s, e, vs) = v.valid p (ground arith) in
    let (o, eo, osize) =
      build_acon-total r.outgoing_buffer v.outgoing_size (wrap (s.next_frag -ℤ pos 1)) in
    let eq : enq_q r.connected_senders_q p
        ≡ some (live (waiting r.connected_senders_q ++ (p ∷ []))) =
      ap (λ q. enq_q q p) v.connected_live ∙ unfold enq_q in refl in
    rw (eq, e, eo)
      (yields (record {
        once =
            λ a. ground (arith, v.once a, count-append a (waiting r.connected_senders_q) (p ∷ []));
        valid = λ a h.
            v.valid a (ground (arith, count-append a (waiting r.connected_senders_q) (p ∷ [])));
        pending_live = v.pending_live;
        connected_live = refl;
        incoming_size = v.incoming_size;
        incoming_nul = v.incoming_nul;
        outgoing_size = osize;
      }))

-- A sender is written in place.
write_sender-IsValid :
    {r : Receiver} {flight : List Ptr} (p : Ptr) (s : Sender)
    → IsValid r flight
    → IsValidSender s
    → IsValid (record r { senders = update r.senders p (some s) }) flight
write_sender-IsValid {r} p s v vs = record {
  once = v.once;
  valid = λ a h. ValidAt-update r.senders p s a vs (λ _. v.valid a h);
  pending_live = v.pending_live;
  connected_live = v.connected_live;
  incoming_size = v.incoming_size;
  incoming_nul = v.incoming_nul;
  outgoing_size = v.outgoing_size;
}

pub take_unread-IsValidSender :
    (n : ℕ) (s : Sender) → IsValidSender s → IsValidSender (take_unread n s)
unfolding take_unread
take_unread-IsValidSender n s v = elim (Bool-cases (ltb n s.bytes_unread)) [
  | inl less ↦
      rw less
        (record { size = length-splice 0 _ s.buffer ∙ v.size; within = omega (arith, v.within) })
  | inr all ↦ rw all (record { size = v.size; within = omega arith })
]

read_from-IsValid :
    {r : Receiver} {flight : List Ptr} (len : ℕ) (p : Ptr) (s : Sender)
    → IsValid r flight
    → IsValidSender s
    → IsValid (read_from len p r s).1 flight
unfolding read_from
read_from-IsValid {r} len p s v vs = elim (Bool-cases (s.bytes_unread == 0)) [
  | inl empty ↦ rw empty (elim (Bool-cases (ltb 120000 s.inactive_time)) [
    | inl late ↦ rw late v
    | inr fresh ↦ rw fresh v
  ])
  | inr full ↦
      rw full (write_sender-IsValid p _ v (take_unread-IsValidSender (bytes_to_read len s) s vs))
]

module _ {r : Receiver} {flight : List Ptr} (v : IsValid r flight) where
  received_from :
      (id : SockaddrIn) (len : ℕ) {o : Option (Option Ptr)}
      → Found r.senders id (waiting r.connected_senders_q) o
      → Yields (λ a. IsValid a.1 flight) (o >>= receive1_found len r)
  unfolding receive1_found
  received_from id len (absent out) = yields v
  received_from id len (present {p} {s} c e hit) =
      let (t, e', vt) = v.valid p (omega arith) in rw e' (yields (read_from-IsValid len p t v vt))

  -- In a valid state, a round of mrt_receive1() ends without a fault and keeps the invariant.
  pub receive1_round-IsValid :
      (id : SockaddrIn) (len : ℕ) → Yields (λ a. IsValid a.1 flight) (receive1_round id len r)
  unfolding receive1_round
  receive1_round-IsValid id len = received_from id len (find_connected v id)

  -- In a valid state, a round of checker() for a sender that is held ends without a fault and
  -- keeps the invariant.
  pub checker_round-IsValid :
      (p : Ptr) → 1 ≤ held r flight p → Yields (λ r'. IsValid r' flight) (checker_round p r)
  unfolding checker_round
  checker_round-IsValid p h =
      let (s, e, vs) = v.valid p h in
      let w =
        write_sender-IsValid p (record s { inactive_time = s.inactive_time + 40000 }) v
          (record { size = vs.size; within = vs.within }) in
      rw e (
        yields (elim (Bool-cases (ltb 120000 (s.inactive_time + 40000))) [
          | inl late ↦ rw late (record {
            once = w.once;
            valid = w.valid;
            pending_live = w.pending_live;
            connected_live = w.connected_live;
            incoming_size = w.incoming_size;
            incoming_nul = w.incoming_nul;
            outgoing_size = w.outgoing_size;
          })
          | inr early ↦ rw early w
        ]))
