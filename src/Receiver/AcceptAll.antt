-- ===== src/Receiver/AcceptAll.antt =====
-- mrt_accept_all(): enough fuel is one more than there are pending senders, and it accepts them all.
use cosc_60_computer_network.Prelude.{
  ℕ, zero, suc, ◌<◌, ◌≡◌, refl, sym, ap, ◌∙◌, some, List, [], ◌∷◌, ◌++◌, length, append-nil,
  append_assoc, Yields, yields, Yields-some, Yields->>=, take, arith,
}
use cosc_60_computer_network.Prelude.Int.{pos, ◌-ℤ◌, wrap}
use mathlib.Core.Path.{subst}
use cosc_60_computer_network.Mrt.{header_length}
use cosc_60_computer_network.Receiver.State.{Ptr, live, Receiver, enq_q, deq_q, peek_q}
use cosc_60_computer_network.Receiver.Api.{
  Accepted, AcceptedAll, accept1_take, accept1_connect, accept1_taken, mrt_accept1, mrt_accept_all,
}
use cosc_60_computer_network.Receiver.Invariant.{IsValid, waiting}
use cosc_60_computer_network.Receiver.Invariant.Parts.{build_acon-total}
use cosc_60_computer_network.Receiver.Invariant.Calls.{
  in_flight, accept1_take-IsValid, accept1_connect-IsValid,
}

-- What mrt_accept1() leaves when the pending senders are `p` and then `ps`.
record AcceptsOldest (r : Receiver) (flight : List Ptr) (p : Ptr) (ps : List Ptr) (a : Accepted)
    : Type 0 where
  valid : IsValid a.receiver flight
  pending : a.receiver.pending_senders_q ≡ live ps
  connected : a.receiver.connected_senders_q ≡ live (waiting r.connected_senders_q ++ (p ∷ []))

accept1_connect-AcceptsOldest :
    {r : Receiver} {flight : List Ptr} (p : Ptr) (ps : List Ptr)
    → IsValid r (p ∷ flight)
    → r.pending_senders_q ≡ live ps
    → (a : Accepted) × (accept1_connect p r ≡ some a) × AcceptsOldest r flight p ps a
unfolding accept1_connect enq_q
accept1_connect-AcceptsOldest {r} {flight} p ps v e =
    let (s, es, vs) = v.valid p (ground arith) in
    let (o, eo, osize) =
      build_acon-total r.outgoing_buffer v.outgoing_size (wrap (s.next_frag -ℤ pos 1)) in
    let queued : enq_q r.connected_senders_q p
        ≡ some (live (waiting r.connected_senders_q ++ (p ∷ []))) =
      ap (λ q. enq_q q p) v.connected_live in
    let a : Accepted = record {
      id = s.addr;
      receiver = record r {
        connected_senders_q = live (waiting r.connected_senders_q ++ (p ∷ []));
        outgoing_buffer = o;
        checkers = p ∷ r.checkers;
      };
      sent = record { dest = s.addr; bytes = take header_length o } ∷ [];
    } in
    let done : accept1_connect p r ≡ some a = rw (queued, es, eo) in
    (
      a,
      done,
      record {
        valid =
            Yields-some
              (subst (Yields (λ o. IsValid o.receiver flight)) done (accept1_connect-IsValid p v));
        pending = e;
        connected = refl;
      },
    )

-- With a sender pending, mrt_accept1() accepts the oldest one.
mrt_accept1-AcceptsOldest :
    {r : Receiver} {flight : List Ptr} (p : Ptr) (ps : List Ptr)
    → IsValid r flight
    → r.pending_senders_q ≡ live (p ∷ ps)
    → (a : Accepted) × (mrt_accept1 r ≡ some (some a)) × AcceptsOldest r flight p ps a
unfolding mrt_accept1 accept1_take accept1_taken deq_q
mrt_accept1-AcceptsOldest {r} {flight} p ps v e =
    let taken : accept1_take r ≡ some (some p, record r { pending_senders_q = live ps }) = rw e in
    let v1 : IsValid (record r { pending_senders_q = live ps }) (p ∷ flight) =
      Yields-some
        (subst (Yields (λ o. IsValid o.1 (in_flight o.0 flight))) taken (accept1_take-IsValid v)) in
    let (a, done, oldest) = accept1_connect-AcceptsOldest p ps v1 refl in
    (
      a,
      rw (taken, done),
      record { valid = oldest.valid; pending = oldest.pending; connected = oldest.connected },
    )

-- What mrt_accept_all() leaves: every one of `ps` is connected, in order, and none is pending.
pub record AcceptsAll (r : Receiver) (flight ps : List Ptr) (all : AcceptedAll) : Type 0 where
  pub valid : IsValid all.receiver flight
  pub one_each : length all.ids ≡ length ps
  pub pending : all.receiver.pending_senders_q ≡ live []
  pub connected : all.receiver.connected_senders_q ≡ live (waiting r.connected_senders_q ++ ps)

-- In a valid state in which the senders `ps` are pending, and with more fuel than there are of them,
-- mrt_accept_all() with no other step in between comes to its end without a fault and returns one ID
-- for each; they are connected behind those that were, in order, none is pending, and the invariant
-- holds.
pub mrt_accept_all-AcceptsAll :
    (fuel : ℕ) {r : Receiver} {flight : List Ptr} (ps : List Ptr)
    → IsValid r flight
    → r.pending_senders_q ≡ live ps
    → length ps < fuel
    → Yields (AcceptsAll r flight ps) (mrt_accept_all fuel r)
unfolding mrt_accept_all peek_q
mrt_accept_all-AcceptsAll zero ps v e f = absurd (omega arith)
mrt_accept_all-AcceptsAll (suc fuel) {r} [] v e f = rw e (
    yields (record {
      valid = v;
      one_each = refl;
      pending = e;
      connected = v.connected_live ∙ ap live (sym (append-nil (waiting r.connected_senders_q)));
    }))
mrt_accept_all-AcceptsAll (suc fuel) {r} {flight} (p ∷ ps) v e f =
    let (a, done, oldest) = mrt_accept1-AcceptsOldest p ps v e in
    let front : peek_q r.pending_senders_q ≡ some (some p) = ap peek_q e in
    rw (front, done)
      (Yields->>= (mrt_accept_all-AcceptsAll fuel ps oldest.valid oldest.pending (omega arith))
        (λ all rest. yields (record {
          valid = rest.valid;
          one_each = ap suc rest.one_each;
          pending = rest.pending;
          connected =
              rest.connected
              ∙ ap (λ q. live (waiting q ++ ps)) oldest.connected
              ∙ ap live (append_assoc (waiting r.connected_senders_q) (p ∷ []) ps);
        })))
