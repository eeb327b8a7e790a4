-- ===== src/Receiver/Invariant/Handler.antt =====
-- main_handler() keeps the invariant and never faults, but for one kind of DATA.
use cosc_60_computer_network.Prelude.{
  ℕ, ◌+◌, ◌≤◌, ◌≡◌, inl, inr, refl, sym, ap, ◌∙◌, Bool, true, false, Option, none, some, List, [],
  length, ◌==◌, if◌then◌else◌, Bool-cases, arith, ◌>>=◌,
}
use cosc_60_computer_network.Prelude.Int.{ℤ, ◌==ℤ◌}
use cosc_60_computer_network.Mrt.{rcon_type, data_type, rcls_type}
use cosc_60_computer_network.Packet.{get_int, receive}
use cosc_60_computer_network.Packet.Seal.{receive-HasNul, checksum_matches-total, length-receive}
use cosc_60_computer_network.Receiver.State.{
  Ptr, Sender, live, Receiver, SockaddrIn, update, receiver_max_window_size, get_item_q, pop_item_q,
  pop_found, drop_sender, free_sender,
}
use cosc_60_computer_network.Receiver.Lookup.{count, count-drop_sender, update-other}
use cosc_60_computer_network.Receiver.Handle.{
  Arrival, answer_rcls, handle_rcls, dispatch, if_checked, handle_datagram,
}
use cosc_60_computer_network.Receiver.Invariant.{IsValid, held, waiting}
use cosc_60_computer_network.Receiver.Invariant.Parts.{
  Runs, runs, write-IsValid, NotShort, build_acls-total,
}
use cosc_60_computer_network.Receiver.Invariant.Search.{
  IsFound, Found-Runs, Found-pop, find_pending, find_connected,
}
use cosc_60_computer_network.Receiver.Invariant.Answer.{handle_rcon-Runs, handle_data-Runs}

-- What a round wants of its surroundings: the block that malloc() returns is not in use and has
-- the size of the buffer, and a DATA that is shorter than a header is not the next fragment.
pub record Fits (r : Receiver) (a : Arrival) (incoming : List ℕ) : Type 0 where
  pub unused : r.senders a.block ≡ none
  pub garbage_size : length a.garbage ≡ receiver_max_window_size
  pub not_short :
      (p : Ptr) (s : Sender)
      → r.senders p ≡ some s
      → NotShort (length a.datagram) (get_int 12 incoming) s

module _ {r : Receiver} {flight : List Ptr} (v : IsValid r flight) where
  held-popped :
      (p a : Ptr)
      → 1 ≤ count p (waiting r.pending_senders_q)
      → count a (drop_sender p (waiting r.pending_senders_q))
          + count a (waiting r.connected_senders_q)
          + count a flight
        ≡ (if a == p then 0 else held r flight a)
  held-popped p a c = elim (Bool-cases (a == p)) [
    | inl same ↦
        let e : a ≡ p = ground arith in
        let c' : 1 ≤ count a (waiting r.pending_senders_q) = rw e c in
        ground (arith, count-drop_sender a p (waiting r.pending_senders_q), v.once a)
    | inr other ↦ ground (arith, count-drop_sender a p (waiting r.pending_senders_q))
  ]

  -- A pending sender that is popped is freed; no other is.
  pop-IsValid :
      (p : Ptr)
      → 1 ≤ count p (waiting r.pending_senders_q)
      → IsValid
          (record r {
            senders = update r.senders p none;
            pending_senders_q = live (drop_sender p (waiting r.pending_senders_q));
          })
          flight
  pop-IsValid p c = record {
    once = λ a. omega (arith, v.once a, count-drop_sender a p (waiting r.pending_senders_q));
    valid = λ a h. elim (Bool-cases (a == p)) [
      | inl same ↦ absurd (ground (arith, held-popped p a c))
      | inr other ↦
          let (s, e, vs) = v.valid a (ground (arith, held-popped p a c)) in
          (s, update-other r.senders p none a other ∙ e, vs)
    ];
    pending_live = refl;
    connected_live = v.connected_live;
    incoming_size = v.incoming_size;
    incoming_nul = v.incoming_nul;
    outgoing_size = v.outgoing_size;
  }

  popped-Runs :
      (id : SockaddrIn) (found : Option Ptr)
      → IsFound r.senders id (waiting r.pending_senders_q) found
      → Runs flight (
          let popped = pop_found found (waiting r.pending_senders_q) in
          some (
            record r { senders = free_sender r.senders popped.0; pending_senders_q = popped.1 },
            [],
          ))
  unfolding pop_found free_sender
  popped-Runs id none is = runs (record {
    once = v.once;
    valid = v.valid;
    pending_live = refl;
    connected_live = v.connected_live;
    incoming_size = v.incoming_size;
    incoming_nul = v.incoming_nul;
    outgoing_size = v.outgoing_size;
  })
  popped-Runs id (some p) (_, c, _, _) = runs (pop-IsValid p c)

  pop-find :
      (id : SockaddrIn)
      → pop_item_q r.senders id r.pending_senders_q ≡ (
          get_item_q r.senders id r.pending_senders_q >>= λ f.
          some (pop_found f (waiting r.pending_senders_q)))
  unfolding pop_item_q get_item_q
  pop-find id =
      ap (λ q. pop_item_q r.senders id q) v.pending_live
      ∙ sym (
          ap
            (λ q.
              get_item_q r.senders id q >>= λ f. some (pop_found f (waiting r.pending_senders_q)))
            v.pending_live)

  answer_rcls-Runs :
      (a : Arrival) (found : Option Ptr)
      → IsFound r.senders a.source (waiting r.connected_senders_q) found
      → Runs flight (answer_rcls a r found)
  unfolding answer_rcls
  answer_rcls-Runs a (some p) (_, c, _, _) =
      let (s, e, vs) = v.valid p (omega arith) in
      let (o, eo, osize) = build_acls-total r.outgoing_buffer v.outgoing_size in
      rw (e, eo)
        (runs (write-IsValid p _ o v (record { size = vs.size; within = vs.within }) osize))
  answer_rcls-Runs a none is =
      let found = find_pending v a.source in
      let e : pop_item_q r.senders a.source r.pending_senders_q ≡ (
          get_item_q r.senders a.source r.pending_senders_q >>= λ f.
          some (pop_found f (waiting r.pending_senders_q))) =
        pop-find a.source in
      rw e (Found-pop _ found (λ f isf. popped-Runs a.source f isf))

  handle_rcls-Runs : (a : Arrival) → Runs flight (handle_rcls a r)
  unfolding handle_rcls
  handle_rcls-Runs a =
      Found-Runs _ (find_connected v a.source) (λ found is. answer_rcls-Runs a found is)

  dispatch-Runs :
      (a : Arrival) (type : ℤ)
      → Fits r a r.incoming_buffer
      → Runs flight (dispatch a type (get_int 12 r.incoming_buffer) r)
  unfolding dispatch
  dispatch-Runs a type fits = elim (Bool-cases (type ==ℤ rcon_type)) [
    | inl e ↦ rw e (handle_rcon-Runs v a _ fits.unused fits.garbage_size)
    | inr n ↦ elim (Bool-cases (type ==ℤ data_type)) [
      | inl e ↦ rw (n, e) (handle_data-Runs v a _ fits.not_short)
      | inr n' ↦ elim (Bool-cases (type ==ℤ rcls_type)) [
        | inl e ↦ rw (n, n', e) (handle_rcls-Runs a)
        | inr n'' ↦ rw (n, n', n'') (runs v)
      ]
    ]
  ]

  if_checked-Runs :
      (a : Arrival) (checked : Bool)
      → Fits r a r.incoming_buffer
      → Runs flight (if_checked a r checked)
  unfolding if_checked
  if_checked-Runs a true fits = dispatch-Runs a _ fits
  if_checked-Runs a false fits = runs v

-- The state that the switch works on.
abbrev pub received : Arrival → Receiver → Receiver
received a r = record r { incoming_buffer = receive a.datagram r.incoming_buffer }

received-IsValid :
    {r : Receiver} {flight : List Ptr} (a : Arrival)
    → IsValid r flight
    → length a.datagram ≤ 508
    → IsValid (received a r) flight
received-IsValid {r} a v short = record {
  once = v.once;
  valid = v.valid;
  pending_live = v.pending_live;
  connected_live = v.connected_live;
  incoming_size = length-receive a.datagram r.incoming_buffer ∙ v.incoming_size;
  incoming_nul =
      receive-HasNul a.datagram r.incoming_buffer (omega (arith, v.incoming_size)) v.incoming_nul;
  outgoing_size = v.outgoing_size;
}

-- In a valid state, a round of main_handler() on any datagram that fits its buffer ends without a
-- fault and keeps the invariant, if a block from malloc() is unused and has the buffer's size and
-- no DATA shorter than a header carries the fragment number that a sender's next one has.
pub handle_datagram-IsValid :
    {r : Receiver} {flight : List Ptr} (a : Arrival)
    → IsValid r flight
    → length a.datagram ≤ 508
    → Fits r a (receive a.datagram r.incoming_buffer)
    → Runs flight (handle_datagram a r)
unfolding handle_datagram
handle_datagram-IsValid {r} a v short fits =
    let v' = received-IsValid a v short in
    let (checked, e) =
      checksum_matches-total (receive a.datagram r.incoming_buffer) v'.incoming_nul in
    rw e (
      if_checked-Runs v' a checked (record {
        unused = fits.unused;
        garbage_size = fits.garbage_size;
        not_short = fits.not_short;
      }))
