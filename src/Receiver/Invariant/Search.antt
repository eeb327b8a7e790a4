-- ===== src/Receiver/Invariant/Search.antt =====
-- What a search of the receiver's queues hands on to the rest of a step.
use cosc_60_computer_network.Prelude.{
  ◌≤◌, ◌≡◌, inl, inr, ap, true, false, Option, none, some, List, ◌==◌, Bool-cases, arith, ◌>>=◌,
}
use cosc_60_computer_network.Receiver.State.{
  Ptr, Sender, SenderQueue, Receiver, Memory, SockaddrIn, sender_matcher, get_item_q, pop_found,
}
use cosc_60_computer_network.Receiver.Lookup.{count, Found, absent, present, find_sender-Found}
use cosc_60_computer_network.Receiver.Handle.{Outcome}
use cosc_60_computer_network.Receiver.Invariant.{IsValid, held, waiting}
use cosc_60_computer_network.Receiver.Invariant.Parts.{Runs}

-- What a search hands on: no sender with the address, or one of the queue that has it.
abbrev pub IsFound : Memory → SockaddrIn → List Ptr → Option Ptr → Type 0
IsFound m id ps none =
    (p : Ptr) (s : Sender) → 1 ≤ count p ps → m p ≡ some s → sender_matcher s id ≡ false
IsFound m id ps (some p) =
    (s : Sender) × (1 ≤ count p ps) × (m p ≡ some s) × (sender_matcher s id ≡ true)

pub Found-Runs :
    {m : Memory} {id : SockaddrIn} {ps : List Ptr} {o : Option (Option Ptr)} {flight : List Ptr}
    (k : Option Ptr → Option Outcome)
    → Found m id ps o
    → ((found : Option Ptr) → IsFound m id ps found → Runs flight (k found))
    → Runs flight (o >>= k)
Found-Runs k (absent out) f = f none out
Found-Runs k (present {p} {s} c e hit) f = f (some p) (s, c, e, hit)

pub Found-pop :
    {m : Memory} {id : SockaddrIn} {ps : List Ptr} {o : Option (Option Ptr)} {flight : List Ptr}
    (k : Option Ptr × SenderQueue → Option Outcome)
    → Found m id ps o
    → ((found : Option Ptr) → IsFound m id ps found → Runs flight (k (pop_found found ps)))
    → Runs flight ((o >>= λ f. some (pop_found f ps)) >>= k)
Found-pop k (absent out) f = f none out
Found-pop k (present {p} {s} c e hit) f = f (some p) (s, c, e, hit)

module _ {r : Receiver} {flight : List Ptr} (v : IsValid r flight) where
  pub find_pending :
      (id : SockaddrIn)
      → Found r.senders id
          (waiting r.pending_senders_q)
          (get_item_q r.senders id r.pending_senders_q)
  unfolding get_item_q
  find_pending id = rw (ap (λ q. get_item_q r.senders id q) v.pending_live) (
      find_sender-Found r.senders id (waiting r.pending_senders_q)
        (λ p c. let (s, e, _) = v.valid p (omega arith) in (s, e)))

  pub find_connected :
      (id : SockaddrIn)
      → Found r.senders id
          (waiting r.connected_senders_q)
          (get_item_q r.senders id r.connected_senders_q)
  unfolding get_item_q
  find_connected id = rw (ap (λ q. get_item_q r.senders id q) v.connected_live) (
      find_sender-Found r.senders id (waiting r.connected_senders_q)
        (λ p c. let (s, e, _) = v.valid p (omega arith) in (s, e)))

  -- A block that malloc() returns is held nowhere.
  pub not-held : (p : Ptr) → r.senders p ≡ none → held r flight p ≡ 0
  not-held p e = elim (Bool-cases (held r flight p == 0)) [
    | inl z ↦ ground arith
    | inr nz ↦ let (s, e', _) = v.valid p (ground arith) in cc
  ]
