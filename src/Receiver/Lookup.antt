-- ===== src/Receiver/Lookup.antt =====
-- What get_item_q() with sender_matcher() finds, and how queues count their senders.
use cosc_60_computer_network.Prelude.{
  ℕ, ◌+◌, ◌-◌, ◌≤◌, ◌≡◌, sym, ap, true, false, Option, none, some, List, [], ◌∷◌, ◌++◌, ◌==◌,
  if◌then◌else◌, inl, inr, Bool-cases, arith,
}
use cosc_60_computer_network.Receiver.State.{
  Ptr, SockaddrIn, Sender, Memory, update, sender_matcher, find_sender, drop_sender,
}

-- How often a pointer stands in a list.
abbrev pub count : Ptr → List Ptr → ℕ
count p [] = 0
count p (q ∷ qs) = (if p == q then 1 else 0) + count p qs

pub count-append : (p : Ptr) (ps qs : List Ptr) → count p (ps ++ qs) ≡ count p ps + count p qs
count-append p [] qs = omega arith
count-append p (x ∷ ps) qs = omega (arith, count-append p ps qs)

-- Only the one pointer is dropped, once.
pub count-drop_sender :
    (p q : Ptr) (ps : List Ptr)
    → count p (drop_sender q ps) ≡ count p ps - (if p == q then 1 else 0)
unfolding drop_sender
count-drop_sender p q [] = ground arith
count-drop_sender p q (x ∷ ps) = ground (arith, count-drop_sender p q ps)

-- The result of a search among allocated senders.
pub data Found (m : Memory) (id : SockaddrIn) (ps : List Ptr) : Option (Option Ptr) → Type 0 where
  absent :
      ((p : Ptr) (s : Sender) → 1 ≤ count p ps → m p ≡ some s → sender_matcher s id ≡ false)
      → Found m id ps (some none)
  present :
      {p : Ptr} {s : Sender}
      → 1 ≤ count p ps
      → m p ≡ some s
      → sender_matcher s id ≡ true
      → Found m id ps (some (some p))

abbrev pub AllAllocated : Memory → List Ptr → Type 0
AllAllocated m ps = (p : Ptr) → 1 ≤ count p ps → (s : Sender) × (m p ≡ some s)

module _ (m : Memory) (id : SockaddrIn) (q : Ptr) (s : Sender) (ps : List Ptr)
    (e : m q ≡ some s) where
  not-here :
      sender_matcher s id ≡ false
      → ((p : Ptr) (t : Sender) → 1 ≤ count p ps → m p ≡ some t → sender_matcher t id ≡ false)
      → (p : Ptr) (t : Sender) → 1 ≤ count p (q ∷ ps)
      → m p ≡ some t
      → sender_matcher t id ≡ false
  not-here miss none_in p t c mt = elim (Bool-cases (p == q)) [
    | inl same ↦
        let pq : p ≡ q = ground arith in let ts : t ≡ s = cc (sym mt, ap m pq, e) in rw ts miss
    | inr other ↦ none_in p t (let c' = rw other at c in omega arith) mt
  ]

  Found-miss :
      {o : Option (Option Ptr)}
      → sender_matcher s id ≡ false
      → Found m id ps o
      → Found m id (q ∷ ps) o
  Found-miss miss (absent none_in) = absent (not-here miss none_in)
  Found-miss miss (present c mt hit) = present (omega arith) mt hit

  find_sender-step :
      Found m id ps (find_sender m id ps) → Found m id (q ∷ ps) (find_sender m id (q ∷ ps))
  unfolding find_sender
  find_sender-step rest = rw e (elim (Bool-cases (sender_matcher s id)) [
    | inl hit ↦ rw hit (present (ground arith) e hit)
    | inr miss ↦ rw miss (Found-miss miss rest)
  ])

-- Among allocated senders the search does not fault, and finds a sender with the address if there
-- is one.
pub find_sender-Found :
    (m : Memory) (id : SockaddrIn) (ps : List Ptr)
    → AllAllocated m ps
    → Found m id ps (find_sender m id ps)
unfolding find_sender
find_sender-Found m id [] all = absent (λ p s c. elim c [ ])
find_sender-Found m id (q ∷ ps) all =
    find_sender-step m id q (all q (ground arith)).0 ps (all q (ground arith)).1
      (find_sender-Found m id ps (λ p c. all p (omega arith)))

-- A write to one sender keeps the others allocated.
pub update-other :
    (m : Memory) (q : Ptr) (o : Option Sender) (p : Ptr) → (p == q) ≡ false → update m q o p ≡ m p
unfolding update
update-other m q o p h = rw h

pub update_self : (m : Memory) (q : Ptr) (o : Option Sender) → update m q o q ≡ o
unfolding update
update_self m q o = ground arith
