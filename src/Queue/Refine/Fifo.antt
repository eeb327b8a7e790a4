-- ===== src/Queue/Refine/Fifo.antt =====
-- enq_q(), deq_q() and delete_q(): the queue is first in, first out.
use cosc_60_computer_network.Prelude.{
  ℕ, zero, suc, ◌<◌, ◌≡◌, ◌≢◌, refl, sym, Bool, true, false, Option, none, some, [], ◌∷◌, ◌++◌,
  ◌==◌, if◌then◌else◌, arith, length,
}
use cosc_60_computer_network.Queue.Memory.{
  Ptr, null, Item, Heap, node, update, Points, not_null, load-some, free-some, set_node_behind-some,
}
use cosc_60_computer_network.Queue.Ends
use cosc_60_computer_network.Queue.Ends.{Ends, ends}
use cosc_60_computer_network.Queue.Segment.{
  Cells, Chain, nil, cons, has, last_or, last_or-has, has-append, last_or-append, SameOutside,
  frame-update, fresh-outside, null_of_nil,
}
use cosc_60_computer_network.Queue.{
  Queue, queue, enq_q, link_node, deq_q, unlink_head, delete_q, make_q,
}
use cosc_60_computer_network.Queue.Refine.{Holds, items}

module _ {h g : Heap} {f : Ptr} {item : Item} (new : Points g f item null) where
  -- Linking `f` behind the last node puts it at the end of the chain.
  Chain-snoc :
      {p q : Ptr} {v : Item} {xs : Cells}
      → Points h p v q
      → has p xs ≡ false
      → Chain h q xs
      → has f ((p, v) ∷ xs) ≡ false
      → ((w : Item) → Points h (last_or p xs) w null → Points g (last_or p xs) w f)
      → ((a : Ptr) → has a ((p, v) ∷ xs) ≡ true → a ≢ last_or p xs → g a ≡ h a)
      → Chain g p ((p, v) ∷ (xs ++ ((f, item) ∷ [])))
  Chain-snoc {p} {v} at out nil apart linked same =
      cons (linked v at) (ground arith) (cons new refl nil)
  Chain-snoc {p} {v} at out (cons {p = r} {v = w} {xs} at' out' c) apart linked same =
      cons (ground (arith, same p, last_or-has r w xs p))
        (ground (arith, has-append p xs ((f, item) ∷ [])))
        (Chain-snoc at' out' c (ground arith) linked (λ a i. same a (ground arith)))

-- The last node of a chain leads to NULL.
last-Points :
    {h : Heap} {p q : Ptr} {v : Item} {xs : Cells}
    → Points h p v q
    → Chain h q xs
    → (w : Item) × Points h (last_or p xs) w null
last-Points {v} at nil = (v, at)
last-Points at (cons at' out c) = last-Points at' c

-- What enq_q() leaves: one more item, at the end.
abbrev pub Enqueued : Heap → Ptr → Item → Cells → Bool × Option Queue → Heap → Type 0
Enqueued h f item xs (done, none) g = ⊥
Enqueued h f item xs (done, some q) g =
    (done ≡ true) × Holds g q (xs ++ ((f, item) ∷ [])) × SameOutside (xs ++ ((f, item) ∷ [])) h g

enq-Chain :
    {h : Heap} {p : Ptr} {xs : Cells} (t f : Ptr) (item : Item)
    → Chain h p xs
    → t ≡ last_or null xs
    → f ≢ null
    → h f ≡ none
    → Ends (Enqueued h f item xs) (enq_q f (some (queue p t)) item h)
unfolding enq_q link_node update
enq-Chain t f item nil tl ne unused =
    let nn : (f == null) ≡ false = ground arith in
    rw nn
      (ends (refl, record { chain = cons (ground arith) refl nil; tail_last = refl }, ground arith))
enq-Chain {h} t f item (cons {p} {v} {xs} at out c) tl ne unused =
    let nn : (f == null) ≡ false = ground arith in
    let apart = fresh-outside f (cons at out c) unused in
    let (w, lp) = last-Points at c in
    let l : Ptr = last_or p xs in
    let h1 : Heap = update h f (some (node item null)) in
    let isl : has l ((p, v) ∷ xs) ≡ true = last_or-has p v xs null in
    let lf : l ≢ f = ground arith in
    let lp1 : Points h1 l w null = record { ne_null = lp.ne_null; holds = ground arith } in
    let g : Heap = update h1 l (some (node w f)) in
    let new : Points g f item null = record { ne_null = ne; holds = ground arith } in
    let lnk : (u : Item) → Points h l u null → Points g l u f =
      λ u pu. record { ne_null = pu.ne_null; holds = ground (arith, pu.holds, lp.holds) } in
    rw (nn, not_null at, tl, set_node_behind-some lp1 f)
      (ends (
        refl,
        record {
          chain = Chain-snoc new at out c apart lnk (λ a i n. ground arith);
          tail_last = sym (last_or-append p f item xs);
        },
        λ a o. ground (arith, has-append a xs ((f, item) ∷ [])),
      ))

-- enq_q() on a queue that holds `xs`, with an unused node from malloc(), ends without a fault,
-- puts the item at the end and leaves all other memory as it was.
pub enq_q-append :
    {h : Heap} {q : Queue} {xs : Cells} (f : Ptr) (item : Item)
    → Holds h q xs
    → f ≢ null
    → h f ≡ none
    → Ends (Enqueued h f item xs) (enq_q f (some q) item h)
enq_q-append {q} f item is ne unused = enq-Chain q.tail f item is.chain is.tail_last ne unused

-- What deq_q() leaves of a queue that holds `(p, v) ∷ xs`.
abbrev pub Dequeued : Heap → Ptr → Item → Cells → Item × Queue → Heap → Type 0
Dequeued h p v xs (item, q) g = (item ≡ v) × Holds g q xs × (g ≡ update h p none)

deq-Chain :
    {h : Heap} {p q : Ptr} {v : Item} {xs : Cells} (t : Ptr)
    → Points h p v q
    → has p xs ≡ false
    → Chain h q xs
    → t ≡ last_or p xs
    → Ends (Dequeued h p v xs) (deq_q (queue p t) h)
unfolding deq_q unlink_head
deq-Chain {p} t at out nil tl =
    rw (not_null at, load-some at, free-some at)
      (ends (refl, record { chain = nil; tail_last = refl }, refl))
deq-Chain {p} t at out (cons at' out' c) tl =
    rw (not_null at, load-some at, free-some at, not_null at')
      (ends
        (refl, record { chain = frame-update p none (cons at' out' c) out; tail_last = tl }, refl))

deq-cell :
    {h : Heap} {p : Ptr} {c : Ptr × Item} {xs : Cells} (t : Ptr)
    → Chain h p (c ∷ xs)
    → t ≡ last_or c.0 xs
    → Ends (Dequeued h c.0 c.1 xs) (deq_q (queue p t) h)
deq-cell t (cons at out c) tl = deq-Chain t at out c tl

-- deq_q() on a queue that is not empty returns the first item, frees its node and no other, and
-- leaves the queue of the rest.
pub deq_q-cons :
    {h : Heap} {q : Queue} {p : Ptr} {v : Item} {xs : Cells}
    → Holds h q ((p, v) ∷ xs)
    → Ends (Dequeued h p v xs) (deq_q q h)
deq_q-cons {q} is = deq-cell q.tail is.chain is.tail_last

-- deq_q() of an empty queue returns NULL and changes nothing.
pub deq_q-empty : {h : Heap} {q : Queue} → Holds h q [] → deq_q q h ≡ some ((null, q), h)
unfolding deq_q
deq_q-empty is = rw (null_of_nil is.chain refl)

-- `g` is `h` less the nodes of `xs`.
abbrev pub Freed : Cells → Heap → Heap → Type 0
Freed xs h g = (a : Ptr) → g a ≡ (if has a xs then none else h a)

delete-Chain :
    (fuel : ℕ) {h : Heap} {p : Ptr} {xs : Cells} (t : Ptr)
    → Chain h p xs
    → t ≡ last_or null xs
    → length xs < fuel
    → Ends (λ vs g. (vs ≡ items xs) × Freed xs h g) (delete_q fuel (queue p t) h)
unfolding delete_q update
delete-Chain zero t c tl f = absurd (omega arith)
delete-Chain (suc fuel) t nil tl f = ends (refl, λ a. refl)
delete-Chain (suc fuel) t (cons {p} {v} {xs} at out c) tl f = rw (not_null at) (
    Ends.followed_by (deq-Chain t at out c tl) λ (item, q') g (got, is, freed).
      Ends.followed_by (delete-Chain fuel q'.tail is.chain is.tail_last (omega arith))
        λ vs g' (all, gone). ends (rw (got, all), λ a. ground (arith, gone a)))

-- With more fuel than there are nodes, delete_q() comes to its end, hands every item to
-- `itemdelete` in order, and frees the nodes of the queue and no others.
pub delete_q-items :
    {h : Heap} {q : Queue} {xs : Cells} (fuel : ℕ)
    → Holds h q xs
    → length xs < fuel
    → Ends (λ vs g. (vs ≡ items xs) × Freed xs h g) (delete_q fuel q h)
delete_q-items {q} fuel is f = delete-Chain fuel q.tail is.chain is.tail_last f

-- A queue that make_q() makes is empty, in any memory.
pub make_q-Holds : {h : Heap} (q : Queue) → make_q true ≡ some q → Holds h q []
unfolding make_q
make_q-Holds q e =
    let e' : q ≡ queue null null = cc in rw e' (record { chain = nil; tail_last = refl })
