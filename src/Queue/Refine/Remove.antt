-- ===== src/Queue/Refine/Remove.antt =====
-- pop_item_q(): the first match leaves the queue, wherever it stands.
use cosc_60_computer_network.Prelude.{
  ℕ, zero, suc, ◌<◌, ◌≡◌, ◌≢◌, refl, Bool, true, false, none, some, [], ◌∷◌, ◌==◌, inl, inr,
  Bool-cases, arith, length,
}
use cosc_60_computer_network.Queue.Memory.{
  Ptr, null, Item, Heap, node, update, Points, not_null, load-some, free-some, set_node_behind-some,
}
use cosc_60_computer_network.Queue.Ends
use cosc_60_computer_network.Queue.Ends.{Ends, ends}
use cosc_60_computer_network.Queue.Segment.{
  Cells, Chain, nil, cons, has, last_or, last_or-has, SameOutside, frame-update,
}
use cosc_60_computer_network.Queue.{Queue, queue, pop_node, pop_item_loop, pop_item_q}
use cosc_60_computer_network.Queue.Refine.{Holds, find_item, erase_first}

pub has-erase_first :
    (a : Ptr) (matcher : Item → Bool) (xs : Cells)
    → has a xs ≡ false
    → has a (erase_first matcher xs) ≡ false
has-erase_first a matcher [] o = refl
has-erase_first a matcher ((p, v) ∷ xs) o = ground (arith, has-erase_first a matcher xs)

-- What the removed node leaves: it is freed, and memory outside `xs` is as it was.
abbrev pub FreedOnly : Cells → Cells → Heap → Type 0
FreedOnly xs kept g = (a : Ptr) → has a xs ≡ true → has a kept ≡ false → g a ≡ none

-- The loop behind the node `prev`: it links the survivors behind `prev`.
record Popped (h : Heap) (hd prev : Ptr) (v : Item) (xs kept : Cells) (found : Item) (item : Item)
    (q : Queue) (g : Heap) : Type 0 where
  got : item ≡ found
  head_kept : q.head ≡ hd
  chain : Chain g prev ((prev, v) ∷ kept)
  tail_last : q.tail ≡ last_or prev kept
  same : SameOutside ((prev, v) ∷ xs) h g
  freed : FreedOnly xs kept g

module _ {h : Heap} (matcher : Item → Bool) (hd : Ptr) where
  -- The match is the last node.
  unlink_last :
      {prev cur : Ptr} {v w : Item}
      → Points h prev v cur
      → Points h cur w null
      → prev ≢ cur
      → hd ≢ cur
      → Ends
          (λ r g. Popped h hd prev v ((cur, w) ∷ []) [] w r.0 r.1 g)
          (pop_node (queue hd cur) prev cur (node w null) h)
  unfolding pop_node update
  unlink_last {prev} {cur} {v} {w} at at' ne nh =
      let h0 : (hd == cur) ≡ false = ground arith in
      let t0 : (cur == cur) ≡ true = ground arith in
      let at1 : Points (update h prev (some (node v null))) cur w null = record {
        ne_null = at'.ne_null;
        holds = ground arith;
      } in
      rw (h0, t0, set_node_behind-some at null, free-some at1)
        (ends (record {
          got = refl;
          head_kept = refl;
          chain = cons (record { ne_null = at.ne_null; holds = ground arith }) refl nil;
          tail_last = refl;
          same = λ a o. ground arith;
          freed = λ a i o. ground arith;
        }))

  -- The match stands between two nodes.
  unlink_inner :
      {prev cur q tl : Ptr} {v w : Item} {xs : Cells}
      → Points h prev v cur
      → has prev ((cur, w) ∷ xs) ≡ false
      → Points h cur w q
      → has cur xs ≡ false
      → Chain h q xs
      → hd ≢ cur
      → tl ≢ cur
      → tl ≡ last_or prev xs
      → Ends
          (λ r g. Popped h hd prev v ((cur, w) ∷ xs) xs w r.0 r.1 g)
          (pop_node (queue hd tl) prev cur (node w q) h)
  unfolding pop_node update
  unlink_inner {prev} {cur} {q} {tl} {v} {w} {xs} at out at' out' c nh nt el =
      let h0 : (hd == cur) ≡ false = ground arith in
      let t0 : (tl == cur) ≡ false = ground arith in
      let at1 : Points (update h prev (some (node v q))) cur w q = record {
        ne_null = at'.ne_null;
        holds = ground arith;
      } in
      let out1 : has prev xs ≡ false = ground arith in
      rw (h0, t0, set_node_behind-some at q, free-some at1)
        (ends (record {
          got = refl;
          head_kept = refl;
          chain =
              cons (record { ne_null = at.ne_null; holds = ground arith }) out1
                (frame-update cur none (frame-update prev (some (node v q)) c out1) out');
          tail_last = el;
          same = λ a o. ground arith;
          freed = λ a i o. ground arith;
        }))

  pop_node-Popped :
      {prev cur q tl : Ptr} {v w : Item} {xs : Cells}
      → Points h prev v cur
      → has prev ((cur, w) ∷ xs) ≡ false
      → Points h cur w q
      → has cur xs ≡ false
      → Chain h q xs
      → hd ≢ cur
      → tl ≡ last_or cur xs
      → Ends
          (λ r g. Popped h hd prev v ((cur, w) ∷ xs) xs w r.0 r.1 g)
          (pop_node (queue hd tl) prev cur (node w q) h)
  pop_node-Popped at out at' out' nil nh el = rw el (unlink_last at at' (ground arith) nh)
  pop_node-Popped {cur} at out at' out' (cons {p} {v} {xs} at2 out2 c) nh el =
      unlink_inner at out at' out' (cons at2 out2 c) nh (ground (arith, last_or-has p v xs cur)) el

  pop_item_loop-Popped :
      (fuel : ℕ) {prev cur tl : Ptr} {v : Item} {xs : Cells}
      → Points h prev v cur
      → has prev xs ≡ false
      → Chain h cur xs
      → has hd xs ≡ false
      → tl ≡ last_or prev xs
      → length xs < fuel
      → Ends
          (λ r g. Popped h hd prev v xs (erase_first matcher xs) (find_item matcher xs) r.0 r.1 g)
          (pop_item_loop matcher (queue hd tl) fuel prev cur h)
  unfolding pop_item_loop
  pop_item_loop-Popped zero at out c oh el f = absurd (omega arith)
  pop_item_loop-Popped (suc fuel) at out nil oh el f = ends (record {
    got = refl;
    head_kept = refl;
    chain = cons at out nil;
    tail_last = el;
    same = λ a o. refl;
    freed = λ a i o. cc;
  })
  pop_item_loop-Popped (suc fuel) {prev} {cur} {tl} {v} at out (cons {v = w} {xs} at' out' c) oh el
        f =
      rw (not_null at', load-some at')
        (elim (Bool-cases (matcher w)) [
          | inl hit ↦ rw hit (pop_node-Popped at out at' out' c (ground arith) el)
          | inr miss ↦ rw miss (
              Ends.weaken (pop_item_loop-Popped fuel at' out' c (ground arith) el (omega arith))
                λ r g p. record {
                  got = p.got;
                  head_kept = p.head_kept;
                  chain =
                      cons (record { ne_null = at.ne_null; holds = ground (arith, p.same prev) })
                        (ground (arith, has-erase_first prev matcher xs)) p.chain;
                  tail_last = p.tail_last;
                  same = λ a o. p.same a (ground arith);
                  freed = λ a i o. ground (arith, p.freed a);
                })
        ])

-- What pop_item_q() leaves of a queue that held `xs`.
pub record PoppedFrom (h : Heap) (matcher : Item → Bool) (xs : Cells) (item : Item) (q : Queue)
    (g : Heap) : Type 0 where
  pub got : item ≡ find_item matcher xs
  pub rest : Holds g q (erase_first matcher xs)
  pub same : SameOutside xs h g
  pub freed : FreedOnly xs (erase_first matcher xs) g

pop_head-PoppedFrom :
    {h : Heap} {p q : Ptr} {w : Item} {xs : Cells} (matcher : Item → Bool) (garbage t : Ptr)
    → matcher w ≡ true
    → Points h p w q
    → has p xs ≡ false
    → Chain h q xs
    → t ≡ last_or p xs
    → Ends
        (λ r g. PoppedFrom h matcher ((p, w) ∷ xs) r.0 r.1 g)
        (pop_node (queue p t) garbage p (node w q) h)
unfolding pop_node update
pop_head-PoppedFrom {p} matcher garbage t hit at out nil el =
    let pp : (p == p) ≡ true = ground arith in
    rw (el, pp, free-some at)
      (ends (record {
        got = rw hit;
        rest = rw hit (record { chain = nil; tail_last = refl });
        same = λ a o. ground arith;
        freed = λ a i o. ground arith;
      }))
pop_head-PoppedFrom {p} matcher garbage t hit at out (cons {p = r} {v} {xs} at' out' c) el =
    let pp : (p == p) ≡ true = ground arith in
    let tp : (t == p) ≡ false = ground (arith, last_or-has r v xs p) in
    rw (tp, pp, free-some at)
      (ends (record {
        got = rw hit;
        rest =
            rw hit (record { chain = frame-update p none (cons at' out' c) out; tail_last = el });
        same = λ a o. ground arith;
        freed = λ a i o. (let o' = rw hit at o in ground arith);
      }))

pop-Chain :
    {h : Heap} {p : Ptr} {xs : Cells} (matcher : Item → Bool) (garbage t : Ptr) (fuel : ℕ)
    → Chain h p xs
    → t ≡ last_or null xs
    → length xs < fuel
    → Ends
        (λ r g. PoppedFrom h matcher xs r.0 r.1 g)
        (pop_item_loop matcher (queue p t) fuel garbage p h)
unfolding pop_item_loop pop_node update
pop-Chain matcher garbage t zero c el f = absurd (omega arith)
pop-Chain matcher garbage t (suc fuel) nil el f = ends (record {
  got = refl;
  rest = record { chain = nil; tail_last = el };
  same = λ a o. refl;
  freed = λ a i. cc;
})
pop-Chain {h} matcher garbage t (suc fuel) (cons {p} {q} {v = w} {xs} at out c) el f =
    rw (not_null at, load-some at)
      (elim (Bool-cases (matcher w)) [
        | inl hit ↦ rw hit (pop_head-PoppedFrom matcher garbage t hit at out c el)
        | inr miss ↦ rw miss (
            Ends.weaken (pop_item_loop-Popped matcher p fuel at out c out el (omega arith)) λ r g d.
              record {
                got = rw miss d.got;
                rest = rw miss (record { chain = rw d.head_kept d.chain; tail_last = d.tail_last });
                same = λ a o. d.same a o;
                freed = λ a i o. ground (arith, d.freed a);
              })
      ])

-- With more fuel than there are nodes, pop_item_q() comes to its end without a fault, whatever
-- `lastNode` holds at first: the first node whose item matches is unlinked and freed and its item
-- returned, or NULL if none matches; the other nodes make a well-formed queue in their order, and
-- the memory outside the queue is as it was.
pub pop_item_q-erase_first :
    {h : Heap} {q : Queue} {xs : Cells} (matcher : Item → Bool) (garbage : Ptr) (fuel : ℕ)
    → Holds h q xs
    → length xs < fuel
    → Ends (λ r g. PoppedFrom h matcher xs r.0 r.1 g) (pop_item_q garbage matcher fuel q h)
unfolding pop_item_q
pop_item_q-erase_first {q} matcher garbage fuel is f =
    pop-Chain matcher garbage q.tail fuel is.chain is.tail_last f
