-- ===== src/Queue/Refine/Delete.antt =====
-- delete_integer_targets_q(): every node whose number is the target leaves the queue.
pub mod Freeing
use cosc_60_computer_network.Prelude.{
  ℕ, zero, suc, ◌<◌, ◌≡◌, ◌≢◌, refl, true, false, none, some, [], ◌∷◌, ◌==◌, inl, inr, Bool-cases,
  arith, length,
}
use cosc_60_computer_network.Queue.Memory.{
  Ptr, null, Item, Heap, node, update, Points, load, not_null, load-some, free-some,
  set_node_behind-some,
}
use cosc_60_computer_network.Queue.Ends
use cosc_60_computer_network.Queue.Ends.{Ends, ends}
use cosc_60_computer_network.Queue.Segment.{
  Cells, Chain, nil, cons, has, last_or, last_or-has, SameOutside, frame-update,
}
use cosc_60_computer_network.Queue.{Queue, queue, drop_node, delete_loop, delete_integer_targets_q}
use cosc_60_computer_network.Queue.Refine.{Holds, without}
use cosc_60_computer_network.Queue.Refine.Remove.{FreedOnly}

module _ (number_at : Item → ℕ) (target : ℕ) where
  has-without :
      (a : Ptr) (xs : Cells) → has a xs ≡ false → has a (without number_at target xs) ≡ false
  has-without a [] o = refl
  has-without a ((p, v) ∷ xs) o = ground (arith, has-without a xs)

  -- The loop behind a node `prev` that stays.
  record Swept (h : Heap) (hd prev : Ptr) (v : Item) (xs : Cells) (q : Queue) (g : Heap)
      : Type 0 where
    head_kept : q.head ≡ hd
    chain : Chain g prev ((prev, v) ∷ without number_at target xs)
    tail_last : q.tail ≡ last_or prev (without number_at target xs)
    same : SameOutside ((prev, v) ∷ xs) h g
    freed : FreedOnly xs (without number_at target xs) g

  -- A match behind `prev`: both branches of the code leave the same memory, and the loop goes on
  -- at the next node with the same `lastNode`.
  drop_inner :
      {h : Heap} {hd prev cur q tl : Ptr} {v w : Item} {xs : Cells}
      → Points h prev v cur
      → has prev ((cur, w) ∷ xs) ≡ false
      → Points h cur w q
      → has cur xs ≡ false
      → Chain h q xs
      → hd ≢ cur
      → tl ≡ last_or cur xs
      → (tl' : Ptr) × (tl' ≡ last_or prev xs)
        × (drop_node (queue hd tl) prev cur q h
            ≡ some ((queue hd tl', prev, q), update (update h prev (some (node v q))) cur none))
  unfolding drop_node update load
  drop_inner {h} {hd} {prev} {cur} {tl} {v} {w} at out at' out' nil nh el =
      let h0 : (hd == cur) ≡ false = ground arith in
      let t0 : (cur == cur) ≡ true = ground arith in
      let at1 : Points (update h prev (some (node v null))) cur w null = record {
        ne_null = at'.ne_null;
        holds = ground arith;
      } in
      (prev, refl, rw (el, h0, t0, set_node_behind-some at null, free-some at1))
  drop_inner {h} {hd} {prev} {cur} {q} {tl} {v} {w} at out at' out'
        (cons {p} {v = u} {xs} at2 out2 c) nh el =
      let h0 : (hd == cur) ≡ false = ground arith in
      let t0 : (tl == cur) ≡ false = ground (arith, last_or-has p u xs cur) in
      let at1 : Points (update h prev (some (node v q))) cur w q = record {
        ne_null = at'.ne_null;
        holds = ground arith;
      } in
      let at3 : Points (update (update h prev (some (node v q))) cur none) prev v q = record {
        ne_null = at.ne_null;
        holds = ground arith;
      } in
      (tl, el, rw (h0, t0, set_node_behind-some at q, free-some at1, load-some at3))

  delete_loop-Swept :
      (fuel : ℕ) {h : Heap} {hd prev cur tl : Ptr} {v : Item} {xs : Cells}
      → Points h prev v cur
      → has prev xs ≡ false
      → Chain h cur xs
      → has hd xs ≡ false
      → tl ≡ last_or prev xs
      → length xs < fuel
      → Ends (Swept h hd prev v xs) (delete_loop number_at target (queue hd tl) fuel prev cur h)
  unfolding delete_loop update
  delete_loop-Swept zero at out c oh el f = absurd (omega arith)
  delete_loop-Swept (suc fuel) at out nil oh el f = ends (record {
    head_kept = refl;
    chain = cons at out nil;
    tail_last = el;
    same = λ a o. refl;
    freed = λ a i. cc;
  })
  delete_loop-Swept (suc fuel) {h} {hd} {prev} {cur} {tl} {v} at out
        (cons {q} {v = w} {xs} at' out' c) oh el f =
      rw (not_null at', load-some at')
        (elim (Bool-cases (number_at w == target)) [
          | inl hit ↦
              let (tl', el', e) = drop_inner {hd = hd} at out at' out' c (ground arith) el in
              let out1 : has prev xs ≡ false = ground arith in
              let at1 : Points (update (update h prev (some (node v q))) cur none) prev v q =
                record { ne_null = at.ne_null; holds = ground arith } in
              rw (hit, e)
                (Ends.weaken
                  (delete_loop-Swept fuel at1 out1
                    (frame-update cur none (frame-update prev (some (node v q)) c out1) out')
                    (ground arith) el' (omega arith))
                  λ r g d. record {
                    head_kept = d.head_kept;
                    chain = rw hit d.chain;
                    tail_last = rw hit d.tail_last;
                    same = λ a o. ground (arith, d.same a);
                    freed = λ a i o. (let o' = rw hit at o in ground (arith, d.freed a, d.same a));
                  })
          | inr miss ↦ rw miss (
              Ends.weaken (delete_loop-Swept fuel at' out' c (ground arith) el (omega arith))
                λ r g d. record {
                  head_kept = d.head_kept;
                  chain = rw miss (
                      cons (record { ne_null = at.ne_null; holds = ground (arith, d.same prev) })
                        (ground (arith, has-without prev xs)) d.chain);
                  tail_last = rw miss d.tail_last;
                  same = λ a o. d.same a (ground arith);
                  freed = λ a i o. ground (arith, d.freed a);
                })
        ])

  -- What delete_integer_targets_q() leaves of a queue that held `xs`.
  pub record SweptFrom (h : Heap) (xs : Cells) (q : Queue) (g : Heap) : Type 0 where
    pub rest : Holds g q (without number_at target xs)
    pub same : SameOutside xs h g
    pub freed : FreedOnly xs (without number_at target xs) g

  -- While the head matches, the code does not read `lastNode`.
  drop_head :
      {h : Heap} {p q : Ptr} {v : Item} {xs : Cells} (garbage t : Ptr)
      → Points h p v q
      → has p xs ≡ false
      → Chain h q xs
      → t ≡ last_or p xs
      → (t' : Ptr) × (t' ≡ last_or null xs)
        × (drop_node (queue p t) garbage p q h ≡ some ((queue q t', garbage, q), update h p none))
  unfolding drop_node
  drop_head {p} garbage t at out nil el =
      let pp : (p == p) ≡ true = ground arith in (null, refl, rw (el, pp, free-some at))
  drop_head {p} garbage t at out (cons {p = r} {v = u} {xs} at' out' c) el =
      let pp : (p == p) ≡ true = ground arith in
      let tp : (t == p) ≡ false = ground (arith, last_or-has r u xs p) in
      (t, el, rw (tp, pp, free-some at))

  delete-Chain :
      (fuel : ℕ) {h : Heap} {p : Ptr} {xs : Cells} (garbage t : Ptr)
      → Chain h p xs
      → t ≡ last_or null xs
      → length xs < fuel
      → Ends (SweptFrom h xs) (delete_loop number_at target (queue p t) fuel garbage p h)
  unfolding delete_loop update
  delete-Chain zero garbage t c el f = absurd (omega arith)
  delete-Chain (suc fuel) garbage t nil el f = ends (record {
    rest = record { chain = nil; tail_last = el };
    same = λ a o. refl;
    freed = λ a i. cc;
  })
  delete-Chain (suc fuel) {h} garbage t (cons {p} {q} {v = w} {xs} at out c) el f =
      rw (not_null at, load-some at)
        (elim (Bool-cases (number_at w == target)) [
          | inl hit ↦
              let (t', el', e) = drop_head garbage t at out c el in
              rw (hit, e)
                (Ends.weaken
                  (delete-Chain fuel garbage t' (frame-update p none c out) el' (omega arith))
                  λ r g d. record {
                    rest = rw hit d.rest;
                    same = λ a o. ground (arith, d.same a);
                    freed = λ a i o. (let o' = rw hit at o in ground (arith, d.freed a, d.same a));
                  })
          | inr miss ↦ rw miss (
              Ends.weaken (delete_loop-Swept fuel at out c out el (omega arith)) λ r g d. record {
                rest = rw miss (record { chain = rw d.head_kept d.chain; tail_last = d.tail_last });
                same = λ a o. d.same a o;
                freed = λ a i o. (let o' = rw miss at o in ground (arith, d.freed a));
              })
        ])

  -- With more fuel than there are nodes, delete_integer_targets_q() comes to its end without a
  -- fault, whatever `lastNode` holds at first: every node whose number is the target is unlinked
  -- and freed and no other, the rest make a well-formed queue in their order, and the memory
  -- outside the queue is as it was.
  pub delete_integer_targets_q-without :
      {h : Heap} {q : Queue} {xs : Cells} (garbage : Ptr) (fuel : ℕ)
      → Holds h q xs
      → length xs < fuel
      → Ends (SweptFrom h xs) (delete_integer_targets_q garbage number_at target fuel q h)
  unfolding delete_integer_targets_q
  delete_integer_targets_q-without {q} garbage fuel is f =
      delete-Chain fuel garbage q.tail is.chain is.tail_last f
