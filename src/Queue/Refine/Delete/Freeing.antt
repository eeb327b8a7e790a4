-- ===== src/Queue/Refine/Delete/Freeing.antt =====
-- delete_integer_targets_q() of lab2/Queue.c against that of lab3/Queue.c: the same nodes leave the
-- queue, and their numbers are freed.
use cosc_60_computer_network.Prelude.{
  ℕ, zero, suc, ◌≡◌, ◌<◌, length, ap, ◌∙◌, refl, Bool, true, false, Option, none, some, [], ◌∷◌,
  ◌==◌, ◌||◌, ◌&&◌, if◌then◌else◌, inl, inr, Bool-cases, arith,
}
use cosc_60_computer_network.Queue.Memory.{
  Ptr, null, Item, Heap, node, update, Points, not_null, load-some,
}
use cosc_60_computer_network.Queue.Segment.{Cells, Chain, nil, cons, has, last_or, frame-update}
use cosc_60_computer_network.Queue.{
  Queue, queue, Pass, drop_node, delete_loop, delete_integer_targets_q,
}
use cosc_60_computer_network.Queue.Freeing.{
  Ints, unset, deref, free_item, free_match, sweep, sweep_loop, free_integer_targets_q,
}
use cosc_60_computer_network.Queue.Ends.{Ends, ends}
use cosc_60_computer_network.Queue.Refine.{Holds, without}
use cosc_60_computer_network.Queue.Refine.Delete.{
  drop_inner, drop_head, SweptFrom, delete_integer_targets_q-without,
}

abbrev pub holds_item : Item → Cells → Bool
holds_item v [] = false
holds_item v ((_, w) ∷ xs) = (v == w) || holds_item v xs

-- Every item of the nodes points to a number of its own.
abbrev pub Owns : (Item → ℕ) → Ints → Cells → Type 0
Owns number_at m [] = Unit
Owns number_at m ((_, v) ∷ xs) =
    (m v ≡ some (number_at v)) × (holds_item v xs ≡ false) × Owns number_at m xs

pub Owns-unset :
    (number_at : Item → ℕ) (m : Ints) (v : Item) (xs : Cells)
    → holds_item v xs ≡ false
    → Owns number_at m xs
    → Owns number_at (unset v m) xs
unfolding unset
Owns-unset number_at m v [] out o = tt
Owns-unset number_at m v ((_, w) ∷ xs) out (at, apart, o) =
    (ground arith, apart, Owns-unset number_at m v xs (ground arith) o)

module _ (m : Ints) {v : Item} {k : ℕ} (own : m v ≡ some k) (h : Heap) where
  deref-some : deref v m h ≡ some (k, h)
  unfolding deref
  deref-some = ap (λ o. elim o [ none ↦ none | some n ↦ some (n, h) ]) own

  free_item-some : free_item v m h ≡ some (unset v m, h)
  unfolding free_item
  free_item-some = ap (λ o. elim o [ none ↦ none | some n ↦ some (unset v m, h) ]) own

abbrev attach : Ints → Option (Queue × Heap) → Option ((Queue × Ints) × Heap)
attach m none = none
attach m (some (q, h)) = some ((q, m), h)

module _ (number_at : Item → ℕ) (target : ℕ) where
  abbrev pub without_numbers : Cells → Ints → Ints
  without_numbers [] m = m
  without_numbers ((_, v) ∷ xs) m =
      without_numbers xs (if number_at v == target then unset v m else m)

  module _ (q : Queue) (last cur behind : Ptr) {v : Item} (m : Ints) (h : Heap)
      (own : m v ≡ some (number_at v)) where
    sweep-hit :
        {g : Heap} {pass : Pass}
        → (number_at v == target) ≡ true
        → drop_node q last cur behind h ≡ some (pass, g)
        → sweep target q last cur (node v behind) m h ≡ some ((pass, unset v m), g)
    unfolding sweep free_match
    sweep-hit hit e = rw (deref-some m own h, hit, free_item-some m own h, e) refl

    sweep-miss :
        (number_at v == target) ≡ false
        → sweep target q last cur (node v behind) m h ≡ some (((q, cur, behind), m), h)
    unfolding sweep
    sweep-miss miss = rw (deref-some m own h, miss) refl

  -- The loop behind a node `prev` that stays.
  sweep-inner :
      (fuel : ℕ) {h : Heap} (hd : Ptr) {prev cur tl : Ptr} {v : Item} {xs : Cells} (m : Ints)
      → Points h prev v cur
      → has prev xs ≡ false
      → Chain h cur xs
      → has hd xs ≡ false
      → tl ≡ last_or prev xs
      → Owns number_at m xs
      → sweep_loop target (queue hd tl) m fuel prev cur h
        ≡ attach (without_numbers xs m) (delete_loop number_at target (queue hd tl) fuel prev cur h)
  unfolding sweep_loop delete_loop update
  sweep-inner zero hd m at out c oh el o = refl
  sweep-inner (suc fuel) hd m at out nil oh el o = refl
  sweep-inner (suc fuel) {h} hd {prev} {cur} {tl} {v} m at out (cons {q} {v = w} {xs} at' out' c) oh
        el (own, apart, o) =
      elim (Bool-cases (number_at w == target)) [
        | inl hit ↦
            let (tl', el', e) =
              drop_inner number_at target {hd = hd} at out at' out' c (ground arith) el in
            let at1 : Points (update (update h prev (some (node v q))) cur none) prev v q = record {
              ne_null = at.ne_null;
              holds = ground arith;
            } in
            rw
              (
                not_null at',
                load-some at',
                sweep-hit (queue hd tl) prev cur q m h own hit e,
                hit,
                e,
              )
              (sweep-inner fuel hd (unset w m) at1 (ground arith)
                (frame-update cur none (frame-update prev (some (node v q)) c (ground arith)) out')
                (ground arith) el' (Owns-unset number_at m w xs apart o))
        | inr miss ↦
            rw (not_null at', load-some at', sweep-miss (queue hd tl) prev cur q m h own miss, miss)
              (sweep-inner fuel hd m at' out' c (ground arith) el o)
      ]

  sweep-Chain :
      (fuel : ℕ) {h : Heap} {p : Ptr} {xs : Cells} (garbage t : Ptr) (m : Ints)
      → Chain h p xs
      → t ≡ last_or null xs
      → Owns number_at m xs
      → sweep_loop target (queue p t) m fuel garbage p h
        ≡ attach (without_numbers xs m) (delete_loop number_at target (queue p t) fuel garbage p h)
  unfolding sweep_loop delete_loop update
  sweep-Chain zero garbage t m c el o = refl
  sweep-Chain (suc fuel) garbage t m nil el o = refl
  sweep-Chain (suc fuel) {h} garbage t m (cons {p} {q} {v = w} {xs} at out c) el (own, apart, o) =
      elim (Bool-cases (number_at w == target)) [
        | inl hit ↦
            let (t', el', e) = drop_head number_at target garbage t at out c el in
            rw (not_null at, load-some at, sweep-hit (queue p t) garbage p q m h own hit e, hit, e)
              (sweep-Chain fuel garbage t' (unset w m) (frame-update p none c out) el'
                (Owns-unset number_at m w xs apart o))
        | inr miss ↦
            rw (not_null at, load-some at, sweep-miss (queue p t) garbage p q m h own miss, miss)
              (sweep-inner fuel p m at out c out el o)
      ]

  free_integer_targets_q-attach :
      {h : Heap} {q : Queue} {xs : Cells} (garbage : Ptr) (fuel : ℕ) (m : Ints)
      → Holds h q xs
      → Owns number_at m xs
      → free_integer_targets_q garbage target fuel q m h
        ≡ attach (without_numbers xs m) (delete_integer_targets_q garbage number_at target fuel q h)
  unfolding free_integer_targets_q delete_integer_targets_q
  free_integer_targets_q-attach {q} garbage fuel m is o =
      sweep-Chain fuel garbage q.tail m is.chain is.tail_last o

  attach-Ends :
      {h : Heap} {xs : Cells} (m : Ints) {o : Option (Queue × Heap)}
      → Ends (SweptFrom number_at target h xs) o
      → Ends (λ r g. SweptFrom number_at target h xs r.0 g × (r.1 ≡ m)) (attach m o)
  attach-Ends m (ends p) = ends (p, refl)

  -- The code of lab2 ends as that of lab3 does, with the numbers of the matched nodes freed.
  pub free_integer_targets_q-SweptFrom :
      {h : Heap} {q : Queue} {xs : Cells} (garbage : Ptr) (fuel : ℕ) (m : Ints)
      → Holds h q xs
      → Owns number_at m xs
      → length xs < fuel
      → Ends
          (λ r g. SweptFrom number_at target h xs r.0 g × (r.1 ≡ without_numbers xs m))
          (free_integer_targets_q garbage target fuel q m h)
  free_integer_targets_q-SweptFrom {xs} garbage fuel m is o f =
      rw (free_integer_targets_q-attach garbage fuel m is o) (
        attach-Ends (without_numbers xs m)
          (delete_integer_targets_q-without number_at target garbage fuel is f))

  holds_item-without :
      (v : Item) (xs : Cells)
      → holds_item v xs ≡ false
      → holds_item v (without number_at target xs) ≡ false
  holds_item-without v [] out = refl
  holds_item-without v ((p, w) ∷ xs) out = ground (arith, holds_item-without v xs)

  -- The numbers that are freed are those of the matched nodes.
  pub without_numbers_at :
      (xs : Cells) (m : Ints) (w : Item)
      → without_numbers xs m w ≡ (if holds_item w xs && (number_at w == target) then none else m w)
  unfolding unset
  without_numbers_at [] m w = refl
  without_numbers_at ((p, v) ∷ xs) m w = elim (Bool-cases (number_at v == target)) [
    | inl hit ↦
        let same : (w == v) ≡ true → (number_at w == target) ≡ true =
          λ h. (let wv : w ≡ v = ground arith in rw wv hit) in
        rw hit (ground (arith, same, without_numbers_at xs (unset v m) w))
    | inr miss ↦
        let other : (w == v) ≡ true → (number_at w == target) ≡ false =
          λ h. (let wv : w ≡ v = ground arith in rw wv miss) in
        rw miss (ground (arith, other, without_numbers_at xs m w))
  ]

  pub Owns-without :
      (xs : Cells) (m : Ints)
      → Owns number_at m xs
      → Owns number_at (without_numbers xs m) (without number_at target xs)
  Owns-without [] m o = tt
  Owns-without ((p, v) ∷ xs) m (own, apart, o) = elim (Bool-cases (number_at v == target)) [
    | inl hit ↦ rw hit (Owns-without xs (unset v m) (Owns-unset number_at m v xs apart o))
    | inr miss ↦ rw miss (
      (without_numbers_at xs m v ∙ (let out = apart in ground arith)),
      holds_item-without v xs apart,
      Owns-without xs m o,
    )
  ]
