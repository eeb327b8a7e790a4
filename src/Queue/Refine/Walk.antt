-- ===== src/Queue/Refine/Walk.antt =====
-- iterate_q(), get_item_q() and peek_q() read the items in order and change nothing.
use cosc_60_computer_network.Prelude.{
  ℕ, zero, suc, ◌<◌, ◌≡◌, refl, Bool, some, List, [], ◌∷◌, inl, inr, Bool-cases, arith, length,
}
use cosc_60_computer_network.Queue.Memory.{Ptr, null, Item, Heap, not_null, load-some}
use cosc_60_computer_network.Queue.Segment.{Cells, Chain, nil, cons}
use cosc_60_computer_network.Queue.{
  Queue, iterate_loop, iterate_q, get_item_loop, get_item_q, peek_q,
}
use cosc_60_computer_network.Queue.Refine.{Holds, items, find_item}

-- What visiting the items of a list in order leaves.
abbrev pub visit_all : {S : Type 0} → (Item → S → S) → List Item → S → S
visit_all visit [] s = s
visit_all visit (v ∷ vs) s = visit_all visit vs (visit v s)

iterate_loop-visit_all :
    {S : Type 0} {h : Heap} {p : Ptr} {xs : Cells} (visit : Item → S → S) (fuel : ℕ) (s : S)
    → Chain h p xs
    → length xs < fuel
    → iterate_loop visit fuel p s h ≡ some (visit_all visit (items xs) s, h)
unfolding iterate_loop
iterate_loop-visit_all visit zero s c f = absurd (omega arith)
iterate_loop-visit_all visit (suc fuel) s nil f = refl
iterate_loop-visit_all visit (suc fuel) s (cons {v} at out c) f =
    rw (not_null at, load-some at) (iterate_loop-visit_all visit fuel (visit v s) c (omega arith))

-- With more fuel than there are nodes, iterate_q() visits every item once, from the head on, and
-- leaves the memory as it is.
pub iterate_q-visit_all :
    {S : Type 0} {h : Heap} {q : Queue} {xs : Cells} (visit : Item → S → S) (fuel : ℕ) (s : S)
    → Holds h q xs
    → length xs < fuel
    → iterate_q visit fuel q s h ≡ some (visit_all visit (items xs) s, h)
unfolding iterate_q
iterate_q-visit_all visit fuel s is f = iterate_loop-visit_all visit fuel s is.chain f

get_item_loop-find_item :
    {h : Heap} {p : Ptr} {xs : Cells} (matcher : Item → Bool) (fuel : ℕ)
    → Chain h p xs
    → length xs < fuel
    → get_item_loop matcher fuel p h ≡ some (find_item matcher xs, h)
unfolding get_item_loop
get_item_loop-find_item matcher zero c f = absurd (omega arith)
get_item_loop-find_item matcher (suc fuel) nil f = refl
get_item_loop-find_item matcher (suc fuel) (cons {v} at out c) f =
    rw (not_null at, load-some at)
      (elim (Bool-cases (matcher v)) [
        | inl hit ↦ rw hit
        | inr miss ↦ rw miss (get_item_loop-find_item matcher fuel c (omega arith))
      ])

-- With more fuel than there are nodes, get_item_q() returns the first item that matches, or NULL,
-- and leaves the memory as it is.
pub get_item_q-find_item :
    {h : Heap} {q : Queue} {xs : Cells} (matcher : Item → Bool) (fuel : ℕ)
    → Holds h q xs
    → length xs < fuel
    → get_item_q matcher fuel q h ≡ some (find_item matcher xs, h)
unfolding get_item_q
get_item_q-find_item matcher fuel is f = get_item_loop-find_item matcher fuel is.chain f

-- The first item, or NULL.
abbrev pub first_item : Cells → Item
first_item [] = null
first_item ((_, v) ∷ _) = v

peek-Chain :
    {h : Heap} {p : Ptr} {xs : Cells} (t : Ptr)
    → Chain h p xs
    → peek_q (record { head = p; tail = t }) h ≡ some (first_item xs, h)
unfolding peek_q
peek-Chain t nil = refl
peek-Chain t (cons at out c) = rw (not_null at, load-some at)

-- peek_q() returns the first item, or NULL of an empty queue, and leaves the memory as it is.
pub peek_q-first_item :
    {h : Heap} {q : Queue} {xs : Cells} → Holds h q xs → peek_q q h ≡ some (first_item xs, h)
peek_q-first_item {q} is = peek-Chain q.tail is.chain
