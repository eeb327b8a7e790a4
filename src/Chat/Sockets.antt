-- ===== src/Chat/Sockets.antt =====
-- The server's list of sockets against the nodes of lab2/Queue.c and the numbers they point to.
use cosc_60_computer_network.Prelude.{
  ℕ, ◌≡◌, ◌<◌, ◌&&◌, ◌∙◌, none, if◌then◌else◌, length, refl, ap, inl, inr, Bool-cases, List, [],
  ◌∷◌, ◌==◌,
}
use cosc_60_computer_network.Queue.Memory.{Ptr, Item, Heap}
use cosc_60_computer_network.Queue.Segment.{Cells, SameOutside}
use cosc_60_computer_network.Queue.Ends
use cosc_60_computer_network.Queue.Ends.{Ends}
use cosc_60_computer_network.Queue.{Queue}
use cosc_60_computer_network.Queue.Freeing.{Ints, free_integer_targets_q}
use cosc_60_computer_network.Queue.Refine.{Holds, without}
use cosc_60_computer_network.Queue.Refine.Remove.{FreedOnly}
use cosc_60_computer_network.Queue.Refine.Delete.Freeing.{
  holds_item, Owns, Owns-without, free_integer_targets_q-SweptFrom, without_numbers_at,
}
use cosc_60_computer_network.Chat.Server.{delete_integer_targets}

-- The numbers that the items of the nodes point to.
abbrev pub numbers : (Item → ℕ) → Cells → List ℕ
numbers number_at [] = []
numbers number_at ((p, v) ∷ xs) = number_at v ∷ numbers number_at xs

-- What is left of the list is what the nodes that are left hold.
numbers-without :
    (number_at : Item → ℕ) (target : ℕ) (xs : Cells)
    → numbers number_at (without number_at target xs)
      ≡ delete_integer_targets target (numbers number_at xs)
unfolding delete_integer_targets
numbers-without number_at target [] = refl
numbers-without number_at target ((p, v) ∷ xs) =
    let ih = numbers-without number_at target xs in
    elim (Bool-cases (number_at v == target)) [
      | inl e ↦ rw e ih
      | inr e ↦ rw e (ap (λ l. number_at v ∷ l) ih)
    ]

-- What delete_integer_targets_q() leaves of a queue that held `xs`, and of the numbers `m`.
pub record Removes (number_at : Item → ℕ) (target : ℕ) (h : Heap) (xs : Cells) (m : Ints)
    (r : Queue × Ints) (g : Heap) : Type 0 where
  pub left : Cells
  pub holds : Holds g r.0 left
  pub owns : Owns number_at r.1 left
  pub numbers_left : numbers number_at left ≡ delete_integer_targets target (numbers number_at xs)
  pub freed : FreedOnly xs left g
  pub same : SameOutside xs h g
  pub ints : (v : Item) → r.1 v ≡ (if holds_item v xs && (number_at v == target) then none else m v)

-- On a queue whose items point to a number each, with more fuel than there are nodes,
-- delete_integer_targets_q() comes to its end without a fault, whatever `lastNode` holds at first:
-- the queue is well-formed and holds, in order, the numbers that the server's list keeps, and
-- nothing is freed but the other nodes and their numbers.
pub free_integer_targets_q-Removes :
    (number_at : Item → ℕ) (target : ℕ) {h : Heap} {q : Queue} {xs : Cells} (garbage : Ptr)
    (fuel : ℕ) (m : Ints)
    → Holds h q xs
    → Owns number_at m xs
    → length xs < fuel
    → Ends (Removes number_at target h xs m) (free_integer_targets_q garbage target fuel q m h)
free_integer_targets_q-Removes number_at target {xs} garbage fuel m is o f =
    Ends.weaken (free_integer_targets_q-SweptFrom number_at target garbage fuel m is o f)
      λ r g (swept, e). record {
        left = without number_at target xs;
        holds = swept.rest;
        owns = rw e (Owns-without number_at target xs m o);
        numbers_left = numbers-without number_at target xs;
        freed = swept.freed;
        same = swept.same;
        ints = λ v. ap (λ k. k v) e ∙ without_numbers_at number_at target xs m v;
      }
