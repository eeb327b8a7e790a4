-- ===== src/Queue/Refine.antt =====
-- The queue of lab3/Queue.c refines a list: what each function does to the nodes that a queue
-- holds, in order. The children prove it of the ends, of a walk, and of the removals.
pub mod Walk
pub mod Fifo
pub mod Remove
pub mod Delete
use cosc_60_computer_network.Prelude.{
  ℕ, Bool, Option, none, some, List, [], ◌∷◌, map, ◌==◌, if◌then◌else◌, not,
}
use cosc_60_computer_network.Queue.Memory.{Ptr, null, Item, Heap}
use cosc_60_computer_network.Queue.Segment.{Cells, IsQueue}
use cosc_60_computer_network.Queue.{Queue}

-- The `q_t` that a pointer leads to holds `xs`.
abbrev pub Holds : Heap → Queue → Cells → Type 0
Holds h q xs = IsQueue h q.head q.tail xs

abbrev pub items : Cells → List Item
items [] = []
items ((_, v) ∷ xs) = v ∷ items xs

-- The list operations that the queue's walks come to.
abbrev pub find_item : (Item → Bool) → Cells → Item
find_item matcher [] = null
find_item matcher ((_, v) ∷ xs) = if matcher v then v else find_item matcher xs

abbrev pub erase_first : (Item → Bool) → Cells → Cells
erase_first matcher [] = []
erase_first matcher ((p, v) ∷ xs) = if matcher v then xs else (p, v) ∷ erase_first matcher xs

abbrev pub without : (Item → ℕ) → ℕ → Cells → Cells
without number_at target [] = []
without number_at target ((p, v) ∷ xs) =
    let rest = without number_at target xs in if number_at v == target then rest else (p, v) ∷ rest
