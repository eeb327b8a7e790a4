-- ===== src/Tests/Queues.antt =====
-- lab3/Queue.c and lab2/Queue.c on a memory with two nodes.
use cosc_60_computer_network.Prelude.{refl, Bool, none, some, [], ◌∷◌, ◌==◌, if◌then◌else◌, arith}
use cosc_60_computer_network.Queue.{queue, pop_item_q}
use cosc_60_computer_network.Queue.Memory.{Item, Heap, node}
use cosc_60_computer_network.Queue.Ends.{Ends}
use cosc_60_computer_network.Queue.Segment.{Cells, cons, nil}
use cosc_60_computer_network.Queue.Refine.{Holds}
use cosc_60_computer_network.Queue.Freeing.{Ints, free_integer_targets_q}
use cosc_60_computer_network.Chat.Sockets.{Removes, free_integer_targets_q-Removes}
use cosc_60_computer_network.Queue.Refine.Remove.{PoppedFrom, pop_item_q-erase_first}

abbrev two : Heap
two a = if a == 1 then some (node 5 2) else if a == 2 then some (node 6 0) else none

abbrev two_cells : Cells
two_cells = (1, 5) ∷ (2, 6) ∷ []

two_q : Holds two (queue 1 2) two_cells
two_q = record {
  chain =
      cons (record { ne_null = omega arith; holds = refl }) refl
        (cons (record { ne_null = omega arith; holds = refl }) refl nil);
  tail_last = refl;
}

abbrev is_six : Item → Bool
is_six v = v == 6

-- `lastNode` holds 9 at first.
pop_item_q-erase_first_example :
    Ends (λ r g. PoppedFrom two is_six two_cells r.0 r.1 g) (pop_item_q 9 is_six 3 (queue 1 2) two)
pop_item_q-erase_first_example = pop_item_q-erase_first is_six 9 3 two_q (omega arith)

-- Each item points to its own number.
abbrev own_numbers : Ints
own_numbers v = some v

free_integer_targets_q-Removes_example :
    Ends
      (Removes (λ v. v) 6 two two_cells own_numbers)
      (free_integer_targets_q 9 6 3 (queue 1 2) own_numbers two)
free_integer_targets_q-Removes_example =
    free_integer_targets_q-Removes (λ v. v) 6 9 3 own_numbers two_q (refl, refl, (refl, refl, tt))
      (omega arith)
