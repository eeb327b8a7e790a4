-- ===== src/Queue.antt =====
-- lab3/Queue.c: the generic queue, a singly linked list with a head and a tail pointer.
-- `Memory` is the store of its nodes, and the functions below are those of the file. A `q_t` that
-- a pointer leads to is passed in and out by value; `none` is a NULL `q_t *`. Loops take fuel.
pub mod Memory
pub mod Segment
pub mod Ends
pub mod Freeing
pub mod Refine
use cosc_60_computer_network.Prelude.{
  ℕ, zero, suc, Bool, true, false, Option, none, some, List, [], ◌∷◌, ◌++◌, ◌==◌, if◌then◌else◌,
}
use Memory.{Ptr, null, Item, Node, Heap, write, load, set_node_behind, free, Cmd, pure, ◌>>=◌, ◌>>◌}

pub record Queue : Type 0 where
  pub head : Ptr
  pub tail : Ptr

abbrev pub queue : Ptr → Ptr → Queue
queue p t = record { head = p; tail = t }

-- `allocated` says whether malloc() gave a block for the `q_t`.
pub make_q : (allocated : Bool) → Option Queue
make_q true = some (queue null null)
make_q false = none

-- The body of enq_q() behind its two checks.
link_node : Ptr → Queue → Cmd Queue
link_node node q =
    if q.head == null
    then pure (queue node node)
    else do set_node_behind q.tail node; pure (queue q.head node)

-- `node` is what malloc() returns. The result is the code's: 0, or -1 as `false`.
pub enq_q : (node : Ptr) → Option Queue → Item → Cmd (Bool × Option Queue)
unfolding link_node
enq_q node none item = pure (false, none)
enq_q node (some q) item = if node == null then pure (false, some q) else do
  write node (some (record { item = item; node_behind = null }))
  q' ← link_node node q
  pure (true, some q')

-- deq_q() of a queue that is not empty.
unlink_head : Queue → Cmd (Item × Queue)
unlink_head q = do
  n ← load q.head
  free q.head
  pure (n.item, queue n.node_behind (if n.node_behind == null then null else q.tail))

pub deq_q : Queue → Cmd (Item × Queue)
unfolding unlink_head
deq_q q = if q.head == null then pure (null, q) else unlink_head q

-- The items that delete_q() hands to `itemdelete`, in order. The `q_t` is freed by the caller's
-- dropping it.
pub delete_q : ℕ → Queue → Cmd (List Item)
delete_q zero q = λ _. none
delete_q (suc fuel) q =
    if q.head == null
    then pure []
    else do (item, q') ← deq_q q; items ← delete_q fuel q'; pure (item ∷ items)

-- `visit` is `itemfunc` with its effect on the state that `argument` points to.
iterate_loop : {S : Type 0} → (Item → S → S) → ℕ → Ptr → S → Cmd S
iterate_loop visit zero cur s = λ _. none
iterate_loop visit (suc fuel) cur s =
    if cur == null
    then pure s
    else do n ← load cur; iterate_loop visit fuel n.node_behind (visit n.item s)

pub iterate_q : {S : Type 0} → (Item → S → S) → ℕ → Queue → S → Cmd S
unfolding iterate_loop
iterate_q visit fuel q s = iterate_loop visit fuel q.head s

pub peek_q : Queue → Cmd Item
peek_q q = if q.head == null then pure null else do n ← load q.head; pure n.item

get_item_loop : (Item → Bool) → ℕ → Ptr → Cmd Item
get_item_loop matcher zero cur = λ _. none
get_item_loop matcher (suc fuel) cur = if cur == null then pure null else do
  n ← load cur
  if matcher n.item then pure n.item else get_item_loop matcher fuel n.node_behind

pub get_item_q : (Item → Bool) → ℕ → Queue → Cmd Item
unfolding get_item_loop
get_item_q matcher fuel q = get_item_loop matcher fuel q.head

-- The four cases by which a matched node leaves the queue: head and tail, head, tail, neither.
unlink : Queue → (last cur behind : Ptr) → Cmd Queue
unlink q last cur behind =
    if q.head == cur
    then (if q.tail == cur then pure (queue null null) else pure (queue behind q.tail))
    else if q.tail == cur
    then (do set_node_behind last null; pure (queue q.head last))
    else (do set_node_behind last behind; pure q)

-- A match: the node is unlinked and freed, and its item returned.
pop_node : Queue → (last cur : Ptr) → Node → Cmd (Item × Queue)
unfolding unlink
pop_node q last cur n = do q' ← unlink q last cur n.node_behind; free cur; pure (n.item, q')

pop_item_loop : (Item → Bool) → Queue → ℕ → (last cur : Ptr) → Cmd (Item × Queue)
pop_item_loop matcher q zero last cur = λ _. none
pop_item_loop matcher q (suc fuel) last cur = if cur == null then pure (null, q) else do
  n ← load cur
  if matcher n.item then pop_node q last cur n else pop_item_loop matcher q fuel cur n.node_behind

-- `lastNode` is not initialised: `garbage` is what it holds.
pub pop_item_q : (garbage : Ptr) → (Item → Bool) → ℕ → Queue → Cmd (Item × Queue)
unfolding pop_item_loop
pop_item_q garbage matcher fuel q = pop_item_loop matcher q fuel garbage q.head

-- One pass of the loop of delete_integer_targets_q(): what becomes of the queue, of `lastNode`
-- and of `currNode`.
abbrev Pass : Type 0
Pass = Queue × Ptr × Ptr

drop_node : Queue → (last cur behind : Ptr) → Cmd Pass
drop_node q last cur behind =
    if q.head == cur
    then (if q.tail == cur
        then (do free cur; pure (queue null null, last, null))
        else (do free cur; pure (queue behind q.tail, last, behind)))
    else if q.tail == cur
    then (do set_node_behind last null; free cur; pure (queue q.head last, last, null))
    else (do set_node_behind last behind; free cur; n ← load last; pure (q, last, n.node_behind))

-- `number_at` reads the `int` that an item points to.
delete_loop : (Item → ℕ) → ℕ → Queue → ℕ → (last cur : Ptr) → Cmd Queue
unfolding drop_node
delete_loop number_at target q zero last cur = λ _. none
delete_loop number_at target q (suc fuel) last cur = if cur == null then pure q else do
  n ← load cur
  (q', last', cur') ←
      (if number_at n.item == target
        then drop_node q last cur n.node_behind
        else pure (q, cur, n.node_behind))
  delete_loop number_at target q' fuel last' cur'

pub delete_integer_targets_q : (garbage : Ptr) → (Item → ℕ) → ℕ → ℕ → Queue → Cmd Queue
unfolding delete_loop
delete_integer_targets_q garbage number_at target fuel q =
    delete_loop number_at target q fuel garbage q.head
