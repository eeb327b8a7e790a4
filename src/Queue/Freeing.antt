-- ===== src/Queue/Freeing.antt =====
-- lab2/Queue.c: delete_integer_targets_q(), which reads the `int`s that its items point to and frees
-- them with their nodes, on a queue that is not NULL. The rest of the file is the code of
-- lab3/Queue.c, with an iterate_q() that takes no argument.
use cosc_60_computer_network.Prelude.{ℕ, zero, suc, Option, none, some, ◌==◌, if◌then◌else◌}
use cosc_60_computer_network.Queue.Memory.{Ptr, null, Item, Node, load, Cmd, pure, ◌>>=◌}
use cosc_60_computer_network.Queue.{Queue, Pass, drop_node}

-- `none` is an item that points to no number.
abbrev pub Ints : Type 0
Ints = Item → Option ℕ

unfoldable pub unset : Item → Ints → Ints
unset v m w = if w == v then none else m w

-- `*((int *) item)`
unfoldable pub deref : Item → Ints → Cmd ℕ
deref v m h = elim (m v) [ none ↦ none | some n ↦ some (n, h) ]

unfoldable pub free_item : Item → Ints → Cmd Ints
free_item v m h = elim (m v) [ none ↦ none | some n ↦ some (unset v m, h) ]

-- A match. The four branches are those of lab3, each with a free() of the item before that of the
-- node.
unfoldable pub free_match : Queue → (last cur : Ptr) → Node → Ints → Cmd (Pass × Ints)
unfolding drop_node
free_match q last cur n m = do
  m' ← free_item n.item m
  pass ← drop_node q last cur n.node_behind
  pure (pass, m')

-- A pass of the loop, with the node that `currNode` leads to.
unfoldable pub sweep : ℕ → Queue → (last cur : Ptr) → Node → Ints → Cmd (Pass × Ints)
sweep target q last cur n m = do
  curr_number ← deref n.item m
  (if curr_number == target then free_match q last cur n m else pure ((q, cur, n.node_behind), m))

unfoldable pub sweep_loop : ℕ → Queue → Ints → ℕ → (last cur : Ptr) → Cmd (Queue × Ints)
sweep_loop target q m zero last cur = λ _. none
sweep_loop target q m (suc fuel) last cur = if cur == null then pure (q, m) else do
  n ← load cur
  ((q', last', cur'), m') ← sweep target q last cur n m
  sweep_loop target q' m' fuel last' cur'

-- delete_integer_targets_q(). `lastNode` is not initialised: `garbage` is what it holds.
unfoldable pub free_integer_targets_q : (garbage : Ptr) → ℕ → ℕ → Queue → Ints → Cmd (Queue × Ints)
free_integer_targets_q garbage target fuel q m = sweep_loop target q m fuel garbage q.head
