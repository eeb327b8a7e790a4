-- ===== src/Queue/Memory.antt =====
-- The nodes of Queue.c in memory, and the reads and writes of the code.
use cosc_60_computer_network.Prelude.{
  ℕ, Option, none, some, ◌==◌, if◌then◌else◌, ◌≡◌, ◌≢◌, false, arith,
}

abbrev pub Ptr : Type 0
Ptr = ℕ

abbrev pub null : Ptr
null = 0

-- A `void *` that the queue holds.
abbrev pub Item : Type 0
Item = ℕ

pub record Node : Type 0 where
  pub item : Item
  pub node_behind : Ptr

abbrev pub node : Item → Ptr → Node
node v q = record { item = v; node_behind = q }

-- `none` is an address that holds no node.
abbrev pub Heap : Type 0
Heap = Ptr → Option Node

-- `none` is a fault, or a loop that ran out of fuel.
abbrev pub Cmd : Type 0 → Type 0
Cmd A = Heap → Option (A × Heap)

abbrev pub pure : {A : Type 0} → A → Cmd A
pure a h = some (a, h)

abbrev pub and_then : {A B : Type 0} → Option (A × Heap) → (A → Cmd B) → Option (B × Heap)
and_then none k = none
and_then (some (a, h)) k = k a h

infixl 5 ◌>>=◌ ◌>>◌
abbrev pub ◌>>=◌ : {A B : Type 0} → Cmd A → (A → Cmd B) → Cmd B
◌>>=◌ m k h = and_then (m h) k

abbrev pub ◌>>◌ : {B : Type 0} → Cmd (Unit {0}) → Cmd B → Cmd B
m >> k = m >>= λ _. k

unfoldable pub update : Heap → Ptr → Option Node → Heap
update h p c a = if a == p then c else h a

abbrev pub write : Ptr → Option Node → Cmd (Unit {0})
write p c h = some (tt, update h p c)

-- A read of `*p`: a fault at NULL and where no node is.
unfoldable pub load : Ptr → Cmd Node
load p h = if p == null then none else elim (h p) [ none ↦ none | some n ↦ some (n, h) ]

unfoldable pub set_node_behind : Ptr → Ptr → Cmd (Unit {0})
set_node_behind p q = do n ← load p; write p (some (record n { node_behind = q }))

-- free(p): a fault where no node is.
unfoldable pub free : Ptr → Cmd (Unit {0})
free p = do n ← load p; write p none

-- `p` is the address of a node with item `v`, in front of `q`.
pub record Points (h : Heap) (p : Ptr) (v : Item) (q : Ptr) : Type 0 where
  pub ne_null : p ≢ null
  pub holds : h p ≡ some (node v q)

module _ {h : Heap} {p q : Ptr} {v : Item} (at : Points h p v q) where
  pub not_null : (p == null) ≡ false
  not_null = ground arith

  pub load-some : load p h ≡ some (node v q, h)
  unfolding load
  load-some = rw (not_null, at.holds)

  pub set_node_behind-some :
      (r : Ptr) → set_node_behind p r h ≡ some (tt, update h p (some (node v r)))
  unfolding set_node_behind
  set_node_behind-some r = rw load-some

  pub free-some : free p h ≡ some (tt, update h p none)
  unfolding free
  free-some = rw load-some

  pub Points-update : (r : Ptr) → Points (update h p (some (node v r))) p v r
  unfolding update
  Points-update r = ground arith
