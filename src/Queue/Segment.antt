-- ===== src/Queue/Segment.antt =====
-- The chain of nodes from a pointer to NULL, and what a queue holds.
use cosc_60_computer_network.Prelude.{
  ◌≡◌, refl, Bool, true, false, ◌||◌, Option, none, List, [], ◌∷◌, ◌++◌, ◌==◌, arith,
}
use cosc_60_computer_network.Queue.Memory.{Ptr, null, Item, Node, Heap, update, Points}

-- The nodes in order: address and item of each.
abbrev pub Cells : Type 0
Cells = List (Ptr × Item)

abbrev pub has : Ptr → Cells → Bool
has a [] = false
has a ((p, _) ∷ xs) = (a == p) || has a xs

-- The address of the last node, or `d` if there is none.
abbrev pub last_or : Ptr → Cells → Ptr
last_or d [] = d
last_or d ((p, _) ∷ xs) = last_or p xs

pub data Chain (h : Heap) : Ptr → Cells → Type 0 where
  nil : Chain h null []
  cons :
      {p q : Ptr} {v : Item} {xs : Cells}
      → Points h p v q
      → has p xs ≡ false
      → Chain h q xs
      → Chain h p ((p, v) ∷ xs)

-- Outside the nodes `xs` the two memories agree.
abbrev pub SameOutside : Cells → Heap → Heap → Type 0
SameOutside xs h g = (a : Ptr) → has a xs ≡ false → g a ≡ h a

pub has-append : (a : Ptr) (xs ys : Cells) → has a (xs ++ ys) ≡ (has a xs || has a ys)
has-append a [] ys = refl
has-append a ((p, v) ∷ xs) ys = ground (arith, has-append a xs ys)

pub last_or-append : (d a : Ptr) (v : Item) (xs : Cells) → last_or d (xs ++ ((a, v) ∷ [])) ≡ a
last_or-append d a v [] = refl
last_or-append d a v ((p, w) ∷ xs) = last_or-append p a v xs

pub last_or-has :
    (p : Ptr) (v : Item) (xs : Cells) (d : Ptr) → has (last_or d ((p, v) ∷ xs)) ((p, v) ∷ xs) ≡ true
last_or-has p v [] d = ground arith
last_or-has p v ((q, w) ∷ xs) d = ground (arith, last_or-has q w xs p)

module _ {h : Heap} where
  -- A chain survives every change that spares its nodes.
  pub frame :
      {g : Heap} {p : Ptr} {xs : Cells}
      → Chain h p xs
      → ((a : Ptr) → has a xs ≡ true → g a ≡ h a)
      → Chain g p xs
  frame nil same = nil
  frame (cons {p} at out c) same =
      cons (ground (arith, same p)) out (frame c λ a i. same a (ground arith))

  pub frame-update :
      {p : Ptr} {xs : Cells} (a : Ptr) (c : Option Node)
      → Chain h p xs
      → has a xs ≡ false
      → Chain (update h a c) p xs
  unfolding update
  frame-update a c s out = frame s (ground arith)

  -- An address that holds no node is in no chain.
  pub fresh-outside :
      {p : Ptr} {xs : Cells} (a : Ptr) → Chain h p xs → h a ≡ none → has a xs ≡ false
  fresh-outside a nil unused = refl
  fresh-outside a (cons at out c) unused = ground (arith, fresh-outside a c unused)

  pub null-outside : {p : Ptr} {xs : Cells} → Chain h p xs → has null xs ≡ false
  null-outside nil = refl
  null-outside (cons at out c) = ground (arith, null-outside c)

  pub nil_of_null : {p : Ptr} {xs : Cells} → Chain h p xs → p ≡ null → xs ≡ []
  nil_of_null nil e = refl
  nil_of_null (cons at out c) e = absurd (at.ne_null e)

  pub null_of_nil : {p : Ptr} {xs : Cells} → Chain h p xs → xs ≡ [] → p ≡ null
  null_of_nil nil e = refl
  null_of_nil (cons at out c) e = cc

-- The queue `q` holds the nodes `xs`: its chain, and its tail pointer.
pub record IsQueue (h : Heap) (p t : Ptr) (xs : Cells) : Type 0 where
  pub chain : Chain h p xs
  pub tail_last : t ≡ last_or null xs
