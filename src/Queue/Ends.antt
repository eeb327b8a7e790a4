-- ===== src/Queue/Ends.antt =====
-- Total correctness of a command: it ends without a fault, within its fuel, and as stated.
use cosc_60_computer_network.Prelude.{Option, some}
use cosc_60_computer_network.Queue.Memory.{Heap, Cmd, and_then}

pub data Ends {A : Type 0} (P : A → Heap → Type 0) : Option (A × Heap) → Type 0 where
  ends : {a : A} {h : Heap} → P a h → Ends P (some (a, h))

module _ {A : Type 0} {P : A → Heap → Type 0} where
  pub weaken :
      {Q : A → Heap → Type 0} {r : Option (A × Heap)}
      → Ends P r
      → ((a : A) (h : Heap) → P a h → Q a h)
      → Ends Q r
  weaken (ends p) f = ends (f _ _ p)

  pub followed_by :
      {B : Type 0} {Q : B → Heap → Type 0} {r : Option (A × Heap)} {k : A → Cmd B}
      → Ends P r
      → ((a : A) (h : Heap) → P a h → Ends Q (k a h))
      → Ends Q (and_then r k)
  followed_by (ends p) f = f _ _ p
