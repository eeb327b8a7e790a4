-- ===== src/Sender/Process/Valid.antt =====
-- What holds of the connections between two steps.
use cosc_60_computer_network.Prelude.{
  ℕ, ◌<◌, ◌≡◌, refl, sym, ap, ◌∙◌, ◌⊎◌, inl, inr, Bool, true, false, some, List, [], ◌∷◌, ◌==◌,
  Bool-cases, arith,
}
use cosc_60_computer_network.Prelude.Int.{pos}
use cosc_60_computer_network.Sender.State.{Connection}
use cosc_60_computer_network.Sender.Process.{
  Ptr, update, Memory, Handler, off, receiving, leaving, Process, queued, Outcome, goes,
  use_after_free, not_queued, fault,
}

abbrev pub Listed : Ptr → List Ptr → Type 0
Listed p [] = ⊥
Listed p (q ∷ qs) = (p ≡ q) ⊎ Listed p qs

-- The handler() of the connection has not come to its end.
abbrev pub Runs : Handler → Type 0
Runs off = ⊥
Runs receiving = Unit
Runs leaving = Unit

-- No two of the connections have the same number.
abbrev pub Separate : (Ptr → ℕ) → List Ptr → Type 0
Separate numbers [] = Unit
Separate numbers (q ∷ qs) =
    ((r : Ptr) → Listed r qs → numbers q ≡ numbers r → ⊥) × Separate numbers qs

-- A connection stands at `p`, with this number.
pub record Held (m : Memory) (number next : ℕ) (p : Ptr) : Type 0 where
  pub connection : Connection
  pub at : m p ≡ some connection
  pub id : connection.id ≡ pos number
  pub below : number < next

-- What is queued is allocated and told apart by its number, which is below the next one; a handler()
-- that runs has its connection in the queue, and the other two threads run only while it does.
pub record IsValid (next : ℕ) (s : Process) : Type 0 where
  pub numbers : Ptr → ℕ
  pub next_is : s.next_id ≡ pos next
  pub held : (p : Ptr) → Listed p (queued s) → Held s.connections (numbers p) next p
  pub separate : Separate numbers (queued s)
  pub handling : (p : Ptr) → Runs (s.handlers p) → Listed p (queued s)
  pub sending : (p : Ptr) → s.senders p ≡ true → Runs (s.handlers p)
  pub checking : (p : Ptr) → s.checkers p ≡ true → Runs (s.handlers p)

-- A step that does not read a freed connection, and leaves a valid state if it leaves one.
abbrev pub Sound : ℕ → Outcome → Type 0
Sound next (goes s) = IsValid next s
Sound next use_after_free = ⊥
Sound next not_queued = Unit
Sound next fault = Unit

pub update_at {ℓ} : {A : Type ℓ} (f : Ptr → A) (p : Ptr) (a : A) → update f p a p ≡ a
unfolding update
update_at f p a = let e : (p == p) ≡ true = ground arith in rw e refl

pub update_off {ℓ} :
    {A : Type ℓ} (f : Ptr → A) (p q : Ptr) (a : A) → (q == p) ≡ false → update f p a q ≡ f q
unfolding update
update_off f p q a e = rw e refl

pub Held-update :
    (m : Memory) (p q : Ptr) (c c' : Connection) (number next : ℕ)
    → m p ≡ some c
    → c'.id ≡ c.id
    → Held m number next q
    → Held (update m p (some c')) number next q
Held-update m p q c c' number next at same h = elim (Bool-cases (q == p)) [
  | inl e ↦
      let qp : q ≡ p = ground arith in
      let there : some h.connection ≡ some c = sym h.at ∙ ap m qp ∙ at in
      let is_c : h.connection ≡ c = cc in
      record {
        connection = c';
        at = ap (update m p (some c')) qp ∙ update_at m p (some c');
        id = same ∙ ap (λ x. x.id) (sym is_c) ∙ h.id;
        below = h.below;
      }
  | inr e ↦ record {
    connection = h.connection;
    at = update_off m p q (some c') e ∙ h.at;
    id = h.id;
    below = h.below;
  }
]

-- A step that leaves the queue as it is.
pub rewritten-IsValid :
    (next : ℕ) (s : Process) (m : Memory) (handlers : Ptr → Handler) (senders checkers : Ptr → Bool)
    → (v : IsValid next s)
    → ((q : Ptr) → Held s.connections (v.numbers q) next q → Held m (v.numbers q) next q)
    → ((q : Ptr) → Runs (handlers q) → Runs (s.handlers q))
    → ((q : Ptr) → senders q ≡ true → Runs (handlers q))
    → ((q : Ptr) → checkers q ≡ true → Runs (handlers q))
    → IsValid next
        (record s { connections = m; handlers = handlers; senders = senders; checkers = checkers })
rewritten-IsValid next s m handlers senders checkers v held h f g = record {
  numbers = v.numbers;
  next_is = v.next_is;
  held = λ p l. held p (v.held p l);
  separate = v.separate;
  handling = λ p r. v.handling p (h p r);
  sending = f;
  checking = g;
}
