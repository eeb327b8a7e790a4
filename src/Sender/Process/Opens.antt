-- ===== src/Sender/Process/Opens.antt =====
-- mrt_connect() queues a connection with the next number.
use cosc_60_computer_network.Prelude.{
  ℕ, ◌+◌, ◌<◌, ◌≤◌, ◌^◌, ◌≡◌, refl, sym, ap, ◌∙◌, ◌⊎◌, inl, inr, Option, none, some, List, [], ◌∷◌,
  ◌++◌, ◌==◌, Bool-cases, arith,
}
use mathlib.Core.Path.{subst}
use cosc_60_computer_network.Prelude.Int.{pos, ◌+ℤ◌, wrap}
use cosc_60_computer_network.Sender.State.{Connection, connection_t_init}
use cosc_60_computer_network.Sender.Process.{
  Ptr, update, Memory, receiving, Process, queued, Outcome, goes, use_after_free, not_queued, fault,
  connect_at, connect, prepare, enqueue,
}
use cosc_60_computer_network.Sender.Process.Valid.{
  Listed, Runs, Separate, Held, IsValid, Sound, update_at, update_off,
}
use cosc_60_computer_network.Sender.Process.Flags.{ne_lem}

-- A state with so many connections at most so far.
pub record Within (size : ℕ) (s : Process) : Type 0 where
  pub next : ℕ
  pub next_le : next ≤ size
  pub valid : IsValid next s

abbrev pub Safe : ℕ → Outcome → Type 0
Safe size (goes s) = Within size s
Safe size use_after_free = ⊥
Safe size not_queued = Unit
Safe size fault = Unit

pub Sound-Safe : (size next : ℕ) (o : Outcome) → next ≤ size → Sound next o → Safe size o
Sound-Safe size next (goes s) le h = record { next = next; next_le = le; valid = h }
Sound-Safe size next use_after_free le h = h
Sound-Safe size next not_queued le h = tt
Sound-Safe size next fault le h = tt

append-Listed : (r p : Ptr) (qs : List Ptr) → Listed r (qs ++ (p ∷ [])) → Listed r qs ⊎ (r ≡ p)
append-Listed r p [] (inl e) = inr e
append-Listed r p [] (inr l) = absurd l
append-Listed r p (q ∷ qs) (inl e) = inl (inl e)
append-Listed r p (q ∷ qs) (inr l) = elim (append-Listed r p qs l) [
  | inl there ↦ inl (inr there)
  | inr e ↦ inr e
]

Listed-front : (r p : Ptr) (qs : List Ptr) → Listed r qs → Listed r (qs ++ (p ∷ []))
Listed-front r p [] l = absurd l
Listed-front r p (q ∷ qs) (inl e) = inl e
Listed-front r p (q ∷ qs) (inr l) = inr (Listed-front r p qs l)

Listed-end : (p : Ptr) (qs : List Ptr) → Listed p (qs ++ (p ∷ []))
Listed-end p [] = inl refl
Listed-end p (q ∷ qs) = inr (Listed-end p qs)

-- The new connection has a number of its own.
Separate-append :
    (numbers : Ptr → ℕ) (next : ℕ) (p : Ptr) (qs : List Ptr)
    → ((q : Ptr) → Listed q qs → numbers q < next)
    → ((q : Ptr) → Listed q qs → q ≡ p → ⊥)
    → Separate numbers qs
    → Separate (update numbers p next) (qs ++ (p ∷ []))
Separate-append numbers next p [] below other sep = (λ r l e. l, tt)
Separate-append numbers next p (q ∷ qs) below other sep =
    let at_q : update numbers p next q ≡ numbers q =
      update_off numbers p q next (ne_lem q p (other q (inl refl))) in
    (
      λ r l e. elim (append-Listed r p qs l) [
        | inl there ↦
            sep.0 r there
              (sym at_q ∙ e ∙ update_off numbers p r next (ne_lem r p (other r (inr there))))
        | inr rp ↦
            let same : numbers q ≡ next =
              sym at_q ∙ e ∙ ap (update numbers p next) rp ∙ update_at numbers p next in
            absurd (omega (arith, below q (inl refl)))
      ],
      Separate-append numbers next p qs (λ r l. below r (inr l)) (λ r l. other r (inr l)) sep.1,
    )

module _ (next : ℕ) (s : Process) (v : IsValid next s) (p : Ptr) (unused : s.connections p ≡ none)
    (receiver : ℕ) (small : next + 1 < 2 ^ 31) where
  other : (q : Ptr) → Listed q (queued s) → q ≡ p → ⊥
  other q l e =
      let h = v.held q l in
      let clash : none ≡ some h.connection = sym unused ∙ ap s.connections (sym e) ∙ h.at in cc

  abbrev opened : Memory
  opened = update s.connections p (some (connection_t_init s.next_id receiver))

  held_new : Held opened (update v.numbers p next p) (next + 1) p
  unfolding connection_t_init
  held_new = record {
    connection = connection_t_init s.next_id receiver;
    at = update_at s.connections p (some (connection_t_init s.next_id receiver));
    id = v.next_is ∙ ap pos (sym (update_at v.numbers p next));
    below = rw (update_at v.numbers p next) (omega arith);
  }

  held_old : (q : Ptr) → Listed q (queued s) → Held opened (update v.numbers p next q) (next + 1) q
  held_old q l =
      let h = v.held q l in
      let off = ne_lem q p (other q l) in
      let same : update v.numbers p next q ≡ v.numbers q = update_off v.numbers p q next off in
      record {
        connection = h.connection;
        at = update_off s.connections p q (some (connection_t_init s.next_id receiver)) off ∙ h.at;
        id = h.id ∙ ap pos (sym same);
        below = omega (arith, h.below);
      }

  runs_on : (q : Ptr) → Runs (s.handlers q) → Runs (update s.handlers p receiving q)
  runs_on q r = elim (Bool-cases (q == p)) [
    | inl e ↦
        let qp : q ≡ p = ground arith in
        subst Runs (sym (ap (update s.handlers p receiving) qp ∙ update_at s.handlers p receiving))
          tt
    | inr e ↦ subst Runs (sym (update_off s.handlers p q receiving e)) r
  ]

  opened-IsValid : Sound (next + 1) (enqueue p receiver s (some (queued s)))
  unfolding enqueue
  opened-IsValid = record {
    numbers = update v.numbers p next;
    next_is = ap (λ z. wrap (z +ℤ pos 1)) v.next_is ∙ ground arith;
    held = λ q l. elim (append-Listed q p (queued s) l) [
      | inl there ↦ held_old q there
      | inr e ↦ subst (λ x. Held opened (update v.numbers p next x) (next + 1) x) (sym e) held_new
    ];
    separate =
        Separate-append v.numbers next p (queued s) (λ q l. (v.held q l).below) other v.separate;
    handling = λ q r. elim (Bool-cases (q == p)) [
      | inl e ↦
          let pq : p ≡ q = ground arith in
          subst (λ x. Listed x (queued s ++ (p ∷ []))) pq (Listed-end p (queued s))
      | inr e ↦
          Listed-front q p (queued s)
            (v.handling q (subst Runs (update_off s.handlers p q receiving e) r))
    ];
    sending = λ q e. runs_on q (v.sending q e);
    checking = λ q e. runs_on q (v.checking q e);
  }

queued_lem : (s : Process) (ps : List Ptr) → s.connections_q ≡ some ps → queued s ≡ ps
queued_lem s ps e = ap (λ o. elim o [ none ↦ [] | some qs ↦ qs ]) e

enqueue-Sound :
    (next : ℕ) (s : Process) (v : IsValid next s) (p : Ptr)
    → s.connections p ≡ none
    → (receiver : ℕ) → next + 1 < 2 ^ 31
    → (o : Option (List Ptr)) → s.connections_q ≡ o
    → Sound (next + 1) (enqueue p receiver s o)
unfolding enqueue
enqueue-Sound next s v p unused receiver small none e = tt
enqueue-Sound next s v p unused receiver small (some ps) e =
    subst (λ qs. Sound (next + 1) (enqueue p receiver s (some qs))) (queued_lem s ps e)
      (opened-IsValid next s v p unused receiver small)

-- The queue is made, and holds what it did.
pub prepare-Safe :
    (next size : ℕ) (s : Process) → IsValid next s → next ≤ size → Safe (size + 1) (prepare s)
unfolding prepare
prepare-Safe next size s v le = record {
  next = next;
  next_le = omega arith;
  valid = record {
    numbers = v.numbers;
    next_is = v.next_is;
    held = v.held;
    separate = v.separate;
    handling = v.handling;
    sending = v.sending;
    checking = v.checking;
  };
}

pub connect-Safe :
    (next size : ℕ) (s : Process)
    → IsValid next s
    → next ≤ size
    → size + 1 < 2 ^ 31
    → (p : Ptr) (receiver : ℕ) → Safe (size + 1) (connect p receiver s)
unfolding connect
connect-Safe next size s v le small p receiver = at_cases (s.connections p) refl
  where
    at_cases :
        (o : Option Connection) → s.connections p ≡ o → Safe (size + 1) (connect_at p receiver s o)
    at_cases none e =
        unfold connect_at in
        (Sound-Safe (size + 1) (next + 1) (enqueue p receiver s s.connections_q) (omega arith)
          (enqueue-Sound next s v p e receiver (omega arith) s.connections_q refl))
    at_cases (some c) e =
        unfold connect_at in (record { next = next; next_le = omega arith; valid = v })
