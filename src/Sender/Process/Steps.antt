-- ===== src/Sender/Process/Steps.antt =====
-- The turns of the threads and of a call, each from a valid state.
use cosc_60_computer_network.Prelude.{
  ℕ, ◌≡◌, refl, sym, ap, ◌∙◌, inl, inr, Bool, true, false, Option, none, some, List, [], ◌∷◌, ◌==◌,
  Bool-cases, if◌then◌else◌, Whenever, faults, gives, Yields-value, arith, false-true,
}
use mathlib.Core.Path.{subst}
use cosc_60_computer_network.Prelude.Int.{pos}
use cosc_60_computer_network.Bytes.{splice}
use cosc_60_computer_network.Sender.State.{Connection}
use cosc_60_computer_network.Sender.Threads.{handle_datagram}
use cosc_60_computer_network.Sender.Process.{
  Ptr, update, Handler, off, receiving, leaving, Process, queued, Outcome, connection_t_free,
  delete_if_empty, clean_up_popped, clean_up, leave, starts, handled, received, deref_at, deref,
  by_handler, handler_turn,
}
use cosc_60_computer_network.Sender.Process.Keeps.{Same, handle_datagram-Same}
use cosc_60_computer_network.Sender.Process.Valid.{
  Listed, Runs, Separate, Held, IsValid, Sound, update_at, update_off, Held-update,
  rewritten-IsValid,
}
use cosc_60_computer_network.Sender.Process.Flags.{ne_lem, other_lem, flag_set}
use cosc_60_computer_network.Sender.Process.Found.{Takes, pop_item_q-Takes}

pub if_Sound :
    (next : ℕ) (b : Bool) (x y : Outcome)
    → Sound next x
    → Sound next y
    → Sound next (if b then x else y)
if_Sound next true x y h k = h
if_Sound next false x y h k = k

queue_of : (rest : List Ptr) → elim (delete_if_empty rest) [ none ↦ [] | some ps ↦ ps ] ≡ rest
unfolding delete_if_empty
queue_of [] = refl
queue_of (p ∷ ps) = refl

module _ (next : ℕ) (s : Process) (v : IsValid next s) where
  Held-off :
      (p q : Ptr) (number : ℕ)
      → (q ≡ p → ⊥)
      → Held s.connections number next q
      → Held (update s.connections p none) number next q
  Held-off p q number ne h = record {
    connection = h.connection;
    at = update_off s.connections p q none (ne_lem q p ne) ∙ h.at;
    id = h.id;
    below = h.below;
  }

  not_off : (p q : Ptr) → Runs (update s.handlers p off q) → Runs (s.handlers q) × (q ≡ p → ⊥)
  not_off p q r = elim (Bool-cases (q == p)) [
    | inl same ↦
        let qp : q ≡ p = ground arith in
        absurd (subst Runs (ap (update s.handlers p off) qp ∙ update_at s.handlers p off) r)
    | inr other ↦ (subst Runs (update_off s.handlers p q off other) r, λ qp. other_lem q p other qp)
  ]

  not_ended : (p q : Ptr) → (q ≡ p → ⊥) → Runs (s.handlers q) → Runs (update s.handlers p off q)
  not_ended p q ne r = subst Runs (sym (update_off s.handlers p q off (ne_lem q p ne))) r

  -- A connection is written, and no thread starts or ends.
  pub put-Sound :
      (p : Ptr) (c c' : Connection)
      → s.connections p ≡ some c
      → c'.id ≡ c.id
      → IsValid next (record s { connections = update s.connections p (some c') })
  put-Sound p c c' at same =
      rewritten-IsValid next s (update s.connections p (some c')) s.handlers s.senders s.checkers v
        (λ q h. Held-update s.connections p q c c' (v.numbers q) next at same h) (λ q r. r)
        v.sending v.checking

  handled-Sound :
      (p : Ptr) (c : Connection) (o : Option Connection)
      → s.connections p ≡ some c
      → Runs (s.handlers p)
      → Whenever (Same c) o
      → Sound next (handled p c o s)
  unfolding handled
  handled-Sound p c _ at r faults = tt
  handled-Sound p c _ at r (gives {a = c'} same) =
      rewritten-IsValid next s (update s.connections p (some c')) s.handlers _ _ v
        (λ q h. Held-update s.connections p q c c' (v.numbers q) next at same.0 h) (λ q k. k)
        (flag_set s.senders p (starts c c') (λ q. Runs (s.handlers q)) v.sending r)
        (flag_set s.checkers p (starts c c') (λ q. Runs (s.handlers q)) v.checking r)

  to_leave :
      (p : Ptr)
      → Runs (s.handlers p)
      → (q : Ptr) → Runs (update s.handlers p leaving q)
      → Runs (s.handlers q)
  to_leave p r q k = elim (Bool-cases (q == p)) [
    | inl same ↦ let pq : p ≡ q = ground arith in subst (λ x. Runs (s.handlers x)) pq r
    | inr other ↦ subst Runs (update_off s.handlers p q leaving other) k
  ]

  leaves : (p q : Ptr) → Runs (s.handlers q) → Runs (update s.handlers p leaving q)
  leaves p q r = elim (Bool-cases (q == p)) [
    | inl same ↦
        let qp : q ≡ p = ground arith in
        subst Runs (sym (ap (update s.handlers p leaving) qp ∙ update_at s.handlers p leaving)) tt
    | inr other ↦ subst Runs (sym (update_off s.handlers p q leaving other)) r
  ]

  received-Sound :
      (p : Ptr) (datagram : List ℕ) (c : Connection)
      → s.connections p ≡ some c
      → Runs (s.handlers p)
      → Sound next (received p datagram c s)
  unfolding received
  received-Sound p datagram c at r =
      if_Sound next c.should_close _ _
        (rewritten-IsValid next s
          (update s.connections p
            (some (record c { incoming_buffer = splice 0 datagram c.incoming_buffer })))
          (update s.handlers p leaving) s.senders s.checkers v
          (λ q h.
            Held-update s.connections p q c
              (record c { incoming_buffer = splice 0 datagram c.incoming_buffer }) (v.numbers q)
              next at refl h)
          (λ q k. to_leave p r q k) (λ q e. leaves p q (v.sending q e))
          (λ q e. leaves p q (v.checking q e)))
        (handled-Sound p c (handle_datagram datagram c) at r (handle_datagram-Same datagram c))

  -- Behind pthread_join() neither of the other threads runs.
  cleaned :
      (p : Ptr) (o : Option Ptr × List Ptr)
      → Takes v.numbers p (queued s) o
      → s.senders p ≡ false
      → s.checkers p ≡ false
      → IsValid next (record s {
        connections = connection_t_free o.0 s.connections;
        connections_q = delete_if_empty o.1;
        handlers = update s.handlers p off;
      })
  unfolding connection_t_free
  cleaned p (popped, rest) t send check = record {
    numbers = v.numbers;
    next_is = v.next_is;
    held = λ q l.
        let l' = subst (Listed q) (queue_of rest) l in
        rw t.popped (Held-off p q (v.numbers q) (t.gone q l') (v.held q (t.from_queue q l')));
    separate = subst (Separate v.numbers) (sym (queue_of rest)) t.separate;
    handling = λ q r.
        let (old, ne) = not_off p q r in
        subst (Listed q) (sym (queue_of rest)) (t.others q (v.handling q old) ne);
    sending = λ q e.
        not_ended p q (λ qp. false-true (sym send ∙ ap s.senders (sym qp) ∙ e)) (v.sending q e);
    checking = λ q e.
        not_ended p q (λ qp. false-true (sym check ∙ ap s.checkers (sym qp) ∙ e)) (v.checking q e);
  }

  clean_up-Sound :
      (p : Ptr)
      → Listed p (queued s)
      → s.senders p ≡ false
      → s.checkers p ≡ false
      → Sound next (clean_up p (pos (v.numbers p)) s)
  unfolding clean_up clean_up_popped
  clean_up-Sound p l send check =
      let (o, e, t) =
        Yields-value
          (pop_item_q-Takes s.connections v.numbers next p (queued s) v.held v.separate l) in
      subst (λ x. Sound next (clean_up_popped p s x)) (sym e) (cleaned p o t send check)

  leave-Sound :
      (p : Ptr) (c : Connection)
      → s.connections p ≡ some c
      → Runs (s.handlers p)
      → Sound next (leave p c s)
  unfolding leave
  leave-Sound p c at r =
      let l = v.handling p r in
      let h = v.held p l in
      let is_c : h.connection ≡ c = let e : some h.connection ≡ some c = sym h.at ∙ at in cc in
      let id : c.id ≡ pos (v.numbers p) = ap (λ x. x.id) (sym is_c) ∙ h.id in
      elim (Bool-cases (s.checkers p)) [
        | inl e ↦ rw e v
        | inr e ↦ elim (Bool-cases (s.senders p)) [
          | inl f ↦ rw (e, f) v
          | inr f ↦ rw (e, f, id) (clean_up-Sound p l f e)
        ]
      ]

  -- A queued connection is read.
  pub deref-Listed :
      (p : Ptr) (k : Connection → Outcome)
      → Listed p (queued s)
      → ((c : Connection) → s.connections p ≡ some c → Sound next (k c))
      → Sound next (deref p s k)
  deref-Listed p k l ih =
      let h = v.held p l in subst (λ x. Sound next (deref_at x k)) (sym h.at) (ih h.connection h.at)

  -- A thread that runs reads an allocated connection.
  pub deref-Sound :
      (p : Ptr) (k : Connection → Outcome)
      → Runs (s.handlers p)
      → ((c : Connection) → s.connections p ≡ some c → Sound next (k c))
      → Sound next (deref p s k)
  deref-Sound p k r ih = deref-Listed p k (v.handling p r) ih

  by_handler-Sound :
      (h : Handler) (p : Ptr) (datagram : List ℕ)
      → s.handlers p ≡ h
      → Sound next (by_handler h p datagram s)
  unfolding by_handler
  by_handler-Sound off p datagram e = v
  by_handler-Sound receiving p datagram e =
      let r : Runs (s.handlers p) = subst Runs (sym e) tt in
      deref-Sound p _ r (λ c at. received-Sound p datagram c at r)
  by_handler-Sound leaving p datagram e =
      let r : Runs (s.handlers p) = subst Runs (sym e) tt in
      deref-Sound p _ r (λ c at. leave-Sound p c at r)

  pub handler_turn-Sound : (p : Ptr) (datagram : List ℕ) → Sound next (handler_turn p datagram s)
  unfolding handler_turn
  handler_turn-Sound p datagram = by_handler-Sound (s.handlers p) p datagram refl
