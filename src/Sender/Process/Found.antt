-- ===== src/Sender/Process/Found.antt =====
-- The searches of the queue by a number, which no two of its connections share.
use cosc_60_computer_network.Prelude.{
  ℕ, ◌≡◌, refl, sym, ap, ◌∙◌, inl, inr, true, false, Option, none, some, List, [], ◌∷◌, Bool-cases,
  Yields, yields, Yields->>=, Yields-weaken, arith,
}
use cosc_60_computer_network.Prelude.Int.{ℤ, pos}
use cosc_60_computer_network.Sender.State.{Connection, connection_matcher}
use cosc_60_computer_network.Sender.Process.{Ptr, Memory, get_item_q, pop_item_q}
use cosc_60_computer_network.Sender.Process.Valid.{Listed, Separate, Held}

abbrev pub FoundIn : List Ptr → Option Ptr → Type 0
FoundIn qs none = Unit
FoundIn qs (some p) = Listed p qs

FoundIn-tail : (q : Ptr) (qs : List Ptr) (o : Option Ptr) → FoundIn qs o → FoundIn (q ∷ qs) o
FoundIn-tail q qs none f = tt
FoundIn-tail q qs (some p) f = inr f

-- What pop_item_q() leaves when it takes `p`.
pub record Takes (numbers : Ptr → ℕ) (p : Ptr) (qs : List Ptr) (o : Option Ptr × List Ptr)
    : Type 0 where
  pub popped : o.0 ≡ some p
  pub from_queue : (r : Ptr) → Listed r o.1 → Listed r qs
  pub gone : (r : Ptr) → Listed r o.1 → r ≡ p → ⊥
  pub others : (r : Ptr) → Listed r qs → (r ≡ p → ⊥) → Listed r o.1
  pub separate : Separate numbers o.1

matches_lem :
    (c : Connection) (number : ℕ) → c.id ≡ pos number → connection_matcher c (pos number) ≡ true
unfolding connection_matcher
matches_lem c number e = rw e (ground arith)

differs_lem :
    (c : Connection) (number other : ℕ)
    → c.id ≡ pos number
    → (number ≡ other → ⊥)
    → connection_matcher c (pos other) ≡ false
unfolding connection_matcher
differs_lem c number other e ne = rw e (ground arith)

module _ (m : Memory) (numbers : Ptr → ℕ) (next : ℕ) where
  pub get_item_q-FoundIn :
      (id : ℤ) (qs : List Ptr)
      → ((p : Ptr) → Listed p qs → Held m (numbers p) next p)
      → Yields (FoundIn qs) (get_item_q m id qs)
  unfolding get_item_q
  get_item_q-FoundIn id [] held = yields tt
  get_item_q-FoundIn id (q ∷ qs) held =
      let h = held q (inl refl) in
      elim (Bool-cases (connection_matcher h.connection id)) [
        | inl e ↦ rw (h.at, e) (yields (inl refl))
        | inr e ↦
            rw (h.at, e)
              (let rest = get_item_q-FoundIn id qs (λ p l. held p (inr l)) in
                Yields-weaken rest (λ o f. FoundIn-tail q qs o f))
      ]

  pub get_item_q-Listed :
      (p : Ptr) (qs : List Ptr)
      → ((r : Ptr) → Listed r qs → Held m (numbers r) next r)
      → Separate numbers qs
      → Listed p qs
      → get_item_q m (pos (numbers p)) qs ≡ some (some p)
  unfolding get_item_q
  get_item_q-Listed p [] held sep l = absurd l
  get_item_q-Listed p (q ∷ qs) held sep (inl e) =
      let h = held q (inl refl) in
      let is : connection_matcher h.connection (pos (numbers p)) ≡ true =
        matches_lem h.connection (numbers p) (h.id ∙ ap (λ r. pos (numbers r)) (sym e)) in
      rw (h.at, is) (ap (λ r. some (some r)) (sym e))
  get_item_q-Listed p (q ∷ qs) held sep (inr l) =
      let h = held q (inl refl) in
      let not_it : connection_matcher h.connection (pos (numbers p)) ≡ false =
        differs_lem h.connection (numbers q) (numbers p) h.id (sep.0 p l) in
      rw (h.at, not_it) (get_item_q-Listed p qs (λ r k. held r (inr k)) sep.1 l)

  pub pop_item_q-Takes :
      (p : Ptr) (qs : List Ptr)
      → ((r : Ptr) → Listed r qs → Held m (numbers r) next r)
      → Separate numbers qs
      → Listed p qs
      → Yields (Takes numbers p qs) (pop_item_q m (pos (numbers p)) qs)
  unfolding pop_item_q
  pop_item_q-Takes p [] held sep l = absurd l
  pop_item_q-Takes p (q ∷ qs) held sep (inl e) =
      let h = held q (inl refl) in
      let is : connection_matcher h.connection (pos (numbers p)) ≡ true =
        matches_lem h.connection (numbers p) (h.id ∙ ap (λ r. pos (numbers r)) (sym e)) in
      rw (h.at, is)
        (yields (record {
          popped = ap some (sym e);
          from_queue = λ r k. inr k;
          gone = λ r k rp. sep.0 r k (ap numbers (sym (rp ∙ e)));
          others = λ r k ne. elim k [ inl rq ↦ absurd (ne (rq ∙ sym e)) | inr there ↦ there ];
          separate = sep.1;
        }))
  pop_item_q-Takes p (q ∷ qs) held sep (inr l) =
      let h = held q (inl refl) in
      let not_it : connection_matcher h.connection (pos (numbers p)) ≡ false =
        differs_lem h.connection (numbers q) (numbers p) h.id (sep.0 p l) in
      rw (h.at, not_it)
        (Yields->>= (pop_item_q-Takes p qs (λ r k. held r (inr k)) sep.1 l) (λ (popped, rest) t.
          yields (record {
            popped = t.popped;
            from_queue = λ r k. elim k [ inl rq ↦ inl rq | inr there ↦ inr (t.from_queue r there) ];
            gone = λ r k rp. elim k [
              | inl rq ↦ sep.0 p l (ap numbers (sym rq ∙ rp))
              | inr there ↦ t.gone r there rp
            ];
            others = λ r k ne. elim k [ inl rq ↦ inl rq | inr there ↦ inr (t.others r there ne) ];
            separate = (λ r k. sep.0 r (t.from_queue r k), t.separate);
          })))
