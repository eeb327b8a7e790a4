-- ===== src/Stun/Verdict.antt =====
-- The verdict of response_handler(): whether two of the addresses that it printed differ.
use mathlib.Core.Path.{subst}
use cosc_60_computer_network.Prelude.{
  ℕ, zero, suc, ◌+◌, ◌%◌, ◌^◌, ◌≡◌, refl, ap, ap₂, ◌∙◌, sym, inl, inr, Bool, true, false, ◌||◌,
  arith, not, Bool-cases, Option, List, [], ◌∷◌, ◌++◌, ltb, ◌==◌, Whenever, faults, gives,
  Whenever->>=, Whenever-any,
}
use cosc_60_computer_network.Dpp.{same_text}
use cosc_60_computer_network.Chat.Hearing.{same_text_refl}
use cosc_60_computer_network.Bytes.{splice}
use cosc_60_computer_network.Stun.{
  Found, Holder, empty_holder, same_found, is_empty, compare_address, mapped, xor_mapped,
  by_attribute_type, attribute, walk, Walked, ended, unfinished, by_response_type, handle_response,
  response_handler, next_response, read_short, read_address, stun_header_size,
}

-- Whether an address of the list is another one.
abbrev pub any_other : Found → List Found → Bool
any_other f [] = false
any_other f (g ∷ gs) = not (same_found f.ipv4 f.port g) || any_other f gs

-- Every address of the list has the text and the port of the first.
abbrev pub AllAre : Found → List Found → Type 0
AllAre f [] = Unit
AllAre f (g ∷ gs) = (g.ipv4 ≡ f.ipv4) × (g.port ≡ f.port) × AllAre f gs

abbrev pub AllSame : List Found → Type 0
AllSame [] = Unit
AllSame (f ∷ fs) = AllAre f fs

same_text-≡ : (xs ys : List ℕ) → same_text xs ys ≡ true → ys ≡ xs
unfolding same_text
same_text-≡ [] [] e = refl
same_text-≡ (x ∷ xs) (y ∷ ys) e =
    let head : y ≡ x = ground arith in
    let tail : same_text xs ys ≡ true = ground arith in
    ap₂ (λ a l. a ∷ l) head (same_text-≡ xs ys tail)
same_text-≡ [] (y ∷ ys) e = cc
same_text-≡ (x ∷ xs) [] e = cc

same_text_self : (xs ys : List ℕ) → ys ≡ xs → same_text xs ys ≡ true
same_text_self xs ys e = ap (same_text xs) e ∙ same_text_refl xs

any_other-AllAre : (f : Found) (fs : List Found) → any_other f fs ≡ false → AllAre f fs
any_other-AllAre f [] e = tt
any_other-AllAre f (g ∷ gs) e =
    let ports : (f.port == g.port) ≡ true = ground arith in
    let texts : same_text f.ipv4 g.ipv4 ≡ true = ground arith in
    let others : any_other f gs ≡ false = ground arith in
    (same_text-≡ f.ipv4 g.ipv4 texts, ground arith, any_other-AllAre f gs others)

AllAre-any_other : (f : Found) (fs : List Found) → AllAre f fs → any_other f fs ≡ false
AllAre-any_other f [] k = refl
AllAre-any_other f (g ∷ gs) (t, p, k) =
    let ports : (f.port == g.port) ≡ true = ground arith in
    rw (same_text_self f.ipv4 g.ipv4 t, ports) (AllAre-any_other f gs k)

-- The holder keeps the first address, and the flag says whether another one differs from it.
abbrev pub Keeps : List Found → Holder → Type 0
Keeps [] h = (h.nat_ipv4 ≡ []) × (h.is_behind_symmetric_nat ≡ false)
Keeps (f ∷ fs) h =
    (h.nat_ipv4 ≡ f.ipv4)
    × (h.nat_port ≡ f.port)
    × (is_empty f.ipv4 ≡ false)
    × (h.is_behind_symmetric_nat ≡ any_other f fs)

abbrev pub IsConsistent : Holder → Type 0
IsConsistent h = Keeps h.found h

or_false : (a : Bool) → (a || false) ≡ a
or_false true = refl
or_false false = refl

or_true : (a : Bool) → (a || true) ≡ true
or_true true = refl
or_true false = refl

or_assoc : (a b c : Bool) → (a || (b || c)) ≡ ((a || b) || c)
or_assoc true b c = refl
or_assoc false b c = refl

any_other-append :
    (f g : Found) (fs : List Found)
    → any_other f (fs ++ (g ∷ [])) ≡ (any_other f fs || not (same_found f.ipv4 f.port g))
any_other-append f g [] = or_false (not (same_found f.ipv4 f.port g))
any_other-append f g (x ∷ fs) =
    ap (λ b. not (same_found f.ipv4 f.port x) || b) (any_other-append f g fs)
    ∙ or_assoc (not (same_found f.ipv4 f.port x)) (any_other f fs)
        (not (same_found f.ipv4 f.port g))

compare_address-Keeps :
    (f : Found) (h : Holder) (fs : List Found)
    → is_empty f.ipv4 ≡ false
    → Keeps fs h
    → Keeps (fs ++ (f ∷ [])) (compare_address f h)
unfolding compare_address
compare_address-Keeps f h [] n k =
    let e : is_empty h.nat_ipv4 ≡ true = ap is_empty k.0 in rw e (refl, refl, n, k.1)
compare_address-Keeps f h (g ∷ gs) n k =
    let e : is_empty h.nat_ipv4 ≡ false = ap is_empty k.0 ∙ k.2 in
    let same : same_found h.nat_ipv4 h.nat_port f ≡ same_found g.ipv4 g.port f =
      ap₂ (λ x y. same_found x y f) k.0 k.1 in
    let flag = any_other-append g f gs in
    elim (Bool-cases (same_found h.nat_ipv4 h.nat_port f)) [
      | inl s ↦
          let t = ap (λ b. any_other g gs || not b) (sym same ∙ s) ∙ or_false (any_other g gs) in
          rw (e, s) (k.0, k.1, k.2, k.3 ∙ sym (flag ∙ t))
      | inr s ↦
          let t = ap (λ b. any_other g gs || not b) (sym same ∙ s) ∙ or_true (any_other g gs) in
          rw (e, s) (k.0, k.1, k.2, sym (flag ∙ t))
    ]

compare_address-found : (f : Found) (h : Holder) → (compare_address f h).found ≡ h.found ++ (f ∷ [])
unfolding compare_address
compare_address-found f h = elim (Bool-cases (is_empty h.nat_ipv4)) [
  | inl e ↦ rw e refl
  | inr e ↦ elim (Bool-cases (same_found h.nat_ipv4 h.nat_port f)) [
    | inl s ↦ rw (e, s) refl
    | inr s ↦ rw (e, s) refl
  ]
]

compare_address-IsConsistent :
    (f : Found) (h : Holder)
    → is_empty f.ipv4 ≡ false
    → IsConsistent h
    → IsConsistent (compare_address f h)
compare_address-IsConsistent f h n k =
    subst (λ l. Keeps l (compare_address f h)) (sym (compare_address-found f h))
      (compare_address-Keeps f h h.found n k)

abbrev pub holder_of : Walked → Holder
holder_of (ended h) = h
holder_of (unfinished h) = h

next_response-IsConsistent :
    (f : Holder → Option Walked)
    → ((h : Holder) → IsConsistent h → Whenever (λ w. IsConsistent (holder_of w)) (f h))
    → (w : Walked) → IsConsistent (holder_of w)
    → Whenever (λ w. IsConsistent (holder_of w)) (next_response f w)
next_response-IsConsistent f g (ended h) k = g h k
next_response-IsConsistent f g (unfinished h) k = gives k

-- The flag is clear exactly if all addresses are the same.
abbrev pub Tells : Bool → List Found → Type 0
Tells flag fs = (flag ≡ false → AllSame fs) × (AllSame fs → flag ≡ false)

verdict_lem : (fs : List Found) (h : Holder) → Keeps fs h → Tells h.is_behind_symmetric_nat fs
verdict_lem [] h k = ((λ e. tt), (λ a. k.1))
verdict_lem (f ∷ fs) h k =
    ((λ e. any_other-AllAre f fs (sym k.3 ∙ e)), (λ a. k.3 ∙ AllAre-any_other f fs a))

Whenever-weaken :
    {P Q : Walked → Type 0} {o : Option Walked}
    → Whenever P o
    → ((w : Walked) → P w → Q w)
    → Whenever Q o
Whenever-weaken faults f = faults
Whenever-weaken (gives {a} p) f = gives (f a p)

-- A printed address is not the empty text.
module _ (hostname : List ℕ → List ℕ) (named : (a : List ℕ) → is_empty (hostname a) ≡ false) where
  mapped-IsConsistent :
      (b : List ℕ) (location : ℕ) (h : Holder)
      → IsConsistent h
      → Whenever IsConsistent (mapped hostname b location h)
  unfolding mapped
  mapped-IsConsistent b location h k =
      Whenever->>= (Whenever-any (read_short b (location + 6))) (λ port _.
        Whenever->>= (Whenever-any (read_address b (location + 8)))
          (λ address _. gives (compare_address-IsConsistent _ h (named address) k)))

  xor_mapped-IsConsistent :
      (b : List ℕ) (location : ℕ) (h : Holder)
      → IsConsistent h
      → Whenever IsConsistent (xor_mapped hostname b location h)
  unfolding xor_mapped
  xor_mapped-IsConsistent b location h k =
      Whenever->>= (Whenever-any (read_short b (location + 6))) (λ port _.
        Whenever->>= (Whenever-any (read_address b (location + 8)))
          (λ address _. gives (compare_address-IsConsistent _ h (named _) k)))

  by_attribute_type-IsConsistent :
      (type : ℕ) (b : List ℕ) (location : ℕ) (h : Holder)
      → IsConsistent h
      → Whenever IsConsistent (by_attribute_type hostname type b location h)
  unfolding by_attribute_type
  by_attribute_type-IsConsistent type b location h k = elim (Bool-cases (type == 1)) [
    | inl e ↦ rw e (mapped-IsConsistent b location h k)
    | inr e ↦ elim (Bool-cases (type == 32)) [
      | inl x ↦ rw (e, x) (xor_mapped-IsConsistent b location h k)
      | inr x ↦ rw (e, x) (gives k)
    ]
  ]

  attribute-IsConsistent :
      (b : List ℕ) (location : ℕ) (h : Holder)
      → IsConsistent h
      → Whenever (λ a. IsConsistent a.1) (attribute hostname b location h)
  unfolding attribute
  attribute-IsConsistent b location h k =
      Whenever->>= (Whenever-any (read_short b (location + 2))) (λ n _.
        Whenever->>= (Whenever-any (read_short b location)) (λ type _.
          Whenever->>= (by_attribute_type-IsConsistent type b location h k) (λ h' k'. gives k')))

  walk-IsConsistent :
      (fuel : ℕ) (b : List ℕ) (n location index : ℕ) (h : Holder)
      → IsConsistent h
      → Whenever (λ w. IsConsistent (holder_of w)) (walk hostname fuel b n location index h)
  unfolding walk
  walk-IsConsistent zero b n location index h k = gives k
  walk-IsConsistent (suc fuel) b n location index h k = elim (Bool-cases (ltb index n)) [
    | inl l ↦ rw l (
        Whenever->>= (attribute-IsConsistent b (location + index) h k) (λ a k'.
          walk-IsConsistent fuel b n (location + index) ((index + (a.0 + 4)) % 2 ^ 16) a.1 k'))
    | inr l ↦ rw l (gives k)
  ]

  handle_response-IsConsistent :
      (fuel : ℕ) (b : List ℕ) (h : Holder)
      → IsConsistent h
      → Whenever (λ w. IsConsistent (holder_of w)) (handle_response hostname fuel b h)
  unfolding handle_response by_response_type
  handle_response-IsConsistent fuel b h k = Whenever->>= (Whenever-any (read_short b 2)) (λ n _.
      Whenever->>= (Whenever-any (read_short b 0)) (λ type _. elim (Bool-cases (type == 257)) [
        | inl e ↦ rw e (walk-IsConsistent fuel b n stun_header_size 0 h k)
        | inr e ↦ rw e (gives k)
      ]))

  responses-IsConsistent :
      (fuel : ℕ) (responses : List (List ℕ)) (b : List ℕ) (h : Holder)
      → IsConsistent h
      → Whenever (λ w. IsConsistent (holder_of w)) (response_handler hostname fuel responses b h)
  unfolding response_handler
  responses-IsConsistent fuel [] b h k = gives k
  responses-IsConsistent fuel (received ∷ rest) b h k =
      let b' = splice 0 received b in
      Whenever->>= (handle_response-IsConsistent fuel b' h k) (
        next_response-IsConsistent (response_handler hostname fuel rest b')
          (λ h' k'. responses-IsConsistent fuel rest b' h' k'))

  -- If no text of an address is empty: whatever the responses and whatever was in the buffer,
  -- unless a read runs over it, the flag for a symmetric NAT is clear exactly if every printed
  -- address has the text and the port of the first one.
  pub response_handler-differs :
      (fuel : ℕ) (responses : List (List ℕ)) (b : List ℕ)
      → Whenever
          (λ w. Tells (holder_of w).is_behind_symmetric_nat (holder_of w).found)
          (response_handler hostname fuel responses b empty_holder)
  response_handler-differs fuel responses b =
      Whenever-weaken (responses-IsConsistent fuel responses b empty_holder (refl, refl))
        (λ w k. verdict_lem (holder_of w).found (holder_of w) k)
