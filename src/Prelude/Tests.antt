-- ===== src/Prelude/Tests.antt =====
-- Boolean tests on numbers, the conditional, and chains of steps that may fault.
use Prim.Native.Nat.{ℕ, compare, Ordering}
use mathlib.Core.Path.{◌≡◌, refl}
use mathlib.Core.Logic.{◌⊎◌, inl, inr, ◌↔◌}
use mathlib.Core.Bool.{Bool, true, false}
use mathlib.Core.Option.{Option, none, some}
use native.Mathlib.Omega.{arith}

abbrev pub ltb : ℕ → ℕ → Bool
ltb a b = elim (compare a b) [ Ordering.lt ↦ true | _ ↦ false ]

abbrev pub leb : ℕ → ℕ → Bool
leb a b = elim (compare a b) [ Ordering.gt ↦ false | _ ↦ true ]

infix 50 ◌==◌
abbrev pub ◌==◌ : ℕ → ℕ → Bool
a == b = elim (compare a b) [ Ordering.eq ↦ true | _ ↦ false ]

infix 1 if◌then◌else◌
abbrev pub if◌then◌else◌ {ℓ} : {A : Type ℓ} → Bool → A → A → A
if true then x else y = x
if false then x else y = y

pub ==_iff : (a b : ℕ) → ((a == b) ≡ true) ↔ (a ≡ b)
==_iff a b = ground arith

pub ==_refl : (a : ℕ) → (a == a) ≡ true
==_refl a = ground arith

pub Bool-cases : (b : Bool) → (b ≡ true) ⊎ (b ≡ false)
Bool-cases true = inl refl
Bool-cases false = inr refl

pub false-true : false ≡ true → ⊥
false-true e = cc

pub Option-cases {ℓ} : {A : Type ℓ} (o : Option A) → (o ≡ none) ⊎ ((a : A) × (o ≡ some a))
Option-cases none = inl refl
Option-cases (some a) = inr (a, refl)

-- `none` is a fault: an access outside an object or through a dangling pointer.
infixl 5 ◌>>=◌
abbrev pub ◌>>=◌ {ℓ κ} : {A : Type ℓ} {B : Type κ} → Option A → (A → Option B) → Option B
none >>= k = none
some a >>= k = k a

-- A step does not fault, and what it yields has the property.
pub data Yields {ℓ κ} {A : Type ℓ} (P : A → Type κ) : Option A → Type (ℓ ⊔ κ) where
  yields : {a : A} → P a → Yields P (some a)

module _ {ℓ κ κ'} {A B : Type ℓ} {P : A → Type κ} {Q : B → Type κ'} where
  pub Yields->>= :
      {o : Option A} {k : A → Option B}
      → Yields P o
      → ((a : A) → P a → Yields Q (k a))
      → Yields Q (o >>= k)
  Yields->>= (yields {a} p) f = f a p

pub Yields-some {ℓ κ} : {A : Type ℓ} {P : A → Type κ} {a : A} → Yields P (some a) → P a
Yields-some (yields p) = p

pub Yields-weaken {ℓ κ κ'} :
    {A : Type ℓ} {P : A → Type κ} {Q : A → Type κ'} {o : Option A}
    → Yields P o
    → ((a : A) → P a → Q a)
    → Yields Q o
Yields-weaken (yields {a} p) f = yields (f a p)

-- What a step yields, if it does not fault, has the property.
pub data Whenever {ℓ κ} {A : Type ℓ} (P : A → Type κ) : Option A → Type (ℓ ⊔ κ) where
  faults : Whenever P none
  gives : {a : A} → P a → Whenever P (some a)

pub Yields-Whenever {ℓ κ κ'} :
    {A : Type ℓ} {P : A → Type κ} {Q : A → Type κ'} {o : Option A}
    → Yields P o
    → Whenever Q o
    → Yields (λ a. P a × Q a) o
Yields-Whenever (yields p) (gives q) = yields (p, q)

pub Whenever->>= {ℓ κ κ'} :
    {A B : Type ℓ} {P : A → Type κ} {Q : B → Type κ'} {o : Option A} {k : A → Option B}
    → Whenever P o
    → ((a : A) → P a → Whenever Q (k a))
    → Whenever Q (o >>= k)
Whenever->>= faults f = faults
Whenever->>= (gives {a} p) f = f a p

pub Whenever-any {ℓ} : {A : Type ℓ} (o : Option A) → Whenever (λ _. Unit {0}) o
Whenever-any none = faults
Whenever-any (some a) = gives tt

pub Yields-value {ℓ κ} :
    {A : Type ℓ} {P : A → Type κ} {o : Option A} → Yields P o → (a : A) × (o ≡ some a) × P a
Yields-value (yields {a} p) = (a, refl, p)

pub Whenever-some {ℓ κ} : {A : Type ℓ} {P : A → Type κ} {a : A} → Whenever P (some a) → P a
Whenever-some (gives p) = p

pub Yields-both {ℓ κ κ'} :
    {A : Type ℓ} {P : A → Type κ} {Q : A → Type κ'} {o : Option A}
    → Yields P o
    → Yields Q o
    → Yields (λ a. P a × Q a) o
Yields-both (yields p) (yields q) = yields (p, q)
