-- ===== src/Dpp/Search.antt =====
-- Where strstr() finds the delimiter, and where a text ends.
use cosc_60_computer_network.Prelude.{
  ℕ, zero, suc, ◌≡◌, ◌≢◌, refl, ap, false, ◌&&◌, some, none, List, [], ◌∷◌, ◌++◌, length, set, ◌==◌,
  arith,
}
use cosc_60_computer_network.Dpp.{find_delimiter, text_at}

-- The byte that follows: the first one, or `next` behind the end.
abbrev pub first : ℕ → List ℕ → ℕ
first next [] = next
first next (c ∷ cs) = c

-- A text without NUL in which, with `next` behind it, no delimiter starts.
abbrev pub IsPlain : ℕ → List ℕ → Type 0
IsPlain next [] = Unit
IsPlain next (c ∷ cs) = (c ≢ 0) × (c ≡ 58 → first next cs ≢ 58) × IsPlain next cs

abbrev pub HasNoNul : List ℕ → Type 0
HasNoNul [] = Unit
HasNoNul (c ∷ cs) = (c ≢ 0) × HasNoNul cs

pub IsPlain-HasNoNul : (next : ℕ) (u : List ℕ) → IsPlain next u → HasNoNul u
IsPlain-HasNoNul next [] h = tt
IsPlain-HasNoNul next (c ∷ cs) h = (h.0, IsPlain-HasNoNul next cs h.2)

-- A text that the delimiter may follow may end as well.
pub IsPlain-end : (u : List ℕ) → IsPlain 58 u → IsPlain 0 u
IsPlain-end [] h = tt
IsPlain-end (c ∷ []) h = (h.0, λ e. omega arith, tt)
IsPlain-end (c ∷ d ∷ cs) h = (h.0, h.1, IsPlain-end (d ∷ cs) h.2)

pub find_delimiter-found :
    (u rest : List ℕ)
    → IsPlain 58 u
    → find_delimiter (u ++ (58 ∷ 58 ∷ rest)) ≡ some (some (length u))
unfolding find_delimiter
find_delimiter-found [] rest h = refl
find_delimiter-found (c ∷ []) rest h =
    let ih = find_delimiter-found [] rest tt in
    let z : (c == 0) ≡ false = ground (arith, h.0) in
    let m : (c == 58) ≡ false = ground (arith, h.1) in rw (z, m)
find_delimiter-found (c ∷ d ∷ cs) rest h =
    let ih = find_delimiter-found (d ∷ cs) rest h.2 in
    let z : (c == 0) ≡ false = ground (arith, h.0) in
    let m : ((c == 58) && (d == 58)) ≡ false = ground (arith, h.1) in
    rw (z, m, ih) (ap (λ k. some (some k)) (omega arith))

-- No delimiter in front of the NUL.
pub find_delimiter-missing :
    (u rest : List ℕ) → IsPlain 0 u → find_delimiter (u ++ (0 ∷ rest)) ≡ some none
unfolding find_delimiter
find_delimiter-missing [] [] h = refl
find_delimiter-missing [] (c ∷ rest) h = refl
find_delimiter-missing (c ∷ []) rest h =
    let ih = find_delimiter-missing [] rest tt in
    let z : (c == 0) ≡ false = ground (arith, h.0) in
    let m : ((c == 58) && false) ≡ false = ground arith in rw (z, m, ih) refl
find_delimiter-missing (c ∷ d ∷ cs) rest h =
    let ih = find_delimiter-missing (d ∷ cs) rest h.2 in
    let z : (c == 0) ≡ false = ground (arith, h.0) in
    let m : ((c == 58) && (d == 58)) ≡ false = ground (arith, h.1) in rw (z, m, ih) refl

pub text_at-end : (u rest : List ℕ) → HasNoNul u → text_at (u ++ (0 ∷ rest)) ≡ some u
unfolding text_at
text_at-end [] rest h = refl
text_at-end (c ∷ cs) rest h =
    let z : (c == 0) ≡ false = ground (arith, h.0) in rw (z, text_at-end cs rest h.1) refl

-- A byte in the middle of a buffer is replaced.
pub set-append :
    (i : ℕ) (u rest : List ℕ) (c v : ℕ) → i ≡ length u → set (u ++ (c ∷ rest)) i v ≡ u ++ (v ∷ rest)
set-append zero [] rest c v e = refl
set-append (suc i) [] rest c v e = absurd (omega arith)
set-append zero (x ∷ u) rest c v e = absurd (omega arith)
set-append (suc i) (x ∷ u) rest c v e = ap (λ l. x ∷ l) (set-append i u rest c v (omega arith))
