-- ===== src/Bytes/Slices.antt =====
-- Reads of a part of an array, of joined arrays and of parts of parts.
use cosc_60_computer_network.Prelude.{
  ℕ, zero, suc, ◌+◌, ◌-◌, ◌≤◌, ◌≡◌, refl, ap, ◌∙◌, List, [], ◌∷◌, ◌++◌, arith, length, take, drop,
  length-take, length-drop,
}
use cosc_60_computer_network.Bytes.Defs.{splice, slice}
use cosc_60_computer_network.Bytes.Laws.{splice_front}

pub take-append_le {ℓ} :
    {A : Type ℓ} (k : ℕ) (xs ys : List A) → k ≤ length xs → take k (xs ++ ys) ≡ take k xs
take-append_le zero xs ys h = refl
take-append_le (suc k) [] ys h = elim h [ ]
take-append_le (suc k) (x ∷ xs) ys h = ap (λ l. x ∷ l) (take-append_le k xs ys (omega arith))

pub slice-append_left :
    (i k : ℕ) (xs ys : List ℕ) → i + k ≤ length xs → slice i k (xs ++ ys) ≡ slice i k xs
slice-append_left zero k xs ys h = take-append_le k xs ys (omega arith)
slice-append_left (suc i) k [] ys h = absurd (omega arith)
slice-append_left (suc i) k (x ∷ xs) ys h = slice-append_left i k xs ys (omega arith)

pub slice-append_right :
    (i k : ℕ) (xs ys : List ℕ) → length xs ≤ i → slice i k (xs ++ ys) ≡ slice (i - length xs) k ys
slice-append_right i k [] ys h = let e : i - 0 ≡ i = omega arith in rw e
slice-append_right zero k (x ∷ xs) ys h = elim h [ ]
slice-append_right (suc i) k (x ∷ xs) ys h =
    let e : suc i - suc (length xs) ≡ i - length xs = omega arith in
    rw e (slice-append_right i k xs ys (omega arith))

pub take-take : (k n : ℕ) (xs : List ℕ) → k ≤ n → take k (take n xs) ≡ take k xs
take-take zero n xs h = refl
take-take (suc k) zero xs h = elim h [ ]
take-take (suc k) (suc n) [] h = refl
take-take (suc k) (suc n) (x ∷ xs) h = ap (λ l. x ∷ l) (take-take k n xs (omega arith))

pub slice-take : (i k n : ℕ) (xs : List ℕ) → i + k ≤ n → slice i k (take n xs) ≡ slice i k xs
slice-take zero k n xs h = take-take k n xs (omega arith)
slice-take (suc i) k zero xs h = absurd (omega arith)
slice-take (suc i) k (suc n) [] h = refl
slice-take (suc i) k (suc n) (x ∷ xs) h = slice-take i k n xs (omega arith)

pub drop-drop {ℓ} :
    {A : Type ℓ} (m j i : ℕ) (xs : List A) → i ≡ m + j → drop j (drop m xs) ≡ drop i xs
drop-drop zero j i xs e = ap (λ k. drop k xs) (omega arith)
drop-drop (suc m) zero zero xs e = absurd (omega arith)
drop-drop (suc m) (suc j) zero xs e = absurd (omega arith)
drop-drop (suc m) zero (suc i) [] e = refl
drop-drop (suc m) (suc j) (suc i) [] e = refl
drop-drop (suc m) zero (suc i) (x ∷ xs) e = drop-drop m zero i xs (omega arith)
drop-drop (suc m) (suc j) (suc i) (x ∷ xs) e = drop-drop m (suc j) i xs (omega arith)

pub length-slice : (i k : ℕ) (xs : List ℕ) → i + k ≤ length xs → length (slice i k xs) ≡ k
length-slice i k xs h = omega (arith, length-take k (drop i xs), length-drop i xs)

-- A part of a part.
pub slice-slice :
    (i k a b : ℕ) (xs : List ℕ) → i + k ≤ b → slice i k (slice a b xs) ≡ slice (a + i) k xs
slice-slice i k a b xs h =
    slice-take i k b (drop a xs) h ∙ ap (λ l. take k l) (drop-drop a i (a + i) xs refl)

-- A read inside what was written over the first bytes.
pub slice-splice_front :
    (i k : ℕ) (src dst : List ℕ)
    → length src ≤ length dst
    → i + k ≤ length src
    → slice i k (splice 0 src dst) ≡ slice i k src
slice-splice_front i k src dst h inside =
    ap (λ l. slice i k l) (splice_front (length src) src dst refl h)
    ∙ slice-append_left i k src (drop (length src) dst) inside
