-- ===== src/Bytes/Laws.antt =====
-- What is written by `splice` is read back by `slice`, and nothing else changes.
use cosc_60_computer_network.Prelude.{
  ℕ, zero, suc, ◌+◌, ◌^◌, ◌≤◌, ◌<◌, ◌≡◌, refl, ap, ◌∙◌, ◌/◌, List, [], ◌∷◌, ◌++◌, arith, length,
  take, drop, take-append,
}
use cosc_60_computer_network.Bytes.Defs.{splice, slice, le_bytes, le_value}

pub length-splice : (off : ℕ) (src dst : List ℕ) → length (splice off src dst) ≡ length dst
unfolding splice
length-splice zero src [] = refl
length-splice (suc off) src [] = refl
length-splice (suc off) src (d ∷ dst) = ap suc (length-splice off src dst)
length-splice zero [] (d ∷ dst) = refl
length-splice zero (s ∷ src) (d ∷ dst) = ap suc (length-splice zero src dst)

splice-zero :
    (src dst : List ℕ)
    → length src ≤ length dst
    → splice zero src dst ≡ src ++ drop (length src) dst
unfolding splice
splice-zero [] [] h = refl
splice-zero (s ∷ src) [] h = elim h [ ]
splice-zero [] (d ∷ dst) h = refl
splice-zero (s ∷ src) (d ∷ dst) h = ap (λ l. s ∷ l) (splice-zero src dst (omega arith))

-- A write inside the array replaces exactly the bytes from its offset on.
pub splice_lem :
    (off : ℕ) (src dst : List ℕ)
    → off + length src ≤ length dst
    → splice off src dst ≡ take off dst ++ (src ++ drop (off + length src) dst)
unfolding splice
splice_lem zero src dst h =
    let e : 0 + length src ≡ length src = omega arith in rw e (splice-zero src dst (omega arith))
splice_lem (suc off) src [] h = absurd (omega arith)
splice_lem (suc off) src (d ∷ dst) h =
    let e : suc off + length src ≡ suc (off + length src) = omega arith in
    rw e (ap (λ l. d ∷ l) (splice_lem off src dst (omega arith)))

-- What is written is read back.
pub slice-splice_self :
    (off : ℕ) (src dst : List ℕ)
    → off + length src ≤ length dst
    → slice off (length src) (splice off src dst) ≡ src
unfolding splice
slice-splice_self zero src dst h = rw (splice-zero src dst (omega arith)) (take-append _ src _ refl)
slice-splice_self (suc off) src [] h = absurd (omega arith)
slice-splice_self (suc off) src (d ∷ dst) h = slice-splice_self off src dst (omega arith)

-- Bytes before the write stay.
pub take-splice :
    (k off : ℕ) (src dst : List ℕ) → k ≤ off → take k (splice off src dst) ≡ take k dst
unfolding splice
take-splice zero off src dst h = refl
take-splice (suc k) zero src dst h = absurd (omega arith)
take-splice (suc k) (suc off) src [] h = refl
take-splice (suc k) (suc off) src (d ∷ dst) h =
    ap (λ l. d ∷ l) (take-splice k off src dst (omega arith))

-- A read whose end is at most `off` is not changed by a write at `off`.
pub slice-splice_before :
    (i n off : ℕ) (src dst : List ℕ) → i + n ≤ off → slice i n (splice off src dst) ≡ slice i n dst
unfolding splice
slice-splice_before zero n off src dst h = take-splice n off src dst (omega arith)
slice-splice_before (suc i) n zero src dst h = absurd (omega arith)
slice-splice_before (suc i) n (suc off) src [] h = refl
slice-splice_before (suc i) n (suc off) src (d ∷ dst) h =
    slice-splice_before i n off src dst (omega arith)

drop-splice_zero :
    (i : ℕ) (src dst : List ℕ) → length src ≤ i → drop i (splice 0 src dst) ≡ drop i dst
unfolding splice
drop-splice_zero zero [] [] h = refl
drop-splice_zero zero [] (d ∷ dst) h = refl
drop-splice_zero zero (s ∷ src) dst h = elim h [ ]
drop-splice_zero (suc i) src [] h = refl
drop-splice_zero (suc i) [] (d ∷ dst) h = refl
drop-splice_zero (suc i) (s ∷ src) (d ∷ dst) h = drop-splice_zero i src dst (omega arith)

-- Bytes behind the write stay.
pub drop-splice :
    (i off : ℕ) (src dst : List ℕ) → off + length src ≤ i → drop i (splice off src dst) ≡ drop i dst
unfolding splice
drop-splice i zero src dst h = drop-splice_zero i src dst (omega arith)
drop-splice zero (suc off) src dst h = absurd (omega arith)
drop-splice (suc i) (suc off) src [] h = refl
drop-splice (suc i) (suc off) src (d ∷ dst) h = drop-splice i off src dst (omega arith)

-- A write that begins where the kept prefix ends extends that prefix.
pub take-splice_end :
    (off n : ℕ) (src dst : List ℕ)
    → off + length src ≤ length dst
    → n ≡ off + length src
    → take n (splice off src dst) ≡ take off dst ++ src
unfolding splice
take-splice_end zero n src dst h e =
    rw (splice-zero src dst (omega arith)) (take-append n src _ (omega arith))
take-splice_end (suc off) n src [] h e = absurd (omega arith)
take-splice_end (suc off) zero src (d ∷ dst) h e = absurd (omega arith)
take-splice_end (suc off) (suc n) src (d ∷ dst) h e =
    ap (λ l. d ∷ l) (take-splice_end off n src dst (omega arith) (omega arith))

pub length-le_bytes : (k w : ℕ) → length (le_bytes k w) ≡ k
unfolding le_bytes
length-le_bytes zero w = refl
length-le_bytes (suc k) w = ap suc (length-le_bytes k (w / 256))

-- A write over the first bytes.
pub splice_front :
    (n : ℕ) (src dst : List ℕ)
    → length src ≡ n
    → n ≤ length dst
    → splice 0 src dst ≡ src ++ drop n dst
splice_front n src dst e h = splice-zero src dst (omega arith) ∙ ap (λ k. src ++ drop k dst) e

pub le_value-le_bytes_4 : (w : ℕ) → w < 2 ^ 32 → le_value (le_bytes 4 w) ≡ w
unfolding le_bytes
le_value-le_bytes_4 w h = omega arith

pub le_value-le_bytes_8 : (w : ℕ) → w < 2 ^ 64 → le_value (le_bytes 8 w) ≡ w
unfolding le_bytes
le_value-le_bytes_8 w h = omega arith
