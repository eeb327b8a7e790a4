-- ===== src/Hash/Detect.antt =====
-- Which corruptions the hash detects.
use cosc_60_computer_network.Prelude.{
  ℕ, ◌^◌, ◌<◌, ◌≡◌, ◌≢◌, some, List, [], ◌∷◌, ◌++◌, false, ◌==◌, inl, inr, Bool-cases, arith,
}
use cosc_60_computer_network.Hash.{hash_step, hash_from, hash}
use cosc_60_computer_network.Hash.Coverage.{HasNul}

hash_step-lt : (h b : ℕ) → hash_step h b < 2 ^ 64
unfolding hash_step
hash_step-lt h b = omega arith

hash_step_inj : (h k b : ℕ) → h < 2 ^ 64 → k < 2 ^ 64 → hash_step h b ≡ hash_step k b → h ≡ k
unfolding hash_step
hash_step_inj h k b hh hk e = omega arith

hash_step_inj_char : (h b c : ℕ) → b < 256 → c < 256 → hash_step h b ≡ hash_step h c → b ≡ c
unfolding hash_step
hash_step_inj_char h b c hb hc e = ground arith

hash_from_inj :
    (h k : ℕ) (bs : List ℕ)
    → HasNul bs
    → h < 2 ^ 64
    → k < 2 ^ 64
    → hash_from h bs ≡ hash_from k bs
    → h ≡ k
unfolding hash_from
hash_from_inj h k [] nul hh hk e = absurd nul
hash_from_inj h k (b ∷ bs) nul hh hk e = elim (Bool-cases (b == 0)) [
  | inl z ↦ let e' : some h ≡ some k = rw z at e in cc
  | inr nz ↦
      let nul' : HasNul bs = ground arith in
      hash_step_inj h k b hh hk (
        hash_from_inj (hash_step h b) (hash_step k b) bs nul' (hash_step-lt h b) (hash_step-lt k b)
          (rw nz at e))
]

abbrev pub AllNonzero : List ℕ → Type 0
AllNonzero [] = Unit
AllNonzero (b ∷ bs) = (b ≢ 0) × AllNonzero bs

hash_from_one_byte :
    (h : ℕ) (xs ys : List ℕ) (b c : ℕ)
    → AllNonzero xs
    → HasNul ys
    → h < 2 ^ 64
    → b ≢ 0
    → c ≢ 0
    → b < 256
    → c < 256
    → hash_from h (xs ++ (b ∷ ys)) ≡ hash_from h (xs ++ (c ∷ ys))
    → b ≡ c
unfolding hash_from
hash_from_one_byte h [] ys b c nz nul hh hb hc lb lc e =
    let b0 : (b == 0) ≡ false = ground arith in
    let c0 : (c == 0) ≡ false = ground arith in
    hash_step_inj_char h b c lb lc (
      hash_from_inj (hash_step h b) (hash_step h c) ys nul (hash_step-lt h b) (hash_step-lt h c)
        (rw (b0, c0) at e))
hash_from_one_byte h (x ∷ xs) ys b c nz nul hh hb hc lb lc e =
    let x0 : (x == 0) ≡ false = ground arith in
    hash_from_one_byte (hash_step h x) xs ys b c nz.1 nul (hash_step-lt h x) hb hc lb lc
      (rw x0 at e)

-- Two texts that differ in exactly one byte, which is no NUL in either and stands before the first
-- NUL of both, have different hashes.
pub hash_one_byte :
    (xs ys : List ℕ) (b c : ℕ)
    → AllNonzero xs
    → HasNul ys
    → b ≢ 0
    → c ≢ 0
    → b < 256
    → c < 256
    → b ≢ c
    → hash (xs ++ (b ∷ ys)) ≢ hash (xs ++ (c ∷ ys))
unfolding hash
hash_one_byte xs ys b c nz nul hb hc lb lc ne e =
    ne (hash_from_one_byte 5381 xs ys b c nz nul (omega arith) hb hc lb lc e)

hash_from-lt : (h : ℕ) (bs : List ℕ) {r : ℕ} → h < 2 ^ 64 → hash_from h bs ≡ some r → r < 2 ^ 64
unfolding hash_from
hash_from-lt h [] hh e = cc
hash_from-lt h (b ∷ bs) {r} hh e = elim (Bool-cases (b == 0)) [
  | inl z ↦ let e' : some h ≡ some r = rw z at e in ground arith
  | inr nz ↦ hash_from-lt (hash_step h b) bs (hash_step-lt h b) (rw nz at e)
]

-- A hash is an `unsigned long`.
pub hash-lt : (bs : List ℕ) {r : ℕ} → hash bs ≡ some r → r < 2 ^ 64
unfolding hash
hash-lt bs e = hash_from-lt 5381 bs (omega arith) e
