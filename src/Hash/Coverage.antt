-- ===== src/Hash/Coverage.antt =====
-- Which bytes of an array the hash reads.
use cosc_60_computer_network.Prelude.{
  ℕ, ◌≡◌, refl, some, List, [], ◌∷◌, ◌++◌, ◌==◌, ◌⊎◌, inl, inr, Bool-cases, arith,
}
use cosc_60_computer_network.Hash.{hash_step, hash_from, hash}

-- A NUL stands in the array.
abbrev pub HasNul : List ℕ → Type 0
HasNul [] = ⊥
HasNul (b ∷ bs) = (b ≡ 0) ⊎ HasNul bs

hash_from-total : (h : ℕ) (bs : List ℕ) → HasNul bs → (r : ℕ) × (hash_from h bs ≡ some r)
unfolding hash_from
hash_from-total h [] nul = absurd nul
hash_from-total h (b ∷ bs) (inl e) = (h, ground arith)
hash_from-total h (b ∷ bs) (inr nul) = elim (Bool-cases (b == 0)) [
  | inl z ↦ (h, rw z)
  | inr nz ↦ rw nz (hash_from-total (hash_step h b) bs nul)
]

-- hash() stays inside any array that holds a NUL.
pub hash-total : (bs : List ℕ) → HasNul bs → (r : ℕ) × (hash bs ≡ some r)
unfolding hash
hash-total bs nul = hash_from-total 5381 bs nul

hash_from-append_nul :
    (h : ℕ) (xs ys zs : List ℕ) → hash_from h (xs ++ (0 ∷ ys)) ≡ hash_from h (xs ++ (0 ∷ zs))
unfolding hash_from
hash_from-append_nul h [] ys zs = refl
hash_from-append_nul h (x ∷ xs) ys zs = elim (Bool-cases (x == 0)) [
  | inl z ↦ rw z
  | inr nz ↦ rw nz (hash_from-append_nul (hash_step h x) xs ys zs)
]

-- What stands behind a NUL does not count.
pub hash-append_nul : (xs ys zs : List ℕ) → hash (xs ++ (0 ∷ ys)) ≡ hash (xs ++ (0 ∷ zs))
unfolding hash
hash-append_nul xs ys zs = hash_from-append_nul 5381 xs ys zs
