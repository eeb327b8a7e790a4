-- ===== src/Chat/Distinct.antt =====
-- Lists of different sockets, and what delete_integer_targets_q() leaves of them.
use cosc_60_computer_network.Prelude.{
  ℕ, ◌≡◌, ◌≢◌, refl, ap, sym, Bool-cases, inl, inr, false, List, [], ◌∷◌, ◌++◌, ◌==◌, ==_refl,
  arith,
}
use cosc_60_computer_network.Chat.Server.{delete_integer_targets}

abbrev pub Absent : ℕ → List ℕ → Type 0
Absent x [] = Unit
Absent x (y ∷ ys) = (x ≢ y) × Absent x ys

abbrev pub IsDistinct : List ℕ → Type 0
IsDistinct [] = Unit
IsDistinct (x ∷ xs) = Absent x xs × IsDistinct xs

pub delete_unlisted : (n : ℕ) (xs : List ℕ) → Absent n xs → delete_integer_targets n xs ≡ xs
unfolding delete_integer_targets
delete_unlisted n [] h = refl
delete_unlisted n (x ∷ xs) h =
    let e : (x == n) ≡ false = ground (arith, h.0) in
    rw e (ap (λ l. x ∷ l) (delete_unlisted n xs h.1))

pub delete-first : (n : ℕ) (xs : List ℕ) → Absent n xs → delete_integer_targets n (n ∷ xs) ≡ xs
unfolding delete_integer_targets
delete-first n xs h = rw (==_refl n) (delete_unlisted n xs h)

pub delete-other :
    (n x : ℕ) (xs : List ℕ)
    → x ≢ n
    → delete_integer_targets n (x ∷ xs) ≡ x ∷ delete_integer_targets n xs
unfolding delete_integer_targets
delete-other n x xs h = let e : (x == n) ≡ false = ground (arith, h) in rw e refl

pub delete-Absent : (n x : ℕ) (xs : List ℕ) → Absent x xs → Absent x (delete_integer_targets n xs)
unfolding delete_integer_targets
delete-Absent n x [] h = tt
delete-Absent n x (y ∷ ys) h =
    let ih = delete-Absent n x ys h.1 in
    elim (Bool-cases (y == n)) [ inl e ↦ rw e ih | inr e ↦ rw e (h.0, ih) ]

pub delete-IsDistinct :
    (n : ℕ) (xs : List ℕ) → IsDistinct xs → IsDistinct (delete_integer_targets n xs)
unfolding delete_integer_targets
delete-IsDistinct n [] h = tt
delete-IsDistinct n (x ∷ xs) h =
    let ih = delete-IsDistinct n xs h.1 in
    elim (Bool-cases (x == n)) [ inl e ↦ rw e ih | inr e ↦ rw e (delete-Absent n x xs h.0, ih) ]

-- What is deleted is gone.
pub delete-gone : (n : ℕ) (xs : List ℕ) → Absent n (delete_integer_targets n xs)
unfolding delete_integer_targets
delete-gone n [] = tt
delete-gone n (x ∷ xs) =
    let ih = delete-gone n xs in
    elim (Bool-cases (x == n)) [ inl e ↦ rw e ih | inr e ↦ rw e (λ q. ground (arith, e), ih) ]

Absent-append : (x n : ℕ) (xs : List ℕ) → Absent x xs → x ≢ n → Absent x (xs ++ (n ∷ []))
Absent-append x n [] h d = (d, tt)
Absent-append x n (y ∷ ys) h d = (h.0, Absent-append x n ys h.1 d)

pub append-IsDistinct :
    (n : ℕ) (xs : List ℕ) → IsDistinct xs → Absent n xs → IsDistinct (xs ++ (n ∷ []))
append-IsDistinct n [] h a = (tt, tt)
append-IsDistinct n (x ∷ xs) h a =
    (Absent-append x n xs h.0 (λ e. a.0 (sym e)), append-IsDistinct n xs h.1 a.1)
