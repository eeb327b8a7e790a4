-- ===== src/Sender/Process/Flags.antt =====
-- Flags and addresses of connections: what a write at one address does to the others.
use cosc_60_computer_network.Prelude.{
  ◌≡◌, sym, ◌∙◌, inl, inr, Bool, true, false, ◌==◌, Bool-cases, if◌then◌else◌, arith,
}
use mathlib.Core.Path.{subst}
use cosc_60_computer_network.Sender.Process.{Ptr, update}
use cosc_60_computer_network.Sender.Process.Valid.{update_off}

pub ne_lem : (q p : Ptr) → (q ≡ p → ⊥) → (q == p) ≡ false
ne_lem q p ne = elim (Bool-cases (q == p)) [ inl e ↦ absurd (ne (ground arith)) | inr e ↦ e ]

-- A flag that is set at `p`, where it may be set.
pub flag_set :
    (f : Ptr → Bool) (p : Ptr) (b : Bool) (R : Ptr → Type 0)
    → ((q : Ptr) → f q ≡ true → R q)
    → R p
    → (q : Ptr) → (if b then update f p true else f) q ≡ true
    → R q
flag_set f p false R old here q e = old q e
flag_set f p true R old here q e = elim (Bool-cases (q == p)) [
  | inl same ↦ let pq : p ≡ q = ground arith in subst R pq here
  | inr other ↦ old q (sym (update_off f p q true other) ∙ e)
]

-- A flag that is written at `p`, where it was set.
pub flag_kept :
    (f : Ptr → Bool) (p : Ptr) (b : Bool) (R : Ptr → Type 0)
    → ((q : Ptr) → f q ≡ true → R q)
    → f p ≡ true
    → (q : Ptr) → update f p b q ≡ true
    → R q
flag_kept f p b R old here q e = elim (Bool-cases (q == p)) [
  | inl same ↦ let pq : p ≡ q = ground arith in subst R pq (old p here)
  | inr other ↦ old q (sym (update_off f p q b other) ∙ e)
]

pub other_lem : (q p : Ptr) → (q == p) ≡ false → q ≡ p → ⊥
other_lem q p e qp = ground arith
