-- ===== src/Sender/Window.antt =====
-- The sender's window: the payloads that a connection has buffered and not seen acknowledged,
-- oldest first. The children prove what the steps of the code do to it.
pub mod Buffer
pub mod Acknowledge
pub mod Send
pub mod Handler
pub mod Resend
use cosc_60_computer_network.Prelude.{
  ℕ, zero, suc, ◌+◌, ◌-◌, ◌*◌, ◌≤◌, ◌<◌, ◌≡◌, refl, ap, ap₂, ◌∙◌, List, [], ◌∷◌, ◌++◌, get_or, drop,
  length, arith,
}
use cosc_60_computer_network.Bytes.{slice}
use cosc_60_computer_network.Sender.State.{Connection}
use cosc_60_computer_network.Sender.Invariant.{IsValid}

-- The payload in place `i`.
abbrev pub payload : List ℕ → List ℕ → ℕ → List ℕ
payload lengths buffer i = slice (i * 488) (get_or lengths i 0) buffer

-- The `n` payloads from place `i` on.
abbrev pub payloads : List ℕ → List ℕ → ℕ → ℕ → List (List ℕ)
payloads lengths buffer i zero = []
payloads lengths buffer i (suc n) = payload lengths buffer i ∷ payloads lengths buffer (suc i) n

abbrev pub window : Connection → ℕ → List (List ℕ)
window c count = payloads c.num_bytes_buffered c.sender_buffer 0 count

-- The connection `c` is valid, and these are the payloads of its window.
pub record HasWindow (ps : List (List ℕ)) (c : Connection) : Type 0 where
  pub valid : IsValid c
  pub contents : window c valid.count ≡ ps

module _ (lengths buffer : List ℕ) where
  pub length-payloads : (i n : ℕ) → length (payloads lengths buffer i n) ≡ n
  length-payloads i zero = refl
  length-payloads i (suc n) = ap suc (length-payloads (suc i) n)

  pub payloads-snoc :
      (i n : ℕ)
      → payloads lengths buffer i (n + 1)
        ≡ payloads lengths buffer i n ++ (payload lengths buffer (i + n) ∷ [])
  payloads-snoc i zero = let e : i + 0 ≡ i = omega arith in let e' : 0 + 1 ≡ 1 = refl in rw e
  payloads-snoc i (suc n) =
      let e : suc n + 1 ≡ suc (n + 1) = omega arith in
      let e' : suc i + n ≡ i + suc n = omega arith in
      rw e (
        ap (λ l. payload lengths buffer i ∷ l)
          (payloads-snoc (suc i) n
            ∙ ap (λ j. payloads lengths buffer (suc i) n ++ (payload lengths buffer j ∷ [])) e'))

  pub drop-payloads :
      (k i n : ℕ)
      → k ≤ n
      → drop k (payloads lengths buffer i n) ≡ payloads lengths buffer (i + k) (n - k)
  drop-payloads zero i n h = ap₂ (payloads lengths buffer) (omega arith) (omega arith)
  drop-payloads (suc k) i zero h = elim h [ ]
  drop-payloads (suc k) i (suc n) h =
      drop-payloads k (suc i) n (omega arith)
      ∙ ap₂ (payloads lengths buffer) (omega arith) (omega arith)

-- Where the payloads of one buffer are those of another, shifted.
pub payloads-cong :
    (lengths buffer lengths' buffer' : List ℕ) (shift i n : ℕ)
    → ((j : ℕ)
        → i ≤ j
        → j < i + n
        → payload lengths buffer j ≡ payload lengths' buffer' (shift + j))
    → payloads lengths buffer i n ≡ payloads lengths' buffer' (shift + i) n
payloads-cong lengths buffer lengths' buffer' shift i zero h = refl
payloads-cong lengths buffer lengths' buffer' shift i (suc n) h =
    ap₂ ◌∷◌ (h i (omega arith) (omega arith)) (
      payloads-cong lengths buffer lengths' buffer' shift (suc i) n
        (λ j lo hi. h j (omega arith) (omega arith))
      ∙ ap (λ k. payloads lengths' buffer' k n) (omega arith))
