-- ===== src/Receiver/Deliver.antt =====
-- What one sender's bytes become: buffered in order, each fragment once, and read in order.
pub mod Stream
use cosc_60_computer_network.Prelude.{
  ℕ, zero, suc, ◌∷◌, ◌+◌, ◌-◌, ◌≤◌, ◌<◌, ◌≡◌, refl, sym, ap, ◌∙◌, Bool, true, false, Option, some,
  List, ◌++◌, [], length, take, drop, ltb, if◌then◌else◌, Bool-cases, inl, inr, length-take,
  length-drop, take-append-drop, append-nil, arith, min,
}
use cosc_60_computer_network.Prelude.Int.{ℤ}
use cosc_60_computer_network.Bytes.{splice, slice, length-slice, take-splice_end, splice_lem}
use cosc_60_computer_network.Receiver.State.{Sender, receiver_max_window_size}
use cosc_60_computer_network.Receiver.Api.{bytes_to_read, take_unread}
use cosc_60_computer_network.Receiver.Invariant.{IsValidSender}
use cosc_60_computer_network.Receiver.Invariant.Parts.{taken}

-- The bytes of a sender that its user has not read.
abbrev pub unread : Sender → List ℕ
unread s = take s.bytes_unread s.buffer

-- A payload that is taken goes behind the unread bytes.
pub unread-taken :
    (n : ℕ) (incoming : List ℕ) (s : Sender)
    → IsValidSender s
    → 20 ≤ n
    → n ≤ length incoming
    → s.bytes_unread + (n - 20) ≤ receiver_max_window_size
    → unread (taken n incoming s) ≡ unread s ++ slice 20 (n - 20) incoming
unread-taken n incoming s v lo hi fit =
    let len = length-slice 20 (n - 20) incoming (omega arith) in
    take-splice_end s.bytes_unread (s.bytes_unread + (n - 20)) (slice 20 (n - 20) incoming) s.buffer
      (omega (arith, v.size)) (omega arith)

take-nil : (n : ℕ) → take {A = ℕ} n [] ≡ []
take-nil zero = refl
take-nil (suc n) = refl

pub take-split : (n m : ℕ) (xs : List ℕ) → n ≤ m → take n xs ++ take (m - n) (drop n xs) ≡ take m xs
take-split zero m xs h = ap (λ k. take k xs) (omega arith)
take-split (suc n) zero xs h = elim h [ ]
take-split (suc n) (suc m) [] h = take-nil (suc m - suc n)
take-split (suc n) (suc m) (x ∷ xs) h =
    let e : suc m - suc n ≡ m - n = omega arith in
    ap (λ l. x ∷ l) (rw e (take-split n m xs (omega arith)))

-- For a valid sender, the bytes that a read takes and then the bytes that it leaves unread are
-- the bytes that were unread.
pub take_unread-append :
    (len : ℕ) (s : Sender)
    → IsValidSender s
    → take (bytes_to_read len s) s.buffer ++ unread (take_unread (bytes_to_read len s) s) ≡ unread s
unfolding bytes_to_read take_unread
take_unread-append len s v =
    let moved : (n : ℕ)
        → ltb n s.bytes_unread ≡ true
        → length (slice n (s.bytes_unread - n) s.buffer) ≡ s.bytes_unread - n =
      λ n h.
        length-slice n (s.bytes_unread - n) s.buffer (let b = v.within in ground (arith, v.size)) in
    elim (Bool-cases (ltb len s.bytes_unread)) [
      | inl less ↦
          rw (less, less)
            (ap (λ l. take len s.buffer ++ l)
                (take-splice_end 0 (s.bytes_unread - len)
                  (slice len (s.bytes_unread - len) s.buffer) s.buffer
                  (omega (arith, moved len less, v.size, v.within)) (omega (arith, moved len less)))
              ∙ take-split len s.bytes_unread s.buffer (ground arith))
      | inr all ↦
          let z : ltb s.bytes_unread s.bytes_unread ≡ false = ground arith in
          rw (all, z) (append-nil (unread s))
    ]
