-- ===== src/Packet/Seal.antt =====
-- A sealed transmission passes the check wherever it is received whole.
use cosc_60_computer_network.Prelude.{
  Bool, ◌==◌, ℕ, zero, suc, inl, inr, ◌+◌, ◌-◌, ◌≤◌, ◌<◌, ◌≡◌, refl, sym, ap, ◌∙◌, true, some, List,
  [], ◌∷◌, ◌++◌, ==_refl, arith, length, take, drop, length-append, length-take, length-drop,
  take-append, drop-append, append_assoc,
}
use native.Mathlib.Decide.{dec_le}
use cosc_60_computer_network.Bytes.{
  splice, slice, le_bytes, le_value, splice_lem, length-splice, take-splice_end, drop-splice,
  le_value-le_bytes_8, length-le_bytes, splice_front,
}
use cosc_60_computer_network.Hash.{hash}
use cosc_60_computer_network.Hash.Coverage.{HasNul, hash-total, hash-append_nul}
use cosc_60_computer_network.Hash.Detect.{hash-lt}
use cosc_60_computer_network.Packet.{seal, receive, checksum_matches}

drop-append_le : (k : ℕ) (xs ys : List ℕ) → k ≤ length xs → drop k (xs ++ ys) ≡ drop k xs ++ ys
drop-append_le zero xs ys h = refl
drop-append_le (suc k) [] ys h = elim h [ ]
drop-append_le (suc k) (x ∷ xs) ys h = drop-append_le k xs ys (omega arith)

HasNul-append : (xs ys : List ℕ) → HasNul (xs ++ (0 ∷ ys))
HasNul-append [] ys = inl refl
HasNul-append (x ∷ xs) ys = inr (HasNul-append xs ys)

-- The bytes that the hash is taken of.
abbrev pub body : ℕ → List ℕ → List ℕ
body n buffer = drop 8 (take n buffer)

drop-body :
    (n : ℕ) (buffer rest : List ℕ)
    → 8 ≤ n
    → n ≤ length buffer
    → drop 8 (take n buffer ++ rest) ≡ body n buffer ++ rest
drop-body n buffer rest lo hi =
    drop-append_le 8 (take n buffer) rest (omega (arith, length-take n buffer))

-- The hash field and what it is the hash of.
pub record Sealed (n : ℕ) (buffer sealed : List ℕ) : Type 0 where
  pub h : ℕ
  pub hashed : hash (body n buffer ++ (0 ∷ [])) ≡ some h
  pub contents : sealed ≡ le_bytes 8 h ++ (body n buffer ++ (0 ∷ drop (n + 1) buffer))

module _ (n : ℕ) (buffer : List ℕ) (lo : 8 ≤ n) (hi : n < length buffer) where
  terminated_lem : splice n (0 ∷ []) buffer ≡ take n buffer ++ (0 ∷ drop (n + 1) buffer)
  terminated_lem = splice_lem n (0 ∷ []) buffer (omega arith)

  length-terminated : length (take n buffer ++ (0 ∷ drop (n + 1) buffer)) ≡ length buffer
  length-terminated = sym (ap length terminated_lem) ∙ length-splice n (0 ∷ []) buffer

  pub seal-Sealed : (sealed : List ℕ) × (seal n buffer ≡ some sealed) × Sealed n buffer sealed
  unfolding seal
  seal-Sealed =
      let (h, e) = hash-total (body n buffer ++ (0 ∷ [])) (HasNul-append (body n buffer) []) in
      (
        le_bytes 8 h ++ (body n buffer ++ (0 ∷ drop (n + 1) buffer)),
        rw (
          terminated_lem,
          drop-body n buffer (0 ∷ drop (n + 1) buffer) lo (omega arith),
          hash-append_nul (body n buffer) (drop (n + 1) buffer) [],
          e,
          splice_front 8 (le_bytes 8 h) (take n buffer ++ (0 ∷ drop (n + 1) buffer))
              (length-le_bytes 8 h) (omega (arith, length-terminated)),
          drop-body n buffer (0 ∷ drop (n + 1) buffer) lo (omega arith),
        ),
        record { h = h; hashed = e; contents = refl },
      )

  pub length-body : length (body n buffer) ≡ n - 8
  length-body = omega (arith, length-drop 8 (take n buffer), length-take n buffer)

  -- The bytes of a sealed transmission that are sent.
  take-Sealed :
      {sealed : List ℕ} (s : Sealed n buffer sealed)
      → take n sealed ≡ le_bytes 8 s.h ++ body n buffer
  take-Sealed s =
      rw (s.contents, ← append_assoc)
        (take-append n (le_bytes 8 s.h ++ body n buffer) _ (
          omega (
            arith,
            length-append (le_bytes 8 s.h) (body n buffer),
            length-le_bytes 8 s.h,
            length-body,
          )))

-- A datagram is received in front of a NUL.
pub receive_lem :
    (datagram buffer : List ℕ)
    → length datagram < length buffer
    → receive datagram buffer ≡ datagram ++ (0 ∷ drop (length datagram + 1) buffer)
unfolding receive
receive_lem datagram buffer h = rw (
  splice_lem (length datagram) (0 ∷ []) (splice 0 datagram buffer)
      (omega (arith, length-splice 0 datagram buffer)),
  take-splice_end 0 (length datagram) datagram buffer (omega arith) (omega arith),
  drop-splice (length datagram + 1) 0 datagram buffer (omega arith),
)

checksum_matches-hashed :
    (h : ℕ) (bytes rest : List ℕ)
    → hash (bytes ++ (0 ∷ [])) ≡ some h
    → checksum_matches (le_bytes 8 h ++ (bytes ++ (0 ∷ rest))) ≡ some true
unfolding checksum_matches
checksum_matches-hashed h bytes rest e = rw (
  drop-append 8 (le_bytes 8 h) (bytes ++ (0 ∷ rest)) (omega (arith, length-le_bytes 8 h)),
  take-append 8 (le_bytes 8 h) (bytes ++ (0 ∷ rest)) (omega (arith, length-le_bytes 8 h)),
  hash-append_nul bytes rest [],
  e,
  le_value-le_bytes_8 h (hash-lt (bytes ++ (0 ∷ [])) e),
  ==_refl h,
)

module _ (n : ℕ) (buffer incoming : List ℕ) (lo : 8 ≤ n) (hi : n < length buffer)
    (room : n < length incoming) where
  -- What the other side has in its buffer.
  pub receive-Sealed :
      {sealed : List ℕ} (s : Sealed n buffer sealed)
      → receive (take n sealed) incoming
        ≡ le_bytes 8 s.h ++ (body n buffer ++ (0 ∷ drop (n + 1) incoming))
  receive-Sealed s =
      let len : length (le_bytes 8 s.h ++ body n buffer) ≡ n = omega (
        arith,
        length-append (le_bytes 8 s.h) (body n buffer),
        length-le_bytes 8 s.h,
        length-body n buffer lo hi,
      ) in
      rw (
        take-Sealed n buffer lo hi s,
        receive_lem (le_bytes 8 s.h ++ body n buffer) incoming (omega arith),
        len,
        append_assoc,
      )

  pub checksum_matches-Sealed :
      {sealed : List ℕ} (s : Sealed n buffer sealed)
      → checksum_matches (receive (take n sealed) incoming) ≡ some true
  checksum_matches-Sealed s =
      rw (receive-Sealed s)
        (checksum_matches-hashed s.h (body n buffer) (drop (n + 1) incoming) s.hashed)

-- Sealing succeeds in place.
pub seal-total :
    (n : ℕ) (buffer : List ℕ)
    → 8 ≤ n
    → n < length buffer
    → (sealed : List ℕ) × (seal n buffer ≡ some sealed) × (length sealed ≡ length buffer)
seal-total n buffer lo hi =
    let (sealed, e, s) = seal-Sealed n buffer lo hi in
    (
      sealed,
      e,
      rw s.contents (
          omega (
            arith,
            length-append (le_bytes 8 s.h) (body n buffer ++ (0 ∷ drop (n + 1) buffer)),
            length-append (body n buffer) (0 ∷ drop (n + 1) buffer),
            length-le_bytes 8 s.h,
            length-body n buffer lo hi,
            length-drop (n + 1) buffer,
          )),
    )

-- A buffer that holds a NUL behind the hash field still does when a datagram has come in, so the
-- hash of it never runs past its end.
pub receive-HasNul :
    (datagram buffer : List ℕ)
    → length datagram < length buffer
    → HasNul (drop 8 buffer)
    → HasNul (drop 8 (receive datagram buffer))
receive-HasNul datagram buffer h nul = elim (dec_le 8 (length datagram)) [
  | yes long ↦
      rw
        (
          receive_lem datagram buffer h,
          drop-append_le 8 datagram (0 ∷ drop (length datagram + 1) buffer) long,
        )
        (HasNul-append (drop 8 datagram) (drop (length datagram + 1) buffer))
  | no short ↦
      unfold receive in
      rw
        (
          drop-splice 8 (length datagram) (0 ∷ []) (splice 0 datagram buffer) (omega arith),
          drop-splice 8 0 datagram buffer (omega arith),
        )
        nul
]

pub checksum_matches-total :
    (buffer : List ℕ) → HasNul (drop 8 buffer) → (b : Bool) × (checksum_matches buffer ≡ some b)
unfolding checksum_matches
checksum_matches-total buffer nul =
    let (h, e) = hash-total (drop 8 buffer) nul in (h == le_value (slice 0 8 buffer), rw e)

pub length-receive : (datagram buffer : List ℕ) → length (receive datagram buffer) ≡ length buffer
unfolding receive
length-receive datagram buffer =
    length-splice (length datagram) (0 ∷ []) (splice 0 datagram buffer)
    ∙ length-splice 0 datagram buffer
