-- ===== src/Packet/Fields.antt =====
-- The fields of a transmission that is received whole are those that were written.
use cosc_60_computer_network.Prelude.{
  ℕ, ◌+◌, ◌-◌, ◌≤◌, ◌<◌, ◌≡◌, sym, ap, ◌∙◌, true, some, List, arith, length, take,
}
use cosc_60_computer_network.Prelude.Int.{
  ℤ, IsInt, word_of_int, int_of_word, wrap_lem, word_of_int-lt,
}
use cosc_60_computer_network.Bytes.{
  slice-append_left, slice-append_right, slice-take, drop-drop, splice, slice, le_bytes, le_value,
  length-splice, slice-splice_self, slice-splice_before, length-le_bytes, le_value-le_bytes_4,
}
use cosc_60_computer_network.Packet.{put_int, get_int, seal, receive, checksum_matches}
use cosc_60_computer_network.Packet.Seal.{
  body, length-body, receive-Sealed, seal-Sealed, checksum_matches-Sealed,
}

slice-body :
    (i k n : ℕ) (buffer : List ℕ)
    → 8 ≤ i
    → i + k ≤ n
    → slice (i - 8) k (body n buffer) ≡ slice i k buffer
slice-body i k n buffer lo hi =
    ap (λ l. take k l) (drop-drop 8 (i - 8) i (take n buffer) (omega arith))
    ∙ slice-take i k n buffer hi

-- What a side finds in its buffer when a transmission of `n` bytes, sealed from `buffer`, has come
-- in whole: the check passes, and every field behind the hash reads as it was written.
pub record Arrives (n : ℕ) (buffer received : List ℕ) : Type 0 where
  pub accepted : checksum_matches received ≡ some true
  pub fields : (i k : ℕ) → 8 ≤ i → i + k ≤ n → slice i k received ≡ slice i k buffer

module _ (n : ℕ) (buffer incoming : List ℕ) (lo : 8 ≤ n) (hi : n < length buffer)
    (room : n < length incoming) where
  -- Sealing `n` bytes, at least a hash field and less than the buffer, ends without a fault, and
  -- what is sealed, received whole into a buffer that is longer, passes the check there and has
  -- every field behind the hash as it was written.
  pub seal-Arrives :
      (sealed : List ℕ) × (seal n buffer ≡ some sealed)
      × Arrives n buffer (receive (take n sealed) incoming)
  seal-Arrives =
      let (sealed, e, s) = seal-Sealed n buffer lo hi in
      (
        sealed,
        e,
        record {
          accepted = checksum_matches-Sealed n buffer incoming lo hi room s;
          fields = λ i k l m.
              rw
                (
                  receive-Sealed n buffer incoming lo hi room s,
                  slice-append_right i k (le_bytes 8 s.h) _ (omega (arith, length-le_bytes 8 s.h)),
                  length-le_bytes 8 s.h,
                  slice-append_left (i - 8) k (body n buffer) _
                      (omega (arith, length-body n buffer lo hi)),
                )
                (slice-body i k n buffer l m);
        },
      )

-- An `int` that is written inside a buffer reads back as itself.
pub get_int-put_int :
    (location : ℕ) (value : ℤ) (buffer : List ℕ)
    → location + 4 ≤ length buffer
    → IsInt value
    → get_int location (put_int location value buffer) ≡ value
unfolding get_int put_int
get_int-put_int location value buffer h isint =
    let w : ℕ = word_of_int value in
    let e = length-le_bytes 4 w in
    let written = slice-splice_self location (le_bytes 4 w) buffer (omega arith) in
    ap (λ k. int_of_word (le_value (slice location k (splice location (le_bytes 4 w) buffer))))
      (sym e)
    ∙ ap (λ l. int_of_word (le_value l)) written
    ∙ ap int_of_word (le_value-le_bytes_4 w (word_of_int-lt value))
    ∙ wrap_lem value isint

pub length-put_int :
    (location : ℕ) (value : ℤ) (buffer : List ℕ)
    → length (put_int location value buffer) ≡ length buffer
unfolding put_int
length-put_int location value buffer = length-splice location _ buffer

-- Writing a field leaves the fields in front of it.
pub get_int-put_int_before :
    (i location : ℕ) (value : ℤ) (buffer : List ℕ)
    → i + 4 ≤ location
    → get_int i (put_int location value buffer) ≡ get_int i buffer
unfolding get_int put_int
get_int-put_int_before i location value buffer h =
    ap (λ l. int_of_word (le_value l)) (slice-splice_before i 4 location _ buffer h)

pub get_int-Arrives :
    {n : ℕ} {buffer received : List ℕ} (location : ℕ)
    → Arrives n buffer received
    → 8 ≤ location
    → location + 4 ≤ n
    → get_int location received ≡ get_int location buffer
unfolding get_int
get_int-Arrives location a lo hi = ap (λ l. int_of_word (le_value l)) (a.fields location 4 lo hi)
