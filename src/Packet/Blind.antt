-- ===== src/Packet/Blind.antt =====
-- What the checksum of a transmission does not cover.
use cosc_60_computer_network.Prelude.{
  ℕ, ◌≡◌, List, [], ◌∷◌, ◌++◌, arith, length, drop-append, take-append,
}
use cosc_60_computer_network.Hash.Coverage.{hash-append_nul}
use cosc_60_computer_network.Packet.{checksum_matches}

-- The hash stops at the first NUL, and the second byte of every type code is one: whatever is
-- changed behind it (the fragment number, the window size, the payload) passes the check as before.
pub checksum_matches_blind :
    (hash_field rest rest' : List ℕ) (type_byte : ℕ)
    → length hash_field ≡ 8
    → checksum_matches (hash_field ++ (type_byte ∷ 0 ∷ rest))
      ≡ checksum_matches (hash_field ++ (type_byte ∷ 0 ∷ rest'))
unfolding checksum_matches
checksum_matches_blind hash_field rest rest' type_byte e = rw (
  drop-append 8 hash_field (type_byte ∷ 0 ∷ rest) (omega arith),
  drop-append 8 hash_field (type_byte ∷ 0 ∷ rest') (omega arith),
  take-append 8 hash_field (type_byte ∷ 0 ∷ rest) (omega arith),
  take-append 8 hash_field (type_byte ∷ 0 ∷ rest') (omega arith),
  hash-append_nul (type_byte ∷ []) rest rest',
)
