-- ===== src/Tests/Packets.antt =====
-- The hash and the fields of a transmission.
use cosc_60_computer_network.Prelude.{◌≡◌, ◌≢◌, refl, inl, inr, [], ◌∷◌, ◌++◌, replicate, arith}
use cosc_60_computer_network.Hash.{hash}
use cosc_60_computer_network.Hash.Detect.{hash_one_byte}
use cosc_60_computer_network.Packet.{checksum_matches}
use cosc_60_computer_network.Packet.Blind.{checksum_matches_blind}

hash_one_byte_example : hash (97 ∷ 98 ∷ 99 ∷ 0 ∷ []) ≢ hash (97 ∷ 120 ∷ 99 ∷ 0 ∷ [])
hash_one_byte_example =
    hash_one_byte (97 ∷ []) (99 ∷ 0 ∷ []) 98 120 (omega arith, tt) (inr (inl refl)) (omega arith)
      (omega arith) (omega arith) (omega arith) (omega arith)

checksum_matches_blind_example :
    checksum_matches (replicate 8 1 ++ (3 ∷ 0 ∷ 5 ∷ 6 ∷ []))
    ≡ checksum_matches (replicate 8 1 ++ (3 ∷ 0 ∷ 7 ∷ []))
checksum_matches_blind_example = checksum_matches_blind (replicate 8 1) (5 ∷ 6 ∷ []) (7 ∷ []) 3 refl
