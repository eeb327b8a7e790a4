-- ===== src/Transport/Datagrams.antt =====
-- What stands on the network: DATA that show a payload of the stream, and ADATs.
use cosc_60_computer_network.Prelude.{
  ℕ, ◌+◌, ◌*◌, ◌≤◌, ◌<◌, zero, suc, ◌≡◌, refl, ap, ◌∙◌, true, some, List, [], ◌∷◌, length, drop,
  get_elem?, Whenever, gives, Whenever->>=, Whenever-any, arith,
}
use mathlib.Core.Path.{subst}
use cosc_60_computer_network.Prelude.Int.{ℤ, pos, negsuc}
use cosc_60_computer_network.Bytes.{splice, slice, length-splice}
use cosc_60_computer_network.Mrt.{data_type, adat_type}
use cosc_60_computer_network.Hash.{hash}
use cosc_60_computer_network.Packet.{seal, put_int, get_int, receive, checksum_matches}
use cosc_60_computer_network.Packet.Fields.{length-put_int}
use cosc_60_computer_network.Sender.State.{Connection}
use cosc_60_computer_network.Sender.Build.{build_data_empty, build_data, sending_frag}
use cosc_60_computer_network.Sender.Window.{payload, payloads}

-- A datagram that, whatever was in the buffer of `room` bytes that it comes into, passes the check
-- and reads with this type and number.
pub record Shows (room : ℕ) (type frag : ℤ) (d : List ℕ) : Type 0 where
  pub accepted : (b : List ℕ) → length b ≡ room → checksum_matches (receive d b) ≡ some true
  pub type_read : (b : List ℕ) → length b ≡ room → get_int 8 (receive d b) ≡ type
  pub frag_read : (b : List ℕ) → length b ≡ room → get_int 12 (receive d b) ≡ frag

-- An empty DATA, or one with the payload in the place `i` of the stream and the number `i + 1`.
pub data IsData (submitted : List (List ℕ)) (d : List ℕ) : Type 0 where
  empty : length d ≡ 16 → Shows 509 data_type (negsuc 0) d → IsData submitted d
  fragment :
      (i : ℕ) (p : List ℕ)
      → get_elem? submitted i ≡ some p
      → length d ≡ 20 + length p
      → length p ≤ 488
      → Shows 509 data_type (pos (i + 1)) d
      → ((b : List ℕ) → length b ≡ 509 → slice 20 (length p) (receive d b) ≡ p)
      → IsData submitted d

-- An ADAT that acknowledges the fragments up to some number that is at most `k`.
pub data IsAdat (k : ℕ) (d : List ℕ) : Type 0 where
  adat : (i : ℕ) → i ≤ k → length d ≡ 20 → Shows 21 adat_type (pos i) d → IsAdat k d

-- An ADAT that acknowledges just the fragments up to `k`, and has the window `w`.
pub record ShowsAdat (k : ℕ) (w : ℤ) (d : List ℕ) : Type 0 where
  pub size : length d ≡ 20
  pub shows : Shows 21 adat_type (pos k) d
  pub window_read : (b : List ℕ) → length b ≡ 21 → get_int 16 (receive d b) ≡ w

seal-length : (n : ℕ) (b : List ℕ) → Whenever (λ o. length o ≡ length b) (seal n b)
unfolding seal
seal-length n b =
    Whenever->>= (Whenever-any (hash (drop 8 (splice n (0 ∷ []) b))))
      (λ h _. gives (length-splice 0 _ (splice n (0 ∷ []) b) ∙ length-splice n (0 ∷ []) b))

pub build_data_empty-length :
    (b : List ℕ) → Whenever (λ o. length o ≡ length b) (build_data_empty b)
unfolding build_data_empty
build_data_empty-length b =
    subst
      (λ n. Whenever (λ o. length o ≡ n) (seal 16 (put_int 12 (negsuc 0) (put_int 8 data_type b))))
      (length-put_int 12 (negsuc 0) (put_int 8 data_type b) ∙ length-put_int 8 data_type b)
      (seal-length 16 (put_int 12 (negsuc 0) (put_int 8 data_type b)))

pub build_data-length :
    (c : Connection) (i n : ℕ)
    → Whenever (λ o. length o ≡ length c.outgoing_buffer) (build_data c i n)
unfolding build_data
build_data-length c i n =
    let chunk = slice (i * 488) n c.sender_buffer in
    let b1 = put_int 8 data_type c.outgoing_buffer in
    let b2 = put_int 12 (sending_frag c i) b1 in
    subst (λ k. Whenever (λ o. length o ≡ k) (seal (20 + n) (splice 20 chunk b2)))
      (length-splice 20 chunk b2
        ∙ length-put_int 12 (sending_frag c i) b1
        ∙ length-put_int 8 data_type c.outgoing_buffer)
      (seal-length (20 + n) (splice 20 chunk b2))

pub get_elem?-payloads :
    (lengths buffer : List ℕ) (i j n : ℕ)
    → j < n
    → get_elem? (payloads lengths buffer i n) j ≡ some (payload lengths buffer (i + j))
get_elem?-payloads lengths buffer i j zero h = absurd (omega arith)
get_elem?-payloads lengths buffer i zero (suc n) h =
    ap (λ k. some (payload lengths buffer k)) (omega arith)
get_elem?-payloads lengths buffer i (suc j) (suc n) h =
    get_elem?-payloads lengths buffer (suc i) j n (omega arith)
    ∙ ap (λ k. some (payload lengths buffer k)) (omega arith)

pub get_elem?-drop : (xs : List (List ℕ)) (k j : ℕ) → get_elem? (drop k xs) j ≡ get_elem? xs (k + j)
get_elem?-drop xs zero j = ap (λ i. get_elem? xs i) (omega arith)
get_elem?-drop [] (suc k) j = refl
get_elem?-drop (x ∷ xs) (suc k) j =
    get_elem?-drop xs k j
    ∙ ap (λ i. get_elem? (x ∷ xs) i) {x = suc (k + j)} {y = suc k + j} (omega arith)
