-- ===== src/Stun/Walk.antt =====
-- The walk over the attributes of a response, and the walk that the lengths ask for.
use cosc_60_computer_network.Prelude.{
  ℕ, zero, suc, ◌+◌, ◌<◌, ◌≡◌, ◌≢◌, refl, true, false, Option, some, List, ltb, ◌==◌, arith,
  if◌then◌else◌, ◌>>=◌,
}
use cosc_60_computer_network.Stun.{
  Holder, by_attribute_type, attribute, walk, Walked, ended, unfinished, read_short,
  stun_header_size,
}

abbrev pub HasEnded : Walked → Type 0
HasEnded w = (h : Holder) × (w ≡ ended h)

module _ (hostname : List ℕ → List ℕ) where
  -- Each attribute starts where the one in front of it ends.
  unfoldable pub attributes : ℕ → List ℕ → ℕ → ℕ → Holder → Option Walked
  attributes zero b num_bytes_attributes index h = some (unfinished h)
  attributes (suc fuel) b num_bytes_attributes index h =
      if ltb index num_bytes_attributes
      then (attribute hostname b (stun_header_size + index) h >>= λ a.
          attributes fuel b num_bytes_attributes (index + (a.0 + 4)) a.1)
      else some (ended h)

  -- A first attribute that is neither a MAPPED-ADDRESS nor an XOR-MAPPED-ADDRESS and claims
  -- 65532 bytes: however much fuel there is, the loop does not end.
  pub walk-unfinished :
      (fuel : ℕ) (b : List ℕ) (num type : ℕ) (h : Holder)
      → 0 < num
      → read_short b 20 ≡ some type
      → read_short b 22 ≡ some 65532
      → type ≢ 1
      → type ≢ 32
      → walk hostname fuel b num stun_header_size 0 h ≡ some (unfinished h)
  unfolding walk attribute by_attribute_type
  walk-unfinished zero b num type h l t n m x = refl
  walk-unfinished (suc fuel) b num type h l t n m x =
      let e : ltb 0 num ≡ true = ground arith in
      let no_mapped : (type == 1) ≡ false = ground (arith, m) in
      let no_xor : (type == 32) ≡ false = ground (arith, x) in
      let ih = walk-unfinished fuel b num type h l t n m x in
      rw (e, n, t, no_mapped, no_xor, ih) refl
