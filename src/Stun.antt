-- ===== src/Stun.antt =====
-- lab4/stun_symmetry.c: response_handler(), which looks for the user's translated address in the
-- responses of STUN servers. `none` is a fault: a read behind the response buffer.
pub mod Verdict
pub mod Walk
pub mod Requests
pub mod ConeLevel
use Prim.Native.Nat.{bit_xor}
use cosc_60_computer_network.Prelude.{
  ℕ, zero, suc, ◌+◌, ◌*◌, ◌%◌, ◌^◌, Bool, true, false, ◌&&◌, not, Option, none, some, List, [], ◌∷◌,
  ◌++◌, ltb, ◌==◌, get_elem?, if◌then◌else◌, ◌>>=◌,
}
use cosc_60_computer_network.Bytes.{splice}
use cosc_60_computer_network.Dpp.{same_text}

abbrev pub stun_header_size : ℕ
stun_header_size = 20

-- ntohs() of the 16 bits at an offset.
unfoldable pub read_short : List ℕ → ℕ → Option ℕ
read_short b i = do high ← get_elem? b i; low ← get_elem? b (i + 1); some (high * 256 + low)

-- The 32 bits at an offset, as `s_addr` keeps them: four bytes.
unfoldable pub read_address : List ℕ → ℕ → Option (List ℕ)
read_address b i = do
  w ← get_elem? b i
  x ← get_elem? b (i + 1)
  y ← get_elem? b (i + 2)
  z ← get_elem? b (i + 3)
  some (w ∷ x ∷ y ∷ z ∷ [])

-- An address as it is printed, and its port.
pub record Found : Type 0 where
  pub ipv4 : List ℕ
  pub port : ℕ

-- nat_ipv4_holder, nat_port_holder, is_behind_symmetric_nat, and the addresses printed so far.
pub record Holder : Type 0 where
  pub nat_ipv4 : List ℕ
  pub nat_port : ℕ
  pub is_behind_symmetric_nat : Bool
  pub found : List Found

abbrev pub empty_holder : Holder
empty_holder = record { nat_ipv4 = []; nat_port = 0; is_behind_symmetric_nat = false; found = [] }

abbrev pub same_found : List ℕ → ℕ → Found → Bool
same_found ipv4 port f = same_text ipv4 f.ipv4 && (port == f.port)

abbrev pub is_empty : List ℕ → Bool
is_empty [] = true
is_empty (c ∷ cs) = false

-- The first address is kept, every other one is compared with it.
unfoldable pub compare_address : Found → Holder → Holder
compare_address f h =
    let h' = record h { found = h.found ++ (f ∷ []) } in
    if is_empty h.nat_ipv4
    then record h' { nat_ipv4 = f.ipv4; nat_port = f.port }
    else if same_found h.nat_ipv4 h.nat_port f
    then h'
    else record h' { is_behind_symmetric_nat = true }

-- What the loop over the attributes leaves: it ended, or the fuel did.
pub data Walked : Type 0 where
  ended : Holder → Walked
  unfinished : Holder → Walked

abbrev pub next_response : (Holder → Option Walked) → Walked → Option Walked
next_response k (ended h) = k h
next_response k (unfinished h) = some (unfinished h)

-- What getnameinfo() makes of an address is a parameter.
module _ (hostname : List ℕ → List ℕ) where
  -- MAPPED-ADDRESS
  unfoldable pub mapped : List ℕ → ℕ → Holder → Option Holder
  mapped b location h = do
    port ← read_short b (location + 6)
    address ← read_address b (location + 8)
    some (compare_address (record { ipv4 = hostname address; port = port }) h)

  abbrev pub xor_bytes : List ℕ → List ℕ → List ℕ
  xor_bytes [] ys = []
  xor_bytes (x ∷ xs) [] = []
  xor_bytes (x ∷ xs) (y ∷ ys) = bit_xor x y ∷ xor_bytes xs ys

  -- XOR-MAPPED-ADDRESS: the cookie 0x2112A442 is taken off the address, and
  -- off the port what its cast to 16 bits leaves on a little-endian machine, 0x2112.
  unfoldable pub xor_mapped : List ℕ → ℕ → Holder → Option Holder
  xor_mapped b location h = do
    port ← read_short b (location + 6)
    address ← read_address b (location + 8)
    some (
        compare_address
          (record {
            ipv4 = hostname (xor_bytes address (33 ∷ 18 ∷ 164 ∷ 66 ∷ []));
            port = bit_xor port 8466;
          })
          h)

  unfoldable pub by_attribute_type : ℕ → List ℕ → ℕ → Holder → Option Holder
  by_attribute_type type b location h =
      if type == 1
      then mapped b location h
      else if type == 32
      then xor_mapped b location h
      else some h

  -- One attribute: its length, and what it says.
  unfoldable pub attribute : List ℕ → ℕ → Holder → Option (ℕ × Holder)
  attribute b location h = do
    attribute_length ← read_short b (location + 2)
    type ← read_short b location
    h' ← by_attribute_type type b location h
    some (attribute_length, h')

  -- The loop over the attributes: `location` is where the attribute in front of the next one
  -- starts, and `index` is a uint16_t.
  unfoldable pub walk : ℕ → List ℕ → ℕ → ℕ → ℕ → Holder → Option Walked
  walk zero b num_bytes_attributes location index h = some (unfinished h)
  walk (suc fuel) b num_bytes_attributes location index h =
      if ltb index num_bytes_attributes
      then (attribute b (location + index) h >>= λ a.
          walk fuel b num_bytes_attributes (location + index) ((index + (a.0 + 4)) % 2 ^ 16) a.1)
      else some (ended h)

  unfoldable pub by_response_type : ℕ → ℕ → ℕ → List ℕ → Holder → Option Walked
  by_response_type fuel type num_bytes_attributes b h =
      if type == 257 then walk fuel b num_bytes_attributes stun_header_size 0 h else some (ended h)

  -- A response in the buffer.
  unfoldable pub handle_response : ℕ → List ℕ → Holder → Option Walked
  handle_response fuel b h = do
    num_bytes_attributes ← read_short b 2
    type ← read_short b 0
    by_response_type fuel type num_bytes_attributes b h

  -- Responses one after the other: what recvfrom() brought in, over what the buffer held.
  unfoldable pub response_handler : ℕ → List (List ℕ) → List ℕ → Holder → Option Walked
  response_handler fuel [] b h = some (ended h)
  response_handler fuel (received ∷ rest) b h =
      let b' = splice 0 received b in
      handle_response fuel b' h >>= next_response (response_handler fuel rest b')
