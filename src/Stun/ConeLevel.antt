-- ===== src/Stun/ConeLevel.antt =====
-- lab4/stun_cone_level.c: response_handler(), which prints the addresses of a response and what the
-- server that answered says of the NAT. `none` is a read behind the response buffer.
pub mod Reports
use cosc_60_computer_network.Prelude.{
  ℕ, zero, suc, ◌+◌, ◌%◌, ◌^◌, Option, none, some, List, [], ◌∷◌, ◌++◌, ltb, ◌==◌, if◌then◌else◌,
  ◌>>=◌,
}
use cosc_60_computer_network.Dpp.{same_text}
use cosc_60_computer_network.Stun.{read_short, read_address, stun_header_size}

-- "77.72.169.210"
abbrev pub original_server_ipv4 : List ℕ
original_server_ipv4 = 55 ∷ 55 ∷ 46 ∷ 55 ∷ 50 ∷ 46 ∷ 49 ∷ 54 ∷ 57 ∷ 46 ∷ 50 ∷ 49 ∷ 48 ∷ []

abbrev pub original_server_port : ℕ
original_server_port = 3478

-- A printed line, by what its format says.
pub data Line : Type 0 where
  mapped_address : List ℕ → ℕ → Line
  source_address : List ℕ → ℕ → Line
  changed_address : List ℕ → ℕ → Line
  irrelevant_attribute : Line
  full_cone : List ℕ → ℕ → Line
  restricted_cone : List ℕ → ℕ → Line
  binding_error : Line
  neither : Line

-- Who answered: the printed address, and the port.
pub record Server : Type 0 where
  pub ipv4 : List ℕ
  pub port : ℕ

-- What a response of that server says of the NAT.
unfoldable pub cone_level : Server → List ℕ → ℕ → List Line
cone_level server ipv4 port =
    if original_server_port == server.port
    then []
    else if same_text server.ipv4 original_server_ipv4
    then restricted_cone ipv4 port ∷ []
    else full_cone ipv4 port ∷ []

pub data Walked : Type 0 where
  ended : List Line → Walked
  unfinished : List Line → Walked

-- What getnameinfo() makes of an address is a parameter.
module _ (hostname : List ℕ → List ℕ) (server : Server) where
  unfoldable pub print_address :
      (List ℕ → ℕ → List Line) → List ℕ → ℕ → List Line → Option (List Line)
  print_address lines_of b location printed = do
    port ← read_short b (location + 6)
    address ← read_address b (location + 8)
    some (printed ++ lines_of (hostname address) port)

  abbrev pub mapped_lines : List ℕ → ℕ → List Line
  mapped_lines ipv4 port = mapped_address ipv4 port ∷ cone_level server ipv4 port

  unfoldable pub by_attribute_type : ℕ → List ℕ → ℕ → List Line → Option (List Line)
  by_attribute_type type b location printed =
      if type == 1
      then print_address mapped_lines b location printed
      else if type == 4
      then print_address (λ ipv4 port. source_address ipv4 port ∷ []) b location printed
      else if type == 5
      then print_address (λ ipv4 port. changed_address ipv4 port ∷ []) b location printed
      else some (printed ++ (irrelevant_attribute ∷ []))

  unfoldable pub attribute : List ℕ → ℕ → List Line → Option (ℕ × List Line)
  attribute b location printed = do
    attribute_length ← read_short b (location + 2)
    type ← read_short b location
    printed' ← by_attribute_type type b location printed
    some (attribute_length, printed')

  -- The loop over the attributes, as in lab4/stun_symmetry.c.
  unfoldable pub walk : ℕ → List ℕ → ℕ → ℕ → ℕ → List Line → Option Walked
  walk zero b num_bytes_attributes location index printed = some (unfinished printed)
  walk (suc fuel) b num_bytes_attributes location index printed =
      if ltb index num_bytes_attributes
      then (attribute b (location + index) printed >>= λ a.
          walk fuel b num_bytes_attributes (location + index) ((index + (a.0 + 4)) % 2 ^ 16) a.1)
      else some (ended printed)

  unfoldable pub by_response_type : ℕ → ℕ → ℕ → List ℕ → List Line → Option Walked
  by_response_type fuel type num_bytes_attributes b printed =
      if type == 257
      then walk fuel b num_bytes_attributes stun_header_size 0 printed
      else if type == 273
      then some (ended (printed ++ (binding_error ∷ [])))
      else some (ended (printed ++ (neither ∷ [])))

  -- A response in the buffer.
  unfoldable pub handle_response : ℕ → List ℕ → List Line → Option Walked
  handle_response fuel b printed = do
    num_bytes_attributes ← read_short b 2
    type ← read_short b 0
    by_response_type fuel type num_bytes_attributes b printed
