-- ===== src/Dpp.antt =====
-- lab2/dpp.c: the Dual-Purpose Protocol of the chatroom. A buffer is a list of bytes, a `char *`
-- argument the text in front of its NUL. `none` is a fault: a read or write outside the buffer.
pub mod Search
pub mod Parsing
pub mod RoundTrip
pub mod Safety
pub mod Hearing
use cosc_60_computer_network.Prelude.{
  ℕ, ◌+◌, Bool, true, false, ◌&&◌, Option, none, some, List, [], ◌∷◌, ◌++◌, length, take, drop, set,
  ltb, ◌==◌, if◌then◌else◌, ◌>>=◌,
}
use cosc_60_computer_network.Prelude.Int.{ℤ, pos, negsuc}
use cosc_60_computer_network.Bytes.{splice}

abbrev pub colon : ℕ
colon = 58

abbrev pub dpp_delimiter : List ℕ
dpp_delimiter = colon ∷ colon ∷ []

-- "MSG"
abbrev pub dpp_message : List ℕ
dpp_message = 77 ∷ 83 ∷ 71 ∷ []

-- "HELO"
abbrev pub dpp_join : List ℕ
dpp_join = 72 ∷ 69 ∷ 76 ∷ 79 ∷ []

-- "BYE"
abbrev pub dpp_quit : List ℕ
dpp_quit = 66 ∷ 89 ∷ 69 ∷ []

abbrev pub dpp_max_overhead : ℕ
dpp_max_overhead = 8

abbrev pub max_message_length : ℕ
max_message_length = 512

abbrev pub max_username_length : ℕ
max_username_length = 20

abbrev pub buffer_size : ℕ
buffer_size = max_message_length + max_username_length + dpp_max_overhead + 1

abbrev pub dpp_unknown_type : ℤ
dpp_unknown_type = negsuc 0

abbrev pub dpp_message_type : ℤ
dpp_message_type = pos 0

abbrev pub dpp_join_type : ℤ
dpp_join_type = pos 1

abbrev pub dpp_quit_type : ℤ
dpp_quit_type = pos 2

-- sprintf() of a text, with the NUL behind it: the buffer, and the number of characters.
unfoldable pub print : List ℕ → List ℕ → Option (List ℕ × ℕ)
print text buffer =
    if ltb (length text) (length buffer)
    then some (splice 0 (text ++ (0 ∷ [])) buffer, length text)
    else none

abbrev pub message_text : List ℕ → List ℕ → List ℕ
message_text username message =
    dpp_message ++ (dpp_delimiter ++ (username ++ (dpp_delimiter ++ message)))

abbrev pub join_text : List ℕ → List ℕ
join_text username = dpp_join ++ (dpp_delimiter ++ username)

abbrev pub quit_text : List ℕ → List ℕ
quit_text username = dpp_quit ++ (dpp_delimiter ++ username)

unfoldable pub build_message : List ℕ → List ℕ → List ℕ → Option (List ℕ × ℕ)
build_message buffer username message = print (message_text username message) buffer

unfoldable pub build_join : List ℕ → List ℕ → Option (List ℕ × ℕ)
build_join buffer username = print (join_text username) buffer

unfoldable pub build_quit : List ℕ → List ℕ → Option (List ℕ × ℕ)
build_quit buffer username = print (quit_text username) buffer

abbrev pub one_further : Option ℕ → Option ℕ
one_further none = none
one_further (some i) = some (i + 1)

-- strstr(text, DPP_DELIMITER): how far into the text the delimiter stands, or NULL.
unfoldable pub find_delimiter : List ℕ → Option (Option ℕ)
find_delimiter [] = none
find_delimiter (c ∷ []) = if c == 0 then some none else none
find_delimiter (c ∷ d ∷ cs) =
    let rest = find_delimiter (d ∷ cs) in
    if c == 0
    then some none
    else if (c == colon) && (d == colon)
    then some (some 0)
    else (rest >>= λ i. some (one_further i))

-- The text at an address.
unfoldable pub text_at : List ℕ → Option (List ℕ)
text_at [] = none
text_at (c ∷ cs) = let rest = text_at cs in if c == 0 then some [] else (rest >>= λ t. some (c ∷ t))

-- strcmp() == 0
unfoldable pub same_text : List ℕ → List ℕ → Bool
same_text [] [] = true
same_text (x ∷ xs) (y ∷ ys) = (x == y) && same_text xs ys
same_text [] (y ∷ ys) = false
same_text (x ∷ xs) [] = false

-- What `*message_pointer` becomes: left as it was, a place in the buffer, or NULL + 2.
pub data MessagePointer : Type 0 where
  unset : MessagePointer
  place : ℕ → MessagePointer
  wild : MessagePointer

pub record Parsed : Type 0 where
  pub type : ℤ
  pub username : Option ℕ
  pub message : MessagePointer
  pub buffer : List ℕ

abbrev pub message_place : Option ℕ → MessagePointer
message_place none = wild
message_place (some i) = place (i + 2)

-- The comparisons at the end, with both delimiters overwritten.
unfoldable pub by_type : List ℕ → ℕ → Option ℕ → List ℕ → Parsed
by_type type username delimiter b =
    if same_text type dpp_message
    then record {
      type = dpp_message_type;
      username = some username;
      message = message_place delimiter;
      buffer = b;
    }
    else if same_text type dpp_join
    then record { type = dpp_join_type; username = some username; message = unset; buffer = b }
    else if same_text type dpp_quit
    then record { type = dpp_quit_type; username = some username; message = unset; buffer = b }
    else record { type = dpp_unknown_type; username = some username; message = unset; buffer = b }

abbrev pub overwrite : Option ℕ → List ℕ → List ℕ
overwrite none b = b
overwrite (some i) b = set b i 0

abbrev pub from_start : ℕ → Option ℕ → Option ℕ
from_start start none = none
from_start start (some i) = some (start + i)

-- From the first delimiter on, which stands at `i`.
unfoldable pub split_username : ℕ → List ℕ → Option Parsed
split_username i b = do
  found ← find_delimiter (drop (i + 2) b)
  let b' = overwrite (from_start (i + 2) found) b
  type ← text_at b'
  some (by_type type (i + 2) (from_start (i + 2) found) b')

unfoldable pub split_type : List ℕ → Option ℕ → Option Parsed
split_type b none =
    some (record { type = dpp_unknown_type; username = none; message = unset; buffer = b })
split_type b (some i) = split_username i (set b i 0)

unfoldable pub parse_transmission : List ℕ → ℕ → Option Parsed
parse_transmission buffer num_char_received =
    if ltb num_char_received (length buffer)
    then (let b = set buffer num_char_received 0 in find_delimiter b >>= split_type b)
    else none

-- strncmp() of the first three characters.
unfoldable pub is_quit : List ℕ → Bool
is_quit buffer = same_text (take 3 buffer) dpp_quit

-- What `%s` prints at the two pointers.
unfoldable pub printed_username : Parsed → Option (List ℕ)
printed_username p = p.username >>= λ i. text_at (drop i p.buffer)

abbrev pub text_of : MessagePointer → List ℕ → Option (List ℕ)
text_of unset b = none
text_of (place i) b = text_at (drop i b)
text_of wild b = none

unfoldable pub printed_message : Parsed → Option (List ℕ)
printed_message p = text_of p.message p.buffer
