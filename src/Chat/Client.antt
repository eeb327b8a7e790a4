-- ===== src/Chat/Client.antt =====
-- lab2/client.c. The two threads share the flags under their locks: a turn of either loop is one
-- step. `none` is a fault: a read outside a buffer or through a wild pointer.
use cosc_60_computer_network.Prelude.{
  ℕ, Bool, true, false, Option, none, some, List, [], ◌∷◌, ◌++◌, length, ltb, ◌||◌, ◌>>=◌,
  if◌then◌else◌,
}
use cosc_60_computer_network.Prelude.Int.{◌==ℤ◌}
use cosc_60_computer_network.Bytes.{splice}
use cosc_60_computer_network.Dpp.{
  Parsed, parse_transmission, printed_username, printed_message, same_text, find_delimiter, text_at,
  build_join, build_message, build_quit, max_username_length, dpp_message_type, dpp_join_type,
  dpp_quit_type, dpp_unknown_type,
}
use cosc_60_computer_network.Chat.{Recv, failed, disconnected, bytes}

-- A printed line, by what its format says.
pub data Line : Type 0 where
  trying_to_join : Line
  message : List ℕ → List ℕ → Line
  joined_myself : Line
  joined : List ℕ → Line
  quitted : List ℕ → Line
  garbo_transmission : Line
  garbo_return_value : Line
  connection_terminated : Line
  disconnection_requested : Line

pub record Client : Type 0 where
  pub username : List ℕ
  pub join_acknowledged : Bool
  pub quit_necessary : Bool
  pub receiver_buffer : List ℕ
  pub sender_buffer : List ℕ
  pub printed : List Line
  pub sent : List (List ℕ)

-- What becomes of a thread: it goes on, leaves its loop, or ends the program.
pub data Outcome : Type 0 where
  goes_on : Outcome
  leaves : Outcome
  exits : Outcome

abbrev pub is_null : Option ℕ → Bool
is_null none = true
is_null (some i) = false

-- The checks of the username in main(): short enough, and no delimiter in it.
unfoldable pub accepts_username : List ℕ → Option Bool
accepts_username username =
    if ltb max_username_length (length username)
    then some false
    else (find_delimiter (username ++ (0 ∷ [])) >>= λ found. some (is_null found))

abbrev pub print_line : Line → Client → Client
print_line l c = record c { printed = c.printed ++ (l ∷ []) }

unfoldable pub print_message : Parsed → Client → Option Client
print_message p c = do
  u ← printed_username p
  m ← printed_message p
  some (print_line (message u m) c)

abbrev pub acknowledge_join : List ℕ → Client → Client
acknowledge_join u c =
    if same_text u c.username
    then record (print_line joined_myself c) { join_acknowledged = true }
    else print_line (joined u) c

-- What is done with a parsed transmission.
unfoldable pub interpret : Parsed → Client → Option Client
interpret p c =
    if p.type ==ℤ dpp_message_type
    then print_message p c
    else if p.type ==ℤ dpp_join_type
    then (printed_username p >>= λ u. some (acknowledge_join u c))
    else if p.type ==ℤ dpp_quit_type
    then (printed_username p >>= λ u. some (print_line (quitted u) c))
    else if p.type ==ℤ dpp_unknown_type
    then some (print_line garbo_transmission c)
    else some (print_line garbo_return_value c)

-- A transmission in the buffer is parsed and interpreted.
unfoldable pub process : ℕ → Client → Option (Outcome × Client)
process n c = do
  p ← parse_transmission c.receiver_buffer n
  c' ← interpret p (record c { receiver_buffer = p.buffer })
  some (goes_on, c')

-- Nothing is interpreted any more once the user has asked to quit.
unfoldable pub handle_transmission : ℕ → Client → Option (Outcome × Client)
handle_transmission n c = if c.quit_necessary then some (leaves, c) else process n c

-- A turn of the receiving loop of main().
unfoldable pub receive_round : Recv → Client → Option (Outcome × Client)
receive_round failed c = some (exits, c)
receive_round disconnected c =
    some (leaves, record (print_line connection_terminated c) { quit_necessary = true })
receive_round (bytes first others) c =
    let received = first ∷ others in
    handle_transmission (length received)
      (record c { receiver_buffer = splice 0 received c.receiver_buffer })

-- send() of `strlen` bytes of the buffer, which may fail.
unfoldable pub send_buffer : Bool → Client → Option (Outcome × Client)
send_buffer succeeds c = do
  text ← text_at c.sender_buffer
  some (if succeeds then (goes_on, record c { sent = c.sent ++ (text ∷ []) }) else (exits, c))

-- The beginning of client_sender().
unfoldable pub request_join : Bool → Client → Option (Outcome × Client)
request_join succeeds c = do
  w ← build_join c.sender_buffer c.username
  send_buffer succeeds (record (print_line trying_to_join c) { sender_buffer = w.0 })

-- Whether the wait for the acknowledgement is over.
abbrev pub may_chat : Client → Bool
may_chat c = c.join_acknowledged || c.quit_necessary

-- A line from fgets(), or its NULL at the end of the input.
unfoldable pub build_line : Option (List ℕ) → Client → Option Client
build_line none c = do
  w ← build_quit c.sender_buffer c.username
  some
      (record (print_line disconnection_requested c) { quit_necessary = true; sender_buffer = w.0 })
build_line (some line) c = do
  w ← build_message c.sender_buffer c.username line
  some (record c { sender_buffer = w.0 })

-- A turn of the loop of client_sender().
unfoldable pub sender_round : Option (List ℕ) → Bool → Client → Option (Outcome × Client)
sender_round line succeeds c =
    if c.quit_necessary then some (leaves, c) else (build_line line c >>= send_buffer succeeds)
