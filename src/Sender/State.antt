-- ===== src/Sender/State.antt =====
-- `connection_t` of lab3/mrt_sender.c, and the queue of connections. An `int` is a ℤ whose sums wrap.
-- A queue is the list that `Queue.Refine` shows lab3/Queue.c to implement.
use cosc_60_computer_network.Prelude.{
  ℕ, ◌*◌, Bool, false, Option, none, some, List, [], ◌∷◌, replicate, if◌then◌else◌,
}
use cosc_60_computer_network.Prelude.Int.{ℤ, pos, negsuc, ◌==ℤ◌}
use cosc_60_computer_network.Mrt.{max_mrt_payload_length, expected_rtt}

abbrev pub empty_data_period : ℕ
empty_data_period = expected_rtt * 2

abbrev pub resend_timeout_threshold : ℕ
resend_timeout_threshold = empty_data_period * 3

abbrev pub close_timeout_increment : ℕ
close_timeout_increment = empty_data_period * 2

abbrev pub close_timeout_threshold : ℕ
close_timeout_threshold = close_timeout_increment * 3

abbrev pub max_payloads_bufferable : ℕ
max_payloads_bufferable = 10

-- `connection_t` without its locks, its socket and its threads' handles: `handling`, `sending` and
-- `checking` say which threads run, and `resend_time` is the local variable of sender().
pub record Connection : Type 0 where
  pub id : ℤ
  pub rece_addr : ℕ
  pub last_sent_index : ℤ
  pub last_payload_index : ℤ
  pub sender_buffer : List ℕ
  pub num_bytes_buffered : List ℕ
  pub last_acknowledged_frag : ℤ
  pub receiver_window_size : ℤ
  pub inactive_time : ℕ
  pub should_close : Bool
  pub incoming_buffer : List ℕ
  pub outgoing_buffer : List ℕ
  pub resend_time : ℕ
  pub sending : Bool
  pub checking : Bool

-- connection_t_init() of the connection with the number `next_id`, where malloc(), the locks,
-- socket() and bind() succeed: `calloc` gives zeros.
unfoldable pub connection_t_init : ℤ → ℕ → Connection
connection_t_init next_id receiver = record {
  id = next_id;
  rece_addr = receiver;
  last_sent_index = negsuc 0;
  last_payload_index = negsuc 0;
  sender_buffer = replicate (max_mrt_payload_length * max_payloads_bufferable) 0;
  num_bytes_buffered = replicate max_payloads_bufferable 0;
  last_acknowledged_frag = negsuc 0;
  receiver_window_size = pos 0;
  inactive_time = 0;
  should_close = false;
  incoming_buffer = replicate 21 0;
  outgoing_buffer = replicate 509 0;
  resend_time = 0;
  sending = false;
  checking = false;
}

-- connection_matcher()
unfoldable pub connection_matcher : Connection → ℤ → Bool
connection_matcher c id = c.id ==ℤ id

-- get_item_q(connections_q, connection_matcher, &id)
unfoldable pub get_item_q : ℤ → List Connection → Option Connection
unfolding connection_matcher
get_item_q id [] = none
get_item_q id (c ∷ cs) = if connection_matcher c id then some c else get_item_q id cs
