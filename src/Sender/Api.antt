-- ===== src/Sender/Api.antt =====
-- mrt_connect(), mrt_send() and mrt_disconnect(), and the end of handler(). A call that waits is
-- given by its rounds. Connections are known by their number, which no two share. `none` is a fault.
use cosc_60_computer_network.Prelude.{
  ℕ, ◌+◌, ◌-◌, ◌*◌, ◌/◌, ◌%◌, Bool, true, false, not, Option, none, some, List, [], ◌∷◌, ◌++◌, ◌==◌,
  ltb, set, take, if◌then◌else◌, ◌>>=◌,
}
use cosc_60_computer_network.Prelude.Int.{ℤ, pos, negsuc, ◌+ℤ◌, ◌-ℤ◌, leb_ℤ, ltb_ℤ, ◌==ℤ◌, wrap}
use cosc_60_computer_network.Bytes.{splice, slice}
use cosc_60_computer_network.Mrt.{max_mrt_payload_length}
use cosc_60_computer_network.Sender.State.{
  Connection, connection_t_init, connection_matcher, get_item_q, close_timeout_threshold,
  max_payloads_bufferable,
}
use cosc_60_computer_network.Sender.Build.{build_rcon, build_rcls, short_length}
use cosc_60_computer_network.Sender.Threads.{Sent}

-- The globals: `connections_q` is NULL until the first mrt_connect().
pub record Globals : Type 0 where
  pub connections_q : Option (List Connection)
  pub next_id : ℤ

unfoldable pub lookup : ℤ → Globals → Option Connection
unfolding get_item_q
lookup id g = elim (g.connections_q) [ none ↦ none | some cs ↦ get_item_q id cs ]

-- Which calls of mrt_connect() succeed.
pub record ConnectCalls : Type 0 where
  pub queue_ok : Bool
  pub init_ok : Bool
  pub thread_ok : Bool

unfoldable pub queue_or_new : Bool → Option (List Connection) → Option (List Connection)
queue_or_new made (some cs) = some cs
queue_or_new true none = some []
queue_or_new false none = none

unfoldable pub connect_queued : ConnectCalls → ℕ → Globals → List Connection → Globals × Option ℤ
connect_queued calls receiver g cs =
    if not calls.init_ok then (record g { connections_q = some cs }, some (negsuc 0)) else (
      record g {
        connections_q = some (cs ++ (connection_t_init g.next_id receiver ∷ []));
        next_id = wrap (g.next_id +ℤ pos 1);
      },
      if not calls.thread_ok then some (negsuc 0) else none,
    )

-- mrt_connect() up to its loop: -1, or the loop begins.
unfoldable pub connect_start : ConnectCalls → ℕ → Globals → Globals × Option ℤ
connect_start calls receiver g = elim (queue_or_new calls.queue_ok g.connections_q) [
  | none ↦ (g, some (negsuc 0))
  | some cs ↦ connect_queued calls receiver g cs
]

-- A round of the loop of mrt_connect(): the connection's number, or one more RCON.
pub data ConnectRound : Type 0 where
  connected : ℤ → ConnectRound
  asks : Connection → Sent → ConnectRound

unfoldable pub connect_round : Connection → Option ConnectRound
connect_round c =
    if not (c.last_acknowledged_frag ==ℤ negsuc 0)
    then some (connected c.id)
    else (build_rcon c.outgoing_buffer >>= λ outgoing.
        some (asks (record c { outgoing_buffer = outgoing }) (take short_length outgoing)))

-- The ceiling of len / MAX_MRT_PAYLOAD_LENGTH, as the code computes it.
unfoldable pub num_fragments : ℕ → ℕ
num_fragments len =
    len / max_mrt_payload_length + (if len % max_mrt_payload_length == 0 then 0 else 1)

unfoldable pub final_frag : Connection → ℕ → ℤ
final_frag c len = wrap (
    wrap (wrap (c.last_payload_index +ℤ c.last_acknowledged_frag) +ℤ pos 1)
    +ℤ pos (num_fragments len))

-- mrt_send() up to its loop, for a `len` that is not negative: -1, or the last fragment number.
pub data SendStart : Type 0 where
  spurious : ℤ → SendStart
  awaits : ℤ → SendStart

unfoldable pub send_start : ℤ → ℕ → Globals → SendStart
send_start id len g = elim (lookup id g) [
  | none ↦ spurious (negsuc 0)
  | some c ↦ awaits (final_frag c len)
]

-- How a round of the loop of mrt_send() ends: it returns, goes on with so many bytes copied, or
-- sleeps.
pub data SendRound : Type 0 where
  returns : ℤ → SendRound
  goes_on : Connection → ℕ → SendRound
  sleeps : SendRound

unfoldable pub bytes_to_copy : ℕ → ℕ
bytes_to_copy remaining =
    if ltb max_mrt_payload_length remaining then max_mrt_payload_length else remaining

-- The copy of one payload to the first free space. A negative space is a fault.
unfoldable pub copy_payload : List ℕ → ℕ → ℕ → ℤ → Connection → Option SendRound
copy_payload buffer len copied (negsuc k) c = none
copy_payload buffer len copied (pos i) c =
    let n = bytes_to_copy (len - copied) in
    some (
      goes_on
        (record c {
          sender_buffer =
              splice (i * max_mrt_payload_length) (slice copied n buffer) c.sender_buffer;
          last_payload_index = pos i;
          num_bytes_buffered = set c.num_bytes_buffered i n;
        })
        (copied + n))

unfoldable pub buffer_more : List ℕ → ℕ → ℕ → Connection → Option SendRound
buffer_more buffer len copied c =
    let first_free = wrap (c.last_payload_index +ℤ pos 1) in
    if ltb_ℤ (pos 0) (wrap (pos max_payloads_bufferable -ℤ first_free))
    then copy_payload buffer len copied first_free c
    else some (goes_on c copied)

-- A round of the loop of mrt_send(), with the connection that the lookup gives.
unfoldable pub send_round : ℤ → List ℕ → ℕ → ℕ → Option Connection → Option SendRound
send_round final buffer len copied none = some (returns (pos 0))
send_round final buffer len copied (some c) =
    if leb_ℤ final c.last_acknowledged_frag
    then some (returns (pos 1))
    else if ltb copied len
    then buffer_more buffer len copied c
    else some sleeps

-- How a round of mrt_disconnect() ends.
pub data DisconnectRound : Type 0 where
  dropped : DisconnectRound
  closes : Connection → Sent → DisconnectRound
  waits : DisconnectRound

-- A round of mrt_disconnect(), with the RCLS behind its loop.
unfoldable pub disconnect_round : Option Connection → Option DisconnectRound
disconnect_round none = some dropped
disconnect_round (some c) =
    if ltb_ℤ c.last_payload_index (pos 0)
    then (build_rcls c.outgoing_buffer >>= λ outgoing. some (
        closes
          (record c { outgoing_buffer = outgoing; inactive_time = close_timeout_threshold + 1 })
          (take 12 outgoing)))
    else some waits

unfoldable pub pop_connection : ℤ → List Connection → List Connection
pop_connection id [] = []
pop_connection id (c ∷ cs) = if connection_matcher c id then cs else c ∷ pop_connection id cs

unfoldable pub queue_unless_empty : List Connection → Option (List Connection)
queue_unless_empty [] = none
queue_unless_empty (c ∷ cs) = some (c ∷ cs)

-- What handler() does behind its loop: the connection leaves the queue and is freed, and an empty
-- queue is deleted.
unfoldable pub clean_up : ℤ → Globals → Globals
unfolding pop_connection queue_unless_empty
clean_up id g = elim (g.connections_q) [
  | none ↦ g
  | some cs ↦ record g { connections_q = queue_unless_empty (pop_connection id cs) }
]
