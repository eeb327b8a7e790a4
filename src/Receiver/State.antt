-- ===== src/Receiver/State.antt =====
-- The globals of lab3/mrt_receiver.c and the queues of `sender_t *` that they hold. A queue is the
-- list that `Queue.Refine` shows lab3/Queue.c to implement; `sender_t` structs stand in memory.
use cosc_60_computer_network.Prelude.{
  ℕ, ◌*◌, Bool, Option, none, some, List, [], ◌∷◌, ◌++◌, ◌==◌, if◌then◌else◌, ◌>>=◌,
}
use cosc_60_computer_network.Prelude.Int.{ℤ}
use cosc_60_computer_network.Mrt.{max_mrt_payload_length, expected_rtt}

abbrev pub receiver_max_window_size : ℕ
receiver_max_window_size = max_mrt_payload_length * 5

abbrev pub checker_period : ℕ
checker_period = expected_rtt * 4

abbrev pub timeout_threshold : ℕ
timeout_threshold = checker_period * 3

-- The 16 bytes of a `struct sockaddr_in`, as one number: memcmp() is 0 where they are equal.
abbrev pub SockaddrIn : Type 0
SockaddrIn = ℕ

abbrev pub Ptr : Type 0
Ptr = ℕ

-- `sender_t`; its thread handle is the entry of `checkers` below.
pub record Sender : Type 0 where
  pub addr : SockaddrIn
  pub buffer : List ℕ
  pub bytes_unread : ℕ
  pub next_frag : ℤ
  pub inactive_time : ℕ

-- A global `q_t *`: NULL before mrt_open(), then a queue, then a dangling pointer.
pub data SenderQueue : Type 0 where
  unset : SenderQueue
  live : List Ptr → SenderQueue
  freed : SenderQueue

pub record Receiver : Type 0 where
  pub senders : Ptr → Option Sender
  pub pending_senders_q : SenderQueue
  pub connected_senders_q : SenderQueue
  pub should_close : Bool
  pub incoming_buffer : List ℕ
  pub outgoing_buffer : List ℕ
  -- the senders whose checker thread runs
  pub checkers : List Ptr

abbrev pub Memory : Type 0
Memory = Ptr → Option Sender

unfoldable pub update : Memory → Ptr → Option Sender → Memory
update m p s a = if a == p then s else m a

-- sender_matcher()
unfoldable pub sender_matcher : Sender → SockaddrIn → Bool
sender_matcher s id = s.addr == id

-- get_item_q(q, sender_matcher, id) on a list. Reading a pointer that is not allocated is a fault.
unfoldable pub find_sender : Memory → SockaddrIn → List Ptr → Option (Option Ptr)
find_sender m id [] = some none
find_sender m id (p ∷ ps) =
    let rest = find_sender m id ps in
    m p >>= λ s. if sender_matcher s id then some (some p) else rest

unfoldable pub get_item_q : Memory → SockaddrIn → SenderQueue → Option (Option Ptr)
get_item_q m id unset = some none
get_item_q m id (live ps) = find_sender m id ps
get_item_q m id freed = none

-- enq_q(); its result is not looked at, and a NULL queue stays.
unfoldable pub enq_q : SenderQueue → Ptr → Option SenderQueue
enq_q unset p = some unset
enq_q (live ps) p = some (live (ps ++ (p ∷ [])))
enq_q freed p = none

unfoldable pub deq_q : SenderQueue → Option (Option Ptr × SenderQueue)
deq_q unset = some (none, unset)
deq_q (live []) = some (none, live [])
deq_q (live (p ∷ ps)) = some (some p, live ps)
deq_q freed = none

unfoldable pub peek_q : SenderQueue → Option (Option Ptr)
peek_q unset = some none
peek_q (live []) = some none
peek_q (live (p ∷ ps)) = some (some p)
peek_q freed = none

-- The list without the node that pop_item_q() finds.
unfoldable pub drop_sender : Ptr → List Ptr → List Ptr
drop_sender p [] = []
drop_sender p (q ∷ qs) = if p == q then qs else q ∷ drop_sender p qs

unfoldable pub pop_found : Option Ptr → List Ptr → Option Ptr × SenderQueue
unfolding drop_sender
pop_found none ps = (none, live ps)
pop_found (some p) ps = (some p, live (drop_sender p ps))

-- pop_item_q(q, sender_matcher, id)
unfoldable pub pop_item_q : Memory → SockaddrIn → SenderQueue → Option (Option Ptr × SenderQueue)
pop_item_q m id unset = some (none, unset)
pop_item_q m id (live ps) = find_sender m id ps >>= λ found. some (pop_found found ps)
pop_item_q m id freed = none

-- free() of what a pointer, which may be NULL, leads to.
unfoldable pub free_sender : Memory → Option Ptr → Memory
free_sender m none = m
free_sender m (some p) = update m p none
