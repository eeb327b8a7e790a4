-- ===== src/Receiver/Api.antt =====
-- The calls of the receiver's user, and the checker thread. A call that waits is given by its
-- rounds: what it does between two locks of q_lock is one step. `none` is a fault.
use cosc_60_computer_network.Prelude.{
  ℕ, zero, suc, ◌+◌, ◌-◌, Bool, true, false, not, Option, none, some, List, [], ◌∷◌, ◌++◌, ◌==◌,
  ltb, take, if◌then◌else◌, ◌>>=◌,
}
use cosc_60_computer_network.Prelude.Int.{ℤ, pos, negsuc, ◌-ℤ◌, wrap}
use cosc_60_computer_network.Bytes.{splice, slice}
use cosc_60_computer_network.Mrt.{header_length}
use cosc_60_computer_network.Receiver.State.{
  SockaddrIn, Ptr, Sender, SenderQueue, unset, live, Receiver, update, get_item_q, enq_q, deq_q,
  peek_q, drop_sender, checker_period, timeout_threshold,
}
use cosc_60_computer_network.Receiver.Build.{build_acon}
use cosc_60_computer_network.Receiver.Handle.{Sent}

-- Which calls of mrt_open() succeed.
pub record OpenCalls : Type 0 where
  pub socket_ok : Bool
  pub bind_ok : Bool
  pub pending_ok : Bool
  pub connected_ok : Bool
  pub thread_ok : Bool

unfoldable pub made : Bool → SenderQueue
made true = live []
made false = unset

pub record Opened : Type 0 where
  pub result : ℤ
  pub q_lock_held : Bool
  pub receiver : Receiver

-- mrt_open(). A failing make_q() returns with q_lock held.
unfoldable pub mrt_open : OpenCalls → Receiver → Opened
unfolding made
mrt_open c r =
    if not (c.socket_ok)
    then record { result = negsuc 0; q_lock_held = false; receiver = r }
    else if not (c.bind_ok)
    then record { result = negsuc 0; q_lock_held = false; receiver = r }
    else (let r' : Receiver = record r {
      pending_senders_q = made c.pending_ok;
      connected_senders_q = made c.connected_ok;
    } in
        if not c.pending_ok
        then record { result = negsuc 0; q_lock_held = true; receiver = r' }
        else if not c.connected_ok
        then record { result = negsuc 0; q_lock_held = true; receiver = r' }
        else if not c.thread_ok
        then record { result = negsuc 0; q_lock_held = false; receiver = r' }
        else record { result = pos 0; q_lock_held = false; receiver = r' })

-- A round of the first loop of mrt_accept1(): the oldest pending sender leaves its queue.
unfoldable pub accept1_take : Receiver → Option (Option Ptr × Receiver)
accept1_take r = do
  (p, pending) ← deq_q r.pending_senders_q
  some (p, record r { pending_senders_q = pending })

pub record Accepted : Type 0 where
  pub id : SockaddrIn
  pub receiver : Receiver
  pub sent : List Sent

-- The rest of mrt_accept1(), under its second lock: the sender is queued as connected, the ACON
-- goes out, and the sender's checker starts.
unfoldable pub accept1_connect : Ptr → Receiver → Option Accepted
accept1_connect p r = do
  connected ← enq_q r.connected_senders_q p
  s ← r.senders p
  outgoing ← build_acon (wrap (s.next_frag -ℤ pos 1)) r.outgoing_buffer
  some (record {
    id = s.addr;
    receiver = record r {
      connected_senders_q = connected;
      outgoing_buffer = outgoing;
      checkers = p ∷ r.checkers;
    };
    sent = record { dest = s.addr; bytes = take header_length outgoing } ∷ [];
  })

unfoldable pub accept1_taken : Option Ptr × Receiver → Option (Option Accepted)
accept1_taken (none, r) = some none
accept1_taken (some p, r) = accept1_connect p r >>= λ a. some (some a)

-- mrt_accept1() with no other thread between its two locks; `none` inside says that it waits.
unfoldable pub mrt_accept1 : Receiver → Option (Option Accepted)
mrt_accept1 r = accept1_take r >>= accept1_taken

pub record AcceptedAll : Type 0 where
  pub ids : List SockaddrIn
  pub receiver : Receiver
  pub sent : List Sent

abbrev pub after_accept : Accepted → AcceptedAll → AcceptedAll
after_accept a all = record {
  ids = a.id ∷ all.ids;
  receiver = all.receiver;
  sent = a.sent ++ all.sent;
}

-- mrt_accept_all() with no other thread between its locks, on fuel. The call of mrt_accept1()
-- behind a successful peek_q() does not wait.
unfoldable pub mrt_accept_all : ℕ → Receiver → Option AcceptedAll
mrt_accept_all zero r = none
mrt_accept_all (suc fuel) r = do
  front ← peek_q r.pending_senders_q
  elim front [
    | none ↦ some (record { ids = []; receiver = r; sent = [] })
    | some p ↦ do
      accepted ← mrt_accept1 r
      a ← accepted
      all ← mrt_accept_all fuel a.receiver
      some (after_accept a all)
  ]

-- How a round of mrt_receive1() ends: it sleeps, or returns a number and has written bytes.
pub data Receive1 : Type 0 where
  waits : Receive1
  returns : ℤ → List ℕ → Receive1

unfoldable pub check_connected : Option Ptr → Option ℤ
check_connected none = some (negsuc 0)
check_connected (some p) = none

-- The first lookup of mrt_receive1(): -1 if the call is spurious, or the rounds begin.
unfoldable pub receive1_check : SockaddrIn → Receiver → Option (Option ℤ)
receive1_check id r = do
  found ← get_item_q r.senders id r.connected_senders_q
  some (check_connected found)

-- (len < bytes_unread) ? len : bytes_unread
unfoldable pub bytes_to_read : ℕ → Sender → ℕ
bytes_to_read len s = if ltb len s.bytes_unread then len else s.bytes_unread

-- What is left in the sender's buffer behind the copy.
unfoldable pub take_unread : ℕ → Sender → Sender
take_unread bytes_read s =
    if ltb bytes_read s.bytes_unread
    then record s {
      buffer = splice 0 (slice bytes_read (s.bytes_unread - bytes_read) s.buffer) s.buffer;
      bytes_unread = s.bytes_unread - bytes_read;
    }
    else record s { bytes_unread = 0 }

unfoldable pub read_from : ℕ → Ptr → Receiver → Sender → Receive1 × Receiver
read_from len p r s =
    if s.bytes_unread == 0
    then (if ltb timeout_threshold s.inactive_time then (returns (pos 0) [], r) else (waits, r))
    else (let bytes_read = bytes_to_read len s in
        (
          returns (pos bytes_read) (take bytes_read s.buffer),
          record r { senders = update r.senders p (some (take_unread bytes_read s)) },
        ))

unfoldable pub receive1_found : ℕ → Receiver → Option Ptr → Option (Receive1 × Receiver)
receive1_found len r none = some (returns (pos 0) [], r)
receive1_found len r (some p) = r.senders p >>= λ s. some (read_from len p r s)

-- A round of the loop of mrt_receive1(), for a `len` that is not negative.
unfoldable pub receive1_round : SockaddrIn → ℕ → Receiver → Option (Receive1 × Receiver)
receive1_round id len r = do
  found ← get_item_q r.senders id r.connected_senders_q
  receive1_found len r found

unfoldable pub lookup_unread : Receiver → SockaddrIn → Option (Option Ptr)
lookup_unread r id = get_item_q r.senders id r.connected_senders_q

-- probe_for_one(): `target` is `*target_id_pp`. A match is stored in a local variable only.
unfoldable pub probe_for_one :
    Receiver → SockaddrIn → Option SockaddrIn → Option (Option SockaddrIn)
probe_for_one r id none = some none
probe_for_one r id (some target) = lookup_unread r id >>= λ found. some (some target)

unfoldable pub probe_all :
    Receiver → List SockaddrIn → Option SockaddrIn → Option (Option SockaddrIn)
probe_all r [] target = some target
probe_all r (id ∷ ids) target = probe_for_one r id target >>= probe_all r ids

-- mrt_probe() on a queue of IDs.
unfoldable pub mrt_probe : Receiver → List SockaddrIn → Option (Option SockaddrIn)
mrt_probe r ids = probe_all r ids none

unfoldable pub mrt_close : Receiver → Receiver
mrt_close r = record r { should_close = true }

-- A round of checker() for the sender at `p`; past the threshold the thread ends.
unfoldable pub checker_round : Ptr → Receiver → Option Receiver
checker_round p r = do
  s ← r.senders p
  let inactive_time = s.inactive_time + checker_period
  let r' : Receiver = record r {
    senders = update r.senders p (some (record s { inactive_time = inactive_time }));
  }
  some (
      if ltb timeout_threshold inactive_time
      then record r' { checkers = drop_sender p r.checkers }
      else r')
