-- ===== src/Sender/Process.antt =====
-- The connections of a process that uses lab3/mrt_sender.c, as blocks of memory: which are queued,
-- which threads run with a pointer to them, and when handler() frees one.
pub mod Keeps
pub mod Valid
pub mod Found
pub mod Flags
pub mod Steps
pub mod Turns
pub mod Opens
pub mod Runs
pub mod Races
pub mod Remains
pub mod Silent
use cosc_60_computer_network.Prelude.{
  ℕ, Bool, true, false, not, ◌&&◌, ◌||◌, Option, none, some, List, [], ◌∷◌, ◌++◌, length, ◌==◌,
  if◌then◌else◌, ◌>>=◌,
}
use cosc_60_computer_network.Prelude.Int.{ℤ, pos, ◌+ℤ◌, wrap}
use cosc_60_computer_network.Bytes.{splice}
use cosc_60_computer_network.Sender.State.{Connection, connection_t_init, connection_matcher}
use cosc_60_computer_network.Sender.Threads.{Sent, handle_datagram, sender_round, checker_round}
use cosc_60_computer_network.Sender.Api.{
  SendRound, returns, goes_on, sleeps, send_round, DisconnectRound, closes, dropped, waits,
  disconnect_round,
}

abbrev pub Ptr : Type 0
Ptr = ℕ

unfoldable pub update {ℓ} : {A : Type ℓ} → (Ptr → A) → Ptr → A → Ptr → A
update f p a q = if q == p then a else f q

-- `none` is an address that holds no connection.
abbrev pub Memory : Type 0
Memory = Ptr → Option Connection

-- Where the handler() of a connection is: there is none, in its loop, or behind it.
pub data Handler : Type 0 where
  off : Handler
  receiving : Handler
  leaving : Handler

-- `senders` and `checkers` say with which connections a sender() and a checker() run.
pub record Process : Type 0 where
  pub connections : Memory
  pub connections_q : Option (List Ptr)
  pub next_id : ℤ
  pub handlers : Ptr → Handler
  pub senders : Ptr → Bool
  pub checkers : Ptr → Bool

-- What a step leaves: a state, a read of a connection that is not allocated, an mrt_connect() that
-- goes on although enq_q() found no queue, or another fault.
pub data Outcome : Type 0 where
  goes : Process → Outcome
  use_after_free : Outcome
  not_queued : Outcome
  fault : Outcome

abbrev pub queued : Process → List Ptr
queued s = elim (s.connections_q) [ none ↦ [] | some ps ↦ ps ]

abbrev pub put : Ptr → Connection → Process → Process
put p c s = record s { connections = update s.connections p (some c) }

-- The first lock of mrt_connect(): a queue is made if there is none.
unfoldable pub prepare : Process → Outcome
prepare s = goes (record s { connections_q = some (queued s) })

-- enq_q() of a new connection, and the start of its handler().
unfoldable pub enqueue : Ptr → ℕ → Process → Option (List Ptr) → Outcome
enqueue p receiver s none = not_queued
enqueue p receiver s (some ps) = goes (record s {
  connections = update s.connections p (some (connection_t_init s.next_id receiver));
  connections_q = some (ps ++ (p ∷ []));
  next_id = wrap (s.next_id +ℤ pos 1);
  handlers = update s.handlers p receiving;
})

-- mrt_connect() from behind its first lock up to its loop, where its other calls succeed. calloc()
-- gives no block that is in use.
unfoldable pub connect_at : Ptr → ℕ → Process → Option Connection → Outcome
connect_at p receiver s (some c) = goes s
connect_at p receiver s none = enqueue p receiver s s.connections_q

unfoldable pub connect : Ptr → ℕ → Process → Outcome
connect p receiver s = connect_at p receiver s (s.connections p)

-- get_item_q() with connection_matcher(), which reads each connection; `none` is a read of one that
-- is not allocated.
unfoldable pub get_item_q : Memory → ℤ → List Ptr → Option (Option Ptr)
get_item_q m id [] = some none
get_item_q m id (p ∷ ps) =
    m p >>= λ c. if connection_matcher c id then some (some p) else get_item_q m id ps

abbrev pub with_front : Ptr → Option Ptr × List Ptr → Option (Option Ptr × List Ptr)
with_front p (popped, rest) = some (popped, p ∷ rest)

-- pop_item_q() with connection_matcher()
unfoldable pub pop_item_q : Memory → ℤ → List Ptr → Option (Option Ptr × List Ptr)
pop_item_q m id [] = some (none, [])
pop_item_q m id (p ∷ ps) = m p >>= λ c.
    if connection_matcher c id then some (some p, ps) else (pop_item_q m id ps >>= with_front p)

unfoldable pub connection_t_free : Option Ptr → Memory → Memory
connection_t_free none m = m
connection_t_free (some p) m = update m p none

-- An empty queue is deleted.
unfoldable pub delete_if_empty : List Ptr → Option (List Ptr)
delete_if_empty [] = none
delete_if_empty (p ∷ ps) = some (p ∷ ps)

-- The popped connection is freed, and the handler() at `p` has come to its end.
unfoldable pub clean_up_popped : Ptr → Process → Option (Option Ptr × List Ptr) → Outcome
clean_up_popped p s none = use_after_free
clean_up_popped p s (some (popped, rest)) = goes (record s {
  connections = connection_t_free popped s.connections;
  connections_q = delete_if_empty rest;
  handlers = update s.handlers p off;
})

-- The end of handler(): its connection leaves the queue and is freed.
unfoldable pub clean_up : Ptr → ℤ → Process → Outcome
clean_up p id s = clean_up_popped p s (pop_item_q s.connections id (queued s))

-- Behind the loop: pthread_join() waits for the other two threads.
unfoldable pub leave : Ptr → Connection → Process → Outcome
leave p c s = if s.checkers p || s.senders p then goes s else clean_up p c.id s

-- The first ACON starts the other two threads.
abbrev pub starts : Connection → Connection → Bool
starts c c' = not c.sending && c'.sending

unfoldable pub handled : Ptr → Connection → Option Connection → Process → Outcome
handled p c none s = fault
handled p c (some c') s = goes (record s {
  connections = update s.connections p (some c');
  senders = if starts c c' then update s.senders p true else s.senders;
  checkers = if starts c c' then update s.checkers p true else s.checkers;
})

-- A round of the loop of handler(): the flag is read behind recvfrom().
unfoldable pub received : Ptr → List ℕ → Connection → Process → Outcome
received p datagram c s =
    if c.should_close
    then goes (record s {
      connections =
          update s.connections p
            (some (record c { incoming_buffer = splice 0 datagram c.incoming_buffer }));
      handlers = update s.handlers p leaving;
    })
    else handled p c (handle_datagram datagram c) s

-- A read of `*conn_p`.
abbrev pub deref_at : Option Connection → (Connection → Outcome) → Outcome
deref_at none k = use_after_free
deref_at (some c) k = k c

abbrev pub deref : Ptr → Process → (Connection → Outcome) → Outcome
deref p s k = deref_at (s.connections p) k

unfoldable pub by_handler : Handler → Ptr → List ℕ → Process → Outcome
by_handler off p datagram s = goes s
by_handler receiving p datagram s = deref p s (λ c. received p datagram c s)
by_handler leaving p datagram s = deref p s (λ c. leave p c s)

-- A turn of handler(); in its loop, with what recvfrom() has received.
unfoldable pub handler_turn : Ptr → List ℕ → Process → Outcome
handler_turn p datagram s = by_handler (s.handlers p) p datagram s

unfoldable pub sent_one : Ptr → Option (Connection × Sent) → Process → Outcome
sent_one p none s = fault
sent_one p (some (c, d)) s = goes (put p c s)

-- A turn of sender()
unfoldable pub sender_turn : Ptr → Process → Outcome
sender_turn p s =
    if s.senders p
    then deref p s (λ c.
      if c.should_close
      then goes (record s { senders = update s.senders p false })
      else sent_one p (sender_round c) s)
    else goes s

-- A turn of checker(), which ends when it sets the flag.
unfoldable pub checker_turn : Ptr → Process → Outcome
checker_turn p s =
    if s.checkers p
    then deref p s (λ c.
      let c' = checker_round c in
      goes (record s {
        connections = update s.connections p (some c');
        checkers = update s.checkers p (not c'.should_close);
      }))
    else goes s

-- The first lookup of mrt_send() and of its rounds, under q_lock.
unfoldable pub lookup : ℤ → Process → Option (Option Ptr)
lookup id s = get_item_q s.connections id (queued s)

unfoldable pub copied_more : Ptr → Option SendRound → Process → Outcome
copied_more p none s = fault
copied_more p (some (goes_on c k)) s = goes (put p c s)
copied_more p (some (returns z)) s = goes s
copied_more p (some sleeps) s = goes s

-- The rest of a round of mrt_send(), with the pointer that the lookup gave.
unfoldable pub send_with : ℤ → List ℕ → ℕ → Ptr → Process → Outcome
send_with final buffer copied p s =
    deref p s (λ c. copied_more p (send_round final buffer (length buffer) copied (some c)) s)

unfoldable pub send_found : ℤ → List ℕ → ℕ → Process → Option (Option Ptr) → Outcome
send_found final buffer copied s none = use_after_free
send_found final buffer copied s (some none) = goes s
send_found final buffer copied s (some (some p)) = send_with final buffer copied p s

-- A round of mrt_send() with no other step in it.
unfoldable pub send_turn : ℤ → ℤ → List ℕ → ℕ → Process → Outcome
send_turn id final buffer copied s = send_found final buffer copied s (lookup id s)

unfoldable pub closed_or_not : Ptr → Option DisconnectRound → Process → Outcome
closed_or_not p none s = fault
closed_or_not p (some (closes c sent)) s = goes (put p c s)
closed_or_not p (some dropped) s = goes s
closed_or_not p (some waits) s = goes s

unfoldable pub disconnect_found : Process → Option (Option Ptr) → Outcome
disconnect_found s none = use_after_free
disconnect_found s (some none) = goes s
disconnect_found s (some (some p)) = deref p s (λ c. closed_or_not p (disconnect_round (some c)) s)

-- A round of mrt_disconnect(), with the RCLS behind its loop and no other step in it.
unfoldable pub disconnect_turn : ℤ → Process → Outcome
disconnect_turn id s = disconnect_found s (lookup id s)

-- The steps of the process.
pub data Action : Type 0 where
  prepares : Action
  connects : (p : Ptr) (receiver : ℕ) → Action
  handles : (p : Ptr) (datagram : List ℕ) → Action
  sends : (p : Ptr) → Action
  checks : (p : Ptr) → Action
  calls : (id final : ℤ) (buffer : List ℕ) (copied : ℕ) → Action
  disconnects : (id : ℤ) → Action

unfoldable pub act : Action → Process → Outcome
act prepares s = prepare s
act (connects p receiver) s = connect p receiver s
act (handles p datagram) s = handler_turn p datagram s
act (sends p) s = sender_turn p s
act (checks p) s = checker_turn p s
act (calls id final buffer copied) s = send_turn id final buffer copied s
act (disconnects id) s = disconnect_turn id s

abbrev pub and_then : Outcome → (Process → Outcome) → Outcome
and_then (goes s) k = k s
and_then use_after_free k = use_after_free
and_then not_queued k = not_queued
and_then fault k = fault

unfoldable pub run : List Action → Process → Outcome
run [] s = goes s
run (a ∷ rest) s = and_then (act a s) (run rest)

-- Before the first mrt_connect().
abbrev pub started : Process
started = record {
  connections = λ p. none;
  connections_q = none;
  next_id = pos 0;
  handlers = λ p. off;
  senders = λ p. false;
  checkers = λ p. false;
}
