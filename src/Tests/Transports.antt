-- ===== src/Tests/Transports.antt =====
-- Both sides of lab3 on one connection, over a network that loses and repeats.
use cosc_60_computer_network.Prelude.{
  true, ℕ, refl, false, none, some, List, [], ◌∷◌, ◌==◌, replicate, length-replicate, arith, Yields,
  if◌then◌else◌,
}
use cosc_60_computer_network.Prelude.Int.{pos}
use cosc_60_computer_network.Sender.State.{Connection, connection_t_init}
use cosc_60_computer_network.Sender.Api.{num_fragments}
use cosc_60_computer_network.Sender.Threads.{handle_acon}
use cosc_60_computer_network.Receiver.State.{
  Sender, live, Receiver, Memory, get_item_q, find_sender, sender_matcher,
}
use cosc_60_computer_network.Transport.{Net, Action, send, buffer, arrive, acknowledge, read, run}
use cosc_60_computer_network.Transport.Receiving.{Hears}
use cosc_60_computer_network.Transport.Call.{
  Turn, round, event, sends, arrives, acknowledges, checks, drops, mrt_send,
}
use cosc_60_computer_network.Transport.Call.Rounds.{SendsAll}
use cosc_60_computer_network.Transport.Call.Returns.{mrt_send-SendsAll}
use cosc_60_computer_network.Transport.Delivery.{
  IsOpened, DeliversStream, handle_acon-connection_t_init, run-DeliversStream,
}

-- The sender as main_handler() makes it: it waits for the fragment 1.
abbrev opened : Sender
opened = record {
  addr = 7;
  buffer = replicate 2440 0;
  bytes_unread = 0;
  next_frag = pos 1;
  inactive_time = 0;
}

abbrev senders : Memory
senders p = if p == 1 then some opened else none

abbrev connected : Receiver
connected = record {
  senders = senders;
  pending_senders_q = live [];
  connected_senders_q = live (1 ∷ []);
  should_close = false;
  incoming_buffer = replicate 509 0;
  outgoing_buffer = replicate 21 0;
  checkers = 1 ∷ [];
}

abbrev accepted : Connection
accepted = handle_acon (connection_t_init (pos 0) 9)

abbrev both : Net
both = record {
  connection = accepted;
  receiver = connected;
  to_receiver = [];
  to_sender = [];
  submitted = [];
  delivered = [];
}

connected-Hears : Hears 7 1 opened connected
unfolding get_item_q find_sender sender_matcher
connected-Hears = record {
  found = refl;
  holds = refl;
  valid = record { size = length-replicate {A = ℕ} 2440 0; within = omega arith };
  incoming_size = length-replicate {A = ℕ} 509 0;
  outgoing_size = refl;
}

both-IsOpened : IsOpened 7 1 opened both
both-IsOpened = record {
  fresh = handle_acon-connection_t_init (pos 0) 9;
  heard = connected-Hears;
  expects = refl;
  none_unread = refl;
  none_to_receiver = refl;
  none_to_sender = refl;
  none_submitted = refl;
  none_delivered = refl;
}

-- Two bytes are buffered and sent, the datagram comes in twice, one byte is read, and the older
-- ADAT comes back.
abbrev actions : List Action
actions =
    buffer (pos 1) (5 ∷ 6 ∷ []) 0
    ∷ send
    ∷ arrive 0 2 []
    ∷ read 1
    ∷ arrive 0 2 []
    ∷ acknowledge 1
    ∷ []

-- Behind these steps a call of two bytes: sender() sends them, the datagram comes in twice,
-- checker() counts, the ADAT comes back, handler() finds the flag not set, and the call returns.
abbrev turns : List Turn
turns =
    round
    ∷ event sends
    ∷ event (arrives 0 2 [])
    ∷ event (arrives 0 2 [])
    ∷ event checks
    ∷ event (acknowledges 0)
    ∷ event drops
    ∷ round
    ∷ []

mrt_send-SendsAll_example :
    Yields
      (λ n. Yields (SendsAll 1 n.submitted (8 ∷ 9 ∷ [])) (mrt_send 7 (8 ∷ 9 ∷ []) turns true n))
      (run 7 actions both)
unfolding num_fragments
mrt_send-SendsAll_example =
    mrt_send-SendsAll 7 1 opened actions (8 ∷ 9 ∷ []) turns both both-IsOpened (omega arith)

run-DeliversStream_example : Yields (DeliversStream 1) (run 7 actions both)
run-DeliversStream_example = run-DeliversStream 7 1 opened actions both both-IsOpened (omega arith)
