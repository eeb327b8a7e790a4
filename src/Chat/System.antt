-- ===== src/Chat/System.antt =====
-- lab2/server.c at work: main() and the threads of server_receiver() in any order of turns.
use cosc_60_computer_network.Prelude.{ℕ, zero, suc, List, [], ◌∷◌, ◌++◌, replicate}
use cosc_60_computer_network.Dpp.{buffer_size}
use cosc_60_computer_network.Chat.{Recv}
use cosc_60_computer_network.Chat.Server.{
  Server, Thread, Phase, receiving, closed, done, accept_round, server_receiver,
}

pub record System : Type 0 where
  pub server : Server
  pub running : List Thread

pub data Action : Type 0 where
  accept : ℕ → ℕ → Action
  turn : ℕ → Recv → Action

-- The variables of server_receiver() in a new thread.
abbrev pub new_thread : ℕ → Thread
new_thread sockfd = record {
  sockfd = sockfd;
  receiver_buffer = replicate buffer_size 0;
  phase = receiving;
}

-- A step of the thread in a place of the list.
unfoldable pub turn_at : ℕ → Recv → List Thread → Server → List Thread × Server
turn_at i r [] s = ([], s)
turn_at zero r (t ∷ ts) s = let after = server_receiver r t s in (after.0 ∷ ts, after.1)
turn_at (suc i) r (t ∷ ts) s = let after = turn_at i r ts s in (t ∷ after.0, after.1)

unfoldable pub perform : Action → System → System
perform (accept sockfd thread) y = record {
  server = accept_round sockfd thread y.server;
  running = y.running ++ (new_thread sockfd ∷ []);
}
perform (turn i r) y =
    let after = turn_at i r y.running y.server in record { server = after.1; running = after.0 }

unfoldable pub run : List Action → System → System
run [] y = y
run (a ∷ rest) y = run rest (perform a y)

abbrev with_socket : Phase → ℕ → List ℕ → List ℕ
with_socket receiving n ns = n ∷ ns
with_socket closed n ns = n ∷ ns
with_socket done n ns = ns

-- The sockets of the threads that are not done, in the order of their arrival.
abbrev pub sockets : List Thread → List ℕ
sockets [] = []
sockets (t ∷ ts) = with_socket t.phase t.sockfd (sockets ts)

abbrev pub nobody : Server
nobody = record {
  accepted = [];
  threads = [];
  broadcast_buffer = replicate buffer_size 0;
  broadcast_length = 0;
  calls = [];
}

-- The server in front of its loop.
abbrev pub started : System
started = record { server = nobody; running = [] }
