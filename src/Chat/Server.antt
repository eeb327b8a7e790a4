-- ===== src/Chat/Server.antt =====
-- lab2/server.c. The queues of sockets and threads are lists, front first. The calls of send(),
-- shutdown() and close() are written down in the order in which they happen.
use cosc_60_computer_network.Prelude.{ℕ, List, [], ◌∷◌, ◌++◌, length, take, ◌==◌, if◌then◌else◌}
use cosc_60_computer_network.Bytes.{splice}
use cosc_60_computer_network.Dpp.{is_quit}
use cosc_60_computer_network.Chat.{Recv, failed, disconnected, bytes}

pub data Call : Type 0 where
  send : ℕ → List ℕ → Call
  shutdown : ℕ → Call
  close : ℕ → Call

-- The global variables, and the calls so far.
pub record Server : Type 0 where
  pub accepted : List ℕ
  pub threads : List ℕ
  pub broadcast_buffer : List ℕ
  pub broadcast_length : ℕ
  pub calls : List Call

-- Where a thread of server_receiver() is: in front of recv(), with its socket closed but still
-- in the queue, or done.
pub data Phase : Type 0 where
  receiving : Phase
  closed : Phase
  done : Phase

pub record Thread : Type 0 where
  pub sockfd : ℕ
  pub receiver_buffer : List ℕ
  pub phase : Phase

-- A turn of the loop of main(): the socket that accept() returns, and the new thread's name.
unfoldable pub accept_round : ℕ → ℕ → Server → Server
accept_round sockfd thread s = record s {
  accepted = s.accepted ++ (sockfd ∷ []);
  threads = s.threads ++ (thread ∷ []);
}

unfoldable pub broadcast_callback : ℕ → Server → Server
broadcast_callback sockfd s = record s {
  calls = s.calls ++ (send sockfd (take s.broadcast_length s.broadcast_buffer) ∷ []);
}

-- iterate_q(accepted_sockfd_q, broadcast_callback)
unfoldable pub broadcast : List ℕ → Server → Server
broadcast [] s = s
broadcast (sockfd ∷ sockfds) s = broadcast sockfds (broadcast_callback sockfd s)

-- delete_integer_targets_q()
unfoldable pub delete_integer_targets : ℕ → List ℕ → List ℕ
delete_integer_targets target [] = []
delete_integer_targets target (n ∷ ns) =
    if n == target then delete_integer_targets target ns else (n ∷ delete_integer_targets target ns)

-- What is done under the lock with what was received.
unfoldable pub rebroadcast : List ℕ → Server → Server
rebroadcast received s = broadcast s.accepted (record s {
  broadcast_buffer = splice 0 received s.broadcast_buffer;
  broadcast_length = length received;
})

unfoldable pub shut : ℕ → Server → Server
shut sockfd s = record s { calls = s.calls ++ (shutdown sockfd ∷ close sockfd ∷ []) }

-- From recv() to the `continue`, or to the end of close().
unfoldable pub receive_step : Recv → Thread → Server → Thread × Server
receive_step failed t s = (record t { phase = closed }, shut t.sockfd s)
receive_step disconnected t s = (record t { phase = closed }, shut t.sockfd s)
receive_step (bytes first others) t s =
    let received = first ∷ others in
    let buffer = splice 0 received t.receiver_buffer in
    let s' = rebroadcast received s in
    if is_quit buffer
    then (record t { receiver_buffer = buffer; phase = closed }, shut t.sockfd s')
    else (record t { receiver_buffer = buffer }, s')

-- The deletion from the queue, under the lock.
unfoldable pub delete_step : Thread → Server → Thread × Server
delete_step t s =
    (record t { phase = done }, record s { accepted = delete_integer_targets t.sockfd s.accepted })

abbrev pub by_phase : Phase → Recv → Thread → Server → Thread × Server
by_phase receiving r t s = receive_step r t s
by_phase closed r t s = delete_step t s
by_phase done r t s = (t, s)

-- One step of a thread.
unfoldable pub server_receiver : Recv → Thread → Server → Thread × Server
server_receiver r t s = by_phase t.phase r t s
