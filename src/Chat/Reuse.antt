-- ===== src/Chat/Reuse.antt =====
-- A socket number that accept() returns again before its old thread has left the queue.
use mathlib.Core.Path.{subst}
use cosc_60_computer_network.Prelude.{ℕ, ◌≤◌, ◌≡◌, ap, sym, ◌++◌, ◌∷◌, [], List, length}
use cosc_60_computer_network.Chat.Server.{
  Server, Thread, accept_round, delete_step, rebroadcast, delete_integer_targets,
}
use cosc_60_computer_network.Chat.Broadcast.{to_all, rebroadcast_lem}
use cosc_60_computer_network.Chat.Distinct.{Absent, delete-gone}

-- A thread has the socket `n`, accept() returns `n` for a new connection, and then the thread
-- takes it out of the queue: `n` is not in the queue any more, and bytes that fit into the
-- buffer are broadcast to the sockets of that queue only.
pub delete_step-accept_round :
    (n thread : ℕ) (t : Thread) (s : Server) (received : List ℕ)
    → t.sockfd ≡ n
    → length received ≤ length s.broadcast_buffer
    → let s' = (delete_step t (accept_round n thread s)).1 in
      Absent n s'.accepted
      × ((rebroadcast received s').calls ≡ s.calls ++ to_all s'.accepted received)
unfolding delete_step accept_round
delete_step-accept_round n thread t s received e h =
    let s' = (delete_step t (accept_round n thread s)).1 in
    (
      subst (λ k. Absent n (delete_integer_targets k (s.accepted ++ (n ∷ [])))) (sym e)
          (delete-gone n (s.accepted ++ (n ∷ []))),
      ap (λ x. x.calls) (rebroadcast_lem received s' h),
    )
