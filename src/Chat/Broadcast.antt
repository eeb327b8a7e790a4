-- ===== src/Chat/Broadcast.antt =====
-- What a turn of server_receiver() sends, and to whom.
use cosc_60_computer_network.Prelude.{
  ℕ, ◌≤◌, ◌≡◌, refl, ap, ◌∙◌, sym, Bool-cases, inl, inr, List, [], ◌∷◌, ◌++◌, map, length, take,
  if◌then◌else◌, append_assoc, append-nil, take-append,
}
use cosc_60_computer_network.Bytes.{splice, splice_front, length-splice}
use cosc_60_computer_network.Dpp.{is_quit}
use cosc_60_computer_network.Chat.{bytes}
use cosc_60_computer_network.Chat.Server.{
  Call, send, shutdown, close, Server, Thread, closed, broadcast_callback, broadcast, rebroadcast,
  shut, receive_step,
}

-- The same bytes to every socket.
abbrev pub to_all : List ℕ → List ℕ → List Call
to_all sockets received = map (λ n. send n received) sockets

broadcast_lem :
    (ns : List ℕ) (s : Server)
    → broadcast ns s
      ≡ record s { calls = s.calls ++ to_all ns (take s.broadcast_length s.broadcast_buffer) }
unfolding broadcast broadcast_callback
broadcast_lem [] s = ap (λ l. record s { calls = l }) (sym (append-nil s.calls))
broadcast_lem (n ∷ ns) s =
    broadcast_lem ns (broadcast_callback n s)
    ∙ ap (λ l. record s { calls = l })
        (append_assoc s.calls (send n (take s.broadcast_length s.broadcast_buffer) ∷ [])
          (to_all ns (take s.broadcast_length s.broadcast_buffer)))

pub rebroadcast_lem :
    (received : List ℕ) (s : Server)
    → length received ≤ length s.broadcast_buffer
    → rebroadcast received s ≡ record s {
      broadcast_buffer = splice 0 received s.broadcast_buffer;
      broadcast_length = length received;
      calls = s.calls ++ to_all s.accepted received;
    }
unfolding rebroadcast
rebroadcast_lem received s h =
    let b = splice 0 received s.broadcast_buffer in
    let e : take (length received) b ≡ received =
      ap (λ l. take (length received) l)
        (splice_front (length received) received s.broadcast_buffer refl h)
      ∙ take-append (length received) received _ refl in
    broadcast_lem s.accepted (record s { broadcast_buffer = b; broadcast_length = length received })
    ∙ ap
        (λ l. record s {
          broadcast_buffer = b;
          broadcast_length = length received;
          calls = s.calls ++ to_all s.accepted l;
        })
        e

-- What a turn does that received bytes.
abbrev pub Rebroadcasts : List ℕ → Thread → Server → Thread × Server → Type 0
Rebroadcasts received t s after =
    let quits = is_quit (splice 0 received t.receiver_buffer) in
    (after.1.calls
      ≡ (s.calls ++ to_all s.accepted received)
        ++ (if quits then shutdown t.sockfd ∷ close t.sockfd ∷ [] else []))
    × (after.1.accepted ≡ s.accepted)
    × (after.0.phase ≡ (if quits then closed else t.phase))
    × (after.0.sockfd ≡ t.sockfd)
    × (length after.1.broadcast_buffer ≡ length s.broadcast_buffer)

-- Bytes that fit into the broadcast buffer are sent unchanged, once, to every socket of the
-- queue in its order, the sender's own included; then, if the thread's buffer begins with "BYE",
-- the thread's socket is shut down and closed. The queue stays as it is.
pub receive_step-Rebroadcasts :
    (first : ℕ) (others : List ℕ) (t : Thread) (s : Server)
    → length (first ∷ others) ≤ length s.broadcast_buffer
    → Rebroadcasts (first ∷ others) t s (receive_step (bytes first others) t s)
unfolding receive_step shut
receive_step-Rebroadcasts first others t s h =
    let received = first ∷ others in
    let e = rebroadcast_lem received s h in
    let l = length-splice 0 received s.broadcast_buffer in
    elim (Bool-cases (is_quit (splice 0 received t.receiver_buffer))) [
      | inl q ↦ rw (q, e) (refl, refl, refl, refl, l)
      | inr q ↦ rw (q, e) (sym (append-nil _), refl, refl, refl, l)
    ]
