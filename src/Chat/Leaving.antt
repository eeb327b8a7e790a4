-- ===== src/Chat/Leaving.antt =====
-- The end of a client's stay.
use mathlib.Core.Path.{subst}
use cosc_60_computer_network.Prelude.{
  ℕ, ◌≤◌, ◌≡◌, refl, ap, ◌∙◌, true, false, List, [], ◌∷◌, ◌++◌, length, none, some, arith, sym,
  Bool, ◌>>=◌, yields, Yields, Yields-weaken, if◌then◌else◌, Option,
}
use cosc_60_computer_network.Bytes.{splice}
use cosc_60_computer_network.Dpp.{is_quit, same_text, quit_text, buffer_size}
use cosc_60_computer_network.Dpp.Search.{IsPlain}
use cosc_60_computer_network.Dpp.Hearing.{is_quit-splice}
use cosc_60_computer_network.Chat.{Recv, failed, disconnected, bytes}
use cosc_60_computer_network.Chat.Client.{
  Client, Outcome, exits, connection_terminated, quitted, disconnection_requested, leaves,
  build_line, send_buffer, handle_transmission, process, sender_round, receive_round,
}
use cosc_60_computer_network.Chat.Server.{
  Server, Thread, shutdown, close, closed, receive_step, delete_step, delete_integer_targets,
}
use cosc_60_computer_network.Chat.Broadcast.{to_all, receive_step-Rebroadcasts}
use cosc_60_computer_network.Chat.Distinct.{Absent, delete-gone}
use cosc_60_computer_network.Chat.Hearing.{recv_of, Keeps, receive_round-quit}
use cosc_60_computer_network.Chat.Speaking.{IsSized, Sends, sender_round-quit}
use cosc_60_computer_network.Chat.Conversation.{IsReady}

-- The server's thread passes the text on, closes its socket, and takes it out of the queue with
-- its next turn.
abbrev pub SendsOff : List ℕ → Thread → Server → Type 0
SendsOff text t s =
    let after = receive_step (recv_of text) t s in
    (after.1.calls
      ≡ (s.calls ++ to_all s.accepted text) ++ (shutdown t.sockfd ∷ close t.sockfd ∷ []))
    × (after.0.phase ≡ closed)
    × Absent t.sockfd (delete_step after.0 after.1).1.accepted

quit-SendsOff :
    (u : List ℕ) (t : Thread) (s : Server)
    → IsReady t s
    → length (quit_text u) ≤ buffer_size
    → SendsOff (quit_text u) t s
unfolding is_quit same_text delete_step
quit-SendsOff u t s r l =
    let after = receive_step (recv_of (quit_text u)) t s in
    let h = receive_step-Rebroadcasts 66 (89 ∷ 69 ∷ 58 ∷ 58 ∷ u) t s (omega (arith, l, r.1)) in
    let e : is_quit (splice 0 (quit_text u) t.receiver_buffer) ≡ true =
      is_quit-splice 66 89 69 (58 ∷ 58 ∷ u) t.receiver_buffer (omega (arith, l, r.0)) in
    let relayed = s.calls ++ to_all s.accepted (quit_text u) in
    (
      h.0 ∙ ap (λ x. relayed ++ (if x then shutdown t.sockfd ∷ close t.sockfd ∷ [] else [])) e,
      h.2 ∙ ap (λ x. if x then closed else t.phase) e,
      subst (λ n. Absent t.sockfd (delete_integer_targets n after.1.accepted)) (sym h.3)
          (delete-gone t.sockfd after.1.accepted),
    )

-- How the receiving loop ends once the user has asked to quit: an error of recv() ends the program,
-- the end of the connection is printed, and a transmission is not interpreted.
abbrev pub HasEnded : Recv → Client → Outcome × Client → Type 0
HasEnded failed c v = (v.0 ≡ exits) × (v.1.printed ≡ c.printed) × (v.1.sent ≡ c.sent)
HasEnded disconnected c v =
    (v.0 ≡ leaves) × (v.1.printed ≡ c.printed ++ (connection_terminated ∷ [])) × (v.1.sent ≡ c.sent)
HasEnded (bytes first others) c v = (v.0 ≡ leaves) × (v.1.printed ≡ c.printed) × (v.1.sent ≡ c.sent)

sender_round-leaves :
    (c : Client) (line : Option (List ℕ)) (succeeds : Bool)
    → c.quit_necessary ≡ true
    → sender_round line succeeds c ≡ some (leaves, c)
unfolding sender_round
sender_round-leaves c line succeeds q =
    ap (λ b. if b then some (leaves, c) else (build_line line c >>= send_buffer succeeds)) q

receive_round-HasEnded :
    (c : Client) (r : Recv) → c.quit_necessary ≡ true → Yields (HasEnded r c) (receive_round r c)
unfolding receive_round handle_transmission
receive_round-HasEnded c failed q = yields (refl, refl, refl)
receive_round-HasEnded c disconnected q = yields (refl, refl, refl)
receive_round-HasEnded c (bytes first others) q =
    let d = record c { receiver_buffer = splice 0 (first ∷ others) c.receiver_buffer } in
    subst
      (λ b.
        Yields (HasEnded (bytes first others) c)
          (if b then some (leaves, d) else process (length (first ∷ others)) d))
      (sym q) (yields (refl, refl, refl))

-- With buffers of their sizes, and a username of at most its greatest length without delimiter:
-- the input of a client ends, and it sends its quit; the server receives that in one piece, passes
-- it on, closes the connection and has taken the socket out of the queue after its next turn;
-- another client, which has not asked to quit, receives it in one piece and prints it. With the next
-- turn of the first client's sending loop that is left, whatever is typed, and with the next recv()
-- its receiving loop is: what comes in is not printed, the end of the connection is, and an error
-- ends the program. Nothing more is sent.
pub sender_round-SendsOff :
    (c d : Client) (t : Thread) (s : Server) (line : Option (List ℕ)) (succeeds : Bool) (r : Recv)
    → IsSized c
    → IsSized d
    → IsReady t s
    → IsPlain 0 c.username
    → c.quit_necessary ≡ false
    → d.quit_necessary ≡ false
    → Yields
        (λ w.
          Sends c (quit_text c.username) (disconnection_requested ∷ []) true w
          × (sender_round line succeeds w.1 ≡ some (leaves, w.1))
          × Yields (HasEnded r w.1) (receive_round r w.1))
        (sender_round none true c)
      × SendsOff (quit_text c.username) t s
      × Yields
          (Keeps d (quitted c.username ∷ []) d.join_acknowledged)
          (receive_round (recv_of (quit_text c.username)) d)
sender_round-SendsOff c d t s line succeeds r hc hd ready u qc qd = (
  Yields-weaken (sender_round-quit c hc qc)
      (λ w h. (h, sender_round-leaves w.1 line succeeds h.3, receive_round-HasEnded w.1 r h.3)),
  quit-SendsOff c.username t s ready (omega (arith, hc.2)),
  receive_round-quit d c.username qd (omega (arith, hc.2, hd.1)) u,
)
