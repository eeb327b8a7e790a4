-- ===== src/Chat/Conversation.antt =====
-- A client, the server and another client together: what one user types, the other one reads.
use mathlib.Core.Path.{subst}
use cosc_60_computer_network.Prelude.{
  ℕ, ◌≤◌, ◌≡◌, refl, ap, ◌∙◌, true, false, ◌||◌, some, List, [], ◌∷◌, ◌++◌, length, arith, Yields,
  Yields-weaken, append-nil, if◌then◌else◌,
}
use cosc_60_computer_network.Dpp.{
  is_quit, same_text, message_text, join_text, colon, buffer_size, max_message_length,
}
use cosc_60_computer_network.Dpp.Search.{IsPlain, HasNoNul}
use cosc_60_computer_network.Dpp.RoundTrip.{length-message_text}
use cosc_60_computer_network.Dpp.Hearing.{is_quit-splice}
use cosc_60_computer_network.Chat.Client.{
  Client, message, joined_myself, trying_to_join, may_chat, request_join, sender_round,
  receive_round,
}
use cosc_60_computer_network.Chat.Server.{Server, Thread, receive_step, shutdown, close, closed}
use cosc_60_computer_network.Chat.Broadcast.{to_all, receive_step-Rebroadcasts}
use cosc_60_computer_network.Chat.Hearing.{
  recv_of, greeting, Keeps, same_text_refl, receive_round-message, receive_round-join,
}
use cosc_60_computer_network.Chat.Speaking.{
  IsSized, Sends, sender_round-message, request_join-Sends,
}

-- The server passes a text on to every accepted socket, and its thread goes on.
abbrev pub Relays : List ℕ → Thread → Server → Type 0
Relays text t s =
    let after = receive_step (recv_of text) t s in
    (after.1.calls ≡ s.calls ++ to_all s.accepted text)
    × (after.1.accepted ≡ s.accepted)
    × (after.0.phase ≡ t.phase)

-- The buffers of the server have their size.
abbrev pub IsReady : Thread → Server → Type 0
IsReady t s = (length t.receiver_buffer ≡ buffer_size) × (length s.broadcast_buffer ≡ buffer_size)

pub transmission-Relays :
    (a b c : ℕ) (text : List ℕ) (t : Thread) (s : Server)
    → IsReady t s
    → length (a ∷ b ∷ c ∷ text) ≤ buffer_size
    → is_quit (a ∷ b ∷ c ∷ []) ≡ false
    → Relays (a ∷ b ∷ c ∷ text) t s
transmission-Relays a b c text t s r l q =
    let h = receive_step-Rebroadcasts a (b ∷ c ∷ text) t s (omega (arith, r.1)) in
    let e = is_quit-splice a b c text t.receiver_buffer (omega (arith, r.0)) ∙ q in
    let relayed = s.calls ++ to_all s.accepted (a ∷ b ∷ c ∷ text) in
    (
      h.0
          ∙ ap (λ x. relayed ++ (if x then shutdown t.sockfd ∷ close t.sockfd ∷ [] else [])) e
          ∙ append-nil relayed,
      h.1,
      h.2 ∙ ap (λ x. if x then closed else t.phase) e,
    )

-- With buffers of their sizes on all sides, and two clients that have not asked to quit: a user
-- of the first types a line without NUL of at most its greatest length, the client's thread
-- sends it, the server's thread of that client receives it in one piece, and the second client
-- receives in one piece what the server sends. What is sent is sent on unchanged to every
-- accepted socket, and the second client prints the line with the first one's username, if that
-- has no delimiter, does not end in a colon and is of at most its greatest length.
pub sender_round-Relays :
    (c d : Client) (t : Thread) (s : Server) (line : List ℕ)
    → IsSized c
    → IsSized d
    → IsReady t s
    → IsPlain colon c.username
    → length line ≤ max_message_length
    → HasNoNul line
    → c.quit_necessary ≡ false
    → d.quit_necessary ≡ false
    → Yields (Sends c (message_text c.username line) [] false) (sender_round (some line) true c)
      × Relays (message_text c.username line) t s
      × Yields
          (Keeps d (message c.username line ∷ []) d.join_acknowledged)
          (receive_round (recv_of (message_text c.username line)) d)
unfolding is_quit same_text
sender_round-Relays c d t s line hc hd r u l n qc qd =
    let size = length-message_text c.username line in
    (
      sender_round-message c line hc qc l n,
      transmission-Relays 77 83 71 _ t s r (omega (arith, size, hc.2)) refl,
      receive_round-message d c.username line qd (omega (arith, size, hc.2, hd.1)) u n,
    )

-- With buffers of their sizes, and a username of at most its greatest length without delimiter:
-- a client that has not asked to quit asks to join, and sends its request and nothing else; the
-- server receives that in one piece and sends it on unchanged to every accepted socket; and the
-- client receives its own request in one piece. It has then printed that it joined, and its wait
-- for the acknowledgement is over.
pub request_join-Relays :
    (c : Client) (t : Thread) (s : Server)
    → IsSized c
    → IsReady t s
    → IsPlain 0 c.username
    → c.quit_necessary ≡ false
    → Relays (join_text c.username) t s
      × Yields
          (λ w.
            Sends c (join_text c.username) (trying_to_join ∷ []) false w
            × Yields
                (λ v. (v.1.printed ≡ w.1.printed ++ (joined_myself ∷ [])) × (may_chat v.1 ≡ true))
                (receive_round (recv_of (join_text c.username)) w.1))
          (request_join true c)
unfolding is_quit same_text
request_join-Relays c t s hc r u q = (
  transmission-Relays 72 69 76 _ t s r (omega (arith, hc.2)) refl,
  Yields-weaken (request_join-Sends c hc) (λ w h.
      let e : same_text c.username w.1.username ≡ true =
        ap (same_text c.username) h.5 ∙ same_text_refl c.username in
      (
        subst (λ b. Sends c (join_text c.username) (trying_to_join ∷ []) b w) q h,
        Yields-weaken
            (receive_round-join w.1 c.username (h.3 ∙ q) (omega (arith, hc.1, hc.2, ap length h.6))
              u)
            (λ v k. (
              k.2 ∙ ap (λ b. w.1.printed ++ (greeting b c.username ∷ [])) e,
              ap (λ b. b || v.1.quit_necessary) (k.3 ∙ ap (λ b. b || w.1.join_acknowledged) e),
            )),
      )),
)
