-- ===== src/Tests/Chats.antt =====
-- Runs of the chatroom's theorems on small inputs.
use cosc_60_computer_network.Prelude.{
  ℕ, ◌≡◌, ◌≤◌, ◌↔◌, ◌≢◌, refl, false, true, none, some, List, [], ◌∷◌, ◌++◌, length, replicate,
  length-replicate, arith, Yields, ◌⊎◌,
}
use cosc_60_computer_network.Bytes.{splice}
use cosc_60_computer_network.Dpp.{
  max_username_length, is_quit, same_text, buffer_size, colon, build_message, build_join,
  build_quit, parse_transmission, message_text, quit_text, join_text, dpp_message_type,
  dpp_join_type, dpp_quit_type, wild,
}
use cosc_60_computer_network.Dpp.Parsing.{Says}
use cosc_60_computer_network.Dpp.RoundTrip.{
  carried, parse_transmission-build_message, parse_transmission-build_join, build_message-colon,
}
use cosc_60_computer_network.Dpp.Safety.{Printable, parse_transmission-Printable}
use cosc_60_computer_network.Chat.{disconnected, bytes}
use cosc_60_computer_network.Chat.Server.{
  Server, Thread, closed, rebroadcast, accept_round, delete_step, server_receiver, receive_step,
}
use cosc_60_computer_network.Chat.System.{
  Action, accept, turn, turn_at, perform, run, started, nobody, new_thread,
}
use cosc_60_computer_network.Chat.Distinct.{Absent}
use cosc_60_computer_network.Chat.Serving.{AreFresh, IsServed, run-IsServed}
use cosc_60_computer_network.Chat.Broadcast.{to_all, Rebroadcasts, receive_step-Rebroadcasts}
use cosc_60_computer_network.Chat.Client.{
  trying_to_join, Client, accepts_username, message, quitted, disconnection_requested,
  joined_myself, leaves, may_chat, sender_round, request_join, receive_round,
}
use cosc_60_computer_network.Chat.Hearing.{recv_of, Keeps}
use cosc_60_computer_network.Chat.Speaking.{Sends, IsSized}
use cosc_60_computer_network.Chat.Conversation.{
  Relays, IsReady, sender_round-Relays, request_join-Relays,
}
use cosc_60_computer_network.Chat.Leaving.{HasEnded, SendsOff, sender_round-SendsOff}
use cosc_60_computer_network.Dpp.Search.{IsPlain}
use cosc_60_computer_network.Chat.Naming.{accepts_username_iff}
use cosc_60_computer_network.Chat.Reuse.{delete_step-accept_round}
use cosc_60_computer_network.Chat.Safety.{receive_round-safe, receive_round-halved}

abbrev blank : List ℕ
blank = replicate buffer_size 0

blank-size : length blank ≡ buffer_size
blank-size = length-replicate {A = ℕ} buffer_size 0

-- "al", and "hi".
abbrev al : List ℕ
al = 97 ∷ 108 ∷ []

abbrev hi : List ℕ
hi = 104 ∷ 105 ∷ []

parse_transmission-build_message_example :
    Yields
      (λ w. (w.1 ≡ 11) × Yields (Says dpp_message_type al (some hi)) (carried blank w.0))
      (build_message blank al hi)
parse_transmission-build_message_example =
    parse_transmission-build_message blank blank al hi blank-size blank-size (omega arith)
      (omega arith)
      ((λ e. omega arith), (λ e. omega arith), ((λ e. omega arith), (λ e. omega arith), tt))
      ((λ e. omega arith), ((λ e. omega arith), tt))

parse_transmission-build_join_example :
    Yields
      (λ w. (w.1 ≡ 8) × Yields (Says dpp_join_type al none) (carried blank w.0))
      (build_join blank al)
    × Yields
        (λ w. (w.1 ≡ 7) × Yields (Says dpp_quit_type al none) (carried blank w.0))
        (build_quit blank al)
parse_transmission-build_join_example =
    parse_transmission-build_join blank blank al blank-size blank-size (omega arith)
      ((λ e. omega arith), (λ e. omega arith), ((λ e. omega arith), (λ e. omega arith), tt))

build_message-colon_example :
    build_message blank (97 ∷ 108 ∷ colon ∷ []) hi ≡ build_message blank al (colon ∷ hi)
build_message-colon_example = build_message-colon blank al hi

parse_transmission-Printable_example :
    Yields Printable (parse_transmission (77 ∷ 83 ∷ 71 ∷ 58 ∷ 58 ∷ 97 ∷ 9 ∷ []) 6)
parse_transmission-Printable_example =
    parse_transmission-Printable (77 ∷ 83 ∷ 71 ∷ 58 ∷ 58 ∷ 97 ∷ 9 ∷ []) 6 (omega arith)

-- A client of "al" and one of "bo", in front of their loops.
abbrev client : List ℕ → Client
client username = record {
  username = username;
  join_acknowledged = false;
  quit_necessary = false;
  receiver_buffer = blank;
  sender_buffer = blank;
  printed = [];
  sent = [];
}

abbrev bo : List ℕ
bo = 98 ∷ 111 ∷ []

client-IsSized : (a b : ℕ) → a ≢ 0 → b ≢ 0 → IsSized (client (a ∷ b ∷ []))
client-IsSized a b ha hb = (blank-size, blank-size, omega arith, (ha, (hb, tt)))

al-IsSized : IsSized (client al)
al-IsSized = client-IsSized 97 108 (λ e. omega arith) (λ e. omega arith)

bo-IsSized : IsSized (client bo)
bo-IsSized = client-IsSized 98 111 (λ e. omega arith) (λ e. omega arith)

-- Two sockets, and the thread of the first.
abbrev server : Server
server = record nobody { accepted = 5 ∷ 6 ∷ [] }

abbrev thread : Thread
thread = new_thread 5

ready : IsReady thread server
ready = (blank-size, blank-size)

abbrev said : List ℕ
said = message_text al hi

sender_round-Relays_example :
    Yields (Sends (client al) said [] false) (sender_round (some hi) true (client al))
    × Relays said thread server
    × Yields
        (Keeps (client bo) (message al hi ∷ []) false)
        (receive_round (recv_of said) (client bo))
sender_round-Relays_example =
    sender_round-Relays (client al) (client bo) thread server hi al-IsSized bo-IsSized ready
      ((λ e. omega arith), (λ e. omega arith), ((λ e. omega arith), (λ e. omega arith), tt))
      (omega arith) ((λ e. omega arith), ((λ e. omega arith), tt)) refl refl

request_join-Relays_example :
    Relays (join_text al) thread server
    × Yields
        (λ w.
          Sends (client al) (join_text al) (trying_to_join ∷ []) false w
          × Yields
              (λ v. (v.1.printed ≡ w.1.printed ++ (joined_myself ∷ [])) × (may_chat v.1 ≡ true))
              (receive_round (recv_of (join_text al)) w.1))
        (request_join true (client al))
request_join-Relays_example =
    request_join-Relays (client al) thread server al-IsSized ready
      ((λ e. omega arith), (λ e. omega arith), ((λ e. omega arith), (λ e. omega arith), tt)) refl

sender_round-SendsOff_example :
    Yields
      (λ w.
        Sends (client al) (quit_text al) (disconnection_requested ∷ []) true w
        × (sender_round (some hi) true w.1 ≡ some (leaves, w.1))
        × Yields (HasEnded disconnected w.1) (receive_round disconnected w.1))
      (sender_round none true (client al))
    × SendsOff (quit_text al) thread server
    × Yields
        (Keeps (client bo) (quitted al ∷ []) false)
        (receive_round (recv_of (quit_text al)) (client bo))
sender_round-SendsOff_example =
    sender_round-SendsOff (client al) (client bo) thread server (some hi) true disconnected
      al-IsSized bo-IsSized ready
      ((λ e. omega arith), (λ e. omega arith), ((λ e. omega arith), (λ e. omega arith), tt)) refl
      refl

receive_step-Rebroadcasts_example :
    Rebroadcasts
      (66 ∷ 89 ∷ 69 ∷ [])
      thread
      server
      (receive_step (bytes 66 (89 ∷ 69 ∷ [])) thread server)
receive_step-Rebroadcasts_example =
    receive_step-Rebroadcasts 66 (89 ∷ 69 ∷ []) thread server (omega (arith, blank-size))

-- The number 5 is used again once its thread is done.
abbrev turns : List Action
turns =
    accept 5 1
    ∷ accept 6 2
    ∷ turn 0 disconnected
    ∷ turn 1 (bytes 104 (105 ∷ []))
    ∷ turn 0 disconnected
    ∷ accept 5 3
    ∷ []

turns-AreFresh : AreFresh turns started
unfolding perform turn_at server_receiver receive_step delete_step is_quit splice same_text
turns-AreFresh = (tt, (((λ e. omega arith), tt), (tt, (tt, (tt, (((λ e. omega arith), tt), tt))))))

run-IsServed_example : IsServed (run turns started)
run-IsServed_example = run-IsServed turns turns-AreFresh

delete_step-accept_round_example :
    let s' = (delete_step (record thread { phase = closed }) (accept_round 5 2 server)).1 in
    Absent 5 s'.accepted × ((rebroadcast hi s').calls ≡ to_all s'.accepted hi)
delete_step-accept_round_example =
    delete_step-accept_round 5 2 (record thread { phase = closed }) server hi refl
      (omega (arith, blank-size))

receive_round-safe_example :
    Yields (λ w. Unit {0}) (receive_round (bytes 104 (105 ∷ [])) (client bo))
    ⊎ Yields
        (λ p. (p.type ≡ dpp_message_type) × (p.message ≡ wild))
        (parse_transmission (splice 0 hi blank) 2)
receive_round-safe_example =
    receive_round-safe (client bo) 104 (105 ∷ []) (omega (arith, blank-size))

receive_round-halved_example :
    receive_round (recv_of (77 ∷ 83 ∷ 71 ∷ 58 ∷ 58 ∷ al)) (client bo) ≡ none
receive_round-halved_example =
    receive_round-halved (client bo) al (omega (arith, blank-size))
      ((λ e. omega arith), (λ e. omega arith), ((λ e. omega arith), (λ e. omega arith), tt)) refl

accepts_username_iff_example :
    (accepts_username al ≡ some true) ↔ ((length al ≤ max_username_length) × IsPlain 0 al)
accepts_username_iff_example =
    accepts_username_iff al ((λ e. omega arith), ((λ e. omega arith), tt))
