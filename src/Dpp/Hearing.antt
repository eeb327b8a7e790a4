-- ===== src/Dpp/Hearing.antt =====
-- parse_transmission() and is_quit() on a transmission that was received into a buffer.
use cosc_60_computer_network.Prelude.{
  ℕ, ◌+◌, ◌≤◌, ◌<◌, ◌≡◌, refl, none, some, List, [], ◌∷◌, ◌++◌, length, drop, arith, Yields, yields,
}
use cosc_60_computer_network.Bytes.{splice, splice_front}
use cosc_60_computer_network.Dpp.{
  wild, parse_transmission, find_delimiter, text_at, split_type, by_type, same_text, message_text,
  join_text, quit_text, dpp_message_type, dpp_join_type, dpp_quit_type, is_quit, colon,
}
use cosc_60_computer_network.Dpp.Search.{IsPlain, HasNoNul, find_delimiter-missing}
use cosc_60_computer_network.Dpp.Parsing.{
  Says, join-Says, quit-Says, split_username-once, parse_transmission-received,
}
use cosc_60_computer_network.Dpp.RoundTrip.{message-parses}

pub message-heard :
    (u m received : List ℕ)
    → length (message_text u m) < length received
    → IsPlain colon u
    → HasNoNul m
    → Yields
        (Says dpp_message_type u (some m))
        (parse_transmission (splice 0 (message_text u m) received) (length (message_text u m)))
message-heard u m received h hu hm =
    rw (parse_transmission-received (message_text u m) received h) (message-parses u m _ hu hm)

pub join-heard :
    (u received : List ℕ)
    → length (join_text u) < length received
    → IsPlain 0 u
    → Yields
        (Says dpp_join_type u none)
        (parse_transmission (splice 0 (join_text u) received) (length (join_text u)))
unfolding find_delimiter split_type
join-heard u received h hu =
    rw (parse_transmission-received (join_text u) received h) (join-Says u _ hu)

pub quit-heard :
    (u received : List ℕ)
    → length (quit_text u) < length received
    → IsPlain 0 u
    → Yields
        (Says dpp_quit_type u none)
        (parse_transmission (splice 0 (quit_text u) received) (length (quit_text u)))
unfolding find_delimiter split_type
quit-heard u received h hu =
    rw (parse_transmission-received (quit_text u) received h) (quit-Says u _ hu)

-- "MSG::" and a username, without a second delimiter.
pub halved-heard :
    (u received : List ℕ)
    → length u + 5 < length received
    → IsPlain 0 u
    → Yields
        (λ p. (p.type ≡ dpp_message_type) × (p.message ≡ wild))
        (parse_transmission (splice 0 (77 ∷ 83 ∷ 71 ∷ 58 ∷ 58 ∷ u) received) (length u + 5))
unfolding find_delimiter split_type by_type same_text text_at
halved-heard u received h hu =
    let text = 77 ∷ 83 ∷ 71 ∷ 58 ∷ 58 ∷ u in
    let rest = drop (length text + 1) received in
    let l : length u + 5 ≡ length text = omega arith in
    let b = 77 ∷ 83 ∷ 71 ∷ 0 ∷ 58 ∷ (u ++ (0 ∷ rest)) in
    let e = split_username-once 3 b (77 ∷ 83 ∷ 71 ∷ []) (find_delimiter-missing u rest hu) refl in
    rw (l, parse_transmission-received text received (omega arith), e) (yields (refl, refl))

pub is_quit-splice :
    (a b c : ℕ) (text received : List ℕ)
    → length (a ∷ b ∷ c ∷ text) ≤ length received
    → is_quit (splice 0 (a ∷ b ∷ c ∷ text) received) ≡ is_quit (a ∷ b ∷ c ∷ [])
unfolding is_quit
is_quit-splice a b c text received h =
    rw (splice_front (length (a ∷ b ∷ c ∷ text)) (a ∷ b ∷ c ∷ text) received refl h) refl
