-- ===== src/Chat/Safety.antt =====
-- What a transmission can do to a client that receives it.
use mathlib.Core.Path.{subst}
use cosc_60_computer_network.Prelude.{
  ℕ, ◌+◌, ◌<◌, ◌≡◌, ◌≢◌, refl, ap, sym, true, false, Bool-cases, ◌⊎◌, inl, inr, Option, none, some,
  List, ◌∷◌, ◌++◌, length, arith, Yields, yields, Yields->>=, Yields-value, ◌>>=◌, if◌then◌else◌,
}
use cosc_60_computer_network.Prelude.Int.{◌==ℤ◌, ==ℤ→≡}
use cosc_60_computer_network.Bytes.{splice, length-splice}
use cosc_60_computer_network.Dpp.{
  Parsed, MessagePointer, unset, place, wild, text_of, dpp_message, dpp_delimiter,
  parse_transmission, printed_username, printed_message, dpp_message_type, dpp_join_type,
  dpp_quit_type, dpp_unknown_type,
}
use cosc_60_computer_network.Dpp.Search.{IsPlain}
use cosc_60_computer_network.Dpp.Safety.{
  Printable, HasUsername, HasMessage, parse_transmission-Printable,
}
use cosc_60_computer_network.Dpp.Hearing.{halved-heard}
use cosc_60_computer_network.Chat.{bytes}
use cosc_60_computer_network.Chat.Client.{
  Client, leaves, interpret, print_message, process, handle_transmission, receive_round,
}
use cosc_60_computer_network.Chat.Hearing.{recv_of}

username-printed :
    (p : Parsed)
    → p.type ≢ dpp_unknown_type
    → HasUsername p
    → Yields (λ u. Unit {0}) (printed_username p)
unfolding printed_username
username-printed p n (inl h) = absurd (n h.1)
username-printed p n (inr h) = rw (h.1) h.2

message-printed :
    (m : MessagePointer) (p : Parsed)
    → p.type ≡ dpp_message_type
    → p.message ≡ m
    → HasMessage m p
    → Yields (λ u. Unit {0}) (printed_message p) ⊎ (p.message ≡ wild)
unfolding printed_message
message-printed unset p e m h = absurd (h e)
message-printed wild p e m h = inr m
message-printed (place i) p e m h = inl (rw m h.1)

-- A parsed transmission that can be printed is interpreted, unless its message pointer is wild.
interpret-Printable :
    (p : Parsed) (c : Client)
    → Printable p
    → Yields (λ d. Unit {0}) (interpret p c) ⊎ ((p.type ≡ dpp_message_type) × (p.message ≡ wild))
unfolding interpret print_message
interpret-Printable p c h = elim (Bool-cases (p.type ==ℤ dpp_message_type)) [
  | inl m ↦
      let e = ==ℤ→≡ p.type dpp_message_type m in
      let u = username-printed p (λ k. cc (e, k)) h.0 in
      elim (message-printed p.message p e refl h.1) [
        | inl y ↦ inl (rw m (Yields->>= u (λ a _. Yields->>= y (λ b _. yields tt))))
        | inr w ↦ inr (e, w)
      ]
  | inr m ↦ elim (Bool-cases (p.type ==ℤ dpp_join_type)) [
    | inl j ↦
        let u = username-printed p (λ k. cc (ap (λ t. t ==ℤ dpp_join_type) k, j)) h.0 in
        inl (rw (m, j) (Yields->>= u (λ a _. yields tt)))
    | inr j ↦ elim (Bool-cases (p.type ==ℤ dpp_quit_type)) [
      | inl q ↦
          let u = username-printed p (λ k. cc (ap (λ t. t ==ℤ dpp_quit_type) k, q)) h.0 in
          inl (rw (m, j, q) (Yields->>= u (λ a _. yields tt)))
      | inr q ↦ elim (Bool-cases (p.type ==ℤ dpp_unknown_type)) [
        | inl k ↦ inl (rw (m, j, q, k) (yields tt))
        | inr k ↦ inl (rw (m, j, q, k) (yields tt))
      ]
    ]
  ]
]

-- A client that receives fewer bytes than its buffer holds ends the round without a fault, or
-- the transmission parses as a message whose pointer is NULL + 2.
pub receive_round-safe :
    (c : Client) (first : ℕ) (others : List ℕ)
    → length (first ∷ others) < length c.receiver_buffer
    → Yields (λ w. Unit {0}) (receive_round (bytes first others) c)
      ⊎ Yields
          (λ p. (p.type ≡ dpp_message_type) × (p.message ≡ wild))
          (parse_transmission
            (splice 0 (first ∷ others) c.receiver_buffer)
            (length (first ∷ others)))
unfolding receive_round handle_transmission process
receive_round-safe c first others h =
    let received = first ∷ others in
    let b = splice 0 received c.receiver_buffer in
    let (p, e, k) = Yields-value (
      parse_transmission-Printable b (length received)
        (omega (arith, h, length-splice 0 received c.receiver_buffer))) in
    let d = record c { receiver_buffer = b } in
    elim (Bool-cases c.quit_necessary) [
      | inl q ↦ inl (
          subst
            (λ x.
              Yields (λ w. Unit {0}) (if x then some (leaves, d) else process (length received) d))
            (sym q) (yields tt))
      | inr q ↦ elim (interpret-Printable p (record c { receiver_buffer = p.buffer }) k) [
        | inl y ↦ inl (
            subst
              (λ x.
                Yields (λ w. Unit {0})
                  (if x then some (leaves, d) else process (length received) d))
              (sym q) (rw e (Yields->>= y (λ a _. yields tt))))
        | inr w ↦ inr (rw e (yields w))
      ]
    ]

after-none :
    {A B : Type 0} (o : Option A) (k : A → Option B) → ((a : A) → k a ≡ none) → (o >>= k) ≡ none
after-none none k h = refl
after-none (some a) k h = h a

interpret-wild :
    (p : Parsed) (c : Client) → p.type ≡ dpp_message_type → p.message ≡ wild → interpret p c ≡ none
unfolding interpret print_message printed_message
interpret-wild p c e w =
    let m : (p.type ==ℤ dpp_message_type) ≡ true = ap (λ t. t ==ℤ dpp_message_type) e in
    let t : text_of p.message p.buffer ≡ none = ap (λ x. text_of x p.buffer) w in
    rw (m, t) (after-none (printed_username p) _ (λ u. refl))

-- "MSG::" with a name and no second delimiter, received by a client whose user has not asked to quit:
-- it reads at NULL + 2, whatever the name, as long as that has no delimiter and fits.
pub receive_round-halved :
    (c : Client) (name : List ℕ)
    → length name + 5 < length c.receiver_buffer
    → IsPlain 0 name
    → c.quit_necessary ≡ false
    → receive_round (recv_of (dpp_message ++ (dpp_delimiter ++ name))) c ≡ none
unfolding receive_round handle_transmission process
receive_round-halved c name h u q =
    let received = dpp_message ++ (dpp_delimiter ++ name) in
    let b = splice 0 received c.receiver_buffer in
    let d = record c { receiver_buffer = b } in
    let l : length name + 5 ≡ length received = omega arith in
    let (p, e, k) = Yields-value (
      subst
        (λ n.
          Yields (λ p. (p.type ≡ dpp_message_type) × (p.message ≡ wild)) (parse_transmission b n))
        l (halved-heard name c.receiver_buffer h u)) in
    subst (λ x. (if x then some (leaves, d) else process (length received) d) ≡ none) (sym q)
      (rw (e, interpret-wild p (record c { receiver_buffer = p.buffer }) k.0 k.1) refl)
