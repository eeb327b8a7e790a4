-- ===== src/Chat/Hearing.antt =====
-- What a client makes of the transmissions that the build functions write.
use mathlib.Core.Path.{subst}
use cosc_60_computer_network.Prelude.{
  ℕ, ◌<◌, ◌≡◌, refl, ap, ap₂, sym, true, false, Bool, ◌||◌, ◌&&◌, none, some, List, [], ◌∷◌, ◌++◌,
  length, arith, Yields, yields, Yields->>=, ==_refl, Bool-cases, inl, inr, if◌then◌else◌, ◌==◌,
}
use cosc_60_computer_network.Prelude.Int.{◌==ℤ◌}
use cosc_60_computer_network.Bytes.{splice}
use cosc_60_computer_network.Dpp.{
  Parsed, parse_transmission, same_text, message_text, join_text, quit_text, dpp_message_type,
  dpp_join_type, dpp_quit_type, colon,
}
use cosc_60_computer_network.Dpp.Search.{IsPlain, HasNoNul}
use cosc_60_computer_network.Dpp.Parsing.{Says}
use cosc_60_computer_network.Dpp.Hearing.{message-heard, join-heard, quit-heard}
use cosc_60_computer_network.Chat.{Recv, disconnected, bytes}
use cosc_60_computer_network.Chat.Client.{
  Client, Line, message, joined, joined_myself, quitted, Outcome, goes_on, leaves, interpret,
  print_message, acknowledge_join, process, handle_transmission, receive_round, print_line,
}

-- recv() of a transmission as it was sent.
abbrev pub recv_of : List ℕ → Recv
recv_of [] = disconnected
recv_of (first ∷ others) = bytes first others

pub same_text_refl : (u : List ℕ) → same_text u u ≡ true
unfolding same_text
same_text_refl [] = refl
same_text_refl (x ∷ u) = rw (==_refl x, same_text_refl u) refl

pub same_text_sound : (u v : List ℕ) → same_text u v ≡ true → u ≡ v
unfolding same_text
same_text_sound [] [] h = refl
same_text_sound [] (y ∷ v) h = absurd (cc (h))
same_text_sound (x ∷ u) [] h = absurd (cc (h))
same_text_sound (x ∷ u) (y ∷ v) h = elim (Bool-cases (x == y)) [
  | inl e ↦
      let t : same_text u v ≡ true = subst (λ b. (b && same_text u v) ≡ true) e h in
      ap₂ (λ a l. a ∷ l) (ground (arith, e)) (same_text_sound u v t)
  | inr e ↦ let t : false ≡ true = subst (λ b. (b && same_text u v) ≡ true) e h in absurd (cc (t))
]

-- The thread goes on with its variables as before but the buffer and these.
abbrev pub Keeps : Client → (List Line) → Bool → Outcome × Client → Type 0
Keeps c lines acknowledged w =
    (w.0 ≡ goes_on)
    × (w.1.username ≡ c.username)
    × (w.1.printed ≡ c.printed ++ lines)
    × (w.1.join_acknowledged ≡ acknowledged)
    × (w.1.quit_necessary ≡ c.quit_necessary)
    × (w.1.sent ≡ c.sent)

interpret-message :
    (p : Parsed) (c : Client) (u m : List ℕ)
    → Says dpp_message_type u (some m) p
    → interpret p c ≡ some (print_line (message u m) c)
unfolding interpret print_message
interpret-message p c u m h =
    let e : (p.type ==ℤ dpp_message_type) ≡ true = ap (λ t. t ==ℤ dpp_message_type) h.0 in
    rw (e, h.1, h.2) refl

interpret-join :
    (p : Parsed) (c : Client) (u : List ℕ)
    → Says dpp_join_type u none p
    → interpret p c ≡ some (acknowledge_join u c)
unfolding interpret
interpret-join p c u h =
    let m : (p.type ==ℤ dpp_message_type) ≡ false = ap (λ t. t ==ℤ dpp_message_type) h.0 in
    let j : (p.type ==ℤ dpp_join_type) ≡ true = ap (λ t. t ==ℤ dpp_join_type) h.0 in
    rw (m, j, h.1) refl

interpret-quit :
    (p : Parsed) (c : Client) (u : List ℕ)
    → Says dpp_quit_type u none p
    → interpret p c ≡ some (print_line (quitted u) c)
unfolding interpret
interpret-quit p c u h =
    let m : (p.type ==ℤ dpp_message_type) ≡ false = ap (λ t. t ==ℤ dpp_message_type) h.0 in
    let j : (p.type ==ℤ dpp_join_type) ≡ false = ap (λ t. t ==ℤ dpp_join_type) h.0 in
    let q : (p.type ==ℤ dpp_quit_type) ≡ true = ap (λ t. t ==ℤ dpp_quit_type) h.0 in
    rw (m, j, q, h.1) refl

-- A round that parses `P` and interprets it as `f` does.
handle-interpreted :
    {P : Parsed → Type 0} {Q : Outcome × Client → Type 0} (n : ℕ) (c : Client) (f : Client → Client)
    → c.quit_necessary ≡ false
    → Yields P (parse_transmission c.receiver_buffer n)
    → ((p : Parsed) (d : Client) → P p → interpret p d ≡ some (f d))
    → ((b : List ℕ) → Q (goes_on, f (record c { receiver_buffer = b })))
    → Yields Q (handle_transmission n c)
unfolding handle_transmission process
handle-interpreted {P} {Q} n c f q y i k =
    subst (λ b. Yields Q (if b then some (leaves, c) else process n c)) (sym q)
      (Yields->>= y
        (λ p h. rw (i p (record c { receiver_buffer = p.buffer }) h) (yields (k p.buffer))))

-- A message of another client, or of one's own, that fits with its NUL into the buffer and that
-- the user still wants to read: the round prints it, and leaves all other variables alone.
pub receive_round-message :
    (c : Client) (username line : List ℕ)
    → c.quit_necessary ≡ false
    → length (message_text username line) < length c.receiver_buffer
    → IsPlain colon username
    → HasNoNul line
    → Yields
        (Keeps c (message username line ∷ []) c.join_acknowledged)
        (receive_round (recv_of (message_text username line)) c)
unfolding receive_round
receive_round-message c u m q l hu hm =
    handle-interpreted (length (message_text u m))
      (record c { receiver_buffer = splice 0 (message_text u m) c.receiver_buffer })
      (print_line (message u m)) q (message-heard u m c.receiver_buffer l hu hm)
      (λ p d. interpret-message p d u m) (λ b. (refl, refl, refl, refl, refl, refl))

abbrev pub greeting : Bool → List ℕ → Line
greeting true u = joined_myself
greeting false u = joined u

acknowledge_join-Keeps :
    (c : Client) (u b : List ℕ)
    → Keeps c
        (greeting (same_text u c.username) u ∷ [])
        (same_text u c.username || c.join_acknowledged)
        (goes_on, acknowledge_join u (record c { receiver_buffer = b }))
acknowledge_join-Keeps c u b = elim (Bool-cases (same_text u c.username)) [
  | inl e ↦ rw e (refl, refl, refl, refl, refl, refl)
  | inr e ↦ rw e (refl, refl, refl, refl, refl, refl)
]

-- A join: a client of that username takes it as its acknowledgement, any other one only prints it.
pub receive_round-join :
    (c : Client) (username : List ℕ)
    → c.quit_necessary ≡ false
    → length (join_text username) < length c.receiver_buffer
    → IsPlain 0 username
    → Yields
        (Keeps c
          (greeting (same_text username c.username) username ∷ [])
          (same_text username c.username || c.join_acknowledged))
        (receive_round (recv_of (join_text username)) c)
unfolding receive_round
receive_round-join c u q l hu =
    handle-interpreted (length (join_text u))
      (record c { receiver_buffer = splice 0 (join_text u) c.receiver_buffer }) (acknowledge_join u)
      q (join-heard u c.receiver_buffer l hu) (λ p d. interpret-join p d u)
      (λ b. acknowledge_join-Keeps c u b)

pub receive_round-quit :
    (c : Client) (username : List ℕ)
    → c.quit_necessary ≡ false
    → length (quit_text username) < length c.receiver_buffer
    → IsPlain 0 username
    → Yields
        (Keeps c (quitted username ∷ []) c.join_acknowledged)
        (receive_round (recv_of (quit_text username)) c)
unfolding receive_round
receive_round-quit c u q l hu =
    handle-interpreted (length (quit_text u))
      (record c { receiver_buffer = splice 0 (quit_text u) c.receiver_buffer })
      (print_line (quitted u)) q (quit-heard u c.receiver_buffer l hu) (λ p d. interpret-quit p d u)
      (λ b. (refl, refl, refl, refl, refl, refl))
