-- ===== src/Chat/Speaking.antt =====
-- What a client sends: its request to join, the lines of its user, and its request to quit.
use mathlib.Core.Path.{subst}
use cosc_60_computer_network.Prelude.{
  ℕ, ◌≤◌, ◌≡◌, refl, ap, ◌∙◌, sym, true, false, Bool, none, some, List, [], ◌∷◌, ◌++◌, length,
  arith, Yields, yields, append-nil, ◌>>=◌, if◌then◌else◌,
}
use cosc_60_computer_network.Dpp.{
  build_message, build_join, build_quit, text_at, message_text, join_text, quit_text, buffer_size,
  max_username_length, max_message_length,
}
use cosc_60_computer_network.Dpp.Search.{HasNoNul, text_at-end}
use cosc_60_computer_network.Dpp.RoundTrip.{
  print_lem, length-message_text, message-HasNoNul, join-HasNoNul, quit-HasNoNul,
}
use cosc_60_computer_network.Chat.Client.{
  Client, Line, trying_to_join, disconnection_requested, Outcome, goes_on, leaves, print_line,
  request_join, build_line, send_buffer, sender_round,
}

-- The thread goes on after it has sent a text, having printed some lines.
abbrev pub Sends : Client → List ℕ → List Line → Bool → Outcome × Client → Type 0
Sends c text lines quits w =
    (w.0 ≡ goes_on)
    × (w.1.sent ≡ c.sent ++ (text ∷ []))
    × (w.1.printed ≡ c.printed ++ lines)
    × (w.1.quit_necessary ≡ quits)
    × (w.1.join_acknowledged ≡ c.join_acknowledged)
    × (w.1.username ≡ c.username)
    × (w.1.receiver_buffer ≡ c.receiver_buffer)

-- A client whose variables have the sizes of the source.
abbrev pub IsSized : Client → Type 0
IsSized c =
    (length c.sender_buffer ≡ buffer_size)
    × (length c.receiver_buffer ≡ buffer_size)
    × (length c.username ≤ max_username_length)
    × HasNoNul c.username

send_buffer-Sends :
    (c d : Client) (text rest : List ℕ) (lines : List Line) (quits : Bool)
    → HasNoNul text
    → d.sender_buffer ≡ text ++ (0 ∷ rest)
    → d.sent ≡ c.sent
    → d.printed ≡ c.printed ++ lines
    → d.quit_necessary ≡ quits
    → d.join_acknowledged ≡ c.join_acknowledged
    → d.username ≡ c.username
    → d.receiver_buffer ≡ c.receiver_buffer
    → Yields (Sends c text lines quits) (send_buffer true d)
unfolding send_buffer
send_buffer-Sends c d text rest lines quits h b s p q j u r =
    let e : text_at d.sender_buffer ≡ some text = ap text_at b ∙ text_at-end text rest h in
    rw e (yields (refl, ap (λ l. l ++ (text ∷ [])) s, p, q, j, u, r))

pub sender_round-message :
    (c : Client) (line : List ℕ)
    → IsSized c
    → c.quit_necessary ≡ false
    → length line ≤ max_message_length
    → HasNoNul line
    → Yields (Sends c (message_text c.username line) [] false) (sender_round (some line) true c)
unfolding sender_round build_line build_message
sender_round-message c m s q l h =
    let text = message_text c.username m in
    let (rest, e) =
      print_lem text c.sender_buffer (omega (arith, s.0, s.2, length-message_text c.username m)) in
    subst
      (λ b.
        Yields (Sends c text [] false)
          (if b then some (leaves, c) else (build_line (some m) c >>= send_buffer true)))
      (sym q)
      (rw e (
        send_buffer-Sends c (record c { sender_buffer = text ++ (0 ∷ rest) }) text rest [] false
          (message-HasNoNul c.username m s.3 h) refl refl (sym (append-nil c.printed)) q refl refl
          refl))

pub request_join-Sends :
    (c : Client)
    → IsSized c
    → Yields
        (Sends c (join_text c.username) (trying_to_join ∷ []) c.quit_necessary)
        (request_join true c)
unfolding request_join build_join
request_join-Sends c s =
    let text = join_text c.username in
    let (rest, e) = print_lem text c.sender_buffer (omega (arith, s.0, s.2)) in
    rw e (
      send_buffer-Sends c
        (record (print_line trying_to_join c) { sender_buffer = text ++ (0 ∷ rest) }) text rest
        (trying_to_join ∷ []) c.quit_necessary (join-HasNoNul c.username s.3) refl refl refl refl
        refl refl refl)

-- The end of the input.
pub sender_round-quit :
    (c : Client)
    → IsSized c
    → c.quit_necessary ≡ false
    → Yields
        (Sends c (quit_text c.username) (disconnection_requested ∷ []) true)
        (sender_round none true c)
unfolding sender_round build_line build_quit
sender_round-quit c s q =
    let text = quit_text c.username in
    let (rest, e) = print_lem text c.sender_buffer (omega (arith, s.0, s.2)) in
    subst
      (λ b.
        Yields (Sends c text (disconnection_requested ∷ []) true)
          (if b then some (leaves, c) else (build_line none c >>= send_buffer true)))
      (sym q)
      (rw e (
        send_buffer-Sends c
          (record (print_line disconnection_requested c) {
            quit_necessary = true;
            sender_buffer = text ++ (0 ∷ rest);
          })
          text rest (disconnection_requested ∷ []) true (quit-HasNoNul c.username s.3) refl refl
          refl refl refl refl refl))
