-- ===== src/Dpp/RoundTrip.antt =====
-- A transmission on its way: built in one buffer, sent up to its NUL, received into another
-- buffer of the same size, and parsed there.
use mathlib.Core.Path.{subst}
use cosc_60_computer_network.Prelude.{
  ℕ, ◌+◌, ◌≤◌, ◌<◌, ◌≡◌, refl, ap, ◌∙◌, sym, true, Option, none, some, List, [], ◌∷◌, ◌++◌, length,
  drop, ltb, arith, append_assoc, length-append, Yields, yields, Yields-weaken, ◌>>=◌,
}
use cosc_60_computer_network.Bytes.{splice, splice_front}
use cosc_60_computer_network.Dpp.{
  Parsed, print, text_at, find_delimiter, split_type, parse_transmission, message_text, join_text,
  quit_text, build_message, build_join, build_quit, dpp_message_type, dpp_join_type, dpp_quit_type,
  colon, buffer_size, max_username_length, max_message_length,
}
use cosc_60_computer_network.Dpp.Search.{IsPlain, HasNoNul, IsPlain-HasNoNul, text_at-end}
use cosc_60_computer_network.Dpp.Parsing.{
  Says, message-Says, join-Says, quit-Says, parse_transmission-received,
}

HasNoNul-append : (u v : List ℕ) → HasNoNul u → HasNoNul v → HasNoNul (u ++ v)
HasNoNul-append [] v hu hv = hv
HasNoNul-append (c ∷ u) v hu hv = (hu.0, HasNoNul-append u v hu.1 hv)

-- sprintf() writes a text with its NUL, and returns its length.
pub print_lem :
    (text buffer : List ℕ)
    → length text < length buffer
    → (rest : List ℕ) × (print text buffer ≡ some (text ++ (0 ∷ rest), length text))
unfolding print
print_lem text buffer h =
    let l : ltb (length text) (length buffer) ≡ true = ground arith in
    let n : length (text ++ (0 ∷ [])) ≡ length text + 1 = length-append text (0 ∷ []) in
    let rest = drop (length text + 1) buffer in
    let e : splice 0 (text ++ (0 ∷ [])) buffer ≡ text ++ (0 ∷ rest) =
      splice_front (length text + 1) (text ++ (0 ∷ [])) buffer n (omega arith)
      ∙ append_assoc text (0 ∷ []) rest in
    (rest, rw (l, e) refl)

-- send() of `strlen` bytes of a buffer, recv() into another one, and parse_transmission().
abbrev pub carried : List ℕ → List ℕ → Option Parsed
carried received b = text_at b >>= λ sent. parse_transmission (splice 0 sent received) (length sent)

carried-text :
    (text rest received : List ℕ)
    → HasNoNul text
    → length text < length received
    → carried received (text ++ (0 ∷ rest)) ≡ (
        find_delimiter (text ++ (0 ∷ drop (length text + 1) received))
        >>= split_type (text ++ (0 ∷ drop (length text + 1) received)))
carried-text text rest received h l =
    rw (text_at-end text rest h) (parse_transmission-received text received l)

pub message-parses :
    (u m rest : List ℕ)
    → IsPlain 58 u
    → HasNoNul m
    → Yields (Says dpp_message_type u (some m)) (
        find_delimiter (message_text u m ++ (0 ∷ rest))
        >>= split_type (message_text u m ++ (0 ∷ rest)))
unfolding find_delimiter split_type
message-parses u m rest hu hm =
    let e : (u ++ (58 ∷ 58 ∷ m)) ++ (0 ∷ rest) ≡ u ++ (58 ∷ 58 ∷ (m ++ (0 ∷ rest))) =
      append_assoc u (58 ∷ 58 ∷ m) (0 ∷ rest) in
    rw e (message-Says u m rest hu hm)

-- A text that parses as `Q` does so after its way.
print-carried :
    {Q : Parsed → Type 0} (text buffer received : List ℕ)
    → HasNoNul text
    → length text < length buffer
    → length text < length received
    → Yields Q (
        find_delimiter (text ++ (0 ∷ drop (length text + 1) received))
        >>= split_type (text ++ (0 ∷ drop (length text + 1) received)))
    → Yields (λ w. (w.1 ≡ length text) × Yields Q (carried received w.0)) (print text buffer)
print-carried {Q} text buffer received n b r y =
    let (rest, e) = print_lem text buffer b in
    rw e (yields (refl, subst (λ o. Yields Q o) (sym (carried-text text rest received n r)) y))

pub message-HasNoNul : (u m : List ℕ) → HasNoNul u → HasNoNul m → HasNoNul (message_text u m)
message-HasNoNul u m hu hm =
    let n = HasNoNul-append u (58 ∷ 58 ∷ m) hu (λ e. omega arith, (λ e. omega arith, hm)) in
    (
      λ e. omega arith,
      (λ e. omega arith, (λ e. omega arith, (λ e. omega arith, (λ e. omega arith, n)))),
    )

pub join-HasNoNul : (u : List ℕ) → HasNoNul u → HasNoNul (join_text u)
join-HasNoNul u n = (
  λ e. omega arith,
  (
    λ e. omega arith,
    (λ e. omega arith, (λ e. omega arith, (λ e. omega arith, (λ e. omega arith, n)))),
  ),
)

pub quit-HasNoNul : (u : List ℕ) → HasNoNul u → HasNoNul (quit_text u)
quit-HasNoNul u n = (
  λ e. omega arith,
  (λ e. omega arith, (λ e. omega arith, (λ e. omega arith, (λ e. omega arith, n)))),
)

pub length-message_text : (u m : List ℕ) → length (message_text u m) ≡ 7 + length u + length m
length-message_text u m = omega (arith, length-append u (58 ∷ 58 ∷ m))

-- A username without NUL or delimiter that does not end in a colon and a message without NUL,
-- both of at most their greatest length, in buffers of BUFFER_SIZE bytes: build_message() does
-- not run over the buffer and returns the length of the transmission, and the receiver parses
-- a message with that username and that text.
pub parse_transmission-build_message :
    (buffer received username message : List ℕ)
    → length buffer ≡ buffer_size
    → length received ≡ buffer_size
    → length username ≤ max_username_length
    → length message ≤ max_message_length
    → IsPlain colon username
    → HasNoNul message
    → Yields
        (λ w.
          (w.1 ≡ 7 + length username + length message)
          × Yields (Says dpp_message_type username (some message)) (carried received w.0))
        (build_message buffer username message)
unfolding build_message
parse_transmission-build_message b r u m lb lr lu lm hu hm =
    let text = message_text u m in
    let l = length-message_text u m in
    let nul = message-HasNoNul u m (IsPlain-HasNoNul 58 u hu) hm in
    Yields-weaken
      (print-carried text b r nul (omega arith) (omega arith) (message-parses u m _ hu hm))
      (λ w h. (h.0 ∙ l, h.1))

-- A username of at most its greatest length without NUL or delimiter, in buffers of
-- BUFFER_SIZE bytes: build_join() and build_quit() do not run over the buffer and return the
-- length of the transmission, and the receiver parses a join, or a quit, with that username.
pub parse_transmission-build_join :
    (buffer received username : List ℕ)
    → length buffer ≡ buffer_size
    → length received ≡ buffer_size
    → length username ≤ max_username_length
    → IsPlain 0 username
    → Yields
        (λ w.
          (w.1 ≡ 6 + length username)
          × Yields (Says dpp_join_type username none) (carried received w.0))
        (build_join buffer username)
      × Yields
          (λ w.
            (w.1 ≡ 5 + length username)
            × Yields (Says dpp_quit_type username none) (carried received w.0))
          (build_quit buffer username)
unfolding build_join build_quit find_delimiter split_type
parse_transmission-build_join b r u lb lr lu hu =
    let n = IsPlain-HasNoNul 0 u hu in
    (
      Yields-weaken
          (print-carried (join_text u) b r (join-HasNoNul u n) (omega arith) (omega arith)
            (join-Says u _ hu))
          (λ w h. (omega (arith, h.0), h.1)),
      Yields-weaken
          (print-carried (quit_text u) b r (quit-HasNoNul u n) (omega arith) (omega arith)
            (quit-Says u _ hu))
          (λ w h. (omega (arith, h.0), h.1)),
    )

-- The username that ends in a colon is not told apart: what build_message() writes for it is
-- what it writes for the shorter username and a message that starts with the colon, whatever
-- the buffer.
pub build_message-colon :
    (buffer username message : List ℕ)
    → build_message buffer (username ++ (colon ∷ [])) message
      ≡ build_message buffer username (colon ∷ message)
unfolding build_message
build_message-colon b u m =
    ap (λ t. print (77 ∷ 83 ∷ 71 ∷ 58 ∷ 58 ∷ t) b) (append_assoc u (58 ∷ []) (58 ∷ 58 ∷ m))
