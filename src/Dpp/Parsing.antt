-- ===== src/Dpp/Parsing.antt =====
-- parse_transmission() on what the build functions write, by the kind of transmission.
use cosc_60_computer_network.Prelude.{
  ℕ, zero, suc, ◌+◌, ◌≡◌, ◌<◌, refl, ap, ◌∙◌, sym, length-append, true, none, some, Option, List,
  [], ◌∷◌, ◌++◌, length, drop, set, ltb, arith, append_assoc, Yields, yields, ◌>>=◌, drop-append,
}
use cosc_60_computer_network.Prelude.Int.{ℤ}
use cosc_60_computer_network.Bytes.{splice, splice_front, drop-drop, length-splice}
use cosc_60_computer_network.Dpp.{
  Parsed, find_delimiter, text_at, split_username, split_type, parse_transmission, by_type,
  same_text, printed_username, printed_message, dpp_message_type, dpp_join_type, dpp_quit_type,
}
use cosc_60_computer_network.Dpp.Search.{
  IsPlain, HasNoNul, IsPlain-HasNoNul, find_delimiter-found, find_delimiter-missing, text_at-end,
  set-append,
}

-- A parsed transmission of a type, a username and, where it has one, a message.
abbrev pub Says : ℤ → List ℕ → Option (List ℕ) → Parsed → Type 0
Says type username message p =
    (p.type ≡ type) × (printed_username p ≡ some username) × (printed_message p ≡ message)

drop-nonempty :
    {A : Type 0} (n : ℕ) (xs : List A)
    → n < length xs
    → (x : A) × (tail : List A) × (drop n xs ≡ x ∷ tail)
drop-nonempty n [] h = elim h [ ]
drop-nonempty zero (x ∷ xs) h = (x, xs, refl)
drop-nonempty (suc n) (x ∷ xs) h = drop-nonempty n xs (omega arith)

drop-further :
    (n : ℕ) (xs : List ℕ) (x : ℕ) (tail : List ℕ) → drop n xs ≡ x ∷ tail → tail ≡ drop (n + 1) xs
drop-further n xs x tail e = sym (ap (λ l. drop 1 l) e) ∙ drop-drop n 1 (n + 1) xs refl

split_username-twice :
    (i k : ℕ) (b b' t : List ℕ)
    → find_delimiter (drop (i + 2) b) ≡ some (some k)
    → set b (i + 2 + k) 0 ≡ b'
    → text_at b' ≡ some t
    → split_username i b ≡ some (by_type t (i + 2) (some (i + 2 + k)) b')
unfolding split_username
split_username-twice i k b b' t f s e = rw (f, s, e) refl

pub split_username-once :
    (i : ℕ) (b t : List ℕ)
    → find_delimiter (drop (i + 2) b) ≡ some none
    → text_at b ≡ some t
    → split_username i b ≡ some (by_type t (i + 2) none b)
unfolding split_username
split_username-once i b t f e = rw (f, e) refl

drop-behind :
    (i : ℕ) (u rest : List ℕ) (c d : ℕ) → i ≡ length u + 2 → drop i (u ++ (c ∷ d ∷ rest)) ≡ rest
drop-behind i u rest c d e =
    ap (λ l. drop i l) (sym (append_assoc u (c ∷ d ∷ []) rest))
    ∙ drop-append i (u ++ (c ∷ d ∷ [])) rest (omega (arith, length-append u (c ∷ d ∷ [])))

-- The text behind the type of a message.
pub message-Says :
    (u m rest : List ℕ)
    → IsPlain 58 u
    → HasNoNul m
    → Yields
        (Says dpp_message_type u (some m))
        (split_username 3 (77 ∷ 83 ∷ 71 ∷ 0 ∷ 58 ∷ (u ++ (58 ∷ 58 ∷ (m ++ (0 ∷ rest))))))
unfolding by_type same_text printed_username printed_message text_at
message-Says u m rest hu hm =
    let r = m ++ (0 ∷ rest) in
    let b = 77 ∷ 83 ∷ 71 ∷ 0 ∷ 58 ∷ (u ++ (58 ∷ 58 ∷ r)) in
    let b' = 77 ∷ 83 ∷ 71 ∷ 0 ∷ 58 ∷ (u ++ (0 ∷ 58 ∷ r)) in
    let s : set b (5 + length u) 0 ≡ b' =
      set-append (5 + length u) (77 ∷ 83 ∷ 71 ∷ 0 ∷ 58 ∷ u) (58 ∷ r) 58 0 (omega arith) in
    let du = text_at-end u (58 ∷ r) (IsPlain-HasNoNul 58 u hu) in
    let dm =
      ap text_at (drop-behind (5 + length u + 2) (77 ∷ 83 ∷ 71 ∷ 0 ∷ 58 ∷ u) r 0 58 (omega arith))
      ∙ text_at-end m rest hm in
    let e =
      split_username-twice 3 (length u) b b' (77 ∷ 83 ∷ 71 ∷ []) (find_delimiter-found u r hu) s
        refl in
    rw e (yields (refl, du, dm))

-- A transmission of one more text: "HELO" or "BYE".
pub join-Says :
    (u rest : List ℕ)
    → IsPlain 0 u
    → Yields
        (Says dpp_join_type u none)
        (split_username 4 (72 ∷ 69 ∷ 76 ∷ 79 ∷ 0 ∷ 58 ∷ (u ++ (0 ∷ rest))))
unfolding by_type same_text printed_username printed_message text_at
join-Says u rest hu =
    let b = 72 ∷ 69 ∷ 76 ∷ 79 ∷ 0 ∷ 58 ∷ (u ++ (0 ∷ rest)) in
    let e =
      split_username-once 4 b (72 ∷ 69 ∷ 76 ∷ 79 ∷ []) (find_delimiter-missing u rest hu) refl in
    rw e (yields (refl, text_at-end u rest (IsPlain-HasNoNul 0 u hu), refl))

pub quit-Says :
    (u rest : List ℕ)
    → IsPlain 0 u
    → Yields
        (Says dpp_quit_type u none)
        (split_username 3 (66 ∷ 89 ∷ 69 ∷ 0 ∷ 58 ∷ (u ++ (0 ∷ rest))))
unfolding by_type same_text printed_username printed_message text_at
quit-Says u rest hu =
    let b = 66 ∷ 89 ∷ 69 ∷ 0 ∷ 58 ∷ (u ++ (0 ∷ rest)) in
    let e = split_username-once 3 b (66 ∷ 89 ∷ 69 ∷ []) (find_delimiter-missing u rest hu) refl in
    rw e (yields (refl, text_at-end u rest (IsPlain-HasNoNul 0 u hu), refl))

-- A text received into a longer buffer: its NUL is written right behind it.
pub parse_transmission-received :
    (text received : List ℕ)
    → length text < length received
    → parse_transmission (splice 0 text received) (length text) ≡ (
        find_delimiter (text ++ (0 ∷ drop (length text + 1) received))
        >>= split_type (text ++ (0 ∷ drop (length text + 1) received)))
unfolding parse_transmission
parse_transmission-received text received h =
    let l : ltb (length text) (length (splice 0 text received)) ≡ true =
      ground (arith, length-splice 0 text received) in
    let (x, tail, d) = drop-nonempty (length text) received h in
    let b : set (splice 0 text received) (length text) 0
        ≡ text ++ (0 ∷ drop (length text + 1) received) =
      ap (λ l. set l (length text) 0) (splice_front (length text) text received refl (omega arith))
      ∙ ap (λ l. set (text ++ l) (length text) 0) d
      ∙ set-append (length text) text tail x 0 refl
      ∙ ap (λ l. text ++ (0 ∷ l)) (drop-further (length text) received x tail d) in
    rw (l, b) refl
