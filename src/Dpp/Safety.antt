-- ===== src/Dpp/Safety.antt =====
-- Which reads of parse_transmission() and of its caller stay inside the buffer.
use mathlib.Core.Path.{subst}
use cosc_60_computer_network.Prelude.{
  ℕ, zero, suc, ◌+◌, ◌<◌, ◌≡◌, ◌≢◌, refl, true, ◌&&◌, Bool-cases, inl, inr, ◌⊎◌, Option, none, some,
  List, [], ◌∷◌, length, drop, set, ltb, ◌==◌, arith, Yields, yields, Yields->>=,
}
use cosc_60_computer_network.Prelude.Int.{ℤ}
use cosc_60_computer_network.Bytes.{drop-drop}
use cosc_60_computer_network.Dpp.{
  Parsed, MessagePointer, unset, place, wild, text_at, find_delimiter, split_username, split_type,
  parse_transmission, by_type, same_text, overwrite, from_start, message_place, dpp_message_type,
  dpp_message, dpp_join, dpp_quit, dpp_join_type, dpp_quit_type, dpp_unknown_type, one_further,
}

-- A buffer with a NUL.
pub data Terminated : List ℕ → Type 0 where
  here : {cs : List ℕ} → Terminated (0 ∷ cs)
  further : {c : ℕ} {cs : List ℕ} → Terminated cs → Terminated (c ∷ cs)

set-Terminated : (i : ℕ) (b : List ℕ) → i < length b → Terminated (set b i 0)
set-Terminated i [] h = elim h [ ]
set-Terminated zero (c ∷ b) h = here
set-Terminated (suc i) (c ∷ b) h = further (set-Terminated i b (omega arith))

-- One more NUL does not hurt.
set-drop : (j i : ℕ) (b : List ℕ) → Terminated (drop j b) → Terminated (drop j (set b i 0))
set-drop zero i [] h = h
set-drop (suc j) i [] h = h
set-drop zero zero (c ∷ b) h = here
set-drop zero (suc i) (c ∷ b) here = here
set-drop zero (suc i) (c ∷ b) (further h) = further (set-drop zero i b h)
set-drop (suc j) zero (c ∷ b) h = h
set-drop (suc j) (suc i) (c ∷ b) h = set-drop j i b h

text_at-Terminated : (b : List ℕ) → Terminated b → Yields (λ t. Unit {0}) (text_at b)
unfolding text_at
text_at-Terminated [] h = elim h [ ]
text_at-Terminated (zero ∷ cs) here = yields tt
text_at-Terminated (c ∷ cs) (further h) = elim (Bool-cases (c == 0)) [
  | inl z ↦ rw z (yields tt)
  | inr z ↦ rw z (Yields->>= (text_at-Terminated cs h) (λ t u. yields tt))
]

-- Behind what was found, a text can be read.
abbrev Readable : List ℕ → Option ℕ → Type 0
Readable b none = Unit
Readable b (some i) = Terminated (drop (i + 2) b)

Terminated-tail : (d : ℕ) (cs : List ℕ) → d ≢ 0 → Terminated (d ∷ cs) → Terminated cs
Terminated-tail zero cs n here = absurd (n refl)
Terminated-tail d cs n (further h) = h

Readable-further :
    (c : ℕ) (b : List ℕ) (o : Option ℕ) → Readable b o → Readable (c ∷ b) (one_further o)
Readable-further c b none h = tt
Readable-further c b (some i) h =
    let e : suc (i + 2) ≡ i + 1 + 2 = omega arith in subst (λ k. Terminated (drop k (c ∷ b))) e h

find_delimiter-Terminated : (b : List ℕ) → Terminated b → Yields (Readable b) (find_delimiter b)
unfolding find_delimiter
find_delimiter-Terminated [] h = elim h [ ]
find_delimiter-Terminated (zero ∷ []) here = yields tt
find_delimiter-Terminated (zero ∷ d ∷ cs) here = yields tt
find_delimiter-Terminated (c ∷ []) (further h) = elim h [ ]
find_delimiter-Terminated (c ∷ d ∷ cs) (further h) =
    let ih = find_delimiter-Terminated (d ∷ cs) h in
    elim (Bool-cases (c == 0)) [
      | inl z ↦ rw z (yields tt)
      | inr z ↦ elim (Bool-cases ((c == 58) && (d == 58))) [
        | inl m ↦ rw (z, m) (yields (Terminated-tail d cs (ground (arith, m)) h))
        | inr m ↦ rw (z, m) (Yields->>= ih (λ o r. yields (Readable-further c (d ∷ cs) o r)))
      ]
    ]

abbrev IsPrintable : List ℕ → Type 0
IsPrintable b = Yields (λ t. Unit {0}) (text_at b)

-- The username can be printed, or there is none and the type is unknown.
abbrev pub HasUsername : Parsed → Type 0
HasUsername p =
    (p.username ≡ none × p.type ≡ dpp_unknown_type)
    ⊎ ((i : ℕ) × (p.username ≡ some i) × IsPrintable (drop i p.buffer))

-- What the caller finds at the message pointer.
abbrev pub HasMessage : MessagePointer → Parsed → Type 0
HasMessage unset p = p.type ≢ dpp_message_type
HasMessage wild p = p.type ≡ dpp_message_type
HasMessage (place i) p = (p.type ≡ dpp_message_type) × IsPrintable (drop i p.buffer)

abbrev pub Printable : Parsed → Type 0
Printable p = HasUsername p × HasMessage p.message p

place-Printable :
    (type : ℤ) (i : ℕ) (d : Option ℕ) (b : List ℕ)
    → type ≡ dpp_message_type
    → Terminated (drop i b)
    → Readable b d
    → Printable (record { type = type; username = some i; message = message_place d; buffer = b })
place-Printable type i none b e hu hd = (inr (i, refl, text_at-Terminated (drop i b) hu), e)
place-Printable type i (some k) b e hu hd =
    (inr (i, refl, text_at-Terminated (drop i b) hu), (e, text_at-Terminated (drop (k + 2) b) hd))

unset-Printable :
    (type : ℤ) (i : ℕ) (b : List ℕ)
    → type ≢ dpp_message_type
    → Terminated (drop i b)
    → Printable (record { type = type; username = some i; message = unset; buffer = b })
unset-Printable type i b n hu = (inr (i, refl, text_at-Terminated (drop i b) hu), n)

by_type-Printable :
    (t : List ℕ) (i : ℕ) (d : Option ℕ) (b : List ℕ)
    → Terminated (drop i b)
    → Readable b d
    → Printable (by_type t i d b)
unfolding by_type
by_type-Printable t i d b hu hd = elim (Bool-cases (same_text t dpp_message)) [
  | inl m ↦ rw m (place-Printable dpp_message_type i d b refl hu hd)
  | inr m ↦ elim (Bool-cases (same_text t dpp_join)) [
    | inl j ↦ rw (m, j) (unset-Printable dpp_join_type i b (λ e. cc (e)) hu)
    | inr j ↦ elim (Bool-cases (same_text t dpp_quit)) [
      | inl q ↦ rw (m, j, q) (unset-Printable dpp_quit_type i b (λ e. cc (e)) hu)
      | inr q ↦ rw (m, j, q) (unset-Printable dpp_unknown_type i b (λ e. cc (e)) hu)
    ]
  ]
]

Terminated-drop : (i : ℕ) (b : List ℕ) → Terminated (drop i b) → Terminated b
Terminated-drop zero b h = h
Terminated-drop (suc i) [] h = h
Terminated-drop (suc i) (c ∷ b) h = further (Terminated-drop i b h)

overwrite-Readable :
    (start : ℕ) (b : List ℕ) (o : Option ℕ)
    → Terminated (drop start b)
    → Readable (drop start b) o
    → Terminated (drop start (overwrite (from_start start o) b))
      × Readable (overwrite (from_start start o) b) (from_start start o)
overwrite-Readable start b none h r = (h, tt)
overwrite-Readable start b (some k) h r =
    let e : drop (k + 2) (drop start b) ≡ drop (start + k + 2) b =
      drop-drop start (k + 2) (start + k + 2) b (omega arith) in
    let r' = subst (λ l. Terminated l) e r in
    (set-drop start (start + k) b h, set-drop (start + k + 2) (start + k) b r')

split_username-Printable :
    (i : ℕ) (b : List ℕ) → Terminated (drop (i + 2) b) → Yields Printable (split_username i b)
unfolding split_username
split_username-Printable i b h = Yields->>= (find_delimiter-Terminated (drop (i + 2) b) h) (λ o r.
    let b' = overwrite (from_start (i + 2) o) b in
    let (u, d) = overwrite-Readable (i + 2) b o h r in
    Yields->>= (text_at-Terminated b' (Terminated-drop (i + 2) b' u))
      (λ t _. yields (by_type-Printable t (i + 2) (from_start (i + 2) o) b' u d)))

split_type-Printable :
    (b : List ℕ) (o : Option ℕ) → Readable b o → Yields Printable (split_type b o)
unfolding split_type
split_type-Printable b none r = yields (inl (refl, refl), λ e. cc (e))
split_type-Printable b (some i) r = split_username-Printable i (set b i 0) (set-drop (i + 2) i b r)

-- With fewer bytes received than the buffer holds, parse_transmission() stays inside the buffer.
-- It gives a username that can be printed, or the type is unknown. The message pointer is left
-- as it was only if the type is not that of a message; otherwise the type is that of a message,
-- and the pointer leads to a text of the buffer or is NULL + 2.
pub parse_transmission-Printable :
    (b : List ℕ) (n : ℕ) → n < length b → Yields Printable (parse_transmission b n)
unfolding parse_transmission
parse_transmission-Printable b n h =
    let l : ltb n (length b) ≡ true = ground arith in
    rw l (
      Yields->>= (find_delimiter-Terminated (set b n 0) (set-Terminated n b h))
        (split_type-Printable (set b n 0)))
