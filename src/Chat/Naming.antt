-- ===== src/Chat/Naming.antt =====
-- Which usernames main() of lab2/client.c lets through.
use cosc_60_computer_network.Prelude.{
  ℕ, ◌≤◌, ◌≡◌, ◌↔◌, refl, ap, true, false, Bool-cases, inl, inr, ◌&&◌, ◌==◌, Option, none, some,
  List, [], ◌∷◌, ◌++◌, length, ltb, arith, ◌>>=◌,
}
use cosc_60_computer_network.Dpp.{find_delimiter, one_further, max_username_length}
use cosc_60_computer_network.Dpp.Search.{IsPlain, HasNoNul, find_delimiter-missing}
use cosc_60_computer_network.Chat.Client.{accepts_username, is_null}

one_further-none :
    (o : Option (Option ℕ)) → (o >>= λ i. some (one_further i)) ≡ some none → o ≡ some none
one_further-none none h = absurd (cc (h))
one_further-none (some none) h = refl
one_further-none (some (some i)) h = absurd (cc (h))

missing-IsPlain :
    (u : List ℕ) → HasNoNul u → find_delimiter (u ++ (0 ∷ [])) ≡ some none → IsPlain 0 u
unfolding find_delimiter
missing-IsPlain [] h e = tt
missing-IsPlain (c ∷ []) h e = (h.0, λ q. omega arith, tt)
missing-IsPlain (c ∷ d ∷ cs) h e =
    let z : (c == 0) ≡ false = ground (arith, h.0) in
    let e' = rw z at e in
    elim (Bool-cases ((c == 58) && (d == 58))) [
      | inl m ↦ absurd (cc (rw m at e'))
      | inr m ↦ (
        h.0,
        λ q r. ground (arith, m),
        missing-IsPlain (d ∷ cs) h.1 (one_further-none _ (rw m at e')),
      )
    ]

is_null-missing :
    (o : Option (Option ℕ)) → (o >>= λ i. some (is_null i)) ≡ some true → o ≡ some none
is_null-missing none h = absurd (cc (h))
is_null-missing (some none) h = refl
is_null-missing (some (some i)) h = absurd (cc (h))

-- A username without NUL is let through exactly if it is at most of its greatest length and no
-- delimiter starts in it.
pub accepts_username_iff :
    (u : List ℕ)
    → HasNoNul u
    → (accepts_username u ≡ some true) ↔ ((length u ≤ max_username_length) × IsPlain 0 u)
unfolding accepts_username
accepts_username_iff u n = elim (Bool-cases (ltb max_username_length (length u))) [
  | inl l ↦ rw l ((λ e. absurd (cc (e))), (λ h. absurd (ground (arith, l, h.0))))
  | inr l ↦ rw l (
    (λ e. (ground (arith, l), missing-IsPlain u n (is_null-missing _ e))),
    (λ h. ap (λ o. o >>= λ i. some (is_null i)) (find_delimiter-missing u [] h.1)),
  )
]
