-- ===== src/Stun/ConeLevel/Reports.antt =====
-- What a server's response may say of the NAT, whatever its attributes.
use cosc_60_computer_network.Prelude.{
  ℕ, zero, suc, ◌+◌, ◌%◌, ◌^◌, ◌≡◌, ◌≢◌, inl, inr, true, false, Bool-cases, List, [], ◌∷◌, ◌++◌,
  ltb, ◌==◌, arith, Whenever, gives, Whenever->>=, Whenever-any,
}
use cosc_60_computer_network.Dpp.{same_text}
use cosc_60_computer_network.Stun.{read_short, read_address, stun_header_size}
use cosc_60_computer_network.Stun.ConeLevel.{
  Line, mapped_address, source_address, changed_address, irrelevant_attribute, full_cone,
  restricted_cone, binding_error, neither, Server, cone_level, Walked, ended, unfinished,
  print_address, mapped_lines, by_attribute_type, attribute, walk, by_response_type,
  handle_response, original_server_ipv4, original_server_port,
}

-- A full cone needs an answer from another address and another port, a restricted cone one
-- from the same address and another port.
abbrev pub Allows : Server → Line → Type 0
Allows s (mapped_address ipv4 port) = Unit
Allows s (source_address ipv4 port) = Unit
Allows s (changed_address ipv4 port) = Unit
Allows s irrelevant_attribute = Unit
Allows s (full_cone ipv4 port) =
    (s.port ≢ original_server_port) × (same_text s.ipv4 original_server_ipv4 ≡ false)
Allows s (restricted_cone ipv4 port) =
    (s.port ≢ original_server_port) × (same_text s.ipv4 original_server_ipv4 ≡ true)
Allows s binding_error = Unit
Allows s neither = Unit

abbrev pub AllowsAll : Server → List Line → Type 0
AllowsAll s [] = Unit
AllowsAll s (l ∷ ls) = Allows s l × AllowsAll s ls

AllowsAll-append :
    (s : Server) (ls ms : List Line) → AllowsAll s ls → AllowsAll s ms → AllowsAll s (ls ++ ms)
AllowsAll-append s [] ms h k = k
AllowsAll-append s (l ∷ ls) ms h k = (h.0, AllowsAll-append s ls ms h.1 k)

cone_level-AllowsAll :
    (s : Server) (ipv4 : List ℕ) (port : ℕ) → AllowsAll s (cone_level s ipv4 port)
unfolding cone_level
cone_level-AllowsAll s ipv4 port = elim (Bool-cases (original_server_port == s.port)) [
  | inl p ↦ rw p tt
  | inr p ↦
      let n : s.port ≢ original_server_port = λ e. ground (arith, p, e) in
      elim (Bool-cases (same_text s.ipv4 original_server_ipv4)) [
        | inl t ↦ rw (p, t) ((n, t), tt)
        | inr t ↦ rw (p, t) ((n, t), tt)
      ]
]

abbrev pub lines_of : Walked → List Line
lines_of (ended ls) = ls
lines_of (unfinished ls) = ls

module _ (hostname : List ℕ → List ℕ) (s : Server) where
  print_address-AllowsAll :
      (f : List ℕ → ℕ → List Line) (b : List ℕ) (location : ℕ) (printed : List Line)
      → ((ipv4 : List ℕ) (port : ℕ) → AllowsAll s (f ipv4 port))
      → AllowsAll s printed
      → Whenever (AllowsAll s) (print_address hostname s f b location printed)
  unfolding print_address
  print_address-AllowsAll f b location printed g h =
      Whenever->>= (Whenever-any (read_short b (location + 6))) (λ port _.
        Whenever->>= (Whenever-any (read_address b (location + 8)))
          (λ address _. gives (AllowsAll-append s printed _ h (g (hostname address) port))))

  by_attribute_type-AllowsAll :
      (type : ℕ) (b : List ℕ) (location : ℕ) (printed : List Line)
      → AllowsAll s printed
      → Whenever (AllowsAll s) (by_attribute_type hostname s type b location printed)
  unfolding by_attribute_type
  by_attribute_type-AllowsAll type b location printed h = elim (Bool-cases (type == 1)) [
    | inl e ↦ rw e (
        print_address-AllowsAll (mapped_lines hostname s) b location printed
          (λ ipv4 port. (tt, cone_level-AllowsAll s ipv4 port)) h)
    | inr e ↦ elim (Bool-cases (type == 4)) [
      | inl x ↦
          rw (e, x)
            (print_address-AllowsAll (λ ipv4 port. source_address ipv4 port ∷ []) b location printed
              (λ ipv4 port. (tt, tt)) h)
      | inr x ↦ elim (Bool-cases (type == 5)) [
        | inl y ↦
            rw (e, x, y)
              (print_address-AllowsAll (λ ipv4 port. changed_address ipv4 port ∷ []) b location
                printed (λ ipv4 port. (tt, tt)) h)
        | inr y ↦ rw (e, x, y) (gives (AllowsAll-append s printed _ h (tt, tt)))
      ]
    ]
  ]

  attribute-AllowsAll :
      (b : List ℕ) (location : ℕ) (printed : List Line)
      → AllowsAll s printed
      → Whenever (λ a. AllowsAll s a.1) (attribute hostname s b location printed)
  unfolding attribute
  attribute-AllowsAll b location printed h =
      Whenever->>= (Whenever-any (read_short b (location + 2))) (λ n _.
        Whenever->>= (Whenever-any (read_short b location)) (λ type _.
          Whenever->>= (by_attribute_type-AllowsAll type b location printed h) (λ ls k. gives k)))

  walk-AllowsAll :
      (fuel : ℕ) (b : List ℕ) (n location index : ℕ) (printed : List Line)
      → AllowsAll s printed
      → Whenever (λ w. AllowsAll s (lines_of w)) (walk hostname s fuel b n location index printed)
  unfolding walk
  walk-AllowsAll zero b n location index printed h = gives h
  walk-AllowsAll (suc fuel) b n location index printed h = elim (Bool-cases (ltb index n)) [
    | inl l ↦ rw l (
        Whenever->>= (attribute-AllowsAll b (location + index) printed h)
          (λ a k. walk-AllowsAll fuel b n (location + index) ((index + (a.0 + 4)) % 2 ^ 16) a.1 k))
    | inr l ↦ rw l (gives h)
  ]

  -- Whatever the response and the buffer, and unless a read runs over it: a full cone is printed only if
  -- the response came from another port and another address than the requests
  -- went to, and a restricted cone only if it came from another port and the same address.
  pub handle_response-AllowsAll :
      (fuel : ℕ) (b : List ℕ)
      → Whenever (λ w. AllowsAll s (lines_of w)) (handle_response hostname s fuel b [])
  unfolding handle_response by_response_type
  handle_response-AllowsAll fuel b = Whenever->>= (Whenever-any (read_short b 2)) (λ n _.
      Whenever->>= (Whenever-any (read_short b 0)) (λ type _. elim (Bool-cases (type == 257)) [
        | inl e ↦ rw e (walk-AllowsAll fuel b n stun_header_size 0 [] tt)
        | inr e ↦ elim (Bool-cases (type == 273)) [
          | inl x ↦ rw (e, x) (gives (tt, tt))
          | inr x ↦ rw (e, x) (gives (tt, tt))
        ]
      ]))
