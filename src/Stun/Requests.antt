-- ===== src/Stun/Requests.antt =====
-- The requests that lab4/stun_symmetry.c and lab4/stun_cone_level.c build, in network byte order.
use cosc_60_computer_network.Prelude.{ℕ, List, [], ◌∷◌}
use cosc_60_computer_network.Bytes.{splice}

-- 0x2112A442
abbrev pub stun_magic_cookie : List ℕ
stun_magic_cookie = 33 ∷ 18 ∷ 164 ∷ 66 ∷ []

unfoldable pub build_binding_request : List ℕ → List ℕ
build_binding_request b =
    splice 4 stun_magic_cookie (splice 2 (0 ∷ 0 ∷ []) (splice 0 (0 ∷ 1 ∷ []) b))

-- A request with one attribute of type 3 and four bytes.
abbrev pub with_change : List ℕ → List ℕ → List ℕ
with_change change b = splice 24 change (
    splice 20 (0 ∷ 3 ∷ 0 ∷ 4 ∷ [])
      (splice 4 stun_magic_cookie (splice 2 (0 ∷ 8 ∷ []) (splice 0 (0 ∷ 1 ∷ []) b))))

unfoldable pub build_port_spoof : List ℕ → List ℕ
build_port_spoof b = with_change (0 ∷ 0 ∷ 0 ∷ 2 ∷ []) b

unfoldable pub build_both_spoof : List ℕ → List ℕ
build_both_spoof b = with_change (0 ∷ 0 ∷ 0 ∷ 6 ∷ []) b
