-- ===== src/Tests/Stuns.antt =====
-- Runs of the theorems on lab4/stun_symmetry.c on small responses.
use cosc_60_computer_network.Prelude.{
  ℕ, ◌≡◌, refl, some, List, [], ◌∷◌, ◌++◌, replicate, arith, Whenever,
}
use cosc_60_computer_network.Stun.{
  empty_holder, read_short, unfinished, walk, response_handler, stun_header_size,
}
use cosc_60_computer_network.Stun.ConeLevel.{Server, handle_response}
use cosc_60_computer_network.Stun.ConeLevel.Reports.{AllowsAll, lines_of, handle_response-AllowsAll}
use cosc_60_computer_network.Stun.Verdict.{holder_of, Tells, response_handler-differs}
use cosc_60_computer_network.Stun.Walk.{walk-unfinished}

abbrev hostname : List ℕ → List ℕ
hostname a = 49 ∷ a

-- A header of a success with twelve bytes behind it, and the MAPPED-ADDRESS 203.0.113.7:4242.
abbrev success : List ℕ
success = 1 ∷ 1 ∷ 0 ∷ 12 ∷ replicate 16 0

abbrev response : List ℕ
response = success ++ (0 ∷ 1 ∷ 0 ∷ 8 ∷ 0 ∷ 1 ∷ 16 ∷ 146 ∷ 203 ∷ 0 ∷ 113 ∷ 7 ∷ [])

abbrev other : List ℕ
other = success ++ (0 ∷ 1 ∷ 0 ∷ 8 ∷ 0 ∷ 1 ∷ 16 ∷ 147 ∷ 203 ∷ 0 ∷ 113 ∷ 7 ∷ [])

abbrev buffer : List ℕ
buffer = replicate 60 0

response_handler-differs_example :
    Whenever
      (λ w. Tells (holder_of w).is_behind_symmetric_nat (holder_of w).found)
      (response_handler hostname 3 (response ∷ other ∷ []) buffer empty_holder)
response_handler-differs_example =
    response_handler-differs hostname (λ a. refl) 3 (response ∷ other ∷ []) buffer

abbrev received : List ℕ
received = response ++ replicate 28 0

-- An attribute of an unknown type and 65532 bytes.
abbrev endless : List ℕ
endless = success ++ (0 ∷ 9 ∷ 255 ∷ 252 ∷ replicate 36 0)

fields : (read_short endless 20 ≡ some 9) × (read_short endless 22 ≡ some 65532)
unfolding read_short
fields = (refl, refl)

walk-unfinished_example :
    walk hostname 5 endless 12 stun_header_size 0 empty_holder ≡ some (unfinished empty_holder)
walk-unfinished_example =
    walk-unfinished hostname 5 endless 12 9 empty_holder (omega arith) fields.0 fields.1
      (λ e. omega arith) (λ e. omega arith)

abbrev server : Server
server = record { ipv4 = 49 ∷ []; port = 3479 }

handle_response-AllowsAll_example :
    Whenever (λ w. AllowsAll server (lines_of w)) (handle_response hostname server 3 received [])
handle_response-AllowsAll_example = handle_response-AllowsAll hostname server 3 received
