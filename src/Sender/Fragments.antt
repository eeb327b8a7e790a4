-- ===== src/Sender/Fragments.antt =====
-- The number of fragments that mrt_send() waits for, and the payloads that it makes.
use cosc_60_computer_network.Prelude.{ℕ, ◌+◌, ◌-◌, ◌*◌, ◌≤◌, ◌<◌, ◌≡◌, arith}
use cosc_60_computer_network.Sender.Api.{num_fragments, bytes_to_copy}

-- The number is the ceiling of len / 488: so many payloads hold `len` bytes, and one payload less
-- does not.
pub num_fragments-ceiling :
    (len : ℕ) → (len ≤ num_fragments len * 488) × (num_fragments len * 488 < len + 488)
unfolding num_fragments
num_fragments-ceiling len = ground arith

-- While bytes are left, a copy of one payload leaves one fragment fewer to be made.
pub num_fragments-bytes_to_copy :
    (remaining : ℕ)
    → 0 < remaining
    → num_fragments remaining ≡ num_fragments (remaining - bytes_to_copy remaining) + 1
unfolding num_fragments bytes_to_copy
num_fragments-bytes_to_copy remaining h = ground arith
