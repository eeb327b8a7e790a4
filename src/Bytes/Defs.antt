-- ===== src/Bytes/Defs.antt =====
-- `memmove` into an array at an offset, a read out of it, and numbers in memory.
use cosc_60_computer_network.Prelude.{ℕ, zero, suc, ◌+◌, ◌*◌, ◌/◌, ◌%◌, List, [], ◌∷◌, take, drop}

-- memmove(dst + off, src, length of src). Bytes that would fall behind the end are dropped.
unfoldable pub splice : ℕ → List ℕ → List ℕ → List ℕ
splice off src [] = []
splice (suc off) src (d ∷ dst) = d ∷ splice off src dst
splice zero [] (d ∷ dst) = d ∷ dst
splice zero (s ∷ src) (d ∷ dst) = s ∷ splice zero src dst

-- The `n` bytes at an offset.
abbrev pub slice : ℕ → ℕ → List ℕ → List ℕ
slice off n src = take n (drop off src)

-- The `k` bytes of a number in memory, lowest first, and the number that bytes spell.
unfoldable pub le_bytes : ℕ → ℕ → List ℕ
le_bytes zero w = []
le_bytes (suc k) w = (w % 256) ∷ le_bytes k (w / 256)

abbrev pub le_value : List ℕ → ℕ
le_value [] = 0
le_value (b ∷ bs) = b + 256 * le_value bs
