-- ===== src/Hash.antt =====
-- lab3/utilities.c: the djb2 hash that serves as the checksum of a transmission.
pub mod Coverage
pub mod Detect
use cosc_60_computer_network.Prelude.{
  ℕ, ◌+◌, ◌-◌, ◌*◌, ◌%◌, ◌^◌, Option, none, some, List, [], ◌∷◌, ltb, ◌==◌, if◌then◌else◌,
}

-- `c = *str++`: `char` is signed, so a byte from 128 on is negative, and adding it to an
-- `unsigned long` adds it modulo 2^64.
abbrev pub char_to_ulong : ℕ → ℕ
char_to_ulong b = if ltb b 128 then b else 2 ^ 64 - 256 + b

-- ((hash << 5) + hash) + c
unfoldable pub hash_step : ℕ → ℕ → ℕ
hash_step h b = ((h * 32) % 2 ^ 64 + h + char_to_ulong b) % 2 ^ 64

-- The loop up to the NUL; `none` if the array ends before one.
unfoldable pub hash_from : ℕ → List ℕ → Option ℕ
hash_from h [] = none
hash_from h (b ∷ bs) = if b == 0 then some h else hash_from (hash_step h b) bs

unfoldable pub hash : List ℕ → Option ℕ
unfolding hash_from
hash str = hash_from 5381 str
