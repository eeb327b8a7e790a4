-- ===== src/Packet.antt =====
-- What the build_x() functions and the two handlers of lab3/mrt_sender.c and lab3/mrt_receiver.c do
-- to a transmission in a buffer: write a field, seal it with its hash, receive it, check it.
pub mod Seal
pub mod Fields
pub mod Blind
use cosc_60_computer_network.Prelude.{
  ℕ, suc, ◌+◌, Bool, Option, none, some, List, [], ◌∷◌, length, take, drop, ◌==◌, ◌>>=◌,
}
use cosc_60_computer_network.Prelude.Int.{ℤ, word_of_int, int_of_word}
use cosc_60_computer_network.Bytes.{splice, slice, le_bytes, le_value}
use cosc_60_computer_network.Mrt.{hash_length}
use cosc_60_computer_network.Hash.{hash}

-- memmove(buffer + location, &value, 4)
unfoldable pub put_int : ℕ → ℤ → List ℕ → List ℕ
put_int location value buffer = splice location (le_bytes 4 (word_of_int value)) buffer

-- memmove(&value, buffer + location, 4)
unfoldable pub get_int : ℕ → List ℕ → ℤ
get_int location buffer = int_of_word (le_value (slice location 4 buffer))

-- The last three lines of every build_x(): a NUL at `end`, the hash of what stands behind the hash
-- field, and that hash in its field.
unfoldable pub seal : ℕ → List ℕ → Option (List ℕ)
seal end buffer = do
  let terminated = splice end (0 ∷ []) buffer
  hash_holder ← hash (drop hash_length terminated)
  some (splice 0 (le_bytes 8 hash_holder) terminated)

-- recvfrom() into a buffer, and the NUL behind the bytes received.
unfoldable pub receive : List ℕ → List ℕ → List ℕ
receive datagram buffer = splice (length datagram) (0 ∷ []) (splice 0 datagram buffer)

-- hash(buffer + MRT_HASH_LENGTH) == hash_holder
unfoldable pub checksum_matches : List ℕ → Option Bool
checksum_matches buffer = do
  h ← hash (drop hash_length buffer)
  some (h == le_value (slice 0 hash_length buffer))
