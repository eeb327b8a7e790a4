-- ===== src/Sender/Moving.antt =====
-- What the two memmove() of an ADAT leave, wherever they move from.
use cosc_60_computer_network.Prelude.{ℕ, Option, none, some, List, Whenever, faults, gives, ◌>>=◌}
use cosc_60_computer_network.Prelude.Int.{ℤ}
use cosc_60_computer_network.Sender.State.{Connection}
use cosc_60_computer_network.Sender.Threads.{with_moved, free_payloads}

module _ {P : Connection → Type 0} (n : ℕ) (c : Connection)
    (f : (buffer lengths : List ℕ) → P (with_moved n c buffer lengths)) where
  lengths-Whenever :
      (buffer : List ℕ) (o : Option (List ℕ))
      → Whenever P (o >>= λ lengths. some (with_moved n c buffer lengths))
  lengths-Whenever buffer none = faults
  lengths-Whenever buffer (some lengths) =
      gives {a = with_moved n c buffer lengths} (f buffer lengths)

  both-Whenever :
      (o o' : Option (List ℕ))
      → Whenever P (o >>= λ buffer. o' >>= λ lengths. some (with_moved n c buffer lengths))
  both-Whenever none o' = faults
  both-Whenever (some buffer) o' = lengths-Whenever buffer o'

  -- Only the buffered payloads change.
  pub free_payloads-Whenever : (left : ℤ) → Whenever P (free_payloads n left c)
  unfolding free_payloads
  free_payloads-Whenever left = both-Whenever _ _
