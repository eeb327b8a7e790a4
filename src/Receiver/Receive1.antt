-- ===== src/Receiver/Receive1.antt =====
-- mrt_receive1(): every way in which a round of its loop ends, and how many bytes it writes.
use cosc_60_computer_network.Prelude.{
  ℕ, ◌-◌, ◌≤◌, ◌<◌, ◌≡◌, refl, true, false, Option, none, some, min, List, [], ◌++◌, length, take,
  ◌==◌, ltb, inl, inr, Bool-cases, Yields, yields, length-take, arith, ◌>>=◌,
}
use cosc_60_computer_network.Prelude.Int.{pos}
use cosc_60_computer_network.Receiver.State.{
  Ptr, Sender, Receiver, SockaddrIn, update, sender_matcher, timeout_threshold,
  receiver_max_window_size,
}
use cosc_60_computer_network.Receiver.Lookup.{
  count, Found, absent, present, update-other, update_self,
}
use cosc_60_computer_network.Receiver.Api.{
  Receive1, waits, returns, bytes_to_read, take_unread, read_from, receive1_found, receive1_round,
}
use cosc_60_computer_network.Receiver.Invariant.{IsValid, IsValidSender, waiting}
use cosc_60_computer_network.Receiver.Invariant.Search.{IsFound, find_connected}
use cosc_60_computer_network.Receiver.Deliver.{unread, take_unread-append}

-- The sender at `p` hands over bytes, and nothing else changes.
pub record Hands (len : ℕ) (r : Receiver) (p : Ptr) (s : Sender) (bytes : List ℕ) (r' : Receiver)
    : Type 0 where
  pub rest : Sender
  pub stands : r'.senders p ≡ some rest
  pub others : (q : Ptr) → (q == p) ≡ false → r'.senders q ≡ r.senders q
  pub globals : r' ≡ record r { senders = r'.senders }
  pub at_most : length bytes ≤ len
  pub fits : length bytes ≤ receiver_max_window_size
  pub at_least : 1 ≤ len → 1 ≤ length bytes
  pub stream : bytes ++ unread rest ≡ unread s
  pub as_many : length bytes < len → rest.bytes_unread ≡ 0

-- The sender that the call has found.
abbrev pub IsConnected : SockaddrIn → Receiver → Ptr → Sender → Type 0
IsConnected id r p s =
    (1 ≤ count p (waiting r.connected_senders_q)) × (r.senders p ≡ some s) × (s.addr ≡ id)

pub data Receives (id : SockaddrIn) (len : ℕ) (r : Receiver) : Receive1 × Receiver → Type 0 where
  gone :
      IsFound r.senders id (waiting r.connected_senders_q) none
      → Receives id len r (returns (pos 0) [], r)
  timed_out :
      {p : Ptr} {s : Sender}
      → IsConnected id r p s
      → s.bytes_unread ≡ 0
      → timeout_threshold < s.inactive_time
      → Receives id len r (returns (pos 0) [], r)
  sleeps :
      {p : Ptr} {s : Sender}
      → IsConnected id r p s
      → s.bytes_unread ≡ 0
      → s.inactive_time ≤ timeout_threshold
      → Receives id len r (waits, r)
  hands :
      {p : Ptr} {s : Sender} {n : ℕ} {bytes : List ℕ} {r' : Receiver}
      → IsConnected id r p s
      → length bytes ≡ n
      → Hands len r p s bytes r'
      → Receives id len r (returns (pos n) bytes, r')

bytes_to_read-min : (len : ℕ) (s : Sender) → bytes_to_read len s ≡ min len s.bytes_unread
unfolding bytes_to_read
bytes_to_read-min len s = ground arith

bytes_unread-take_unread :
    (n : ℕ) (s : Sender) → (take_unread n s).bytes_unread ≡ s.bytes_unread - n
unfolding take_unread
bytes_unread-take_unread n s = ground arith

length-taken :
    (len : ℕ) (s : Sender)
    → IsValidSender s
    → length (take (bytes_to_read len s) s.buffer) ≡ bytes_to_read len s
length-taken len s v =
    omega
      (arith, length-take (bytes_to_read len s) s.buffer, bytes_to_read-min len s, v.size, v.within)

take_unread-Hands :
    (len : ℕ) (r : Receiver) (p : Ptr) (s : Sender)
    → IsValidSender s
    → (s.bytes_unread == 0) ≡ false
    → Hands len r p s
        (take (bytes_to_read len s) s.buffer)
        (record r { senders = update r.senders p (some (take_unread (bytes_to_read len s) s)) })
take_unread-Hands len r p s v full =
    let k = bytes_to_read-min len s in
    let unread_some : 1 ≤ s.bytes_unread = ground arith in
    let n = length-taken len s v in
    record {
      rest = take_unread (bytes_to_read len s) s;
      stands = update_self r.senders p _;
      others = λ q. update-other r.senders p _ q;
      globals = refl;
      at_most = omega arith;
      fits = omega (arith, v.within);
      at_least = λ h. omega arith;
      stream = take_unread-append len s v;
      as_many = λ h. omega (arith, bytes_unread-take_unread (bytes_to_read len s) s);
    }

module _ (id : SockaddrIn) (len : ℕ) {r : Receiver} where
  read_from-Receives :
      (p : Ptr) (s : Sender)
      → 1 ≤ count p (waiting r.connected_senders_q)
      → r.senders p ≡ some s
      → sender_matcher s id ≡ true
      → IsValidSender s
      → Receives id len r (read_from len p r s)
  unfolding read_from sender_matcher
  read_from-Receives p s c e hit v =
      let at : IsConnected id r p s = (c, e, ground arith) in
      elim (Bool-cases (s.bytes_unread == 0)) [
        | inl empty ↦ rw empty (elim (Bool-cases (ltb timeout_threshold s.inactive_time)) [
          | inl late ↦ rw late (timed_out at (ground arith) (ground arith))
          | inr fresh ↦ rw fresh (sleeps at (ground arith) (ground arith))
        ])
        | inr full ↦ rw full (hands at (length-taken len s v) (take_unread-Hands len r p s v full))
      ]

  receive1_found-Receives :
      {flight : List Ptr} {o : Option (Option Ptr)}
      → IsValid r flight
      → Found r.senders id (waiting r.connected_senders_q) o
      → Yields (Receives id len r) (o >>= receive1_found len r)
  unfolding receive1_found
  receive1_found-Receives v (absent out) = yields (gone out)
  receive1_found-Receives v (present {p} c e hit) =
      let (t, e', vt) = v.valid p (omega arith) in
      rw e' (yields (read_from-Receives p t c e' (let ts : t ≡ _ = cc in rw ts hit) vt))

  -- In a valid state, a round of mrt_receive1() ends without a fault, in one of four ways: no sender
  -- with the ID is connected, and it returns 0; the sender has nothing unread and has timed out, and
  -- it returns 0; it has nothing unread and has not timed out, and the call sleeps; or it returns the
  -- number of bytes that it has written, which is at most `len` and at most the size of the buffer,
  -- at least 1 if `len` is, and less than `len` only if nothing is left unread; these bytes and then
  -- what is left are what was unread, and nothing but the sender has changed.
  pub receive1_round-Receives :
      {flight : List Ptr} → IsValid r flight → Yields (Receives id len r) (receive1_round id len r)
  unfolding receive1_round
  receive1_round-Receives v = receive1_found-Receives v (find_connected v id)
