-- ===== src/Sender/Window/Acknowledge.antt =====
-- An ADAT frees the payloads that it acknowledges, the oldest first.
use cosc_60_computer_network.Prelude.{
  ℕ, zero, suc, ◌+◌, ◌-◌, ◌*◌, ◌/◌, ◌^◌, ◌==◌, ◌||◌, true, ◌≤◌, ◌<◌, ◌≡◌, refl, sym, ap, ◌∙◌, none,
  some, List, [], ◌∷◌, ◌++◌, false, get_or, Yields, yields, drop, take, length, arith, leb,
}
use mathlib.Core.Path.{subst}
use cosc_60_computer_network.Prelude.Int.{
  ℤ, pos, negsuc, sub_ℕ, ◌+ℤ◌, ◌-ℤ◌, wrap, IsInt, wrap-IsInt,
}
use cosc_60_computer_network.Bytes.{
  splice, slice, length-slice, length-splice, slice-slice, slice-splice_front, splice_front,
}
use cosc_60_computer_network.Sender.State.{Connection}
use cosc_60_computer_network.Sender.Threads.{
  scale, move_front, move_ints, free_payloads, with_moved, acknowledge, by_difference, handle_adat,
}
use cosc_60_computer_network.Sender.Invariant.{IsValid, AllShort, AllShort-get_or}
use cosc_60_computer_network.Sender.Window.{
  payload, payloads, window, HasWindow, drop-payloads, payloads-cong,
}

AllShort-append : (xs ys : List ℕ) → AllShort xs → AllShort ys → AllShort (xs ++ ys)
AllShort-append [] ys a b = b
AllShort-append (x ∷ xs) ys a b = (a.0, AllShort-append xs ys (a.1) b)

AllShort-drop : (k : ℕ) (xs : List ℕ) → AllShort xs → AllShort (drop k xs)
AllShort-drop zero xs a = a
AllShort-drop (suc k) [] a = tt
AllShort-drop (suc k) (x ∷ xs) a = AllShort-drop k xs (a.1)

AllShort-take : (k : ℕ) (xs : List ℕ) → AllShort xs → AllShort (take k xs)
AllShort-take zero xs a = tt
AllShort-take (suc k) [] a = tt
AllShort-take (suc k) (x ∷ xs) a = (a.0, AllShort-take k xs (a.1))

get_or-append : (xs ys : List ℕ) (i : ℕ) → i < length xs → get_or (xs ++ ys) i 0 ≡ get_or xs i 0
get_or-append [] ys i h = absurd (omega arith)
get_or-append (x ∷ xs) ys zero h = refl
get_or-append (x ∷ xs) ys (suc i) h = get_or-append xs ys i (omega arith)

get_or-take : (k : ℕ) (xs : List ℕ) (i : ℕ) → i < k → get_or (take k xs) i 0 ≡ get_or xs i 0
get_or-take zero xs i h = absurd (omega arith)
get_or-take (suc k) [] i h = refl
get_or-take (suc k) (x ∷ xs) zero h = refl
get_or-take (suc k) (x ∷ xs) (suc i) h = get_or-take k xs i (omega arith)

get_or-drop : (k : ℕ) (xs : List ℕ) (i : ℕ) → get_or (drop k xs) i 0 ≡ get_or xs (k + i) 0
get_or-drop zero xs i = ap (λ j. get_or xs j 0) (omega arith)
get_or-drop (suc k) [] i = refl
get_or-drop (suc k) (x ∷ xs) i =
    get_or-drop k xs i
    ∙ ap (λ j. get_or (x ∷ xs) j 0) {x = suc (k + i)} {y = suc k + i} (omega arith)

module _ (lengths buffer : List ℕ) (k n : ℕ) where
  abbrev shifted_lengths : List ℕ
  shifted_lengths = splice 0 (slice k n lengths) lengths

  abbrev shifted : List ℕ
  shifted = splice 0 (slice (488 * k) (488 * n) buffer) buffer

module _ (lengths buffer : List ℕ) (k n : ℕ) (size : length lengths ≡ 10)
    (room : length buffer ≡ 4880) (few : k + n ≤ 10) where
  get_or_shifted :
      (j : ℕ) → j < n → get_or (shifted_lengths lengths buffer k n) j 0 ≡ get_or lengths (k + j) 0
  get_or_shifted j h =
      let ls : length (slice k n lengths) ≡ n = length-slice k n lengths (omega arith) in
      ap (λ l. get_or l j 0) (splice_front n (slice k n lengths) lengths ls (omega arith))
      ∙ get_or-append (slice k n lengths) (drop n lengths) j (omega arith)
      ∙ get_or-take n (drop k lengths) j h
      ∙ get_or-drop k lengths j

  AllShort-shifted : AllShort lengths → AllShort (shifted_lengths lengths buffer k n)
  AllShort-shifted a =
      let ls : length (slice k n lengths) ≡ n = length-slice k n lengths (omega arith) in
      rw (splice_front n (slice k n lengths) lengths ls (omega arith)) (
        AllShort-append (slice k n lengths) (drop n lengths)
          (AllShort-take n (drop k lengths) (AllShort-drop k lengths a))
          (AllShort-drop n lengths a))

  payload-shifted :
      (j : ℕ)
      → j < n
      → get_or lengths (k + j) 0 ≤ 488
      → payload (shifted_lengths lengths buffer k n) (shifted lengths buffer k n) j
        ≡ payload lengths buffer (k + j)
  payload-shifted j h s =
      let lb : length (slice (488 * k) (488 * n) buffer) ≡ 488 * n =
        length-slice (488 * k) (488 * n) buffer (omega arith) in
      ap (λ m. slice (j * 488) m (shifted lengths buffer k n)) (get_or_shifted j h)
      ∙ slice-splice_front (j * 488) (get_or lengths (k + j) 0) (slice (488 * k) (488 * n) buffer)
          buffer (omega arith) (omega arith)
      ∙ slice-slice (j * 488) (get_or lengths (k + j) 0) (488 * k) (488 * n) buffer (omega arith)
      ∙ ap (λ m. slice m (get_or lengths (k + j) 0) buffer) (omega arith)

left_lem :
    (count n : ℕ)
    → count ≤ 10
    → n ≤ count
    → wrap (wrap (sub_ℕ count 1 -ℤ pos n) +ℤ pos 1) ≡ pos (count - n)
left_lem count n h h' = ground arith

overrun_lem :
    (count n : ℕ)
    → count ≤ 10
    → count < n
    → n < 2 ^ 31
    → wrap (wrap (sub_ℕ count 1 -ℤ pos n) +ℤ pos 1) ≡ negsuc (n - count - 1)
overrun_lem count n h h' small = ground arith

leb_positive : (n : ℕ) → leb (suc n) 0 ≡ false
leb_positive n = ground arith

pos-small : (z : ℤ) (n : ℕ) → IsInt z → z ≡ pos n → n < 2 ^ 31
pos-small z n isint e = ground arith

last_lem :
    (count n : ℕ) → count ≤ 10 → n ≤ count → wrap (sub_ℕ count 1 -ℤ pos n) ≡ sub_ℕ (count - n) 1
last_lem count n h h' = ground arith

-- The products of the code, where as many payloads are left.
products_lem :
    (n left : ℕ)
    → n + left ≤ 10
    → (wrap (pos (488 * n)) ≡ pos (488 * n))
      × (wrap (scale 488 (pos left)) ≡ pos (488 * left))
      × (wrap (scale 4 (pos left)) ≡ pos (4 * left))
products_lem n left h = (ground arith, ground arith, ground arith)

move_front-some :
    (i n : ℕ) (b : List ℕ)
    → i + n ≤ length b
    → move_front (pos i) (pos n) b ≡ some (splice 0 (slice i n b) b)
unfolding move_front
move_front-some i n b h =
    let e : (n == 0 || leb (i + n) (length b)) ≡ true = ground arith in rw e refl

move_ints-some :
    (i n : ℕ) (b : List ℕ)
    → i + n ≤ length b
    → move_ints i (pos (4 * n)) b ≡ some (splice 0 (slice i n b) b)
unfolding move_ints
move_ints-some i n b h = let e : 4 * n / 4 ≡ n = omega arith in rw e (move_front-some i n b h)

free_payloads-some :
    (c : Connection) (n left : ℕ)
    → length c.sender_buffer ≡ 4880
    → length c.num_bytes_buffered ≡ 10
    → n + left ≤ 10
    → free_payloads n (pos left) c
      ≡ some (
          with_moved n c
            (splice 0 (slice (488 * n) (488 * left) c.sender_buffer) c.sender_buffer)
            (splice 0 (slice n left c.num_bytes_buffered) c.num_bytes_buffered))
unfolding free_payloads
free_payloads-some c n left room size few =
    let (l, b, i) = products_lem n left few in
    rw
      (
        l,
        b,
        i,
        move_front-some (488 * n) (488 * left) c.sender_buffer (omega arith),
        move_ints-some n left c.num_bytes_buffered (omega arith),
      )
      refl

free_payloads-frees :
    (c : Connection) (v : IsValid c) (n : ℕ)
    → n ≤ v.count
    → Yields
        (HasWindow (drop n (window c v.count)))
        (free_payloads n (wrap (wrap (c.last_payload_index -ℤ pos n) +ℤ pos 1)) c)
free_payloads-frees c v n h =
    let count = v.count in
    let few : n + (count - n) ≤ 10 = omega (arith, v.count_le) in
    let left =
      ap (λ z. wrap (wrap (z -ℤ pos n) +ℤ pos 1)) v.last_payload ∙ left_lem count n v.count_le h in
    let moved =
      ap (λ z. free_payloads n z c) left
      ∙ free_payloads-some c n (count - n) v.buffer_size v.lengths_size few in
    subst (Yields (HasWindow (drop n (window c count)))) (sym moved) (
      yields (record {
        valid = record {
          count = count - n;
          sent = v.sent;
          last_payload =
              ap (λ z. wrap (z -ℤ pos n)) v.last_payload ∙ last_lem count n (v.count_le) h;
          last_sent = v.last_sent;
          count_le = omega (arith, v.count_le);
          sent_le = v.sent_le;
          buffer_size =
              length-splice 0 (slice (488 * n) (488 * (count - n)) c.sender_buffer) c.sender_buffer
              ∙ v.buffer_size;
          lengths_size =
              length-splice 0 (slice n (count - n) c.num_bytes_buffered) c.num_bytes_buffered
              ∙ v.lengths_size;
          lengths_short =
              AllShort-shifted c.num_bytes_buffered c.sender_buffer n (count - n) v.lengths_size
                v.buffer_size few v.lengths_short;
          incoming_size = v.incoming_size;
          incoming_nul = v.incoming_nul;
          outgoing_size = v.outgoing_size;
        };
        contents =
            payloads-cong (shifted_lengths c.num_bytes_buffered c.sender_buffer n (count - n))
              (shifted c.num_bytes_buffered c.sender_buffer n (count - n)) c.num_bytes_buffered
              c.sender_buffer n 0 (count - n)
              (λ j lo hi.
                payload-shifted c.num_bytes_buffered c.sender_buffer n (count - n) v.lengths_size
                  v.buffer_size few j (omega arith)
                  (AllShort-get_or c.num_bytes_buffered (n + j) v.lengths_short))
            ∙ ap (λ i. payloads c.num_bytes_buffered c.sender_buffer i (count - n)) (omega arith)
            ∙ sym (drop-payloads c.num_bytes_buffered c.sender_buffer n 0 count h);
      }))

acknowledge-IsValid :
    (frag winsize : ℤ) (c : Connection)
    → IsValid c
    → IsValid (acknowledge frag winsize (record c { inactive_time = 0 }))
unfolding acknowledge
acknowledge-IsValid frag winsize c v = record {
  count = v.count;
  sent = v.sent;
  last_payload = v.last_payload;
  last_sent = v.last_sent;
  count_le = v.count_le;
  sent_le = v.sent_le;
  buffer_size = v.buffer_size;
  lengths_size = v.lengths_size;
  lengths_short = v.lengths_short;
  incoming_size = v.incoming_size;
  incoming_nul = v.incoming_nul;
  outgoing_size = v.outgoing_size;
}

-- On a valid connection, an ADAT that acknowledges `n` fragments more than the last one did, with
-- as many buffered, frees just the `n` oldest payloads and leaves a valid connection.
pub handle_adat-frees :
    (c : Connection) (v : IsValid c) (frag winsize : ℤ) (n : ℕ)
    → wrap (frag -ℤ c.last_acknowledged_frag) ≡ pos n
    → n ≤ v.count
    → Yields (HasWindow (drop n (window c v.count))) (handle_adat frag winsize c)
unfolding handle_adat by_difference acknowledge acknowledge-IsValid
handle_adat-frees c v frag winsize zero e h =
    rw e (yields (record { valid = acknowledge-IsValid frag winsize c v; contents = refl }))
handle_adat-frees c v frag winsize (suc n) e h =
    rw (e, leb_positive n)
      (free_payloads-frees (acknowledge frag winsize (record c { inactive_time = 0 }))
        (acknowledge-IsValid frag winsize c v) (suc n) h)

overrun-negative :
    (d : ℕ) → 488 * suc d ≤ 2 ^ 31 → wrap (scale 488 (negsuc d)) ≡ negsuc (488 * suc d - 1)
overrun-negative d h = ground arith

free_payloads-none :
    (c : Connection) (n d : ℕ) → 488 * suc d ≤ 2 ^ 31 → free_payloads n (negsuc d) c ≡ none
unfolding free_payloads move_front
free_payloads-none c n d h = rw (overrun-negative d h) refl

-- On a valid connection, an ADAT that acknowledges more fragments than are buffered, by at most
-- 2^31 bytes of payloads, is a fault: memmove() is given a negative number of bytes.
pub handle_adat-overrun :
    (c : Connection) (v : IsValid c) (frag winsize : ℤ) (n : ℕ)
    → wrap (frag -ℤ c.last_acknowledged_frag) ≡ pos n
    → v.count < n
    → 488 * (n - v.count) ≤ 2 ^ 31
    → handle_adat frag winsize c ≡ none
unfolding handle_adat by_difference acknowledge
handle_adat-overrun c v frag winsize zero e h near = absurd (omega arith)
handle_adat-overrun c v frag winsize (suc n) e h near =
    let small = pos-small (wrap (frag -ℤ c.last_acknowledged_frag)) (suc n) (wrap-IsInt _) e in
    rw (e, leb_positive n, v.last_payload, overrun_lem v.count (suc n) v.count_le h small)
      (free_payloads-none _ (suc n) (suc n - v.count - 1) (omega arith))

-- An ADAT with an older number than the last one only resets the time of inactivity.
pub handle_adat-older :
    (c : Connection) (frag winsize : ℤ) (k : ℕ)
    → wrap (frag -ℤ c.last_acknowledged_frag) ≡ negsuc k
    → handle_adat frag winsize c ≡ some (record c { inactive_time = 0 })
unfolding handle_adat by_difference
handle_adat-older c frag winsize k e = rw e
