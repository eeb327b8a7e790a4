-- ===== src/Sender/Window/Buffer.antt =====
-- mrt_send() puts the next payload behind those of the window.
use cosc_60_computer_network.Prelude.{
  ℕ, zero, suc, ◌+◌, ◌-◌, ◌*◌, ◌≤◌, ◌<◌, ◌≡◌, refl, sym, ap, ap₂, ◌∙◌, some, List, [], ◌∷◌, ◌++◌,
  get_or, set, length, length-set, arith,
}
use cosc_60_computer_network.Prelude.Int.{pos, sub_ℕ, ◌+ℤ◌, wrap}
use cosc_60_computer_network.Bytes.{
  splice, slice, length-slice, length-splice, slice-splice_self, slice-splice_before,
}
use cosc_60_computer_network.Sender.State.{Connection}
use cosc_60_computer_network.Sender.Api.{goes_on, bytes_to_copy, copy_payload, buffer_more}
use cosc_60_computer_network.Sender.Invariant.{IsValid, AllShort-set, AllShort-get_or}
use cosc_60_computer_network.Sender.Window.{
  payload, payloads, window, HasWindow, payloads-snoc, payloads-cong,
}

get_or-set_ne : (ns : List ℕ) (i j n : ℕ) → j < i → get_or (set ns i n) j 0 ≡ get_or ns j 0
get_or-set_ne [] i j n h = refl
get_or-set_ne (m ∷ ns) zero j n h = absurd (omega arith)
get_or-set_ne (m ∷ ns) (suc i) zero n h = refl
get_or-set_ne (m ∷ ns) (suc i) (suc j) n h = get_or-set_ne ns i j n (omega arith)

get_or-set : (ns : List ℕ) (i n : ℕ) → i < length ns → get_or (set ns i n) i 0 ≡ n
get_or-set [] i n h = absurd (omega arith)
get_or-set (m ∷ ns) zero n h = refl
get_or-set (m ∷ ns) (suc i) n h = get_or-set ns i n (omega arith)

module _ (lengths buffer chunk : List ℕ) (i : ℕ) (short : length chunk ≤ 488) where
  payload_new :
      i < length lengths
      → i * 488 + 488 ≤ length buffer
      → payload (set lengths i (length chunk)) (splice (i * 488) chunk buffer) i ≡ chunk
  payload_new inside room =
      ap (λ n. slice (i * 488) n (splice (i * 488) chunk buffer))
        (get_or-set lengths i (length chunk) inside)
      ∙ slice-splice_self (i * 488) chunk buffer (omega arith)

  payload_old :
      (j : ℕ)
      → j < i
      → get_or lengths j 0 ≤ 488
      → payload (set lengths i (length chunk)) (splice (i * 488) chunk buffer) j
        ≡ payload lengths buffer j
  payload_old j h s =
      ap (λ n. slice (j * 488) n (splice (i * 488) chunk buffer))
        (get_or-set_ne lengths i j (length chunk) h)
      ∙ slice-splice_before (j * 488) (get_or lengths j 0) (i * 488) chunk buffer (omega arith)

  payloads_extended :
      i < length lengths
      → i * 488 + 488 ≤ length buffer
      → ((j : ℕ) → get_or lengths j 0 ≤ 488)
      → payloads (set lengths i (length chunk)) (splice (i * 488) chunk buffer) 0 (i + 1)
        ≡ payloads lengths buffer 0 i ++ (chunk ∷ [])
  payloads_extended inside room s =
      payloads-snoc (set lengths i (length chunk)) (splice (i * 488) chunk buffer) 0 i
      ∙ ap₂ (λ old new. old ++ (new ∷ []))
          (payloads-cong (set lengths i (length chunk)) (splice (i * 488) chunk buffer) lengths
            buffer 0 0 i
            (λ j lo hi.
              payload_old j (omega arith) (s j) ∙ ap (payload lengths buffer) (omega arith)))
          (ap (payload (set lengths i (length chunk)) (splice (i * 488) chunk buffer)) (omega arith)
            ∙ payload_new inside room)

bytes_to_copy_le : (n : ℕ) → (bytes_to_copy n ≤ 488) × (bytes_to_copy n ≤ n)
unfolding bytes_to_copy
bytes_to_copy_le n = ground arith

next_lem : (n : ℕ) → n ≤ 10 → wrap (sub_ℕ n 1 +ℤ pos 1) ≡ pos n
next_lem n h = ground arith

-- With room in the window of a valid connection, the next bytes of the caller's buffer, at most
-- 488 of them, become the last payload of the window, the others stay, the connection is valid
-- again, and the call goes on behind the bytes.
pub buffer_more-extends :
    (c : Connection) (v : IsValid c) (buffer : List ℕ) (len copied : ℕ)
    → len ≤ length buffer
    → copied ≤ len
    → v.count < 10
    → (c' : Connection) × (buffer_more buffer len copied c
        ≡ some (goes_on c' (copied + bytes_to_copy (len - copied))))
      × HasWindow (window c v.count ++ (slice copied (bytes_to_copy (len - copied)) buffer ∷ [])) c'
unfolding buffer_more copy_payload
buffer_more-extends c v buffer len copied hl hc room =
    let n = bytes_to_copy (len - copied) in
    let chunk = slice copied n buffer in
    let lc : length chunk ≡ n =
      length-slice copied n buffer (omega (arith, bytes_to_copy_le (len - copied))) in
    let short : length chunk ≤ 488 = omega (arith, bytes_to_copy_le (len - copied)) in
    (
      record c {
        sender_buffer = splice (v.count * 488) chunk c.sender_buffer;
        last_payload_index = pos (v.count);
        num_bytes_buffered = set c.num_bytes_buffered (v.count) n;
      },
      rw (v.last_payload, next_lem (v.count) (v.count_le)) (ground (arith, room)),
      record {
        valid = record {
          count = v.count + 1;
          sent = v.sent;
          last_payload = ground arith;
          last_sent = v.last_sent;
          count_le = omega arith;
          sent_le = v.sent_le;
          buffer_size = length-splice (v.count * 488) chunk c.sender_buffer ∙ v.buffer_size;
          lengths_size = length-set c.num_bytes_buffered (v.count) n ∙ v.lengths_size;
          lengths_short =
              AllShort-set c.num_bytes_buffered (v.count) n v.lengths_short
                (omega (arith, bytes_to_copy_le (len - copied)));
          incoming_size = v.incoming_size;
          incoming_nul = v.incoming_nul;
          outgoing_size = v.outgoing_size;
        };
        contents =
            ap
              (λ k.
                payloads (set c.num_bytes_buffered (v.count) k)
                  (splice (v.count * 488) chunk c.sender_buffer) 0 (v.count + 1))
              (sym lc)
            ∙ payloads_extended c.num_bytes_buffered c.sender_buffer chunk (v.count) short
                (omega (arith, v.lengths_size)) (omega (arith, v.buffer_size))
                (λ j. AllShort-get_or c.num_bytes_buffered j v.lengths_short);
      },
    )
