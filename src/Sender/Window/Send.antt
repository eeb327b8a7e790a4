-- ===== src/Sender/Window/Send.antt =====
-- A round of sender() sends the next payload of the window as it stands there.
use cosc_60_computer_network.Prelude.{
  ℕ, ◌+◌, ◌*◌, ◌≤◌, ◌<◌, ◌≡◌, refl, sym, ap, ◌∙◌, inl, inr, Bool, true, false, ◌||◌, some, List,
  get_or, length, arith, Yields, yields, Yields->>=, Bool-cases, take, ltb,
}
use cosc_60_computer_network.Prelude.Int.{ℤ, pos, negsuc, sub_ℕ, ◌+ℤ◌, ltb_ℤ, wrap}
use cosc_60_computer_network.Bytes.{slice, splice, length-splice}
use cosc_60_computer_network.Mrt.{data_type}
use cosc_60_computer_network.Packet.{put_int, get_int, receive, checksum_matches}
use cosc_60_computer_network.Packet.Seal.{seal-total}
use cosc_60_computer_network.Packet.Fields.{length-put_int}
use cosc_60_computer_network.Sender.State.{Connection, resend_timeout_threshold, empty_data_period}
use cosc_60_computer_network.Sender.Build.{build_data_empty, build_data, sending_frag}
use cosc_60_computer_network.Sender.Threads.{
  Sent, send_payload, send_empty, resend_timer, sender_round,
}
use cosc_60_computer_network.Sender.Transmissions.{build_data-Reads}
use cosc_60_computer_network.Sender.Invariant.{
  with_sent, with_outgoing, IsValid, AllShort-get_or, get_elem?-get_or,
}
use cosc_60_computer_network.Sender.Window.{payload}

-- What a round has sent, as it reads for a receiver that it comes in whole for: the payload behind
-- the last one sent, with its distance from the last acknowledged fragment.
pub record SendsNext (c : Connection) (v : IsValid c) (incoming : List ℕ) (r : Connection × Sent)
    : Type 0 where
  pub accepted : checksum_matches (receive r.1 incoming) ≡ some true
  pub type_read : get_int 8 (receive r.1 incoming) ≡ data_type
  pub frag_read :
      get_int 12 (receive r.1 incoming) ≡ wrap (c.last_acknowledged_frag +ℤ pos (v.sent + 1))
  pub payload_read :
      slice 20 (get_or c.num_bytes_buffered v.sent 0) (receive r.1 incoming)
      ≡ payload c.num_bytes_buffered c.sender_buffer v.sent
  pub advanced : (r.0).last_sent_index ≡ pos v.sent
  pub kept : (r.0).sender_buffer ≡ c.sender_buffer

-- The code adds 1 last.
frag_lem : (z : ℤ) (i : ℕ) → wrap (wrap (z +ℤ pos i) +ℤ pos 1) ≡ wrap (z +ℤ pos (i + 1))
frag_lem (pos n) i = ground arith
frag_lem (negsuc n) i = ground arith

pub sending_frag_lem :
    (c : Connection) (i : ℕ) → sending_frag c i ≡ wrap (c.last_acknowledged_frag +ℤ pos (i + 1))
unfolding sending_frag
sending_frag_lem c i = frag_lem c.last_acknowledged_frag i

next_lem : (n : ℕ) → n ≤ 10 → wrap (sub_ℕ n 1 +ℤ pos 1) ≡ pos n
next_lem n h = ground arith

more_lem : (count sent : ℕ) → sent < count → ltb_ℤ (sub_ℕ count 1) (pos sent) ≡ false
more_lem count sent h = ground arith

from_lem : (count sent : ℕ) → ltb_ℤ (sub_ℕ count 1) (pos sent) ≡ false → sent < count
from_lem count sent h = ground arith

pub next : (c : Connection) (v : IsValid c) → wrap (c.last_sent_index +ℤ pos 1) ≡ pos v.sent
next c v = ap (λ z. wrap (z +ℤ pos 1)) v.last_sent ∙ next_lem v.sent v.sent_le

pub unsent :
    (c : Connection) (v : IsValid c)
    → v.sent < v.count
    → ltb_ℤ c.last_payload_index (pos v.sent) ≡ false
unsent c v more = ap (λ z. ltb_ℤ z (pos v.sent)) v.last_payload ∙ more_lem v.count v.sent more

pub more_from :
    (c : Connection) (v : IsValid c)
    → ltb_ℤ c.last_payload_index (pos v.sent) ≡ false
    → v.sent < v.count
more_from c v e = from_lem v.count v.sent (ap (λ z. ltb_ℤ z (pos v.sent)) (sym v.last_payload) ∙ e)

pub or_true : (b : Bool) → (b || true) ≡ true
or_true false = refl
or_true true = refl

module _ (c : Connection) (v : IsValid c) (incoming : List ℕ) (room : length incoming ≡ 509) where
  send_payload-SendsNext :
      v.sent < v.count → Yields (SendsNext c v incoming) (send_payload (pos v.sent) c)
  unfolding send_payload
  send_payload-SendsNext more =
      let n = get_or c.num_bytes_buffered v.sent 0 in
      let short : n ≤ 488 = AllShort-get_or c.num_bytes_buffered v.sent v.lengths_short in
      rw (get_elem?-get_or c.num_bytes_buffered v.sent (omega (arith, v.lengths_size, v.count_le)))
        (Yields->>=
          (build_data-Reads c v.sent n incoming room v.outgoing_size short
            (omega (arith, v.buffer_size, v.count_le)))
          (λ o r. yields (record {
            accepted = r.head.accepted;
            type_read = r.head.type_read;
            frag_read = r.head.frag_read ∙ sending_frag_lem c v.sent;
            payload_read = r.payload_read;
            advanced = next c v;
            kept = refl;
          })))

-- On a valid connection, when the receiver has room for a whole payload and one has not been
-- sent, a round of sender() sends the next one: the datagram that comes in whole passes the
-- check, has the payload's bytes, and as fragment number the last acknowledged one plus the
-- payload's place in the window, counted from 1, on 32 bits; the payload counts as sent.
pub sender_round-SendsNext :
    (c : Connection) (v : IsValid c) (incoming : List ℕ)
    → length incoming ≡ 509
    → v.sent < v.count
    → ltb_ℤ c.receiver_window_size (pos 488) ≡ false
    → Yields (SendsNext c v incoming) (sender_round c)
unfolding sender_round
sender_round-SendsNext c v incoming room more wide =
    rw (next c v, unsent c v more, wide) (send_payload-SendsNext c v incoming room more)

pub send_empty-total :
    (c : Connection)
    → IsValid c
    → (o : List ℕ) × (send_empty c ≡ some (record c { outgoing_buffer = o }, take 16 o))
      × (length o ≡ 509)
unfolding send_empty build_data_empty
send_empty-total c v =
    let b1 = put_int 8 data_type c.outgoing_buffer in
    let b2 = put_int 12 (negsuc 0) b1 in
    let size : length b2 ≡ 509 =
      length-put_int 12 (negsuc 0) b1
      ∙ length-put_int 8 data_type c.outgoing_buffer
      ∙ v.outgoing_size in
    let (o, e, l) = seal-total 16 b2 (omega arith) (omega arith) in (o, rw e, l ∙ size)

send_empty-IsValid : (c : Connection) → IsValid c → Yields (λ r. IsValid (r.0)) (send_empty c)
send_empty-IsValid c v =
    let (o, e, size) = send_empty-total c v in rw e (yields (with_outgoing c o v size))

resend_timer-IsValid : (c : Connection) (b : Bool) → IsValid c → IsValid (resend_timer b c)
unfolding resend_timer
resend_timer-IsValid c false v = with_sent c v v.sent 0 c.last_sent_index v.last_sent v.sent_le
resend_timer-IsValid c true v = elim (Bool-cases (ltb resend_timeout_threshold c.resend_time)) [
  | inl e ↦ rw e (with_sent c v 0 0 (negsuc 0) refl (omega arith))
  | inr e ↦ rw e (
      with_sent c v v.sent (c.resend_time + empty_data_period) c.last_sent_index v.last_sent
        v.sent_le)
]

send_payload-IsValid :
    (c : Connection) (v : IsValid c)
    → v.sent < v.count
    → Yields (λ r. IsValid (r.0)) (send_payload (pos v.sent) c)
unfolding send_payload build_data
send_payload-IsValid c v more =
    let n = get_or c.num_bytes_buffered v.sent 0 in
    let short : n ≤ 488 = AllShort-get_or c.num_bytes_buffered v.sent v.lengths_short in
    let chunk = slice (v.sent * 488) n c.sender_buffer in
    let b1 = put_int 8 data_type c.outgoing_buffer in
    let b2 = put_int 12 (sending_frag c v.sent) b1 in
    let size : length (splice 20 chunk b2) ≡ 509 =
      length-splice 20 chunk b2
      ∙ length-put_int 12 (sending_frag c v.sent) b1
      ∙ length-put_int 8 data_type c.outgoing_buffer
      ∙ v.outgoing_size in
    let (o, e, l) = seal-total (20 + n) (splice 20 chunk b2) (omega arith) (omega arith) in
    rw (get_elem?-get_or c.num_bytes_buffered v.sent (omega (arith, v.lengths_size, v.count_le)), e)
      (yields (record {
        count = v.count;
        sent = v.sent + 1;
        last_payload = v.last_payload;
        last_sent = next c v ∙ ground arith;
        count_le = v.count_le;
        sent_le = omega (arith, v.count_le);
        buffer_size = v.buffer_size;
        lengths_size = v.lengths_size;
        lengths_short = v.lengths_short;
        incoming_size = v.incoming_size;
        incoming_nul = v.incoming_nul;
        outgoing_size = l ∙ size;
      }))

-- On a valid connection, a round of sender() ends without a fault and leaves a valid one.
pub sender_round-IsValid :
    (c : Connection) → IsValid c → Yields (λ r. IsValid (r.0)) (sender_round c)
unfolding sender_round
sender_round-IsValid c v = elim (Bool-cases (ltb_ℤ c.last_payload_index (pos v.sent))) [
  | inl e ↦
      rw (next c v, e, or_true _)
        (send_empty-IsValid (resend_timer true c) (resend_timer-IsValid c true v))
  | inr e ↦ elim (Bool-cases (ltb_ℤ c.receiver_window_size (pos 488))) [
    | inl w ↦
        rw (next c v, e, w)
          (send_empty-IsValid (resend_timer false c) (resend_timer-IsValid c false v))
    | inr w ↦ rw (next c v, e, w) (send_payload-IsValid c v (more_from c v e))
  ]
]
