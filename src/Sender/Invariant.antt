-- ===== src/Sender/Invariant.antt =====
-- What holds of a connection between two steps.
use cosc_60_computer_network.Prelude.{
  ℕ, zero, suc, ◌≤◌, ◌<◌, ◌≡◌, refl, List, [], ◌∷◌, length, drop, get_or, get_elem?, set, some,
  arith,
}
use cosc_60_computer_network.Prelude.Int.{ℤ, sub_ℕ}
use cosc_60_computer_network.Hash.Coverage.{HasNul}
use cosc_60_computer_network.Sender.State.{Connection}

-- No payload is longer than the most that fits a transmission.
abbrev pub AllShort : List ℕ → Type 0
AllShort [] = Unit
AllShort (n ∷ ns) = (n ≤ 488) × AllShort ns

-- `count` payloads are buffered, and those up to `sent` are marked as sent.
pub record IsValid (c : Connection) : Type 0 where
  pub count : ℕ
  pub sent : ℕ
  pub last_payload : c.last_payload_index ≡ sub_ℕ count 1
  pub last_sent : c.last_sent_index ≡ sub_ℕ sent 1
  pub count_le : count ≤ 10
  pub sent_le : sent ≤ 10
  pub buffer_size : length c.sender_buffer ≡ 4880
  pub lengths_size : length c.num_bytes_buffered ≡ 10
  pub lengths_short : AllShort c.num_bytes_buffered
  pub incoming_size : length c.incoming_buffer ≡ 21
  pub incoming_nul : HasNul (drop 8 c.incoming_buffer)
  pub outgoing_size : length c.outgoing_buffer ≡ 509

pub AllShort-get_or : (ns : List ℕ) (i : ℕ) → AllShort ns → get_or ns i 0 ≤ 488
AllShort-get_or [] i a = omega arith
AllShort-get_or (n ∷ ns) zero a = a.0
AllShort-get_or (n ∷ ns) (suc i) a = AllShort-get_or ns i a.1

pub AllShort-set : (ns : List ℕ) (i n : ℕ) → AllShort ns → n ≤ 488 → AllShort (set ns i n)
AllShort-set [] i n a h = tt
AllShort-set (m ∷ ns) zero n a h = (h, a.1)
AllShort-set (m ∷ ns) (suc i) n a h = (a.0, AllShort-set ns i n a.1 h)

pub get_elem?-get_or : (ns : List ℕ) (i : ℕ) → i < length ns → get_elem? ns i ≡ some (get_or ns i 0)
get_elem?-get_or [] i h = elim h [ ]
get_elem?-get_or (n ∷ ns) zero h = refl
get_elem?-get_or (n ∷ ns) (suc i) h = get_elem?-get_or ns i (omega arith)

-- Steps that write only these fields keep the rest.
abbrev pub with_outgoing :
    (c : Connection) (o : List ℕ)
    → IsValid c
    → length o ≡ 509
    → IsValid (record c { outgoing_buffer = o })
with_outgoing c o v size = record {
  count = v.count;
  sent = v.sent;
  last_payload = v.last_payload;
  last_sent = v.last_sent;
  count_le = v.count_le;
  sent_le = v.sent_le;
  buffer_size = v.buffer_size;
  lengths_size = v.lengths_size;
  lengths_short = v.lengths_short;
  incoming_size = v.incoming_size;
  incoming_nul = v.incoming_nul;
  outgoing_size = size;
}

abbrev pub with_sent :
    (c : Connection) (v : IsValid c) (sent resend_time : ℕ) (last : ℤ)
    → last ≡ sub_ℕ sent 1
    → sent ≤ 10
    → IsValid (record c { last_sent_index = last; resend_time = resend_time })
with_sent c v sent resend_time last e h = record {
  count = v.count;
  sent = sent;
  last_payload = v.last_payload;
  last_sent = e;
  count_le = v.count_le;
  sent_le = h;
  buffer_size = v.buffer_size;
  lengths_size = v.lengths_size;
  lengths_short = v.lengths_short;
  incoming_size = v.incoming_size;
  incoming_nul = v.incoming_nul;
  outgoing_size = v.outgoing_size;
}
