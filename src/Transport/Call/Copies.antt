-- ===== src/Transport/Call/Copies.antt =====
-- What a call of mrt_send() has copied so far stands at the end of the stream, cut into as many
-- payloads as its `final_frag` counts.
use cosc_60_computer_network.Prelude.{
  ℕ, ◌+◌, ◌-◌, ◌≤◌, ◌<◌, ◌≡◌, refl, sym, ap, ◌∙◌, Bool, true, false, some, List, [], ◌∷◌, ◌++◌,
  length, take, ltb, inl, inr, Bool-cases, append-nil, append_assoc, length-append, Whenever,
  faults, gives, arith,
}
use cosc_60_computer_network.Prelude.Int.{ℤ, pos, negsuc, ◌+ℤ◌, ◌-ℤ◌, leb_ℤ, ltb_ℤ, wrap}
use cosc_60_computer_network.Bytes.{slice}
use cosc_60_computer_network.Sender.State.{Connection}
use cosc_60_computer_network.Sender.Api.{
  SendRound, returns, goes_on, sleeps, num_fragments, bytes_to_copy, copy_payload, buffer_more,
  send_round,
}
use cosc_60_computer_network.Sender.Fragments.{num_fragments-bytes_to_copy}
use cosc_60_computer_network.Receiver.Deliver.{take-split}
use cosc_60_computer_network.Transport.Progress.{joined}

-- What a round leaves of the connection.
pub record Undisturbed (c c' : Connection) : Type 0 where
  pub same_last : c'.last_acknowledged_frag ≡ c.last_acknowledged_frag
  pub same_sent : c'.last_sent_index ≡ c.last_sent_index
  pub same_time : c'.resend_time ≡ c.resend_time
  pub same_window : c'.receiver_window_size ≡ c.receiver_window_size
  pub same_close : c'.should_close ≡ c.should_close

pub undisturbed : (c : Connection) → Undisturbed c c
undisturbed c = record {
  same_last = refl;
  same_sent = refl;
  same_time = refl;
  same_window = refl;
  same_close = refl;
}

-- The test for a free space of the window.
abbrev pub has_space : Connection → Bool
has_space c = ltb_ℤ (pos 0) (wrap (pos 10 -ℤ wrap (c.last_payload_index +ℤ pos 1)))

-- How a round may end.
pub data Outcome (final : ℤ) (len copied : ℕ) (c : Connection) : SendRound → Type 0 where
  finished :
      leb_ℤ final c.last_acknowledged_frag ≡ true → Outcome final len copied c (returns (pos 1))
  grew :
      {c' : Connection} {k : ℕ}
      → copied < len
      → k ≡ copied + bytes_to_copy (len - copied)
      → Undisturbed c c'
      → Outcome final len copied c (goes_on c' k)
  full : has_space c ≡ false → Outcome final len copied c (goes_on c copied)
  slept :
      leb_ℤ final c.last_acknowledged_frag ≡ false
      → len ≤ copied
      → Outcome final len copied c sleeps

module _ (final : ℤ) (bytes : List ℕ) (len copied : ℕ) (c : Connection) where
  copy_payload-Outcome :
      (i : ℤ)
      → copied < len
      → Whenever (Outcome final len copied c) (copy_payload bytes len copied i c)
  unfolding copy_payload
  copy_payload-Outcome (pos i) h = gives (
      grew h refl (record {
        same_last = refl;
        same_sent = refl;
        same_time = refl;
        same_window = refl;
        same_close = refl;
      }))
  copy_payload-Outcome (negsuc i) h = faults

  buffer_more-Outcome :
      copied < len → Whenever (Outcome final len copied c) (buffer_more bytes len copied c)
  unfolding buffer_more
  buffer_more-Outcome h =
      let first_free = wrap (c.last_payload_index +ℤ pos 1) in
      elim (Bool-cases (has_space c)) [
        | inl e ↦ rw e (copy_payload-Outcome first_free h)
        | inr e ↦ rw e (gives (full e))
      ]

  pub send_round-Outcome :
      Whenever (Outcome final len copied c) (send_round final bytes len copied (some c))
  unfolding send_round
  send_round-Outcome = elim (Bool-cases (leb_ℤ final c.last_acknowledged_frag)) [
    | inl all ↦ rw all (gives (finished all))
    | inr e ↦ elim (Bool-cases (ltb copied len)) [
      | inl more ↦ rw (e, more) (buffer_more-Outcome (ground arith))
      | inr done ↦ rw (e, done) (gives (slept e (ground arith)))
    ]
  ]

-- The stream is what it was before the call, and then the bytes that the call has copied. The
-- fragments that are still to come are so many fewer.
pub record Copies (before : List (List ℕ)) (bytes : List ℕ) (copied : ℕ) (submitted : List (List ℕ))
    : Type 0 where
  pub chunks : List (List ℕ)
  pub stream : submitted ≡ before ++ chunks
  pub copied_bytes : joined chunks ≡ take copied bytes
  pub copied_le : copied ≤ length bytes
  pub left : length chunks + num_fragments (length bytes - copied) ≡ num_fragments (length bytes)

pub Copies-start : (before : List (List ℕ)) (bytes : List ℕ) → Copies before bytes 0 before
Copies-start before bytes = record {
  chunks = [];
  stream = sym (append-nil before);
  copied_bytes = refl;
  copied_le = omega arith;
  left =
      omega (arith, ap num_fragments (let e : length bytes - 0 ≡ length bytes = omega arith in e));
}

joined-snoc : (ps : List (List ℕ)) (p : List ℕ) → joined (ps ++ (p ∷ [])) ≡ joined ps ++ p
joined-snoc [] p = append-nil p
joined-snoc (q ∷ ps) p = ap (λ l. q ++ l) (joined-snoc ps p) ∙ sym (append_assoc q (joined ps) p)

bytes_to_copy-le : (n : ℕ) → bytes_to_copy n ≤ n
unfolding bytes_to_copy
bytes_to_copy-le n = ground arith

-- A payload more.
pub Copies-grew :
    (before : List (List ℕ)) (bytes : List ℕ) (copied k : ℕ) (submitted : List (List ℕ))
    → Copies before bytes copied submitted
    → copied < length bytes
    → k ≡ copied + bytes_to_copy (length bytes - copied)
    → Copies before bytes k (submitted ++ (slice copied (k - copied) bytes ∷ []))
Copies-grew before bytes copied k submitted h more e =
    let n = bytes_to_copy (length bytes - copied) in
    let chunk = slice copied (k - copied) bytes in
    let count : k - copied ≡ n = omega arith in
    let rest : length bytes - k ≡ (length bytes - copied) - n = omega arith in
    record {
      chunks = h.chunks ++ (chunk ∷ []);
      stream = ap (λ l. l ++ (chunk ∷ [])) h.stream ∙ append_assoc before h.chunks (chunk ∷ []);
      copied_bytes =
          joined-snoc h.chunks chunk
          ∙ ap (λ l. l ++ chunk) h.copied_bytes
          ∙ take-split copied k bytes (omega arith);
      copied_le = omega (arith, bytes_to_copy-le (length bytes - copied));
      left = omega (
        arith,
        h.left,
        length-append h.chunks (chunk ∷ []),
        ap num_fragments rest,
        num_fragments-bytes_to_copy (length bytes - copied) (omega arith),
      );
    }
