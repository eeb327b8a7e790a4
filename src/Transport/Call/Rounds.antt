-- ===== src/Transport/Call/Rounds.antt =====
-- A round of a call of mrt_send(): the call goes on, or returns with all of its bytes acknowledged.
use cosc_60_computer_network.Prelude.{
  ℕ, zero, suc, ◌+◌, ◌-◌, ◌≤◌, ◌<◌, ◌≡◌, refl, sym, ap, ap₂, ◌∙◌, true, false, Option, none, some,
  List, [], ◌∷◌, ◌++◌, length, take, ltb, length-append, append_assoc, Whenever, gives, Yields,
  yields, Yields-some, arith, ◌>>=◌,
}
use cosc_60_computer_network.Prelude.Int.{ℤ, pos, sub_ℕ, ◌+ℤ◌, ◌-ℤ◌, leb_ℤ, ltb_ℤ, wrap}
use cosc_60_computer_network.Bytes.{slice}
use cosc_60_computer_network.Sender.Api.{SendRound, num_fragments, bytes_to_copy, send_round}
use cosc_60_computer_network.Sender.Fragments.{num_fragments-ceiling}
use cosc_60_computer_network.Receiver.State.{SockaddrIn, Ptr, Sender}
use cosc_60_computer_network.Receiver.Deliver.{unread}
use cosc_60_computer_network.Transport.{Net, after_buffer}
use cosc_60_computer_network.Transport.Progress.{joined}
use cosc_60_computer_network.Transport.InStep.{InStep}
use cosc_60_computer_network.Transport.Buffering.{Submits, send_round-Submits}
use cosc_60_computer_network.Transport.Run.{Submits-InStep}
use cosc_60_computer_network.Transport.Call.{Progress, returned, running, progress_of, call_round}
use cosc_60_computer_network.Transport.Call.Copies.{
  Undisturbed, undisturbed, has_space, Outcome, finished, grew, full, slept, send_round-Outcome,
  Copies, Copies-grew,
}

-- While the call runs, the stream ends in the bytes that it has copied. When it returns 1, the user
-- of the receiver has read, or finds unread, every byte of the stream before the call and then every
-- byte of the call. When it returns 0, the sender's checker() has set the flag.
pub data SendsAll (p : Ptr) (before : List (List ℕ)) (bytes : List ℕ) : Progress → Type 0 where
  runs :
      {k : ℕ} {n : Net} → Copies before bytes k n.submitted → SendsAll p before bytes (running k n)
  all_sent :
      {n : Net} (s : Sender)
      → n.receiver.senders p ≡ some s
      → n.delivered ++ unread s ≡ joined before ++ bytes
      → SendsAll p before bytes (returned (pos 1) n)
  was_dropped :
      {n : Net} → n.connection.should_close ≡ true → SendsAll p before bytes (returned (pos 0) n)

joined-append : (ps qs : List (List ℕ)) → joined (ps ++ qs) ≡ joined ps ++ joined qs
joined-append [] qs = refl
joined-append (p ∷ ps) qs =
    ap (λ l. p ++ l) (joined-append ps qs) ∙ sym (append_assoc p (joined ps) (joined qs))

take_all {ℓ} : {A : Type ℓ} (n : ℕ) (xs : List A) → length xs ≤ n → take n xs ≡ xs
take_all zero [] h = refl
take_all zero (x ∷ xs) h = absurd (omega arith)
take_all (suc n) [] h = refl
take_all (suc n) (x ∷ xs) h = ap (λ l. x ∷ l) (take_all n xs (omega arith))

-- With the last fragment acknowledged, the receiver has taken in the whole stream.
acknowledged-all_sent :
    (id : SockaddrIn) (p : Ptr) (size : ℕ) (before : List (List ℕ)) (bytes : List ℕ) (copied : ℕ)
    (n : Net)
    → InStep id p size n
    → Copies before bytes copied n.submitted
    → leb_ℤ (pos (length before + num_fragments (length bytes))) n.connection.last_acknowledged_frag
      ≡ true
    → SendsAll p before bytes (returned (pos 1) n)
acknowledged-all_sent id p size before bytes copied n h c e =
    let reached : length before + num_fragments (length bytes) ≤ h.acked =
      let e' : leb_ℤ (pos (length before + num_fragments (length bytes))) (pos h.acked) ≡ true =
        sym (ap (leb_ℤ (pos (length before + num_fragments (length bytes)))) h.windows.last) ∙ e in
      ground arith in
    let size : length n.submitted ≡ length before + length c.chunks =
      ap length c.stream ∙ length-append before c.chunks in
    let all : length n.submitted ≤ h.taken_in = omega (arith, c.left, h.acked_le, h.has.few) in
    let nothing_left : length bytes ≤ copied =
      omega (arith, num_fragments-ceiling (length bytes - copied), c.left, h.acked_le, h.has.few) in
    all_sent h.sender h.has.heard.holds (
      h.has.bytes
      ∙ ap joined (take_all h.taken_in n.submitted all ∙ c.stream)
      ∙ joined-append before c.chunks
      ∙ ap (λ l. joined before ++ l) (c.copied_bytes ∙ take_all copied bytes nothing_left))

longer_lem :
    (copied k len : ℕ)
    → copied < len
    → k ≡ copied + bytes_to_copy (len - copied)
    → ltb copied k ≡ true
unfolding bytes_to_copy
longer_lem copied k len more e = ground arith

full_lem :
    (count : ℕ)
    → ltb_ℤ (pos 0) (wrap (pos 10 -ℤ wrap (sub_ℕ count 1 +ℤ pos 1))) ≡ false
    → count ≤ 10
    → 0 < count
full_lem count e h = ground arith

module _ (id : SockaddrIn) (p : Ptr) (before : List (List ℕ)) (bytes : List ℕ) (final : ℤ)
    (is_final : final ≡ pos (length before + num_fragments (length bytes))) where
  -- A round that does not return leaves a payload that is not acknowledged.
  pub record Going (size copied : ℕ) (n : Net) (h : InStep id p size n) (n' : Net) : Type 0 where
    pub inv : InStep id p (size + 1) n'
    pub copies : Copies before bytes copied n'.submitted
    pub same_acked : inv.acked ≡ h.acked
    pub same_taken : inv.taken_in ≡ h.taken_in
    pub calm : Undisturbed n.connection n'.connection
    pub pending : h.acked < length n'.submitted

  pub data Goes (size : ℕ) (n : Net) (h : InStep id p size n) : Progress → Type 0 where
    on : {k : ℕ} {n' : Net} → Going size k n h n' → Goes size n h (running k n')
    out :
        {n' : Net}
        → SendsAll p before bytes (returned (pos 1) n')
        → Goes size n h (returned (pos 1) n')

  module _ (size copied : ℕ) (n : Net) (h : InStep id p size n)
      (c : Copies before bytes copied n.submitted) where
    going :
        {k : ℕ} {n' : Net} (s : Submits n h.acked n')
        → Copies before bytes k n'.submitted
        → Undisturbed n.connection n'.connection
        → h.acked < length n'.submitted
        → Goes size n h (running k n')
    going {k} {n'} s c' calm pending = on (record {
      inv = Submits-InStep id p size n n' h s;
      copies = c';
      same_acked = refl;
      same_taken = refl;
      calm = calm;
      pending = pending;
    })

    full-pending : has_space n.connection ≡ false → h.acked < length n.submitted
    full-pending e =
        let v = h.windows.valid in
        let some_left : 0 < v.count =
          full_lem v.count
            (ap (λ z. ltb_ℤ (pos 0) (wrap (pos 10 -ℤ wrap (z +ℤ pos 1)))) (sym v.last_payload) ∙ e)
            v.count_le in
        omega (arith, h.windows.total)

    slept-pending :
        leb_ℤ final n.connection.last_acknowledged_frag ≡ false
        → length bytes ≤ copied
        → h.acked < length n.submitted
    slept-pending e done =
        let below : leb_ℤ (pos (length before + num_fragments (length bytes))) (pos h.acked)
            ≡ false =
          ap₂ leb_ℤ (sym is_final) (sym h.windows.last) ∙ e in
        let less : h.acked < length before + num_fragments (length bytes) = ground arith in
        omega (
          arith,
          c.left,
          num_fragments-ceiling (length bytes - copied),
          ap length c.stream,
          length-append before c.chunks,
        )

    round_lem :
        (o : Option SendRound)
        → Whenever (Outcome final (length bytes) copied n.connection) o
        → Yields (Submits n h.acked) (o >>= after_buffer bytes copied n)
        → Yields
            (Goes size n h)
            (o >>= λ r. after_buffer bytes copied n r >>= λ n'. some (progress_of copied n' r))
    round_lem none w y = elim y [ ]
    round_lem (some _) (gives (finished e)) y = yields (
        out (
          acknowledged-all_sent id p size before bytes copied n h c
            (ap (λ z. leb_ℤ z n.connection.last_acknowledged_frag) (sym is_final) ∙ e)))
    round_lem (some _) (gives (grew {c'} {k} more e calm)) y =
        let longer : ltb copied k ≡ true = longer_lem copied k (length bytes) more e in
        rw longer (
          yields (
            going (Yields-some (rw longer at y))
              (Copies-grew before bytes copied k n.submitted c more e) calm
              (omega (
                arith,
                h.windows.total,
                length-append n.submitted (slice copied (k - copied) bytes ∷ []),
              ))))
    round_lem (some _) (gives (full e)) y =
        let same : ltb copied copied ≡ false = ground arith in
        rw same (
          yields (going (Yields-some (rw same at y)) c (undisturbed n.connection) (full-pending e)))
    round_lem (some _) (gives (slept e done)) y =
        yields (going (Yields-some y) c (undisturbed n.connection) (slept-pending e done))

    -- A round of the call.
    pub call_round-Goes : Yields (Goes size n h) (call_round final bytes copied true n)
    unfolding call_round
    call_round-Goes =
        round_lem (send_round final bytes (length bytes) copied (some n.connection))
          (send_round-Outcome final bytes (length bytes) copied n.connection)
          (send_round-Submits n h.acked copied final bytes h.windows)

    -- What comes behind a round that does not return.
    pub after_round :
        {Q : Progress → Type 0} (next : (copied' : ℕ) → Net → Option Progress) (o : Progress)
        → Goes size n h o
        → ((n' : Net) → SendsAll p before bytes (returned (pos 1) n') → Q (returned (pos 1) n'))
        → ((copied' : ℕ) (n' : Net) → Going size copied' n h n' → Yields Q (next copied' n'))
        → Yields Q (elim o [ returned z n' ↦ some (returned z n') | running k n' ↦ next k n' ])
    after_round next _ (on {k} {n'} g) done ih = ih k n' g
    after_round next _ (out {n'} s) done ih = yields (done n' s)
