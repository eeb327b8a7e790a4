-- ===== src/Transport/Emission.antt =====
-- sender() puts nothing on the network but the stream's payloads under their numbers, and empty DATA.
use cosc_60_computer_network.Prelude.{
  ℕ, ◌+◌, ◌*◌, ◌^◌, ◌≤◌, ◌<◌, ◌≡◌, refl, sym, ap, ◌∙◌, some, List, length, take, drop, get_or,
  get_elem?, replicate, length-replicate, length-take, inl, inr, Bool-cases, Yields, yields,
  Yields-some, Yields-value, Yields-Whenever, arith, Bool, true, false, ltb,
}
use mathlib.Core.Path.{subst}
use cosc_60_computer_network.Prelude.Int.{pos, negsuc, ltb_ℤ}
use cosc_60_computer_network.Bytes.{slice, length-slice}
use cosc_60_computer_network.Mrt.{data_type}
use cosc_60_computer_network.Packet.{receive}
use cosc_60_computer_network.Sender.State.{Connection}
use cosc_60_computer_network.Sender.Build.{build_data_empty, build_data, sending_frag}
use cosc_60_computer_network.Sender.Threads.{resend_timer, send_empty, send_payload, sender_round}
use cosc_60_computer_network.Sender.Transmissions.{
  Reads, ReadsData, build_data_empty-Reads, build_data-Reads,
}
use cosc_60_computer_network.Sender.Invariant.{IsValid, AllShort-get_or, get_elem?-get_or}
use cosc_60_computer_network.Sender.Window.{payload, window}
use cosc_60_computer_network.Sender.Window.Send.{next, more_from, or_true}
use cosc_60_computer_network.Transport.Datagrams.{
  IsData, empty, fragment, build_data_empty-length, build_data-length, get_elem?-payloads,
  get_elem?-drop,
}

module _ (submitted : List (List ℕ)) where
  send_empty-IsData :
      (c : Connection)
      → length c.outgoing_buffer ≡ 509
      → Yields (λ r. IsData submitted r.1) (send_empty c)
  unfolding send_empty
  send_empty-IsData c size =
      let reads : (b : List ℕ)
          → length b ≡ 509
          → Yields (Reads data_type (negsuc 0) 16 b) (build_data_empty c.outgoing_buffer) =
        λ b room. build_data_empty-Reads b c.outgoing_buffer room size in
      let (o, e, (first, l)) = Yields-value (
        Yields-Whenever (reads (replicate 509 0) (length-replicate {A = ℕ} 509 0))
          (build_data_empty-length c.outgoing_buffer)) in
      let shows : (b : List ℕ) → length b ≡ 509 → Reads data_type (negsuc 0) 16 b o =
        λ b room. Yields-some (subst (Yields (Reads data_type (negsuc 0) 16 b)) e (reads b room)) in
      rw e (
        yields (
          empty (length-take 16 o ∙ omega arith) (record {
            accepted = λ b room. (shows b room).accepted;
            type_read = λ b room. (shows b room).type_read;
            frag_read = λ b room. (shows b room).frag_read;
          })))

  -- The fragment number of the payload that is next.
  pub sending_frag-pos :
      (c : Connection) (a i : ℕ)
      → c.last_acknowledged_frag ≡ pos a
      → a + i + 1 < 2 ^ 31
      → sending_frag c i ≡ pos (a + i + 1)
  unfolding sending_frag
  sending_frag-pos c a i e h = rw e (ground arith)

  send_payload-IsData :
      (c : Connection) (v : IsValid c) (a : ℕ)
      → v.sent < v.count
      → c.last_acknowledged_frag ≡ pos a
      → window c v.count ≡ drop a submitted
      → a + v.sent + 1 < 2 ^ 31
      → Yields (λ r. IsData submitted r.1) (send_payload (pos v.sent) c)
  unfolding send_payload
  send_payload-IsData c v a more ea ew small =
      let n = get_or c.num_bytes_buffered v.sent 0 in
      let p = payload c.num_bytes_buffered c.sender_buffer v.sent in
      let short : n ≤ 488 = AllShort-get_or c.num_bytes_buffered v.sent v.lengths_short in
      let lp : length p ≡ n =
        length-slice (v.sent * 488) n c.sender_buffer (omega (arith, v.buffer_size, v.count_le)) in
      let reads : (b : List ℕ)
          → length b ≡ 509
          → Yields (ReadsData c v.sent n b) (build_data c v.sent n) =
        λ b room.
          build_data-Reads c v.sent n b room v.outgoing_size short
            (omega (arith, v.buffer_size, v.count_le)) in
      let (o, e, (first, l)) = Yields-value (
        Yields-Whenever (reads (replicate 509 0) (length-replicate {A = ℕ} 509 0))
          (build_data-length c v.sent n)) in
      let shows : (b : List ℕ) → length b ≡ 509 → ReadsData c v.sent n b o =
        λ b room. Yields-some (subst (Yields (ReadsData c v.sent n b)) e (reads b room)) in
      rw
        (
          get_elem?-get_or c.num_bytes_buffered v.sent (omega (arith, v.lengths_size, v.count_le)),
          e,
        )
        (yields (
          fragment (a + v.sent) p
            (sym (get_elem?-drop submitted a v.sent)
              ∙ ap (λ w. get_elem? w v.sent) (sym ew)
              ∙ get_elem?-payloads c.num_bytes_buffered c.sender_buffer 0 v.sent v.count more
              ∙ ap (λ i. some (payload c.num_bytes_buffered c.sender_buffer i)) (omega arith))
            (length-take (20 + n) o ∙ omega (arith, v.outgoing_size)) (omega arith)
            (record {
              accepted = λ b room. (shows b room).head.accepted;
              type_read = λ b room. (shows b room).head.type_read;
              frag_read =
                  λ b room. (shows b room).head.frag_read ∙ sending_frag-pos c a v.sent ea small;
            })
            (λ b room.
              ap (λ k. slice 20 k (receive (take (20 + n) o) b)) lp ∙ (shows b room).payload_read)))

  outgoing-resend_timer :
      (c : Connection) (b : Bool) → (resend_timer b c).outgoing_buffer ≡ c.outgoing_buffer
  unfolding resend_timer
  outgoing-resend_timer c false = refl
  outgoing-resend_timer c true = elim (Bool-cases (ltb 60000 c.resend_time)) [
    | inl e ↦ rw e
    | inr e ↦ rw e
  ]

  -- What a round of sender() sends on a valid connection whose window is the stream behind the
  -- acknowledged fragments.
  pub sender_round-IsData :
      (c : Connection) (v : IsValid c) (a : ℕ)
      → c.last_acknowledged_frag ≡ pos a
      → window c v.count ≡ drop a submitted
      → a + v.count < 2 ^ 31
      → Yields (λ r. IsData submitted r.1) (sender_round c)
  unfolding sender_round
  sender_round-IsData c v a ea ew small =
      elim (Bool-cases (ltb_ℤ c.last_payload_index (pos v.sent))) [
        | inl e ↦
            rw (next c v, e, or_true _)
              (send_empty-IsData (resend_timer true c)
                (ap length (outgoing-resend_timer c true) ∙ v.outgoing_size))
        | inr e ↦ elim (Bool-cases (ltb_ℤ c.receiver_window_size (pos 488))) [
          | inl w ↦
              rw (next c v, e, w)
                (send_empty-IsData (resend_timer false c)
                  (ap length (outgoing-resend_timer c false) ∙ v.outgoing_size))
          | inr w ↦
              rw (next c v, e, w)
                (send_payload-IsData c v a (more_from c v e) ea ew (omega (arith, more_from c v e)))
        ]
      ]
