-- ===== src/Transport/RoundRobin/Cycle.antt =====
-- What a cycle leaves behind the round of the call: the sides agree on what is acknowledged, and the
-- call has come nearer to its end.
use cosc_60_computer_network.Prelude.{
  ℕ, zero, suc, ◌+◌, ◌-◌, ◌*◌, ◌/◌, ◌^◌, ◌≤◌, ◌<◌, ◌≡◌, refl, sym, ap, ap₂, ◌∙◌, false, Option,
  none, some, List, [], length, get_elem?, Yields, yields, true, if◌then◌else◌, arith, ◌>>=◌,
}
use mathlib.Core.Path.{subst}
use cosc_60_computer_network.Prelude.Int.{ℤ, pos, negsuc, sub_ℕ, ltb_ℤ}
use cosc_60_computer_network.Packet.{get_int, receive}
use cosc_60_computer_network.Sender.State.{Connection}
use cosc_60_computer_network.Receiver.State.{SockaddrIn, Ptr}
use cosc_60_computer_network.Transport.{Net, arrived, acknowledged, act}
use cosc_60_computer_network.Transport.Datagrams.{IsData, ShowsAdat}
use cosc_60_computer_network.Transport.Emission.{sending_frag-pos}
use cosc_60_computer_network.Transport.InStep.{InStep}
use cosc_60_computer_network.Transport.Call.{
  Progress, sends, arrives, acknowledges, reads, checks, Held, still, unless_closed, after_check,
  happen,
}
use cosc_60_computer_network.Transport.Call.Closing.{checked-InStep, checker_round-fresh}
use cosc_60_computer_network.Transport.RoundRobin.Sends.{Moves, advanced, ticked, reset}
use cosc_60_computer_network.Transport.RoundRobin.Steps.{
  HasRead, HasSent, HasArrived, HasAcked, read-HasRead, send-HasSent, arrive-HasArrived,
  acknowledge-HasAcked,
}

-- How many rounds sender() needs at most until it starts again from the first payload: the others
-- are sent first, and then its timer runs.
abbrev pub phase : ℤ → ℕ → ℕ
phase (negsuc k) time = 0
phase (pos last) time = 1 + (9 - last) * 5 + (4 - time / 20000)

pub phase-le : (last : ℤ) (time : ℕ) → phase last time ≤ 50
phase-le (negsuc k) time = omega arith
phase-le (pos j) time = omega arith

-- How far a call whose last fragment is `final` is from its end.
abbrev pub distance : ℕ → ℕ → Connection → ℕ
distance final acked c = (final - acked) * 51 + phase c.last_sent_index c.resend_time

module _ (final a a' : ℕ) (less : a < final) (more : a ≤ a') where
  first_lem :
      (time : ℕ) (last : ℤ)
      → last ≡ sub_ℕ 0 1
      → a' ≡ a + 1
      → (final - a') * 51 + phase (pos 0) 0 < (final - a) * 51 + phase last time
  first_lem time (negsuc k) e now = omega arith
  first_lem time (pos j) e now = absurd (ground arith)

  advanced_lem :
      (j time : ℕ) (last : ℤ)
      → last ≡ sub_ℕ (suc j) 1
      → suc j < 10
      → (final - a') * 51 + phase (pos (suc j)) 0 < (final - a) * 51 + phase last time
  advanced_lem j time (negsuc k) e h = absurd (ground arith)
  advanced_lem j time (pos i) e h = let same : i ≡ j = ground arith in omega arith

  advanced_by :
      (sent time : ℕ) (last : ℤ)
      → last ≡ sub_ℕ sent 1
      → sent < 10
      → (sent ≡ 0 → a' ≡ a + 1)
      → (final - a') * 51 + phase (pos sent) 0 < (final - a) * 51 + phase last time
  advanced_by zero time last e h next = first_lem time last e (next refl)
  advanced_by (suc j) time last e h next = advanced_lem j time last e h

  ticked_lem :
      (sent time : ℕ) (last : ℤ)
      → last ≡ sub_ℕ sent 1
      → 0 < sent
      → time ≤ 60000
      → (final - a') * 51 + phase last (time + 20000) < (final - a) * 51 + phase last time
  ticked_lem sent time (negsuc k) e h t = absurd (ground arith)
  ticked_lem sent time (pos i) e h t = omega arith

  reset_lem :
      (sent time : ℕ) (last : ℤ)
      → last ≡ sub_ℕ sent 1
      → 0 < sent
      → (final - a') * 51 + phase (negsuc 0) 0 < (final - a) * 51 + phase last time
  reset_lem sent time (negsuc k) e h = absurd (ground arith)
  reset_lem sent time (pos i) e h = omega arith

module _ (id : SockaddrIn) (p : Ptr) (size : ℕ) where
  -- What the steps behind the round leave. Where the sides agreed before, the receiver had room and a
  -- payload was not acknowledged, the call is nearer to its end.
  pub record Cycled (n : Net) (h : InStep id p size n) (n' : Net) : Type 0 where
    pub inv : InStep id p size n'
    pub in_sync : inv.acked ≡ inv.taken_in
    pub no_less : h.acked ≤ inv.acked
    pub wide : ltb_ℤ n'.connection.receiver_window_size (pos 488) ≡ false
    pub same_stream : n'.submitted ≡ n.submitted
    pub fresh : n'.connection.inactive_time ≡ 0
    pub same_close : n'.connection.should_close ≡ n.connection.should_close
    pub nearer :
        h.acked ≡ h.taken_in
        → ltb_ℤ n.connection.receiver_window_size (pos 488) ≡ false
        → h.acked < length n.submitted
        → (final : ℕ) → h.acked < final
        → distance final inv.acked n'.connection < distance final h.acked n.connection

  -- The same behind checker(), which has not set the flag.
  pub record CycledOpen (n : Net) (h : InStep id p size n) (n' : Net) : Type 0 where
    pub inv : InStep id p size n'
    pub in_sync : inv.acked ≡ inv.taken_in
    pub no_less : h.acked ≤ inv.acked
    pub wide : ltb_ℤ n'.connection.receiver_window_size (pos 488) ≡ false
    pub same_stream : n'.submitted ≡ n.submitted
    pub same_close : n'.connection.should_close ≡ n.connection.should_close
    pub nearer :
        h.acked ≡ h.taken_in
        → ltb_ℤ n.connection.receiver_window_size (pos 488) ≡ false
        → h.acked < length n.submitted
        → (final : ℕ) → h.acked < final
        → distance final inv.acked n'.connection < distance final h.acked n.connection

  -- By what sender() has done in the cycle.
  nearer_lem :
      (n : Net) (h : InStep id p size n) (acked' : ℕ) (c' : Connection) (incoming d : List ℕ)
      (final : ℕ)
      → size + 1 < 2 ^ 31
      → Moves n.connection h.windows.valid incoming (c', d)
      → h.acked < length n.submitted
      → h.acked < final
      → h.acked ≤ acked'
      → (get_int 12 (receive d incoming) ≡ pos (h.acked + 1) → acked' ≡ h.acked + 1)
      → distance final acked' c' < distance final h.acked n.connection
  nearer_lem n h acked' c' incoming d final small (advanced more last time frag) pending less le
        next =
      let c = n.connection in
      let v = h.windows.valid in
      let at_first : v.sent ≡ 0 → get_int 12 (receive d incoming) ≡ pos (h.acked + 1) = λ z.
        frag
        ∙ sending_frag-pos n.submitted c h.acked v.sent h.windows.last
            (omega (arith, h.windows.total, h.size_le))
        ∙ ap (λ i. pos (h.acked + i + 1)) z
        ∙ ap pos (omega arith) in
      rw (last, time)
        (advanced_by final h.acked acked' less le v.sent c.resend_time c.last_sent_index v.last_sent
          (omega (arith, v.count_le)) (λ z. next (at_first z)))
  nearer_lem n h acked' c' incoming d final small (ticked done early last time) pending less le
        next =
      let c = n.connection in
      let v = h.windows.valid in
      rw (last, time)
        (ticked_lem final h.acked acked' less le v.sent c.resend_time c.last_sent_index v.last_sent
          (omega (arith, h.windows.total)) early)
  nearer_lem n h acked' c' incoming d final small (reset done last time) pending less le next =
      let c = n.connection in
      let v = h.windows.valid in
      rw last (
        reset_lem final h.acked acked' less le v.sent c.resend_time c.last_sent_index v.last_sent
          (omega (arith, h.windows.total)))

  -- Behind the four steps.
  cycled :
      (small : size + 1 < 2 ^ 31) (n : Net) (h : InStep id p size n) {n2 n3 n4 n5 : Net}
      (r : HasRead id p size n h n2) (s : HasSent id p size n2 r.inv n3)
      (a : HasArrived id p size n3 s.inv s.newest n4)
      → HasAcked id p size n4 a.inv a.window n5
      → Cycled n h n5
  cycled small n h {n2} {n3} {n4} {n5} r s a k =
      let none_unread : s.inv.sender.bytes_unread ≡ 0 =
        ap (λ x. x.bytes_unread) s.same_sender ∙ r.none_unread in
      let same_c : n2.connection ≡ n.connection = r.same_connection in
      let last : n5.connection.last_sent_index ≡ n3.connection.last_sent_index =
        k.same_sent ∙ ap (λ c. c.last_sent_index) a.same_connection in
      let time : n5.connection.resend_time ≡ n3.connection.resend_time =
        k.same_time ∙ ap (λ c. c.resend_time) a.same_connection in
      let le : h.acked ≤ k.inv.acked =
        omega (arith, k.in_sync, a.more, s.same_taken, r.same_taken, h.acked_le) in
      let behind : h.acked ≡ h.taken_in
          → get_int 12 (receive s.newest n2.receiver.incoming_buffer) ≡ pos (r.inv.acked + 1)
          → k.inv.acked ≡ r.inv.acked + 1 =
        λ sync f.
          let expected : s.inv.taken_in ≡ r.inv.acked =
            s.same_taken ∙ r.same_taken ∙ sym sync ∙ sym r.same_acked in
          k.in_sync
          ∙ a.expected_in none_unread (
              ap (λ x. get_int 12 (receive s.newest x.incoming_buffer)) s.same_receiver
              ∙ f
              ∙ ap (λ i. pos (i + 1)) (sym expected))
          ∙ ap (λ i. i + 1) expected in
      record {
        inv = k.inv;
        in_sync = k.in_sync ∙ sym k.same_taken;
        no_less = le;
        wide = k.wide (a.roomy none_unread);
        same_stream = k.same_stream ∙ a.same_stream ∙ s.same_stream ∙ r.same_stream;
        fresh = k.fresh;
        same_close =
            k.same_close
            ∙ ap (λ c. c.should_close) a.same_connection
            ∙ s.same_close
            ∙ ap (λ c. c.should_close) same_c;
        nearer = λ sync wide pending final less.
            rw (last, time)
              (subst
                (λ z.
                  (final - k.inv.acked) * 51
                    + phase n3.connection.last_sent_index n3.connection.resend_time
                  < z)
                (ap₂ (distance final) r.same_acked same_c)
                (nearer_lem n2 r.inv k.inv.acked n3.connection n2.receiver.incoming_buffer s.newest
                  final small
                  (s.moves (ap (λ c. ltb_ℤ c.receiver_window_size (pos 488)) same_c ∙ wide))
                  (omega (arith, r.same_acked, ap length r.same_stream))
                  (omega (arith, r.same_acked)) (omega (arith, le, r.same_acked))
                  (λ f. behind sync f)));
      }

  arrives_front :
      (small : size + 1 < 2 ^ 31) (n : Net) (h : InStep id p size n) (d : List ℕ)
      → get_elem? n.to_receiver 0 ≡ some d
      → IsData n.submitted d
      → Yields (HasArrived id p size n h d) (arrived id 0 [] n (get_elem? n.to_receiver 0))
  arrives_front small n h d front is = rw front (arrive-HasArrived id p size small n h d is)

  acknowledges_front :
      (small : size + 1 < 2 ^ 31) (n : Net) (h : InStep id p size n) (w : ℤ) (d : List ℕ)
      → get_elem? n.to_sender 0 ≡ some d
      → ShowsAdat h.taken_in w d
      → Yields (HasAcked id p size n h w) (acknowledged n (get_elem? n.to_sender 0))
  acknowledges_front small n h w d front shows =
      rw front (acknowledge-HasAcked id p size small n h w d shows)

  -- checker() only counts behind an ADAT.
  checked :
      (n : Net) (h : InStep id p size n) (n' : Net) (k : Cycled n h n')
      → CycledOpen n h (after_check n')
  checked n h n' k =
      let e = checker_round-fresh n'.connection k.fresh in
      record {
        inv = checked-InStep k.inv;
        in_sync = k.in_sync;
        no_less = k.no_less;
        wide = ap (λ c. ltb_ℤ c.receiver_window_size (pos 488)) e ∙ k.wide;
        same_stream = k.same_stream;
        same_close = ap (λ c. c.should_close) e ∙ k.same_close;
        nearer = λ sync wide pending final less.
            subst (λ d. d < distance final h.acked n.connection)
              (sym (ap (λ c. distance final k.inv.acked c) e))
              (k.nearer sync wide pending final less);
      }

  module _ {Q : Progress → Type 0} (next : Held → Option Progress) where
    other_then :
        (P : Net → Type 0) (o : Option Net)
        → Yields P o
        → ((n' : Net) → P n' → Yields Q (next (true, n')))
        → Yields Q (still true o >>= next)
    other_then P none y f = elim y [ ]
    other_then P (some n') (yields k) f = f n' k

    -- A step while the flag is not set.
    open_then :
        (P : Net → Type 0) (n : Net) (o : Option Net)
        → n.connection.should_close ≡ false
        → Yields P o
        → ((n' : Net) → P n' → Yields Q (next (true, n')))
        → Yields Q (unless_closed true n o >>= next)
    open_then P n o unset y f =
        subst (λ b. Yields Q ((if b then some (true, n) else still true o) >>= next)) (sym unset)
          (other_then P o y f)

  -- The steps end without a fault, and what comes behind them starts from there.
  pub steps_then :
      {Q : Progress → Type 0} (small : size + 1 < 2 ^ 31) (n : Net) (h : InStep id p size n)
      → n.connection.should_close ≡ false
      → (next : Held → Option Progress)
      → ((n' : Net) → CycledOpen n h n' → Yields Q (next (true, n')))
      → Yields Q (
          happen id (reads 2440) true n >>= λ a. happen id sends a.0 a.1 >>= λ b.
          happen id (arrives 0 0 []) b.0 b.1 >>= λ c.
          happen id (acknowledges 0) c.0 c.1 >>= λ d. happen id checks d.0 d.1 >>= next)
  unfolding happen act
  steps_then {Q} small n h unset next ih =
      other_then _ _ _ (read-HasRead id p size small n h) (λ n2 r.
        let unset2 = ap (λ c. c.should_close) r.same_connection ∙ unset in
        open_then _ _ n2 _ unset2 (send-HasSent id p size small n2 r.inv) (λ n3 s.
          other_then _ _ _ (arrives_front small n3 s.inv s.newest s.front s.is) (λ n4 a.
            let unset4 = ap (λ c. c.should_close) a.same_connection ∙ s.same_close ∙ unset2 in
            open_then _ _ n4 _ unset4
              (acknowledges_front small n4 a.inv a.window a.answer a.front a.shows)
              (λ n5 k.
                let cycle = cycled small n h r s a k in
                open_then next (λ x. x ≡ after_check n5) n5 _ (cycle.same_close ∙ unset)
                  (yields refl)
                  (λ x e.
                    subst (λ y. Yields Q (next (true, y))) (sym e)
                      (ih (after_check n5) (checked n h n5 cycle)))))))
