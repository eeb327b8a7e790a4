-- ===== src/Transport/RoundRobin/Returns.antt =====
-- mrt_send() comes to its end while the threads take turns and nothing is lost.
use cosc_60_computer_network.Prelude.{
  true, ℕ, zero, suc, ◌+◌, ◌*◌, ◌^◌, ◌≤◌, ◌<◌, ◌≡◌, refl, sym, ap, ◌∙◌, false, some, List, [], ◌∷◌,
  ◌++◌, length, length-append, Yields, Yields->>=, arith,
}
use mathlib.Core.Path.{subst}
use cosc_60_computer_network.Prelude.Int.{ℤ, pos, ltb_ℤ}
use cosc_60_computer_network.Sender.State.{Connection}
use cosc_60_computer_network.Sender.Api.{num_fragments}
use cosc_60_computer_network.Receiver.State.{SockaddrIn, Ptr, Sender}
use cosc_60_computer_network.Receiver.Deliver.{unread}
use cosc_60_computer_network.Transport.{Net}
use cosc_60_computer_network.Transport.Progress.{joined}
use cosc_60_computer_network.Transport.InStep.{InStep}
use cosc_60_computer_network.Transport.Call.{
  Progress, event, sends, arrives, acknowledges, reads, checks, returned, loop,
}
use cosc_60_computer_network.Transport.Call.Copies.{Undisturbed, Copies}
use cosc_60_computer_network.Transport.Call.Rounds.{
  SendsAll, all_sent, Going, call_round-Goes, after_round,
}
use cosc_60_computer_network.Transport.RoundRobin.{cycles}
use cosc_60_computer_network.Transport.RoundRobin.Cycle.{CycledOpen, distance, phase-le, steps_then}

-- The call has returned 1, and the user of the receiver has read, or finds unread, every byte of the
-- stream before the call and then every byte of the call.
pub data ReturnsAll (p : Ptr) (before : List (List ℕ)) (bytes : List ℕ) : Progress → Type 0 where
  returns_all :
      {n : Net} (s : Sender)
      → n.receiver.senders p ≡ some s
      → n.delivered ++ unread s ≡ joined before ++ bytes
      → ReturnsAll p before bytes (returned (pos 1) n)

SendsAll-ReturnsAll :
    {p : Ptr} {before : List (List ℕ)} {bytes : List ℕ} (n : Net)
    → SendsAll p before bytes (returned (pos 1) n)
    → ReturnsAll p before bytes (returned (pos 1) n)
SendsAll-ReturnsAll n (all_sent s held same) = returns_all s held same

distance-same :
    (final a a' : ℕ) (c c' : Connection)
    → a' ≡ a
    → Undisturbed c c'
    → distance final a' c' ≡ distance final a c
distance-same final a a' c c' e u = rw (e, u.same_sent, u.same_time) refl

module _ (id : SockaddrIn) (p : Ptr) (before : List (List ℕ)) (bytes : List ℕ) (final : ℤ)
    (last : ℕ) (is_last : last ≡ length before + num_fragments (length bytes))
    (is_final : final ≡ pos (length before + num_fragments (length bytes))) where
  -- The stream is no longer than up to the call's last fragment.
  Copies-le :
      (copied : ℕ) (submitted : List (List ℕ))
      → Copies before bytes copied submitted
      → length submitted ≤ last
  Copies-le copied submitted c =
      omega (arith, c.left, ap length c.stream, length-append before c.chunks)

  -- One cycle, and what comes behind it.
  cycle_then :
      (k size copied : ℕ) (n : Net) (h : InStep id p size n)
      → size + 2 < 2 ^ 31
      → n.connection.should_close ≡ false
      → Copies before bytes copied n.submitted
      → ((copied' : ℕ) (n1 : Net) (r : Going id p before bytes final is_final size copied' n h n1)
            (n2 : Net) (d : CycledOpen id p (size + 1) n1 r.inv n2)
          → n2.connection.should_close ≡ false
          → Yields (ReturnsAll p before bytes) (loop id final bytes (cycles k) copied' true n2))
      → Yields (ReturnsAll p before bytes) (loop id final bytes (cycles (suc k)) copied true n)
  unfolding loop cycles
  cycle_then k size copied n h small unset c ih =
      Yields->>= (call_round-Goes id p before bytes final is_final size copied n h c) (λ o g.
        after_round id p before bytes final is_final size copied n h c
          (λ copied' n'.
            loop id final bytes
              (event (reads 2440)
                ∷ event sends
                ∷ event (arrives 0 0 [])
                ∷ event (acknowledges 0)
                ∷ event checks
                ∷ cycles k)
              copied' true n')
          o g (λ n' s. SendsAll-ReturnsAll n' s)
          (λ copied' n1 r.
            let unset1 = r.calm.same_close ∙ unset in
            steps_then id p (size + 1) (omega arith) n1 r.inv unset1
              (λ a. loop id final bytes (cycles k) copied' a.0 a.1)
              (λ n2 d. ih copied' n1 r n2 d (d.same_close ∙ unset1))))

  -- The call has not come to its end, so that a fragment of it is not acknowledged.
  pending-less :
      (size copied : ℕ) (n n1 : Net) (h : InStep id p size n)
      → Going id p before bytes final is_final size copied n h n1
      → h.acked < last
  pending-less size copied n n1 h r =
      omega (arith, r.pending, Copies-le copied n1.submitted r.copies)

  -- From where the sides agree and the receiver has room.
  synced-ReturnsAll :
      (k size copied : ℕ) (n : Net) (h : InStep id p size n)
      → h.acked ≡ h.taken_in
      → ltb_ℤ n.connection.receiver_window_size (pos 488) ≡ false
      → n.connection.should_close ≡ false
      → Copies before bytes copied n.submitted
      → distance last h.acked n.connection < k
      → size + k + 1 < 2 ^ 31
      → Yields (ReturnsAll p before bytes) (loop id final bytes (cycles k) copied true n)
  synced-ReturnsAll zero size copied n h sync wide unset c near small = elim near [ ]
  synced-ReturnsAll (suc k) size copied n h sync wide unset c near small =
      cycle_then k size copied n h (omega arith) unset c (λ copied' n1 r n2 d unset'.
        let same : distance last r.inv.acked n1.connection ≡ distance last h.acked n.connection =
          distance-same last h.acked r.inv.acked n.connection n1.connection r.same_acked r.calm in
        let nearer : distance last d.inv.acked n2.connection
            < distance last r.inv.acked n1.connection =
          d.nearer (r.same_acked ∙ sync ∙ sym r.same_taken)
            (ap (λ z. ltb_ℤ z (pos 488)) r.calm.same_window ∙ wide)
            (omega (arith, r.same_acked, r.pending)) last
            (omega (arith, r.same_acked, pending-less size copied' n n1 h r)) in
        synced-ReturnsAll k (size + 1) copied' n2 d.inv d.in_sync d.wide unset'
          (subst (Copies before bytes copied') (sym d.same_stream) r.copies) (omega arith)
          (omega arith))

  -- From any state of the connection.
  pub cycles-ReturnsAll :
      (k size copied : ℕ) (n : Net)
      → InStep id p size n
      → n.connection.should_close ≡ false
      → Copies before bytes copied n.submitted
      → last ≤ length n.submitted + num_fragments (length bytes)
      → 51 * (num_fragments (length bytes) + 12) ≤ k
      → size + k + 1 < 2 ^ 31
      → Yields (ReturnsAll p before bytes) (loop id final bytes (cycles k) copied true n)
  cycles-ReturnsAll zero size copied n h unset c le enough small = absurd (omega arith)
  cycles-ReturnsAll (suc k) size copied n h unset c le enough small =
      cycle_then k size copied n h (omega arith) unset c (λ copied' n1 r n2 d unset'.
        synced-ReturnsAll k (size + 1) copied' n2 d.inv d.in_sync d.wide unset'
          (subst (Copies before bytes copied') (sym d.same_stream) r.copies)
          (omega (
            arith,
            phase-le n2.connection.last_sent_index n2.connection.resend_time,
            d.no_less,
            r.same_acked,
            h.windows.total,
            h.windows.valid.count_le,
          ))
          (omega arith))
