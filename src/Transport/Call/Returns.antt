-- ===== src/Transport/Call/Returns.antt =====
-- mrt_send() returns when all of its bytes have been acknowledged: the receiver has them all.
use cosc_60_computer_network.Prelude.{
  ℕ, Bool, true, false, false-true, refl, some, ◌≡◌, ◌+◌, ◌^◌, ◌≤◌, ◌<◌, sym, List, [], ◌∷◌, length,
  Yields, yields, Yields->>=, Yields-weaken, arith,
}
use mathlib.Core.Path.{subst}
use cosc_60_computer_network.Prelude.Int.{ℤ, pos, sub_ℕ, ◌+ℤ◌, wrap}
use cosc_60_computer_network.Sender.Api.{num_fragments, final_frag, send_round}
use cosc_60_computer_network.Receiver.State.{SockaddrIn, Ptr, Sender}
use cosc_60_computer_network.Transport.{Net, Action, run}
use cosc_60_computer_network.Transport.InStep.{InStep}
use cosc_60_computer_network.Transport.Run.{run-size}
use cosc_60_computer_network.Transport.Delivery.{IsOpened, IsOpened-InStep}
use cosc_60_computer_network.Transport.Call.{
  Turn, round, event, returned, call_round, loop, mrt_send,
}
use cosc_60_computer_network.Transport.Call.Events.{IsClosing, happen-Happens}
use cosc_60_computer_network.Transport.Call.Rounds.{
  SendsAll, runs, was_dropped, call_round-Goes, after_round,
}
use cosc_60_computer_network.Transport.Call.Copies.{Copies, Copies-start}

-- The number of the call's last fragment.
sum_lem :
    (a c l f : ℕ)
    → a + c ≡ l
    → c ≤ 10
    → l + f + 1 < 2 ^ 31
    → wrap (wrap (wrap (sub_ℕ c 1 +ℤ pos a) +ℤ pos 1) +ℤ pos f) ≡ pos (l + f)
sum_lem a c l f e h small = ground arith

pub final_lem :
    (id : SockaddrIn) (p : Ptr) (size : ℕ) (n : Net)
    → InStep id p size n
    → (len : ℕ) → length n.submitted + num_fragments len + 1 < 2 ^ 31
    → final_frag n.connection len ≡ pos (length n.submitted + num_fragments len)
unfolding final_frag
final_lem id p size n h len small =
    let v = h.windows.valid in
    rw (v.last_payload, h.windows.last)
      (sum_lem h.acked v.count (length n.submitted) (num_fragments len) h.windows.total v.count_le
        small)

module _ (id : SockaddrIn) (p : Ptr) (before : List (List ℕ)) (bytes : List ℕ) (final : ℤ)
    (is_final : final ≡ pos (length before + num_fragments (length bytes))) where
  -- A round behind the end of handler().
  dropped_round :
      (copied : ℕ) (n : Net) → call_round final bytes copied false n ≡ some (returned (pos 0) n)
  unfolding call_round send_round
  dropped_round copied n = refl

  loop-SendsAll :
      (size : ℕ) (turns : List Turn) (copied : ℕ) (queued : Bool) (n : Net)
      → size + length turns + 1 < 2 ^ 31
      → InStep id p size n
      → IsClosing queued n
      → Copies before bytes copied n.submitted
      → Yields (SendsAll p before bytes) (loop id final bytes turns copied queued n)
  unfolding loop
  loop-SendsAll size [] copied queued n small h g c = yields (runs c)
  loop-SendsAll size (event e ∷ rest) copied queued n small h g c =
      Yields->>= (happen-Happens id p size n (omega arith) h queued g e) (λ (q', n') (h', same, g').
        loop-SendsAll (size + 1) rest copied q' n' (omega arith) h' g'
          (subst (Copies before bytes copied) (sym same) c))
  loop-SendsAll size (round ∷ rest) copied false n small h g c =
      rw (dropped_round copied n) (yields (was_dropped (g refl)))
  loop-SendsAll size (round ∷ rest) copied true n small h g c =
      Yields->>= (call_round-Goes id p before bytes final is_final size copied n h c) (λ o k.
        after_round id p before bytes final is_final size copied n h c
          (λ copied' n'. loop id final bytes rest copied' true n') o k (λ n' s. s)
          (λ copied' n' r.
            loop-SendsAll (size + 1) rest copied' true n' (omega arith) r.inv
              (λ f. absurd (false-true (sym f))) r.copies))

-- From an opened connection, and after any rounds of sender(), mrt_send() and mrt_receive1() and any
-- datagrams that come in: a call of mrt_send() finds the connection in the queue, and between its
-- rounds, of which each is one step from its lookup on, stand any rounds of sender(), of the sender's
-- checker() and of mrt_receive1(), any datagrams that come in at either side, and the end of handler()
-- once it finds the flag set. Let the steps and the payloads of the call be fewer than 2^31 - 1 in all. Nothing faults. While the call runs, the
-- stream ends in the bytes that it has copied. If it returns 1, the user of the receiver has then
-- read, or finds unread, each byte of the payloads before the call and then each byte of the call,
-- once and in order; if it returns 0, checker() has set the flag; it returns nothing else.
pub mrt_send-SendsAll :
    (id : SockaddrIn) (p : Ptr) (s : Sender) (actions : List Action) (bytes : List ℕ)
    (turns : List Turn) (n : Net)
    → IsOpened id p s n
    → length actions + num_fragments (length bytes) + length turns + 1 < 2 ^ 31
    → Yields
        (λ n'. Yields (SendsAll p n'.submitted bytes) (mrt_send id bytes turns true n'))
        (run id actions n)
unfolding mrt_send
mrt_send-SendsAll id p s actions bytes turns n o small =
    Yields-weaken (run-size id p 0 actions n (omega arith) (IsOpened-InStep id p s n o)) (λ n' h.
      loop-SendsAll id p n'.submitted bytes (final_frag n'.connection (length bytes))
        (final_lem id p _ n' h (length bytes) (omega (arith, h.size_le))) (0 + length actions) turns
        0 true n' (omega arith) h (λ f. absurd (false-true (sym f)))
        (Copies-start n'.submitted bytes))
