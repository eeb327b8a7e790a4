-- ===== src/Sender/Process/Turns.antt =====
-- The turns of sender() and checker(), and a round of mrt_send() with no other step in it.
use cosc_60_computer_network.Prelude.{
  ℕ, ◌≡◌, sym, inl, inr, Bool, true, false, not, Option, none, some, List, length, Bool-cases,
  Whenever, faults, gives, Yields-value, if◌then◌else◌,
}
use mathlib.Core.Path.{subst}
use cosc_60_computer_network.Prelude.Int.{ℤ}
use cosc_60_computer_network.Sender.State.{Connection}
use cosc_60_computer_network.Sender.Threads.{Sent, sender_round, checker_round}
use cosc_60_computer_network.Sender.Api.{
  SendRound, returns, goes_on, sleeps, send_round, DisconnectRound, closes, dropped, waits,
  disconnect_round,
}
use cosc_60_computer_network.Sender.Process.{
  Ptr, update, Process, queued, goes, deref, sent_one, sender_turn, checker_turn, lookup,
  copied_more, send_with, send_found, send_turn, closed_or_not, disconnect_found, disconnect_turn,
}
use cosc_60_computer_network.Sender.Process.Keeps.{
  Stays, sender_round-Stays, checker_round-Stays, GoesOn, send_round-Stays, Closes,
  disconnect_round-Stays,
}
use cosc_60_computer_network.Sender.Process.Valid.{
  Runs, IsValid, Sound, Held-update, rewritten-IsValid,
}
use cosc_60_computer_network.Sender.Process.Found.{FoundIn, get_item_q-FoundIn}
use cosc_60_computer_network.Sender.Process.Flags.{flag_kept}
use cosc_60_computer_network.Sender.Process.Steps.{if_Sound, put-Sound, deref-Sound, deref-Listed}

module _ (next : ℕ) (s : Process) (v : IsValid next s) where
  sent_one-Sound :
      (p : Ptr) (c : Connection) (o : Option (Connection × Sent))
      → s.connections p ≡ some c
      → Whenever (λ r. Stays c r.0) o
      → Sound next (sent_one p o s)
  unfolding sent_one
  sent_one-Sound p c _ at faults = tt
  sent_one-Sound p c _ at (gives {a = (c', d)} k) = put-Sound next s v p c c' at k.same_id

  -- A flag is written for a thread that runs.
  flags-IsValid :
      (p : Ptr) (b : Bool)
      → s.senders p ≡ true
      → IsValid next (record s { senders = update s.senders p b })
  flags-IsValid p b e =
      rewritten-IsValid next s s.connections s.handlers (update s.senders p b) s.checkers v
        (λ q h. h) (λ q r. r) (flag_kept s.senders p b (λ q. Runs (s.handlers q)) v.sending e)
        v.checking

  sender_running :
      (p : Ptr)
      → s.senders p ≡ true
      → Sound next (
          deref p s (λ c.
            if c.should_close
            then goes (record s { senders = update s.senders p false })
            else sent_one p (sender_round c) s))
  sender_running p e = deref-Sound next s v p _ (v.sending p e) (λ c at.
      if_Sound next c.should_close _ _ (flags-IsValid p false e)
        (sent_one-Sound p c (sender_round c) at (sender_round-Stays c)))

  pub sender_turn-Sound : (p : Ptr) → Sound next (sender_turn p s)
  unfolding sender_turn
  sender_turn-Sound p = elim (Bool-cases (s.senders p)) [
    | inl e ↦ rw e (sender_running p e)
    | inr e ↦ rw e v
  ]

  checked-IsValid :
      (p : Ptr) (c : Connection)
      → s.checkers p ≡ true
      → s.connections p ≡ some c
      → IsValid next (record s {
        connections = update s.connections p (some (checker_round c));
        checkers = update s.checkers p (not (checker_round c).should_close);
      })
  checked-IsValid p c e at =
      rewritten-IsValid next s (update s.connections p (some (checker_round c))) s.handlers
        s.senders (update s.checkers p (not (checker_round c).should_close)) v
        (λ q h.
          Held-update s.connections p q c (checker_round c) (v.numbers q) next at
            (checker_round-Stays c).same_id h)
        (λ q r. r) v.sending
        (flag_kept s.checkers p (not (checker_round c).should_close) (λ q. Runs (s.handlers q))
          v.checking e)

  pub checker_turn-Sound : (p : Ptr) → Sound next (checker_turn p s)
  unfolding checker_turn
  checker_turn-Sound p = elim (Bool-cases (s.checkers p)) [
    | inl e ↦ rw e (deref-Sound next s v p _ (v.checking p e) (λ c at. checked-IsValid p c e at))
    | inr e ↦ rw e v
  ]

  copied_more-Sound :
      (p : Ptr) (c : Connection) (o : Option SendRound)
      → s.connections p ≡ some c
      → Whenever (GoesOn c) o
      → Sound next (copied_more p o s)
  unfolding copied_more
  copied_more-Sound p c _ at faults = tt
  copied_more-Sound p c _ at (gives {a = goes_on c' k} g) = put-Sound next s v p c c' at g.same_id
  copied_more-Sound p c _ at (gives {a = returns z} g) = v
  copied_more-Sound p c _ at (gives {a = sleeps} g) = v

  send_found-Sound :
      (final : ℤ) (buffer : List ℕ) (copied : ℕ) (o : Option Ptr)
      → FoundIn (queued s) o
      → Sound next (send_found final buffer copied s (some o))
  unfolding send_found send_with
  send_found-Sound final buffer copied none f = v
  send_found-Sound final buffer copied (some p) f = deref-Listed next s v p _ f (λ c at.
      copied_more-Sound p c (send_round final buffer (length buffer) copied (some c)) at
        (send_round-Stays final buffer (length buffer) copied c))

  pub send_turn-Sound :
      (id final : ℤ) (buffer : List ℕ) (copied : ℕ)
      → Sound next (send_turn id final buffer copied s)
  unfolding send_turn lookup
  send_turn-Sound id final buffer copied =
      let (o, e, f) =
        Yields-value (get_item_q-FoundIn s.connections v.numbers next id (queued s) v.held) in
      subst (λ x. Sound next (send_found final buffer copied s x)) (sym e)
        (send_found-Sound final buffer copied o f)

  closed_or_not-Sound :
      (p : Ptr) (c : Connection) (o : Option DisconnectRound)
      → s.connections p ≡ some c
      → Whenever (Closes c) o
      → Sound next (closed_or_not p o s)
  unfolding closed_or_not
  closed_or_not-Sound p c _ at faults = tt
  closed_or_not-Sound p c _ at (gives {a = closes c' sent} g) =
      put-Sound next s v p c c' at g.same_id
  closed_or_not-Sound p c _ at (gives {a = dropped} g) = v
  closed_or_not-Sound p c _ at (gives {a = waits} g) = v

  disconnect_found-Sound :
      (o : Option Ptr) → FoundIn (queued s) o → Sound next (disconnect_found s (some o))
  unfolding disconnect_found
  disconnect_found-Sound none f = v
  disconnect_found-Sound (some p) f =
      deref-Listed next s v p _ f
        (λ c at. closed_or_not-Sound p c (disconnect_round (some c)) at (disconnect_round-Stays c))

  pub disconnect_turn-Sound : (id : ℤ) → Sound next (disconnect_turn id s)
  unfolding disconnect_turn lookup
  disconnect_turn-Sound id =
      let (o, e, f) =
        Yields-value (get_item_q-FoundIn s.connections v.numbers next id (queued s) v.held) in
      subst (λ x. Sound next (disconnect_found s x)) (sym e) (disconnect_found-Sound o f)
