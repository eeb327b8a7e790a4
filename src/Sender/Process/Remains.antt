-- ===== src/Sender/Process/Remains.antt =====
-- What no step but one of its own handler() changes of a connection.
use cosc_60_computer_network.Prelude.{
  ℕ, ◌≡◌, refl, sym, ap, ◌∙◌, inl, inr, Bool, true, false, Option, none, some, List, length, ◌==◌,
  Bool-cases, if◌then◌else◌, Whenever, faults, gives, arith,
}
use mathlib.Core.Path.{subst}
use cosc_60_computer_network.Prelude.Int.{ℤ}
use cosc_60_computer_network.Sender.State.{Connection}
use cosc_60_computer_network.Sender.Threads.{Sent, sender_round, checker_round}
use cosc_60_computer_network.Sender.Api.{
  SendRound, returns, goes_on, sleeps, send_round, DisconnectRound, closes, dropped, waits,
  disconnect_round,
}
use cosc_60_computer_network.Sender.Process.{
  Ptr, update, Handler, receiving, Process, Outcome, goes, use_after_free, not_queued, fault, deref,
  deref_at, sent_one, sender_turn, checker_turn, copied_more, send_with, send_found, closed_or_not,
  disconnect_found, connect_at, prepare, enqueue,
}
use cosc_60_computer_network.Sender.Process.Keeps.{
  Stays, sender_round-Stays, checker_round-Stays, GoesOn, send_round-Stays, Closes,
  disconnect_round-Stays,
}
use cosc_60_computer_network.Sender.Process.Valid.{Runs, update_at, update_off}
use cosc_60_computer_network.Sender.Process.Flags.{ne_lem}

-- The connection `c` at `p` has its number and its last acknowledged fragment still, and its
-- handler() has not come to its end.
pub record Remains (p : Ptr) (c : Connection) (s : Process) : Type 0 where
  pub running : Runs (s.handlers p)
  pub connection : Connection
  pub at : s.connections p ≡ some connection
  pub stays : Stays c connection

abbrev pub RemainsIf : Ptr → Connection → Outcome → Type 0
RemainsIf p c (goes s) = Remains p c s
RemainsIf p c use_after_free = Unit
RemainsIf p c not_queued = Unit
RemainsIf p c fault = Unit

Stays-trans : {a b c : Connection} → Stays a b → Stays b c → Stays a c
Stays-trans h k = record { same_id = k.same_id ∙ h.same_id; same_last = k.same_last ∙ h.same_last }

-- A connection is written, and the handlers stay.
put-Remains :
    (p q : Ptr) (c b b' : Connection) (s : Process) (senders checkers : Ptr → Bool)
    → Remains p c s
    → s.connections q ≡ some b
    → Stays b b'
    → Remains p c (record s {
      connections = update s.connections q (some b');
      senders = senders;
      checkers = checkers;
    })
put-Remains p q c b b' s senders checkers h at k = elim (Bool-cases (p == q)) [
  | inl e ↦
      let pq : p ≡ q = ground arith in
      let there : some h.connection ≡ some b = sym h.at ∙ ap s.connections pq ∙ at in
      let is_b : h.connection ≡ b = cc in
      record {
        running = h.running;
        connection = b';
        at = ap (update s.connections q (some b')) pq ∙ update_at s.connections q (some b');
        stays = Stays-trans (subst (Stays c) is_b h.stays) k;
      }
  | inr e ↦ record {
    running = h.running;
    connection = h.connection;
    at = update_off s.connections q p (some b') e ∙ h.at;
    stays = h.stays;
  }
]

-- A step of another connection's handler().
pub moved-Remains :
    (p q : Ptr) (c : Connection) (s s' : Process) (o : Option Connection) (to : Handler)
    → Remains p c s
    → (p == q) ≡ false
    → s'.connections ≡ update s.connections q o
    → s'.handlers ≡ update s.handlers q to
    → Remains p c s'
moved-Remains p q c s s' o to h e m hs = record {
  running = subst Runs (sym (ap (λ f. f p) hs ∙ update_off s.handlers q p to e)) h.running;
  connection = h.connection;
  at = ap (λ f. f p) m ∙ update_off s.connections q p o e ∙ h.at;
  stays = h.stays;
}

pub refl-Stays : (c : Connection) → Stays c c
refl-Stays c = record { same_id = refl; same_last = refl }

pub if_Remains :
    (p : Ptr) (c : Connection) (b : Bool) (x y : Outcome)
    → RemainsIf p c x
    → RemainsIf p c y
    → RemainsIf p c (if b then x else y)
if_Remains p c true x y h k = h
if_Remains p c false x y h k = k

pub deref-Remains :
    (p q : Ptr) (c : Connection) (s : Process) (k : Connection → Outcome)
    → ((b : Connection) → s.connections q ≡ some b → RemainsIf p c (k b))
    → RemainsIf p c (deref q s k)
deref-Remains p q c s k ih = at_cases (s.connections q) refl
  where
    at_cases : (o : Option Connection) → s.connections q ≡ o → RemainsIf p c (deref_at o k)
    at_cases none e = tt
    at_cases (some b) e = ih b e

module _ (p : Ptr) (c : Connection) (s : Process) (h : Remains p c s) where
  sent_one-Remains :
      (q : Ptr) (b : Connection) (o : Option (Connection × Sent))
      → s.connections q ≡ some b
      → Whenever (λ r. Stays b r.0) o
      → RemainsIf p c (sent_one q o s)
  unfolding sent_one
  sent_one-Remains q b _ at faults = tt
  sent_one-Remains q b _ at (gives {a = (b', d)} k) =
      put-Remains p q c b b' s s.senders s.checkers h at k

  pub sender_turn-Remains : (q : Ptr) → RemainsIf p c (sender_turn q s)
  unfolding sender_turn
  sender_turn-Remains q =
      if_Remains p c (s.senders q) _ _
        (deref-Remains p q c s _ (λ b at.
          if_Remains p c b.should_close _ _
            (record { running = h.running; connection = h.connection; at = h.at; stays = h.stays })
            (sent_one-Remains q b (sender_round b) at (sender_round-Stays b))))
        h

  pub checker_turn-Remains : (q : Ptr) → RemainsIf p c (checker_turn q s)
  unfolding checker_turn
  checker_turn-Remains q =
      if_Remains p c (s.checkers q) _ _
        (deref-Remains p q c s _ (λ b at.
          put-Remains p q c b (checker_round b) s s.senders _ h at (checker_round-Stays b)))
        h

  copied_more-Remains :
      (q : Ptr) (b : Connection) (o : Option SendRound)
      → s.connections q ≡ some b
      → Whenever (GoesOn b) o
      → RemainsIf p c (copied_more q o s)
  unfolding copied_more
  copied_more-Remains q b _ at faults = tt
  copied_more-Remains q b _ at (gives {a = goes_on b' k} g) =
      put-Remains p q c b b' s s.senders s.checkers h at g
  copied_more-Remains q b _ at (gives {a = returns z} g) = h
  copied_more-Remains q b _ at (gives {a = sleeps} g) = h

  pub send_found-Remains :
      (final : ℤ) (buffer : List ℕ) (copied : ℕ) (o : Option (Option Ptr))
      → RemainsIf p c (send_found final buffer copied s o)
  unfolding send_found send_with
  send_found-Remains final buffer copied none = tt
  send_found-Remains final buffer copied (some none) = h
  send_found-Remains final buffer copied (some (some q)) = deref-Remains p q c s _ (λ b at.
      copied_more-Remains q b (send_round final buffer (length buffer) copied (some b)) at
        (send_round-Stays final buffer (length buffer) copied b))

  closed_or_not-Remains :
      (q : Ptr) (b : Connection) (o : Option DisconnectRound)
      → s.connections q ≡ some b
      → Whenever (Closes b) o
      → RemainsIf p c (closed_or_not q o s)
  unfolding closed_or_not
  closed_or_not-Remains q b _ at faults = tt
  closed_or_not-Remains q b _ at (gives {a = closes b' sent} g) =
      put-Remains p q c b b' s s.senders s.checkers h at g
  closed_or_not-Remains q b _ at (gives {a = dropped} g) = h
  closed_or_not-Remains q b _ at (gives {a = waits} g) = h

  pub disconnect_found-Remains : (o : Option (Option Ptr)) → RemainsIf p c (disconnect_found s o)
  unfolding disconnect_found
  disconnect_found-Remains none = tt
  disconnect_found-Remains (some none) = h
  disconnect_found-Remains (some (some q)) =
      deref-Remains p q c s _ (λ b at.
        closed_or_not-Remains q b (disconnect_round (some b)) at (disconnect_round-Stays b))

  enqueue-Remains :
      (q : Ptr) (receiver : ℕ)
      → (p == q) ≡ false
      → (o : Option (List Ptr)) → RemainsIf p c (enqueue q receiver s o)
  unfolding enqueue
  enqueue-Remains q receiver other none = tt
  enqueue-Remains q receiver other (some ps) = moved-Remains p q c s _ _ receiving h other refl refl

  pub prepare-Remains : RemainsIf p c (prepare s)
  unfolding prepare
  prepare-Remains = record {
    running = h.running;
    connection = h.connection;
    at = h.at;
    stays = h.stays;
  }

  pub connect_at-Remains :
      (q : Ptr) (receiver : ℕ) (o : Option Connection)
      → s.connections q ≡ o
      → RemainsIf p c (connect_at q receiver s o)
  unfolding connect_at
  connect_at-Remains q receiver (some b) e = h
  connect_at-Remains q receiver none e =
      let clash : p ≡ q → ⊥ =
        λ pq. let there : some h.connection ≡ none = sym h.at ∙ ap s.connections pq ∙ e in cc in
      enqueue-Remains q receiver (ne_lem p q clash) s.connections_q
