-- ===== src/Sender/Process/Silent.antt =====
-- handler() reads the flag that checker() sets only when a datagram has come in: a connection whose
-- receiver is silent stays queued, and mrt_send() waits on.
use cosc_60_computer_network.Prelude.{
  ℕ, ◌+◌, ◌<◌, ◌^◌, ◌≡◌, refl, sym, ap, ◌∙◌, inl, inr, false, ◌||◌, Option, none, some, List, [],
  ◌∷◌, length, ltb, ◌==◌, Bool-cases, Whenever, faults, gives, Yields-value, arith,
}
use mathlib.Core.Path.{subst}
use cosc_60_computer_network.Prelude.Int.{ℤ, pos, negsuc, ◌+ℤ◌, ◌-ℤ◌, ltb_ℤ, leb_ℤ, wrap}
use cosc_60_computer_network.Sender.State.{Connection}
use cosc_60_computer_network.Sender.Threads.{handle_datagram}
use cosc_60_computer_network.Sender.Api.{
  SendRound, returns, goes_on, sleeps, copy_payload, buffer_more, send_round,
}
use cosc_60_computer_network.Sender.Process.{
  Ptr, Handler, off, receiving, leaving, Process, queued, Outcome, goes, use_after_free, not_queued,
  fault, connection_t_free, clean_up_popped, clean_up, leave, handled, received, by_handler,
  handler_turn, lookup, send_turn, disconnect_turn, connect, get_item_q, Action, prepares, connects,
  handles, sends, checks, calls, disconnects, act, and_then, run,
}
use cosc_60_computer_network.Sender.Process.Valid.{Listed, Runs, IsValid, update_off}
use cosc_60_computer_network.Sender.Process.Found.{get_item_q-Listed, pop_item_q-Takes}
use cosc_60_computer_network.Sender.Process.Opens.{Within, Safe}
use cosc_60_computer_network.Sender.Process.Runs.{act-Safe}
use cosc_60_computer_network.Sender.Process.Remains.{
  Remains, RemainsIf, refl-Stays, moved-Remains, if_Remains, deref-Remains, sender_turn-Remains,
  checker_turn-Remains, send_found-Remains, disconnect_found-Remains, connect_at-Remains,
  prepare-Remains,
}

module _ (p q : Ptr) (c : Connection) (next : ℕ) (s : Process) (v : IsValid next s)
    (h : Remains p c s) (e : (p == q) ≡ false) where
  handled-Remains : (b : Connection) (o : Option Connection) → RemainsIf p c (handled q b o s)
  unfolding handled
  handled-Remains b none = tt
  handled-Remains b (some b') = record {
    running = h.running;
    connection = h.connection;
    at = update_off s.connections q p (some b') e ∙ h.at;
    stays = h.stays;
  }

  received-Remains : (datagram : List ℕ) (b : Connection) → RemainsIf p c (received q datagram b s)
  unfolding received
  received-Remains datagram b =
      if_Remains p c b.should_close _ _ (moved-Remains p q c s _ _ leaving h e refl refl)
        (handled-Remains b (handle_datagram datagram b))

  clean_up-Remains :
      (id : ℤ) → Listed q (queued s) → id ≡ pos (v.numbers q) → RemainsIf p c (clean_up q id s)
  unfolding clean_up clean_up_popped connection_t_free
  clean_up-Remains id l is =
      let (o, eo, t) =
        Yields-value
          (pop_item_q-Takes s.connections v.numbers next q (queued s) v.held v.separate l) in
      rw is (
        subst (λ x. RemainsIf p c (clean_up_popped q s x)) (sym eo)
          (moved-Remains p q c s _ none off h e
            (ap (λ x. connection_t_free x s.connections) t.popped) refl))

  leave-Remains :
      (b : Connection)
      → Runs (s.handlers q)
      → s.connections q ≡ some b
      → RemainsIf p c (leave q b s)
  unfolding leave
  leave-Remains b r at =
      let held = v.held q (v.handling q r) in
      let is_b : held.connection ≡ b =
        let there : some held.connection ≡ some b = sym held.at ∙ at in cc in
      if_Remains p c (s.checkers q || s.senders q) _ _ h
        (clean_up-Remains b.id (v.handling q r) (ap (λ x. x.id) (sym is_b) ∙ held.id))

  by_handler-Remains :
      (k : Handler) (datagram : List ℕ)
      → s.handlers q ≡ k
      → RemainsIf p c (by_handler k q datagram s)
  unfolding by_handler
  by_handler-Remains off datagram here = h
  by_handler-Remains receiving datagram here =
      deref-Remains p q c s _ (λ b at. received-Remains datagram b)
  by_handler-Remains leaving datagram here =
      deref-Remains p q c s _ (λ b at. leave-Remains b (subst Runs (sym here) tt) at)

-- The handler() at `p` takes no turn: while it is in its loop, no datagram comes in for it.
abbrev pub IsQuietAt : Ptr → Action → Type 0
IsQuietAt p (handles q datagram) = (p == q) ≡ false
IsQuietAt p prepares = Unit
IsQuietAt p (connects q receiver) = Unit
IsQuietAt p (sends q) = Unit
IsQuietAt p (checks q) = Unit
IsQuietAt p (calls id final buffer copied) = Unit
IsQuietAt p (disconnects id) = Unit

abbrev pub IsSilent : Ptr → List Action → Type 0
IsSilent p [] = Unit
IsSilent p (a ∷ rest) = IsQuietAt p a × IsSilent p rest

act-Remains :
    (p : Ptr) (c : Connection) (next : ℕ) (s : Process) (a : Action)
    → IsValid next s
    → Remains p c s
    → IsQuietAt p a
    → RemainsIf p c (act a s)
unfolding act handler_turn send_turn disconnect_turn connect
act-Remains p c next s prepares v h k = prepare-Remains p c s h
act-Remains p c next s (connects q receiver) v h k =
    connect_at-Remains p c s h q receiver (s.connections q) refl
act-Remains p c next s (handles q datagram) v h k =
    by_handler-Remains p q c next s v h k (s.handlers q) datagram refl
act-Remains p c next s (sends q) v h k = sender_turn-Remains p c s h q
act-Remains p c next s (checks q) v h k = checker_turn-Remains p c s h q
act-Remains p c next s (calls id final buffer copied) v h k =
    send_found-Remains p c s h final buffer copied (lookup id s)
act-Remains p c next s (disconnects id) v h k = disconnect_found-Remains p c s h (lookup id s)

-- mrt_send() has not come to its end.
abbrev NotReturned : SendRound → Type 0
NotReturned (returns z) = ⊥
NotReturned (goes_on c k) = Unit
NotReturned sleeps = Unit

-- A call that waits for a fragment behind the last one that `c` has acknowledged finds the connection
-- and does not return.
pub data Waits (p : Ptr) (c : Connection) : Outcome → Type 0 where
  waits :
      {s : Process} (c' : Connection)
      → lookup c.id s ≡ some (some p)
      → s.connections p ≡ some c'
      → ((final : ℤ) (buffer : List ℕ) (copied : ℕ)
          → leb_ℤ final c.last_acknowledged_frag ≡ false
          → Whenever NotReturned (send_round final buffer (length buffer) copied (some c')))
      → Waits p c (goes s)
  refused : Waits p c not_queued
  faulted : Waits p c fault

copy_payload-NotReturned :
    (buffer : List ℕ) (len copied : ℕ) (i : ℤ) (c : Connection)
    → Whenever NotReturned (copy_payload buffer len copied i c)
unfolding copy_payload
copy_payload-NotReturned buffer len copied (pos i) c = gives tt
copy_payload-NotReturned buffer len copied (negsuc i) c = faults

buffer_more-NotReturned :
    (buffer : List ℕ) (len copied : ℕ) (c : Connection)
    → Whenever NotReturned (buffer_more buffer len copied c)
unfolding buffer_more
buffer_more-NotReturned buffer len copied c =
    let first_free = wrap (c.last_payload_index +ℤ pos 1) in
    elim (Bool-cases (ltb_ℤ (pos 0) (wrap (pos 10 -ℤ first_free)))) [
      | inl e ↦ rw e (copy_payload-NotReturned buffer len copied first_free c)
      | inr e ↦ rw e (gives tt)
    ]

send_round-NotReturned :
    (final : ℤ) (buffer : List ℕ) (copied : ℕ) (c : Connection)
    → leb_ℤ final c.last_acknowledged_frag ≡ false
    → Whenever NotReturned (send_round final buffer (length buffer) copied (some c))
unfolding send_round
send_round-NotReturned final buffer copied c e = elim (Bool-cases (ltb copied (length buffer))) [
  | inl more ↦ rw (e, more) (buffer_more-NotReturned buffer (length buffer) copied c)
  | inr done ↦ rw (e, done) (gives tt)
]

Remains-Waits :
    (p : Ptr) (c : Connection) (next : ℕ) (s : Process)
    → IsValid next s
    → Remains p c s
    → Waits p c (goes s)
unfolding lookup
Remains-Waits p c next s v h =
    let l = v.handling p h.running in
    let held = v.held p l in
    let is_c : held.connection ≡ h.connection =
      let there : some held.connection ≡ some h.connection = sym held.at ∙ h.at in cc in
    let id : c.id ≡ pos (v.numbers p) = sym h.stays.same_id ∙ ap (λ x. x.id) (sym is_c) ∙ held.id in
    waits h.connection
      (ap (λ z. get_item_q s.connections z (queued s)) id
        ∙ get_item_q-Listed s.connections v.numbers next p (queued s) v.held v.separate l)
      h.at
      (λ final buffer copied e.
        send_round-NotReturned final buffer copied h.connection
          (ap (leb_ℤ final) h.stays.same_last ∙ e))

then_Waits :
    (p : Ptr) (c : Connection) (size : ℕ) (rest : List Action) (o : Outcome)
    → Safe size o
    → RemainsIf p c o
    → ((s : Process) → Within size s → Remains p c s → Waits p c (run rest s))
    → Waits p c (and_then o (run rest))
then_Waits p c size rest (goes s) w h ih = ih s w h
then_Waits p c size rest use_after_free w h ih = absurd w
then_Waits p c size rest not_queued w h ih = refused
then_Waits p c size rest fault w h ih = faulted

run-Remains :
    (p : Ptr) (c : Connection) (size : ℕ) (actions : List Action) (s : Process)
    → Within size s
    → size + length actions + 1 < 2 ^ 31
    → Remains p c s
    → IsSilent p actions
    → Waits p c (run actions s)
unfolding run
run-Remains p c size [] s w small h quiet = Remains-Waits p c w.next s w.valid h
run-Remains p c size (a ∷ rest) s w small h quiet =
    let (now, later) = quiet in
    then_Waits p c (size + 1) rest (act a s) (act-Safe size a s (omega arith) w)
      (act-Remains p c w.next s a w.valid h now)
      (λ s' w' h'. run-Remains p c (size + 1) rest s' w' (omega arith) h' later)

-- From a valid state, for as many steps as an `int` has numbers: a connection whose handler() is in
-- its loop, and for which recvfrom() returns no datagram from then on, is found by its number
-- whatever the other steps are, also when checker() has set its flag, and a round of mrt_send() that
-- waits for a fragment behind the last acknowledged one does not return, unless the run ends in
-- another fault or in an mrt_connect() whose enq_q() fails.
pub run-Waits :
    (p : Ptr) (size : ℕ) (actions : List Action) (s : Process) (c : Connection)
    → Within size s
    → size + length actions + 1 < 2 ^ 31
    → s.handlers p ≡ receiving
    → s.connections p ≡ some c
    → IsSilent p actions
    → Waits p c (run actions s)
run-Waits p size actions s c w small r at quiet =
    run-Remains p c size actions s w small
      (record { running = subst Runs (sym r) tt; connection = c; at = at; stays = refl-Stays c })
      quiet
