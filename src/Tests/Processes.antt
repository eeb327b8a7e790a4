-- ===== src/Tests/Processes.antt =====
-- A process with one connection: its threads, its calls, and the end of its handler().
use cosc_60_computer_network.Prelude.{
  ℕ, ◌≡◌, refl, sym, inl, inr, Bool, true, false, none, some, List, [], ◌∷◌, ◌==◌, if◌then◌else◌,
  Bool-cases, arith, false-true,
}
use mathlib.Core.Path.{subst}
use cosc_60_computer_network.Prelude.Int.{ℤ, pos}
use cosc_60_computer_network.Sender.State.{Connection, connection_t_init}
use cosc_60_computer_network.Sender.Process.{
  Handler, off, receiving, leaving, Process, goes, use_after_free, Action, prepares, connects,
  handles, sends, checks, calls, disconnects, handler_turn, lookup, send_with, run,
}
use cosc_60_computer_network.Sender.Process.Valid.{Listed, Runs, Held, IsValid}
use cosc_60_computer_network.Sender.Process.Races.{lookup-handler_turn}
use cosc_60_computer_network.Sender.Process.Silent.{Waits, run-Waits}

-- Two connections are opened, a short datagram comes in for the first, its threads get their turns,
-- and one call sends two bytes
-- and another one waits to close the second connection.
abbrev two_opened : List Action
two_opened =
    prepares
    ∷ connects 1 9
    ∷ connects 2 9
    ∷ handles 1 (3 ∷ [])
    ∷ sends 1
    ∷ checks 2
    ∷ calls (pos 0) (pos 1) (5 ∷ 6 ∷ []) 0
    ∷ disconnects (pos 1)
    ∷ []

-- The connection 0 at the address 1.
abbrev only : Connection
only = connection_t_init (pos 0) 9

abbrev one : Handler → Bool → Process
one h b = record {
  connections = λ p. if p == 1 then some only else none;
  connections_q = some (1 ∷ []);
  next_id = pos 1;
  handlers = λ p. if p == 1 then h else off;
  senders = λ p. if p == 1 then b else false;
  checkers = λ p. if p == 1 then b else false;
}

at_one : (p : ℕ) → p ≡ 1 → (p == 1) ≡ true
at_one p e = ground arith

running_one : (h : Handler) (p : ℕ) → Runs (if p == 1 then h else off) → Listed p (1 ∷ [])
running_one h p r = elim (Bool-cases (p == 1)) [
  | inl e ↦ inl (ground arith)
  | inr e ↦ absurd (subst (λ b. Runs (if b then h else off)) e r)
]

flag_one :
    (h : Handler) (b : Bool) (p : ℕ)
    → Runs h
    → (if p == 1 then b else false) ≡ true
    → Runs (if p == 1 then h else off)
flag_one h b p r f = elim (Bool-cases (p == 1)) [
  | inl e ↦ subst (λ x. Runs (if x then h else off)) (sym e) r
  | inr e ↦ absurd (false-true (subst (λ x. (if x then b else false) ≡ true) e f))
]

held_one : (h : Handler) (b : Bool) (p : ℕ) → Listed p (1 ∷ []) → Held (one h b).connections 0 1 p
unfolding connection_t_init
held_one h b p (inl e) = record {
  connection = only;
  at = rw (at_one p e) refl;
  id = refl;
  below = omega arith;
}
held_one h b p (inr l) = absurd l

one-IsValid : (h : Handler) (b : Bool) → Runs h → IsValid 1 (one h b)
one-IsValid h b r = record {
  numbers = λ p. 0;
  next_is = refl;
  held = λ p l. held_one h b p l;
  separate = (λ p l e. l, tt);
  handling = λ p k. running_one h p k;
  sending = λ p e. flag_one h b p r e;
  checking = λ p e. flag_one h b p r e;
}

lookup-handler_turn_example :
    (c : Connection) × (s' : Process) × ((one leaving false).connections 1 ≡ some c)
    × (lookup c.id (one leaving false) ≡ some (some 1))
    × (handler_turn 1 [] (one leaving false) ≡ goes s')
    × ((final : ℤ) (buffer : List ℕ) (copied : ℕ)
        → send_with final buffer copied 1 s' ≡ use_after_free)
lookup-handler_turn_example =
    lookup-handler_turn 1 (one leaving false) 1 [] (one-IsValid leaving false tt) refl refl refl

-- checker() gets so many turns that it sets its flag.
abbrev silence : List Action
silence = checks 1 ∷ sends 1 ∷ checks 1 ∷ checks 1 ∷ checks 1 ∷ sends 1 ∷ []

run-Waits_example : Waits 1 only (run silence (one receiving true))
run-Waits_example =
    run-Waits 1 1 silence (one receiving true) only
      (record { next = 1; next_le = omega arith; valid = one-IsValid receiving true tt })
      (omega arith) refl refl (tt, (tt, (tt, (tt, (tt, (tt, tt))))))
