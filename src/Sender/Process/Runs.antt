-- ===== src/Sender/Process/Runs.antt =====
-- Any steps of the process, in any order.
use cosc_60_computer_network.Prelude.{ℕ, ◌+◌, ◌<◌, ◌^◌, refl, arith, false-true}
use cosc_60_computer_network.Sender.Process.{
  Process, handler_turn, sender_turn, checker_turn, send_turn, disconnect_turn, Action, prepares,
  connects, handles, sends, checks, calls, disconnects, act, started,
}
use cosc_60_computer_network.Sender.Process.Steps.{handler_turn-Sound}
use cosc_60_computer_network.Sender.Process.Turns.{
  sender_turn-Sound, checker_turn-Sound, send_turn-Sound, disconnect_turn-Sound,
}
use cosc_60_computer_network.Sender.Process.Opens.{
  Within, Safe, Sound-Safe, prepare-Safe, connect-Safe,
}

pub act-Safe :
    (size : ℕ) (a : Action) (s : Process)
    → size + 1 < 2 ^ 31
    → Within size s
    → Safe (size + 1) (act a s)
unfolding act
act-Safe size prepares s small w = prepare-Safe w.next size s w.valid w.next_le
act-Safe size (connects p receiver) s small w =
    connect-Safe w.next size s w.valid w.next_le small p receiver
act-Safe size (handles p datagram) s small w =
    Sound-Safe (size + 1) w.next (handler_turn p datagram s) (omega (arith, w.next_le))
      (handler_turn-Sound w.next s w.valid p datagram)
act-Safe size (sends p) s small w =
    Sound-Safe (size + 1) w.next (sender_turn p s) (omega (arith, w.next_le))
      (sender_turn-Sound w.next s w.valid p)
act-Safe size (checks p) s small w =
    Sound-Safe (size + 1) w.next (checker_turn p s) (omega (arith, w.next_le))
      (checker_turn-Sound w.next s w.valid p)
act-Safe size (calls id final buffer copied) s small w =
    Sound-Safe (size + 1) w.next (send_turn id final buffer copied s) (omega (arith, w.next_le))
      (send_turn-Sound w.next s w.valid id final buffer copied)
act-Safe size (disconnects id) s small w =
    Sound-Safe (size + 1) w.next (disconnect_turn id s) (omega (arith, w.next_le))
      (disconnect_turn-Sound w.next s w.valid id)

pub started-Within : Within 0 started
started-Within = record {
  next = 0;
  next_le = omega arith;
  valid = record {
    numbers = λ p. 0;
    next_is = refl;
    held = λ p l. absurd l;
    separate = tt;
    handling = λ p r. absurd r;
    sending = λ p e. absurd (false-true e);
    checking = λ p e. absurd (false-true e);
  };
}
