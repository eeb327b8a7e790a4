-- ===== src/Sender/Process/Races.antt =====
-- mrt_send() keeps the pointer that it found when it unlocks q_lock.
use cosc_60_computer_network.Prelude.{
  ℕ, ◌≡◌, refl, sym, ap, ◌∙◌, false, some, none, List, Yields-value,
}
use mathlib.Core.Path.{subst}
use cosc_60_computer_network.Prelude.Int.{ℤ}
use cosc_60_computer_network.Sender.State.{Connection}
use cosc_60_computer_network.Sender.Process.{
  Ptr, update, leaving, off, Process, queued, goes, use_after_free, connection_t_free,
  delete_if_empty, clean_up_popped, clean_up, leave, by_handler, handler_turn, get_item_q, lookup,
  send_with,
}
use cosc_60_computer_network.Sender.Process.Valid.{Runs, IsValid, update_at}
use cosc_60_computer_network.Sender.Process.Found.{get_item_q-Listed, pop_item_q-Takes}

-- A call of mrt_send() finds a connection; the connection's handler() comes to its end, as it may as
-- soon as the other two threads have ended; and the call, which goes on with the pointer, reads the
-- freed connection, whatever it sends.
pub lookup-handler_turn :
    (next : ℕ) (s : Process) (p : Ptr) (datagram : List ℕ)
    → IsValid next s
    → s.handlers p ≡ leaving
    → s.senders p ≡ false
    → s.checkers p ≡ false
    → (c : Connection) × (s' : Process) × (s.connections p ≡ some c)
      × (lookup c.id s ≡ some (some p))
      × (handler_turn p datagram s ≡ goes s')
      × ((final : ℤ) (buffer : List ℕ) (copied : ℕ)
          → send_with final buffer copied p s' ≡ use_after_free)
unfolding lookup handler_turn by_handler leave clean_up clean_up_popped connection_t_free send_with
lookup-handler_turn next s p datagram v h send check =
    let l = v.handling p (subst Runs (sym h) tt) in
    let held = v.held p l in
    let (o, e, t) =
      Yields-value
        (pop_item_q-Takes s.connections v.numbers next p (queued s) v.held v.separate l) in
    let found = get_item_q-Listed s.connections v.numbers next p (queued s) v.held v.separate l in
    let s' : Process = record s {
      connections = connection_t_free o.0 s.connections;
      connections_q = delete_if_empty o.1;
      handlers = update s.handlers p off;
    } in
    let freed : s'.connections p ≡ none =
      ap (λ x. connection_t_free x s.connections p) t.popped ∙ update_at s.connections p none in
    (
      held.connection,
      s',
      held.at,
      ap (λ z. get_item_q s.connections z (queued s)) held.id ∙ found,
      rw (h, held.at, check, send, held.id, e) refl,
      λ final buffer copied. rw freed refl,
    )
