-- ===== src/Transport/Receiving.antt =====
-- main_handler() on a DATA of a connected sender: what becomes of the sender, and the ADAT.
use cosc_60_computer_network.Prelude.{
  ℕ, ◌+◌, ◌^◌, ◌<◌, ◌≡◌, refl, sym, ap, ◌∙◌, some, List, [], ◌∷◌, length, ◌==◌, inl, inr,
  Bool-cases, Yields, yields, Yields-some, length-take, arith,
}
use mathlib.Core.Path.{subst}
use cosc_60_computer_network.Prelude.Int.{ℤ, pos, ◌-ℤ◌, wrap, IsInt}
use cosc_60_computer_network.Mrt.{data_type, adat_type}
use cosc_60_computer_network.Packet.{receive}
use cosc_60_computer_network.Packet.Seal.{length-receive}
use cosc_60_computer_network.Receiver.State.{
  SockaddrIn, Ptr, Sender, SenderQueue, unset, live, freed, Receiver, Memory, update,
  sender_matcher, find_sender, get_item_q,
}
use cosc_60_computer_network.Receiver.Build.{build_adat}
use cosc_60_computer_network.Receiver.Handle.{
  Arrival, Sent, Outcome, buffer_payload, send_adat, answer_data, handle_data, dispatch, if_checked,
  handle_datagram,
}
use cosc_60_computer_network.Receiver.Transmissions.{Reads, build_adat-Reads}
use cosc_60_computer_network.Receiver.Lookup.{update_self}
use cosc_60_computer_network.Receiver.Invariant.{IsValidSender}
use cosc_60_computer_network.Receiver.Invariant.Parts.{build_adat-total}
use cosc_60_computer_network.Transport.Datagrams.{Shows, ShowsAdat, IsAdat, adat}

-- The sender with the address `id` is connected, at `p`, and is `s`.
pub record Hears (id : SockaddrIn) (p : Ptr) (s : Sender) (r : Receiver) : Type 0 where
  pub found : get_item_q r.senders id r.connected_senders_q ≡ some (some p)
  pub holds : r.senders p ≡ some s
  pub valid : IsValidSender s
  pub incoming_size : length r.incoming_buffer ≡ 509
  pub outgoing_size : length r.outgoing_buffer ≡ 21

-- Writing to a sender without changing its address changes no search.
find_sender-update :
    (m : Memory) (id : SockaddrIn) (p : Ptr) (s s' : Sender) (ps : List Ptr)
    → m p ≡ some s
    → s'.addr ≡ s.addr
    → find_sender (update m p (some s')) id ps ≡ find_sender m id ps
unfolding find_sender update sender_matcher
find_sender-update m id p s s' [] e same = refl
find_sender-update m id p s s' (q ∷ ps) e same = elim (Bool-cases (q == p)) [
  | inl here ↦
      let qp : q ≡ p = ground arith in
      let eq : m q ≡ some s = ap m qp ∙ e in
      rw (here, eq, same, find_sender-update m id p s s' ps e same)
  | inr other ↦ rw (other, find_sender-update m id p s s' ps e same)
]

pub get_item_q-update :
    (m : Memory) (id : SockaddrIn) (p : Ptr) (s s' : Sender) (q : SenderQueue)
    → m p ≡ some s
    → s'.addr ≡ s.addr
    → get_item_q (update m p (some s')) id q ≡ get_item_q m id q
unfolding get_item_q
get_item_q-update m id p s s' unset e same = refl
get_item_q-update m id p s s' (live ps) e same = find_sender-update m id p s s' ps e same
get_item_q-update m id p s s' freed e same = refl

abbrev pub AllAdats : ℕ → List Sent → Type 0
AllAdats k [] = Unit
AllAdats k (x ∷ xs) = IsAdat k x.bytes × AllAdats k xs

-- The one transmission that is sent.
abbrev pub Newest : ℕ → ℤ → List Sent → Type 0
Newest k w [] = ⊥
Newest k w (x ∷ xs) = ShowsAdat k w x.bytes

-- The outcome of a DATA that has left the sender as `s`: it is put back, and acknowledged.
abbrev pub Answered : SockaddrIn → Ptr → ℕ → ℤ → Sender → Outcome → Type 0
Answered id p k w s o =
    Hears id p (record s { inactive_time = 0 }) o.0 × AllAdats k o.1 × Newest k w o.1

send_adat-Answered :
    (id : SockaddrIn) (p : Ptr) (r : Receiver) (s s' : Sender) (w : ℤ) (k : ℕ)
    → Hears id p s r
    → IsValidSender s'
    → s'.addr ≡ s.addr
    → s'.next_frag ≡ pos (k + 1)
    → k < 2 ^ 31
    → IsInt w
    → Yields (Answered id p k w s') (send_adat id p r (s', w))
unfolding send_adat
send_adat-Answered id p r s s' w k h v same next small isint =
    let (o, e, size) =
      build_adat-total r.outgoing_buffer h.outgoing_size (wrap (s'.next_frag -ℤ pos 1)) w in
    let frag : wrap (s'.next_frag -ℤ pos 1) ≡ pos k =
      ap (λ z. wrap (z -ℤ pos 1)) next ∙ ground arith in
    let shows : (b : List ℕ) → length b ≡ 21 → Reads adat_type (pos k) w 20 b o = λ b room.
      Yields-some (
        subst (Yields (Reads adat_type (pos k) w 20 b))
          (ap (λ z. build_adat z w r.outgoing_buffer) (sym frag) ∙ e)
          (build_adat-Reads b r.outgoing_buffer (omega arith) h.outgoing_size (pos k) w
            (omega arith) isint)) in
    rw e (
      yields (
        record {
          found =
              get_item_q-update r.senders id p s (record s' { inactive_time = 0 })
                r.connected_senders_q h.holds same
              ∙ h.found;
          holds = update_self r.senders p (some (record s' { inactive_time = 0 }));
          valid = record { size = v.size; within = v.within };
          incoming_size = h.incoming_size;
          outgoing_size = size;
        },
        (
          adat k (omega arith) (length-take 20 o ∙ omega arith) (record {
            accepted = λ b room. (shows b room).accepted;
            type_read = λ b room. (shows b room).type_read;
            frag_read = λ b room. (shows b room).frag_read;
          }),
          tt,
        ),
        record {
          size = length-take 20 o ∙ omega arith;
          shows = record {
            accepted = λ b room. (shows b room).accepted;
            type_read = λ b room. (shows b room).type_read;
            frag_read = λ b room. (shows b room).frag_read;
          };
          window_read = λ b room. (shows b room).window_read;
        },
      ))

-- A DATA of the connected sender that comes in whole is buffered, or not, and answered.
pub handle_datagram-Answered :
    (a : Arrival) (p : Ptr) (r : Receiver) (s s' : Sender) (frag w : ℤ) (k : ℕ)
    → Hears a.source p s r
    → Shows 509 data_type frag a.datagram
    → buffer_payload (length a.datagram) frag (receive a.datagram r.incoming_buffer) s
      ≡ some (s', w)
    → IsValidSender s'
    → s'.addr ≡ s.addr
    → s'.next_frag ≡ pos (k + 1)
    → k < 2 ^ 31
    → IsInt w
    → Yields (Answered a.source p k w s') (handle_datagram a r)
unfolding handle_datagram if_checked dispatch handle_data answer_data
handle_datagram-Answered a p r s s' frag w k h shows buffered v same next small isint =
    let b = receive a.datagram r.incoming_buffer in
    rw
      (
        shows.accepted r.incoming_buffer h.incoming_size,
        shows.type_read r.incoming_buffer h.incoming_size,
        shows.frag_read r.incoming_buffer h.incoming_size,
        h.found,
        h.holds,
        buffered,
      )
      (send_adat-Answered a.source p (record r { incoming_buffer = b }) s s' w k
        (record {
          found = h.found;
          holds = h.holds;
          valid = h.valid;
          incoming_size = length-receive a.datagram r.incoming_buffer ∙ h.incoming_size;
          outgoing_size = h.outgoing_size;
        })
        v same next small isint)
