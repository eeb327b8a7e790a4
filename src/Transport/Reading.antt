-- ===== src/Transport/Reading.antt =====
-- mrt_receive1() hands on the bytes of the stream that stand in the buffer.
use cosc_60_computer_network.Prelude.{
  ℕ, ◌≤◌, ◌≡◌, ap, ◌∙◌, some, List, [], ◌++◌, take, ◌==◌, ==_iff, ltb, inl, inr, Bool-cases,
  append-nil, append_assoc, Yields, yields, arith,
}
use cosc_60_computer_network.Receiver.State.{SockaddrIn, Ptr, Sender, Receiver}
use cosc_60_computer_network.Receiver.Api.{
  Receive1, bytes_to_read, take_unread, read_from, receive1_found, receive1_round,
}
use cosc_60_computer_network.Receiver.Lookup.{update_self}
use cosc_60_computer_network.Receiver.Invariant.Calls.{take_unread-IsValidSender}
use cosc_60_computer_network.Receiver.Deliver.{unread, take_unread-append}
use cosc_60_computer_network.Receiver.Deliver.Stream.{next_frag-take_unread}
use cosc_60_computer_network.Transport.{bytes_returned}
use cosc_60_computer_network.Transport.Receiving.{get_item_q-update}
use cosc_60_computer_network.Transport.Progress.{HasTaken}

-- What a read of up to `len` bytes leaves.
pub record HandsOn (submitted : List (List ℕ)) (id : SockaddrIn) (p : Ptr) (got : List ℕ)
    (m len : ℕ) (o : Receive1 × Receiver) : Type 0 where
  pub sender : Sender
  pub has : HasTaken submitted id p (got ++ bytes_returned o.0) m sender o.1
  pub emptied : 2440 ≤ len → sender.bytes_unread ≡ 0

addr-take_unread : (n : ℕ) (s : Sender) → (take_unread n s).addr ≡ s.addr
unfolding take_unread
addr-take_unread n s = ground arith

emptied_lem :
    (len : ℕ) (s : Sender)
    → 2440 ≤ len
    → s.bytes_unread ≤ 2440
    → (take_unread (bytes_to_read len s) s).bytes_unread ≡ 0
unfolding take_unread bytes_to_read
emptied_lem len s enough within = ground arith

nothing_read :
    (submitted : List (List ℕ)) (id : SockaddrIn) (p : Ptr) (got : List ℕ) (m : ℕ) (s : Sender)
    (r : Receiver)
    → HasTaken submitted id p got m s r
    → HasTaken submitted id p (got ++ []) m s r
nothing_read submitted id p got m s r h = record {
  heard = h.heard;
  few = h.few;
  next = h.next;
  bytes = ap (λ l. l ++ unread s) (append-nil got) ∙ h.bytes;
}

-- A round of mrt_receive1() ends without a fault, and what has been read goes on to be a part of the
-- stream.
pub receive1_round-HandsOn :
    (submitted : List (List ℕ)) (id : SockaddrIn) (p : Ptr) (got : List ℕ) (m len : ℕ) (s : Sender)
    (r : Receiver)
    → HasTaken submitted id p got m s r
    → Yields (HandsOn submitted id p got m len) (receive1_round id len r)
unfolding receive1_round receive1_found read_from
receive1_round-HandsOn submitted id p got m len s r h =
    rw (h.heard.found, h.heard.holds)
      (elim (Bool-cases (s.bytes_unread == 0)) [
        | inl empty ↦ elim (Bool-cases (ltb 120000 s.inactive_time)) [
          | inl late ↦
              rw (empty, late)
                (yields (record {
                  sender = s;
                  has = nothing_read submitted id p got m s r h;
                  emptied = λ _. (==_iff s.bytes_unread 0).0 empty;
                }))
          | inr fresh ↦
              rw (empty, fresh)
                (yields (record {
                  sender = s;
                  has = nothing_read submitted id p got m s r h;
                  emptied = λ _. (==_iff s.bytes_unread 0).0 empty;
                }))
        ]
        | inr full ↦
            let s' = take_unread (bytes_to_read len s) s in
            rw full (
              yields (record {
                sender = s';
                has = record {
                  heard = record {
                    found =
                        get_item_q-update r.senders id p s s' r.connected_senders_q h.heard.holds
                          (addr-take_unread (bytes_to_read len s) s)
                        ∙ h.heard.found;
                    holds = update_self r.senders p (some s');
                    valid = take_unread-IsValidSender (bytes_to_read len s) s h.heard.valid;
                    incoming_size = h.heard.incoming_size;
                    outgoing_size = h.heard.outgoing_size;
                  };
                  few = h.few;
                  next = next_frag-take_unread (bytes_to_read len s) s ∙ h.next;
                  bytes =
                      append_assoc got (take (bytes_to_read len s) s.buffer) (unread s')
                      ∙ ap (λ l. got ++ l) (take_unread-append len s h.heard.valid)
                      ∙ h.bytes;
                };
                emptied = λ enough. emptied_lem len s enough h.heard.valid.within;
              }))
      ])
