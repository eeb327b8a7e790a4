-- ===== src/Transport/Delivery.antt =====
-- From the opened connection on: the reliable byte stream that the library promises.
use cosc_60_computer_network.Prelude.{
  ℕ, zero, suc, ◌+◌, ◌^◌, ◌≤◌, ◌<◌, ◌≡◌, refl, sym, ap, ◌∙◌, some, List, [], ◌++◌, length, take,
  replicate, length-replicate, inl, Yields, Yields-weaken, arith,
}
use cosc_60_computer_network.Prelude.Int.{ℤ, pos}
use cosc_60_computer_network.Sender.State.{Connection, connection_t_init}
use cosc_60_computer_network.Sender.Threads.{handle_acon}
use cosc_60_computer_network.Sender.Invariant.{IsValid, AllShort}
use cosc_60_computer_network.Sender.Window.{window}
use cosc_60_computer_network.Receiver.State.{SockaddrIn, Ptr, Sender}
use cosc_60_computer_network.Receiver.Deliver.{unread}
use cosc_60_computer_network.Transport.{Net, Action, run}
use cosc_60_computer_network.Transport.Receiving.{Hears}
use cosc_60_computer_network.Transport.Progress.{joined}
use cosc_60_computer_network.Transport.InStep.{InStep}
use cosc_60_computer_network.Transport.Run.{run-size}

-- What connection_t_init() and the first ACON leave is a connection that nothing is buffered in.
pub record IsFresh (c : Connection) : Type 0 where
  pub valid : IsValid c
  pub none_buffered : valid.count ≡ 0
  pub none_acknowledged : c.last_acknowledged_frag ≡ pos 0

AllShort-replicate : (n : ℕ) → AllShort (replicate n 0)
AllShort-replicate zero = tt
AllShort-replicate (suc n) = (omega arith, AllShort-replicate n)

pub handle_acon-connection_t_init :
    (next_id : ℤ) (receiver : ℕ) → IsFresh (handle_acon (connection_t_init next_id receiver))
unfolding handle_acon connection_t_init
handle_acon-connection_t_init next_id receiver = record {
  valid = record {
    count = 0;
    sent = 0;
    last_payload = refl;
    last_sent = refl;
    count_le = omega arith;
    sent_le = omega arith;
    buffer_size = length-replicate {A = ℕ} 4880 0;
    lengths_size = refl;
    lengths_short = AllShort-replicate 10;
    incoming_size = refl;
    incoming_nul = inl refl;
    outgoing_size = length-replicate {A = ℕ} 509 0;
  };
  none_buffered = refl;
  none_acknowledged = refl;
}

-- A connection that both sides have opened and that nothing has been done with. At the receiver it
-- stands at `p`, and expects the fragment 1.
pub record IsOpened (id : SockaddrIn) (p : Ptr) (s : Sender) (n : Net) : Type 0 where
  pub fresh : IsFresh n.connection
  pub heard : Hears id p s n.receiver
  pub expects : s.next_frag ≡ pos 1
  pub none_unread : s.bytes_unread ≡ 0
  pub none_to_receiver : n.to_receiver ≡ []
  pub none_to_sender : n.to_sender ≡ []
  pub none_submitted : n.submitted ≡ []
  pub none_delivered : n.delivered ≡ []

-- The user has read, or finds unread, the bytes of the first `taken_in` payloads that mrt_send() has
-- buffered, and the sender takes no more than these for acknowledged.
pub record DeliversStream (p : Ptr) (n : Net) : Type 0 where
  pub taken_in : ℕ
  pub acked : ℕ
  pub sender : Sender
  pub held : n.receiver.senders p ≡ some sender
  pub bytes : n.delivered ++ unread sender ≡ joined (take taken_in n.submitted)
  pub taken_in_le : taken_in ≤ length n.submitted
  pub last_acked : n.connection.last_acknowledged_frag ≡ pos acked
  pub acked_le : acked ≤ taken_in

pub IsOpened-InStep :
    (id : SockaddrIn) (p : Ptr) (s : Sender) (n : Net) → IsOpened id p s n → InStep id p 0 n
IsOpened-InStep id p s n o = record {
  acked = 0;
  taken_in = 0;
  sender = s;
  windows = record {
    valid = o.fresh.valid;
    last = o.fresh.none_acknowledged;
    rest = ap (window n.connection) o.fresh.none_buffered ∙ sym o.none_submitted;
    total = omega (arith, o.fresh.none_buffered, ap length o.none_submitted);
  };
  has = record {
    heard = o.heard;
    few = omega arith;
    next = o.expects;
    bytes = rw (o.none_delivered, o.none_unread) refl;
  };
  data_sent = rw o.none_to_receiver tt;
  adats_sent = rw o.none_to_sender tt;
  acked_le = omega arith;
  size_le = omega (arith, ap length o.none_submitted);
}

-- From an opened connection, whatever the rounds of sender(), mrt_send() and mrt_receive1() and
-- whichever datagrams come in (late, again and again, in any order, or never), for as many steps as
-- an `int` has numbers: nothing faults, what the user has read and what is unread are the payloads
-- that mrt_send() buffered up to some place, each once and in order, and only such payloads are
-- acknowledged.
pub run-DeliversStream :
    (id : SockaddrIn) (p : Ptr) (s : Sender) (actions : List Action) (n : Net)
    → IsOpened id p s n
    → length actions + 1 < 2 ^ 31
    → Yields (DeliversStream p) (run id actions n)
run-DeliversStream id p s actions n o small =
    Yields-weaken (run-size id p 0 actions n (omega arith) (IsOpened-InStep id p s n o)) (λ n' h.
      record {
        taken_in = h.taken_in;
        acked = h.acked;
        sender = h.sender;
        held = h.has.heard.holds;
        bytes = h.has.bytes;
        taken_in_le = h.has.few;
        last_acked = h.windows.last;
        acked_le = h.acked_le;
      })
