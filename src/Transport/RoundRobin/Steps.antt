-- ===== src/Transport/RoundRobin/Steps.antt =====
-- The steps of a cycle behind the round of the call, each with what it leaves exactly.
use cosc_60_computer_network.Prelude.{
  ℕ, ◌+◌, ◌^◌, ◌≤◌, ◌<◌, ◌≡◌, refl, sym, ap, ◌∙◌, false, some, List, [], ◌∷◌, ◌++◌, map, length,
  get_elem?, inl, inr, Bool-cases, Yields, yields, Yields->>=, Yields-both, Yields-weaken,
  Yields-Whenever, arith, ◌>>=◌,
}
use cosc_60_computer_network.Prelude.Int.{ℤ, pos, ltb_ℤ}
use cosc_60_computer_network.Packet.{get_int, receive}
use cosc_60_computer_network.Sender.State.{Connection}
use cosc_60_computer_network.Sender.Invariant.{IsValid}
use cosc_60_computer_network.Sender.Threads.{sender_round}
use cosc_60_computer_network.Sender.Window.Send.{sender_round-IsValid}
use cosc_60_computer_network.Receiver.State.{SockaddrIn, Ptr}
use cosc_60_computer_network.Receiver.Handle.{Sent}
use cosc_60_computer_network.Receiver.Api.{receive1_round}
use cosc_60_computer_network.Transport.{
  Net, bytes_of, after_send, after_read, arrived, acknowledged,
}
use cosc_60_computer_network.Transport.Datagrams.{IsData, ShowsAdat, adat}
use cosc_60_computer_network.Transport.Sending.{Keeps, sender_round-Keeps}
use cosc_60_computer_network.Transport.Emission.{sender_round-IsData}
use cosc_60_computer_network.Transport.Receiving.{Newest}
use cosc_60_computer_network.Transport.Progress.{arrive-Advances}
use cosc_60_computer_network.Transport.Acknowledging.{handle_datagram-MovesOn}
use cosc_60_computer_network.Transport.Reading.{receive1_round-HandsOn}
use cosc_60_computer_network.Transport.InStep.{
  InStep, Keeps-Windows, All-map, All-sents, IsAdat-mono,
}
use cosc_60_computer_network.Transport.RoundRobin.Sends.{Moves, sender_round-Moves}
use cosc_60_computer_network.Transport.RoundRobin.Acknowledges.{grown, handle_datagram-TakesOver}

front_lem :
    {k : ℕ} {w : ℤ} (sents : List Sent) (ds : List (List ℕ))
    → Newest k w sents
    → (d : List ℕ) × (get_elem? (map bytes_of sents ++ ds) 0 ≡ some d) × ShowsAdat k w d
front_lem [] ds h = absurd h
front_lem (x ∷ sents) ds h = (x.bytes, refl, h)

grown_wide : (old new : ℤ) → ltb_ℤ new (pos 488) ≡ false → ltb_ℤ (grown old new) (pos 488) ≡ false
grown_wide old new h = ground arith

pos-injective : (m n : ℕ) → pos m ≡ pos n → m ≡ n
pos-injective m n e = ground arith

moves_lem :
    (incoming : List ℕ) (c : Connection) (v : IsValid c)
    → length incoming ≡ 509
    → Yields
        (λ r. ltb_ℤ c.receiver_window_size (pos 488) ≡ false → Moves c v incoming r)
        (sender_round c)
moves_lem incoming c v room = elim (Bool-cases (ltb_ℤ c.receiver_window_size (pos 488))) [
  | inl narrow ↦ Yields-weaken (sender_round-IsValid c v) (λ r _ wide. cc)
  | inr wide ↦ Yields-weaken (sender_round-Moves c v incoming room wide) (λ r m _. m)
]

module _ (id : SockaddrIn) (p : Ptr) (size : ℕ) where
  -- What mrt_receive1() leaves that reads all there is.
  pub record HasRead (n : Net) (h : InStep id p size n) (n' : Net) : Type 0 where
    pub inv : InStep id p size n'
    pub same_acked : inv.acked ≡ h.acked
    pub same_taken : inv.taken_in ≡ h.taken_in
    pub none_unread : inv.sender.bytes_unread ≡ 0
    pub same_connection : n'.connection ≡ n.connection
    pub same_stream : n'.submitted ≡ n.submitted

  -- What a round of sender() leaves.
  pub record HasSent (n : Net) (h : InStep id p size n) (n' : Net) : Type 0 where
    pub inv : InStep id p size n'
    pub same_acked : inv.acked ≡ h.acked
    pub same_taken : inv.taken_in ≡ h.taken_in
    pub same_sender : inv.sender ≡ h.sender
    pub same_receiver : n'.receiver ≡ n.receiver
    pub same_close : n'.connection.should_close ≡ n.connection.should_close
    pub same_stream : n'.submitted ≡ n.submitted
    pub newest : List ℕ
    pub front : get_elem? n'.to_receiver 0 ≡ some newest
    pub is : IsData n'.submitted newest
    pub moves :
        ltb_ℤ n.connection.receiver_window_size (pos 488) ≡ false
        → Moves n.connection h.windows.valid n.receiver.incoming_buffer (n'.connection, newest)

  -- What the newest DATA leaves when it comes in.
  pub record HasArrived (n : Net) (h : InStep id p size n) (d : List ℕ) (n' : Net) : Type 0 where
    pub inv : InStep id p size n'
    pub same_acked : inv.acked ≡ h.acked
    pub more : h.taken_in ≤ inv.taken_in
    pub same_connection : n'.connection ≡ n.connection
    pub same_stream : n'.submitted ≡ n.submitted
    pub answer : List ℕ
    pub front : get_elem? n'.to_sender 0 ≡ some answer
    pub window : ℤ
    pub shows : ShowsAdat inv.taken_in window answer
    pub roomy : h.sender.bytes_unread ≡ 0 → ltb_ℤ window (pos 488) ≡ false
    pub expected_in :
        h.sender.bytes_unread ≡ 0
        → get_int 12 (receive d n.receiver.incoming_buffer) ≡ pos (h.taken_in + 1)
        → inv.taken_in ≡ h.taken_in + 1

  -- What the receiver's last ADAT leaves when it comes in.
  pub record HasAcked (n : Net) (h : InStep id p size n) (w : ℤ) (n' : Net) : Type 0 where
    pub inv : InStep id p size n'
    pub in_sync : inv.acked ≡ h.taken_in
    pub same_taken : inv.taken_in ≡ h.taken_in
    pub wide :
        ltb_ℤ w (pos 488) ≡ false → ltb_ℤ n'.connection.receiver_window_size (pos 488) ≡ false
    pub same_sent : n'.connection.last_sent_index ≡ n.connection.last_sent_index
    pub same_time : n'.connection.resend_time ≡ n.connection.resend_time
    pub fresh : n'.connection.inactive_time ≡ 0
    pub same_close : n'.connection.should_close ≡ n.connection.should_close
    pub same_stream : n'.submitted ≡ n.submitted

  module _ (small : size + 1 < 2 ^ 31) (n : Net) (h : InStep id p size n) where
    pub read-HasRead : Yields (HasRead n h) (receive1_round id 2440 n.receiver >>= after_read n)
    read-HasRead =
        Yields->>=
          (receive1_round-HandsOn n.submitted id p n.delivered h.taken_in 2440 h.sender n.receiver
            h.has)
          (λ (x, r) o. yields (record {
            inv = record {
              acked = h.acked;
              taken_in = h.taken_in;
              sender = o.sender;
              windows = h.windows;
              has = o.has;
              data_sent = h.data_sent;
              adats_sent = h.adats_sent;
              acked_le = h.acked_le;
              size_le = h.size_le;
            };
            same_acked = refl;
            same_taken = refl;
            none_unread = o.emptied (omega arith);
            same_connection = refl;
            same_stream = refl;
          }))

    sent_parts :
        Yields
          (λ r.
            (ltb_ℤ n.connection.receiver_window_size (pos 488) ≡ false
              → Moves n.connection h.windows.valid n.receiver.incoming_buffer r)
            × (IsData n.submitted r.1 × (IsValid r.0 × Keeps n.connection r.0)))
          (sender_round n.connection)
    sent_parts =
        let c = n.connection in
        let w = h.windows in
        let data_part =
          sender_round-IsData n.submitted c w.valid h.acked w.last w.rest
            (omega (arith, w.total, h.size_le)) in
        let valid_part = Yields-Whenever (sender_round-IsValid c w.valid) (sender_round-Keeps c) in
        let moves_part = moves_lem n.receiver.incoming_buffer c w.valid h.has.heard.incoming_size in
        Yields-both moves_part (Yields-both data_part valid_part)

    pub send-HasSent : Yields (HasSent n h) (sender_round n.connection >>= after_send n)
    send-HasSent = Yields->>= sent_parts (λ (c, d) (moves, (is, (v, k))). yields (record {
      inv = record {
        acked = h.acked;
        taken_in = h.taken_in;
        sender = h.sender;
        windows = Keeps-Windows n.submitted h.acked n.connection c h.windows v k;
        has = h.has;
        data_sent = (is, h.data_sent);
        adats_sent = h.adats_sent;
        acked_le = h.acked_le;
        size_le = h.size_le;
      };
      same_acked = refl;
      same_taken = refl;
      same_sender = refl;
      same_receiver = refl;
      same_close = k.same_close;
      same_stream = refl;
      newest = d;
      front = refl;
      is = is;
      moves = moves;
    }))

    pub arrive-HasArrived :
        (d : List ℕ) → IsData n.submitted d → Yields (HasArrived n h d) (arrived id 0 [] n (some d))
    arrive-HasArrived d is =
        Yields->>=
          (arrive-Advances n.submitted
            (record { source = id; datagram = d; block = 0; garbage = [] }) p n.delivered h.taken_in
            h.sender n.receiver h.has (omega (arith, h.size_le)) is)
          (λ (r, sents) o.
            let (answer, front, shows) = front_lem sents n.to_sender o.newest in
            yields (record {
              inv = record {
                acked = h.acked;
                taken_in = o.taken_in;
                sender = o.sender;
                windows = h.windows;
                has = o.has;
                data_sent = h.data_sent;
                adats_sent = All-sents o.taken_in sents n.to_sender o.adats (
                    All-map n.to_sender (λ x a. IsAdat-mono h.taken_in o.taken_in x o.more a)
                      h.adats_sent);
                acked_le = omega (arith, h.acked_le, o.more);
                size_le = h.size_le;
              };
              same_acked = refl;
              more = o.more;
              same_connection = refl;
              same_stream = refl;
              answer = answer;
              front = front;
              window = o.window;
              shows = shows;
              roomy = o.roomy;
              expected_in = o.expected_in;
            }))

    pub acknowledge-HasAcked :
        (w : ℤ) (d : List ℕ)
        → ShowsAdat h.taken_in w d
        → Yields (HasAcked n h w) (acknowledged n (some d))
    acknowledge-HasAcked w d shows =
        Yields->>=
          (Yields-Whenever
            (handle_datagram-MovesOn n.submitted h.acked h.taken_in n.connection d h.windows
              (adat h.taken_in (omega arith) shows.size shows.shows) h.has.few
              (omega (arith, h.size_le)))
            (handle_datagram-TakesOver n.connection h.acked h.taken_in w d
              h.windows.valid.incoming_size h.windows.last h.acked_le
              (omega (arith, h.has.few, h.size_le)) shows))
          (λ c (o, t).
            let now : o.now ≡ h.taken_in =
              pos-injective o.now h.taken_in (sym o.windows.last ∙ t.last) in
            yields (record {
              inv = record {
                acked = o.now;
                taken_in = h.taken_in;
                sender = h.sender;
                windows = o.windows;
                has = h.has;
                data_sent = h.data_sent;
                adats_sent = h.adats_sent;
                acked_le = omega arith;
                size_le = h.size_le;
              };
              in_sync = now;
              same_taken = refl;
              wide = λ e.
                  ap (λ z. ltb_ℤ z (pos 488)) t.wider
                  ∙ grown_wide n.connection.receiver_window_size w e;
              same_sent = t.same_sent;
              same_time = t.same_time;
              fresh = t.fresh;
              same_close = t.same_close;
              same_stream = refl;
            }))
