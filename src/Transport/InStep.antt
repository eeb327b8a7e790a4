-- ===== src/Transport/InStep.antt =====
-- What holds of the two sides and of the network between two steps, and that every step keeps it.
use cosc_60_computer_network.Prelude.{
  ℕ, zero, suc, ◌+◌, ◌^◌, ◌≤◌, ◌<◌, ◌≡◌, sym, ap, ap₂, ◌∙◌, ◌⊎◌, some, List, [], ◌∷◌, ◌++◌, map,
  length, get_elem?, inl, inr, Yields, yields, Yields->>=, Yields-Whenever, Yields-both, arith,
  ◌>>=◌,
}
use mathlib.Core.Path.{subst}
use cosc_60_computer_network.Prelude.Int.{sub_ℕ}
use cosc_60_computer_network.Sender.State.{Connection}
use cosc_60_computer_network.Sender.Threads.{sender_round}
use cosc_60_computer_network.Sender.Invariant.{IsValid}
use cosc_60_computer_network.Sender.Window.{window, payloads}
use cosc_60_computer_network.Sender.Window.Send.{sender_round-IsValid}
use cosc_60_computer_network.Receiver.State.{SockaddrIn, Ptr, Sender}
use cosc_60_computer_network.Receiver.Handle.{Sent}
use cosc_60_computer_network.Receiver.Api.{receive1_round}
use cosc_60_computer_network.Transport.{
  Net, bytes_of, after_send, after_read, arrived, acknowledged,
}
use cosc_60_computer_network.Transport.Datagrams.{IsData, IsAdat, adat}
use cosc_60_computer_network.Transport.Sending.{Keeps, sender_round-Keeps}
use cosc_60_computer_network.Transport.Emission.{sender_round-IsData}
use cosc_60_computer_network.Transport.Receiving.{AllAdats}
use cosc_60_computer_network.Transport.Progress.{HasTaken, arrive-Advances}
use cosc_60_computer_network.Transport.Acknowledging.{Windows, handle_datagram-MovesOn}
use cosc_60_computer_network.Transport.Reading.{receive1_round-HandsOn}

abbrev pub All : (List ℕ → Type 0) → List (List ℕ) → Type 0
All P [] = Unit
All P (d ∷ ds) = P d × All P ds

pub All-map :
    {P Q : List ℕ → Type 0} (ds : List (List ℕ)) → ((d : List ℕ) → P d → Q d) → All P ds → All Q ds
All-map [] f h = tt
All-map (d ∷ ds) f h = (f d h.0, All-map ds f h.1)

pub All-get_elem? :
    (P : List ℕ → Type 0) (ds : List (List ℕ)) (i : ℕ) {d : List ℕ}
    → get_elem? ds i ≡ some d
    → All P ds
    → P d
All-get_elem? P [] i e h = absurd (cc)
All-get_elem? P (x ∷ ds) zero {d} e h = let same : x ≡ d = cc in subst P same h.0
All-get_elem? P (x ∷ ds) (suc i) e h = All-get_elem? P ds i e h.1

-- Every payload that is sent stands in the stream under its number, every ADAT is of a payload that
-- the receiver has taken in, and so is what the sender takes for acknowledged.
pub record InStep (id : SockaddrIn) (p : Ptr) (size : ℕ) (n : Net) : Type 0 where
  pub acked : ℕ
  pub taken_in : ℕ
  pub sender : Sender
  pub windows : Windows n.submitted acked n.connection
  pub has : HasTaken n.submitted id p n.delivered taken_in sender n.receiver
  pub data_sent : All (IsData n.submitted) n.to_receiver
  pub adats_sent : All (IsAdat taken_in) n.to_sender
  pub acked_le : acked ≤ taken_in
  pub size_le : length n.submitted ≤ size

pub sub_ℕ-injective : (m n : ℕ) → sub_ℕ m 1 ≡ sub_ℕ n 1 → m ≡ n
sub_ℕ-injective m n e = ground arith

pub Keeps-Windows :
    (submitted : List (List ℕ)) (a : ℕ) (c c' : Connection)
    → Windows submitted a c
    → IsValid c'
    → Keeps c c'
    → Windows submitted a c'
Keeps-Windows submitted a c c' w v k =
    let same : v.count ≡ w.valid.count =
      sub_ℕ-injective v.count w.valid.count
        (sym v.last_payload ∙ k.last_payload ∙ w.valid.last_payload) in
    record {
      valid = v;
      last = k.last_acknowledged ∙ w.last;
      rest =
          ap (λ i. window c' i) same
          ∙ ap₂ (λ l b. payloads l b 0 w.valid.count) k.lengths k.buffer
          ∙ w.rest;
      total = ap (λ i. a + i) same ∙ w.total;
    }

at_most : (now a m : ℕ) → (now ≡ a) ⊎ (now ≤ m) → a ≤ m → now ≤ m
at_most now a m (inl e) h = omega arith
at_most now a m (inr le) h = le

pub IsAdat-mono : (k k' : ℕ) (d : List ℕ) → k ≤ k' → IsAdat k d → IsAdat k' d
IsAdat-mono k k' d h (adat i le size shows) = adat i (omega arith) size shows

pub All-sents :
    (k : ℕ) (sents : List Sent) (ds : List (List ℕ))
    → AllAdats k sents
    → All (IsAdat k) ds
    → All (IsAdat k) (map bytes_of sents ++ ds)
All-sents k [] ds a h = h
All-sents k (x ∷ sents) ds a h = (a.0, All-sents k sents ds a.1 h)

module _ (id : SockaddrIn) (p : Ptr) (size : ℕ) (small : size + 1 < 2 ^ 31) where
  pub send-InStep :
      (n : Net)
      → InStep id p size n
      → Yields (InStep id p size) (sender_round n.connection >>= after_send n)
  send-InStep n h =
      Yields->>=
        (Yields-both
          (sender_round-IsData n.submitted n.connection h.windows.valid h.acked h.windows.last
            h.windows.rest (omega (arith, h.windows.total, h.size_le)))
          (Yields-Whenever (sender_round-IsValid n.connection h.windows.valid)
            (sender_round-Keeps n.connection)))
        (λ (c, d) (is, (v, k)). yields (record {
          acked = h.acked;
          taken_in = h.taken_in;
          sender = h.sender;
          windows = Keeps-Windows n.submitted h.acked n.connection c h.windows v k;
          has = h.has;
          data_sent = (is, h.data_sent);
          adats_sent = h.adats_sent;
          acked_le = h.acked_le;
          size_le = h.size_le;
        }))

  pub receive-InStep :
      (n : Net) (block : ℕ) (garbage d : List ℕ)
      → InStep id p size n
      → IsData n.submitted d
      → Yields (InStep id p size) (arrived id block garbage n (some d))
  receive-InStep n block garbage d h is =
      Yields->>=
        (arrive-Advances n.submitted
          (record { source = id; datagram = d; block = block; garbage = garbage }) p n.delivered
          h.taken_in h.sender n.receiver h.has (omega (arith, h.size_le)) is)
        (λ (r, sents) o. yields (record {
          acked = h.acked;
          taken_in = o.taken_in;
          sender = o.sender;
          windows = h.windows;
          has = o.has;
          data_sent = h.data_sent;
          adats_sent = All-sents o.taken_in sents n.to_sender o.adats (
              All-map n.to_sender (λ x a. IsAdat-mono h.taken_in o.taken_in x o.more a)
                h.adats_sent);
          acked_le = omega (arith, h.acked_le, o.more);
          size_le = h.size_le;
        }))

  pub acknowledge-InStep :
      (n : Net) (d : List ℕ) (h : InStep id p size n)
      → IsAdat h.taken_in d
      → Yields (InStep id p size) (acknowledged n (some d))
  acknowledge-InStep n d h is =
      Yields->>=
        (handle_datagram-MovesOn n.submitted h.acked h.taken_in n.connection d h.windows is
          h.has.few (omega (arith, h.size_le)))
        (λ c o. yields (record {
          acked = o.now;
          taken_in = h.taken_in;
          sender = h.sender;
          windows = o.windows;
          has = h.has;
          data_sent = h.data_sent;
          adats_sent = h.adats_sent;
          acked_le = at_most o.now h.acked h.taken_in o.known h.acked_le;
          size_le = h.size_le;
        }))

  pub read-InStep :
      (n : Net) (len : ℕ)
      → InStep id p size n
      → Yields (InStep id p size) (receive1_round id len n.receiver >>= after_read n)
  read-InStep n len h =
      Yields->>=
        (receive1_round-HandsOn n.submitted id p n.delivered h.taken_in len h.sender n.receiver
          h.has)
        (λ (x, r) o. yields (record {
          acked = h.acked;
          taken_in = h.taken_in;
          sender = o.sender;
          windows = h.windows;
          has = o.has;
          data_sent = h.data_sent;
          adats_sent = h.adats_sent;
          acked_le = h.acked_le;
          size_le = h.size_le;
        }))
