-- ===== src/Transport/Call/Closing.antt =====
-- The flag that checker() sets, and what a round of checker() leaves as it is.
use cosc_60_computer_network.Prelude.{
  ℕ, ◌+◌, ◌≡◌, refl, ap, ◌∙◌, inl, inr, Bool, true, false, if◌then◌else◌, Bool-cases, Option, none,
  some, List, [], ◌∷◌, length, get_elem?, ltb, Whenever, faults, gives, Whenever->>=, ◌>>=◌,
}
use cosc_60_computer_network.Prelude.Int.{ℤ}
use cosc_60_computer_network.Sender.State.{Connection}
use cosc_60_computer_network.Sender.Threads.{checker_round}
use cosc_60_computer_network.Sender.Api.{SendRound}
use cosc_60_computer_network.Sender.Invariant.{IsValid}
use cosc_60_computer_network.Sender.Process.Keeps.{handle_datagram-Same}
use cosc_60_computer_network.Receiver.State.{SockaddrIn, Ptr, Receiver}
use cosc_60_computer_network.Receiver.Handle.{Sent}
use cosc_60_computer_network.Receiver.Api.{Receive1, receive1_round}
use cosc_60_computer_network.Transport.{
  Net, Action, send, buffer, arrive, acknowledge, read, after_send, after_buffer, after_read,
  after_arrive, arrived, acknowledged, act, run,
}
use cosc_60_computer_network.Transport.Sending.{Keeps, sender_round-Keeps}
use cosc_60_computer_network.Transport.InStep.{InStep}
use cosc_60_computer_network.Transport.Acknowledging.{Windows}
use cosc_60_computer_network.Transport.Call.{after_check}
use cosc_60_computer_network.Transport.Call.Copies.{
  Outcome, finished, grew, full, slept, send_round-Outcome,
}

abbrev pub SameFlag : Net → Net → Type 0
SameFlag n n' = n'.connection.should_close ≡ n.connection.should_close

after_send-SameFlag :
    (n : Net) (o : Option (Connection × List ℕ))
    → Whenever (λ r. Keeps n.connection r.0) o
    → Whenever (SameFlag n) (o >>= after_send n)
after_send-SameFlag n none k = faults
after_send-SameFlag n (some _) (gives k) = gives k.same_close

after_buffer-SameFlag :
    (final : ℤ) (bytes : List ℕ) (copied : ℕ) (n : Net) (o : Option SendRound)
    → Whenever (Outcome final (length bytes) copied n.connection) o
    → Whenever (SameFlag n) (o >>= after_buffer bytes copied n)
after_buffer-SameFlag final bytes copied n none k = faults
after_buffer-SameFlag final bytes copied n (some _) (gives (finished e)) = gives refl
after_buffer-SameFlag final bytes copied n (some _) (gives (grew more e calm)) =
    gives calm.same_close
after_buffer-SameFlag final bytes copied n (some _) (gives (full e)) = gives refl
after_buffer-SameFlag final bytes copied n (some _) (gives (slept e done)) = gives refl

acknowledged-SameFlag : (n : Net) (o : Option (List ℕ)) → Whenever (SameFlag n) (acknowledged n o)
acknowledged-SameFlag n none = gives refl
acknowledged-SameFlag n (some d) =
    Whenever->>= (handle_datagram-Same d n.connection) (λ c k. gives k.1)

-- What the receiver does leaves the connection.
abbrev pub SameConnection : Net → Net → Type 0
SameConnection n n' = n'.connection ≡ n.connection

after_arrive-same :
    (n : Net) (o : Option (Receiver × List Sent))
    → Whenever (SameConnection n) (o >>= after_arrive n)
after_arrive-same n none = faults
after_arrive-same n (some r) = gives refl

arrived-same :
    (id : SockaddrIn) (block : ℕ) (garbage : List ℕ) (n : Net) (o : Option (List ℕ))
    → Whenever (SameConnection n) (arrived id block garbage n o)
arrived-same id block garbage n none = gives refl
arrived-same id block garbage n (some d) = after_arrive-same n _

after_read-same :
    (n : Net) (o : Option (Receive1 × Receiver)) → Whenever (SameConnection n) (o >>= after_read n)
after_read-same n none = faults
after_read-same n (some r) = gives refl

pub arrive-SameConnection :
    (id : SockaddrIn) (place : ℕ) (block : Ptr) (garbage : List ℕ) (n : Net)
    → Whenever (SameConnection n) (act id (arrive place block garbage) n)
unfolding act
arrive-SameConnection id place block garbage n =
    arrived-same id block garbage n (get_elem? n.to_receiver place)

pub read-SameConnection :
    (id : SockaddrIn) (len : ℕ) (n : Net) → Whenever (SameConnection n) (act id (read len) n)
unfolding act
read-SameConnection id len n = after_read-same n (receive1_round id len n.receiver)

flag_of : (n : Net) (o : Option Net) → Whenever (SameConnection n) o → Whenever (SameFlag n) o
flag_of n none k = faults
flag_of n (some _) (gives k) = gives (ap (λ c. c.should_close) k)

act-SameFlag : (id : SockaddrIn) (a : Action) (n : Net) → Whenever (SameFlag n) (act id a n)
unfolding act
act-SameFlag id send n = after_send-SameFlag n _ (sender_round-Keeps n.connection)
act-SameFlag id (buffer final bytes copied) n =
    after_buffer-SameFlag final bytes copied n _
      (send_round-Outcome final bytes (length bytes) copied n.connection)
act-SameFlag id (arrive place block garbage) n =
    flag_of n _ (arrived-same id block garbage n (get_elem? n.to_receiver place))
act-SameFlag id (acknowledge place) n = acknowledged-SameFlag n (get_elem? n.to_sender place)
act-SameFlag id (read len) n = flag_of n _ (after_read-same n (receive1_round id len n.receiver))

-- Without checker(), no step sets the flag.
pub run-SameFlag :
    (id : SockaddrIn) (actions : List Action) (n : Net) → Whenever (SameFlag n) (run id actions n)
unfolding run
run-SameFlag id [] n = gives refl
run-SameFlag id (a ∷ rest) n =
    Whenever->>= (act-SameFlag id a n)
      (λ n' k. then_SameFlag n n' k (run id rest n') (run-SameFlag id rest n'))
  where
    then_SameFlag :
        (n n' : Net)
        → SameFlag n n'
        → (o : Option Net) → Whenever (SameFlag n') o
        → Whenever (SameFlag n) o
    then_SameFlag n n' k none h = faults
    then_SameFlag n n' k (some _) (gives h) = gives (h ∙ k)

-- The fields that checker() writes are not those of the window.
clocked-IsValid :
    (c : Connection) (time : ℕ) (close checking : Bool)
    → IsValid c
    → IsValid (record c { inactive_time = time; should_close = close; checking = checking })
clocked-IsValid c time close checking v = record {
  count = v.count;
  sent = v.sent;
  last_payload = v.last_payload;
  last_sent = v.last_sent;
  count_le = v.count_le;
  sent_le = v.sent_le;
  buffer_size = v.buffer_size;
  lengths_size = v.lengths_size;
  lengths_short = v.lengths_short;
  incoming_size = v.incoming_size;
  incoming_nul = v.incoming_nul;
  outgoing_size = v.outgoing_size;
}

clocked-Windows :
    (submitted : List (List ℕ)) (a : ℕ) (c : Connection) (time : ℕ) (close checking : Bool)
    → Windows submitted a c
    → Windows submitted a
        (record c { inactive_time = time; should_close = close; checking = checking })
unfolding clocked-IsValid
clocked-Windows submitted a c time close checking w = record {
  valid = clocked-IsValid c time close checking w.valid;
  last = w.last;
  rest = w.rest;
  total = w.total;
}

pub checked-Windows :
    (submitted : List (List ℕ)) (a : ℕ) (c : Connection)
    → Windows submitted a c
    → Windows submitted a (checker_round c)
unfolding checker_round
checked-Windows submitted a c w = elim (Bool-cases (ltb 120000 (c.inactive_time + 40000))) [
  | inl e ↦ rw e (clocked-Windows submitted a c (c.inactive_time + 40000) true false w)
  | inr e ↦
      rw e (clocked-Windows submitted a c (c.inactive_time + 40000) c.should_close c.checking w)
]

abbrev pub checked-InStep :
    {id : SockaddrIn} {p : Ptr} {size : ℕ} {n : Net}
    → InStep id p size n
    → InStep id p size (after_check n)
checked-InStep {n} h = record {
  acked = h.acked;
  taken_in = h.taken_in;
  sender = h.sender;
  windows = checked-Windows n.submitted h.acked n.connection h.windows;
  has = h.has;
  data_sent = h.data_sent;
  adats_sent = h.adats_sent;
  acked_le = h.acked_le;
  size_le = h.size_le;
}

-- Behind an ADAT checker() only counts.
pub checker_round-fresh :
    (c : Connection) → c.inactive_time ≡ 0 → checker_round c ≡ record c { inactive_time = 40000 }
unfolding checker_round
checker_round-fresh c e =
    ap
      (λ t.
        if ltb 120000 (t + 40000)
        then record c { inactive_time = t + 40000; should_close = true; checking = false }
        else record c { inactive_time = t + 40000 })
      e
