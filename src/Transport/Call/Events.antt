-- ===== src/Transport/Call/Events.antt =====
-- What may happen between two rounds of a call of mrt_send() leaves the stream as it is.
use cosc_60_computer_network.Prelude.{
  ℕ, ◌+◌, ◌<◌, ◌^◌, sym, ap, ◌∙◌, Bool, true, false, not, ◌&&◌, false-true, Yields, yields,
  Yields->>=, Yields-Whenever, if◌then◌else◌, Option, none, some, List, ◌≡◌, refl, get_elem?,
  Whenever, faults, gives, ◌>>=◌,
}
use cosc_60_computer_network.Sender.State.{Connection}
use cosc_60_computer_network.Sender.Threads.{sender_round, handle_datagram}
use cosc_60_computer_network.Receiver.State.{SockaddrIn, Ptr, Receiver}
use cosc_60_computer_network.Receiver.Handle.{Sent}
use cosc_60_computer_network.Receiver.Api.{Receive1, receive1_round}
use cosc_60_computer_network.Transport.{
  Net, Action, send, buffer, arrive, acknowledge, read, arrived, acknowledged, after_send,
  after_read, after_arrive, act,
}
use cosc_60_computer_network.Transport.InStep.{InStep}
use cosc_60_computer_network.Transport.Run.{weaken, act-InStep}
use cosc_60_computer_network.Transport.Call.{
  Event, sends, arrives, acknowledges, reads, checks, drops, Held, still, unless_closed, happen,
}
use cosc_60_computer_network.Transport.Call.Closing.{
  SameConnection, arrive-SameConnection, read-SameConnection, checked-InStep,
}

-- Steps that write other parts of the network leave the stream.
abbrev pub SameStream : Net → Net → Type 0
SameStream n n' = n'.submitted ≡ n.submitted

-- No round of mrt_send().
abbrev pub IsQuiet : Action → Type 0
IsQuiet send = Unit
IsQuiet (buffer final bytes copied) = ⊥
IsQuiet (arrive place block garbage) = Unit
IsQuiet (acknowledge place) = Unit
IsQuiet (read len) = Unit

and_true : (b : Bool) → b ≡ (b && true)
and_true true = refl
and_true false = refl

after_send-same :
    (n : Net) (o : Option (Connection × List ℕ)) → Whenever (SameStream n) (o >>= after_send n)
after_send-same n none = faults
after_send-same n (some (c, d)) = gives refl

after_read-same :
    (n : Net) (o : Option (Receive1 × Receiver)) → Whenever (SameStream n) (o >>= after_read n)
after_read-same n none = faults
after_read-same n (some (x, r)) = gives refl

after_arrive-same :
    (n : Net) (o : Option (Receiver × List Sent)) → Whenever (SameStream n) (o >>= after_arrive n)
after_arrive-same n none = faults
after_arrive-same n (some (r, sents)) = gives refl

arrived-same :
    (id : SockaddrIn) (block : ℕ) (garbage : List ℕ) (n : Net) (o : Option (List ℕ))
    → Whenever (SameStream n) (arrived id block garbage n o)
arrived-same id block garbage n none = gives refl
arrived-same id block garbage n (some d) = after_arrive-same n _

after_acknowledge-same :
    (n : Net) (o : Option Connection)
    → Whenever (SameStream n) (o >>= λ c. some (record n { connection = c }))
after_acknowledge-same n none = faults
after_acknowledge-same n (some c) = gives refl

acknowledged-same : (n : Net) (o : Option (List ℕ)) → Whenever (SameStream n) (acknowledged n o)
acknowledged-same n none = gives refl
acknowledged-same n (some d) = after_acknowledge-same n (handle_datagram d n.connection)

-- A step of one of the two sides leaves the stream as it is.
act-same :
    (id : SockaddrIn) (a : Action) (n : Net) → IsQuiet a → Whenever (SameStream n) (act id a n)
unfolding act
act-same id send n q = after_send-same n (sender_round n.connection)
act-same id (arrive place block garbage) n q =
    arrived-same id block garbage n (get_elem? n.to_receiver place)
act-same id (acknowledge place) n q = acknowledged-same n (get_elem? n.to_sender place)
act-same id (read len) n q = after_read-same n (receive1_round id len n.receiver)
act-same id (buffer final bytes copied) n q = absurd q

-- A connection that is out of the queue has its flag set.
abbrev pub IsClosing : Bool → Net → Type 0
IsClosing queued n = queued ≡ false → n.connection.should_close ≡ true

module _ (id : SockaddrIn) (p : Ptr) (size : ℕ) (n : Net) (small : size + 1 < 2 ^ 31)
    (h : InStep id p size n) (queued : Bool) (closing : IsClosing queued n) where
  abbrev pub Happens : Held → Type 0
  Happens (queued', n') = InStep id p (size + 1) n' × SameStream n n' × IsClosing queued' n'

  kept : Happens (queued, n)
  kept = (weaken h, refl, closing)

  act-InStep-same :
      (a : Action)
      → IsQuiet a
      → Yields (λ n'. InStep id p (size + 1) n' × SameStream n n') (act id a n)
  act-InStep-same a q = Yields-Whenever (act-InStep id p size small a n h) (act-same id a n q)

  by_flag :
      (b : Bool) (o : Option Net)
      → n.connection.should_close ≡ b
      → Yields (λ n'. InStep id p (size + 1) n' × SameStream n n') o
      → Yields Happens (if b then some (queued, n) else still queued o)
  by_flag true o e y = yields kept
  by_flag false o e y =
      Yields->>= y
        (λ n' (h', same). yields (h', same, λ f. absurd (false-true (sym e ∙ closing f))))

  -- A step of the sender's side, which the flag stops.
  thread-Happens :
      (o : Option Net)
      → Yields (λ n'. InStep id p (size + 1) n' × SameStream n n') o
      → Yields Happens (unless_closed queued n o)
  thread-Happens o y = by_flag n.connection.should_close o refl y

  -- A step of the receiver's side.
  other-Happens :
      (o : Option Net)
      → Yields (λ n'. InStep id p (size + 1) n' × SameStream n n') o
      → Whenever (SameConnection n) o
      → Yields Happens (still queued o)
  other-Happens o y k =
      Yields->>= (Yields-Whenever y k)
        (λ n' ((h', same), c). yields (h', same, λ f. ap (λ x. x.should_close) c ∙ closing f))

  dropped_lem :
      (b : Bool)
      → b ≡ n.connection.should_close
      → (queued && not b) ≡ false
      → n.connection.should_close ≡ true
  dropped_lem true e f = sym e
  dropped_lem false e f = closing (and_true queued ∙ f)

  -- An event ends without a fault and leaves the stream as it is.
  pub happen-Happens : (e : Event) → Yields Happens (happen id e queued n)
  unfolding happen
  happen-Happens sends = thread-Happens _ (act-InStep-same send tt)
  happen-Happens (arrives place block garbage) =
      other-Happens _ (act-InStep-same (arrive place block garbage) tt)
        (arrive-SameConnection id place block garbage n)
  happen-Happens (acknowledges place) = thread-Happens _ (act-InStep-same (acknowledge place) tt)
  happen-Happens (reads len) =
      other-Happens _ (act-InStep-same (read len) tt) (read-SameConnection id len n)
  happen-Happens checks = thread-Happens _ (yields (weaken (checked-InStep h), refl))
  happen-Happens drops = yields (weaken h, refl, dropped_lem n.connection.should_close refl)
