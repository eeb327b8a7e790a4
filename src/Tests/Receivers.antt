-- ===== src/Tests/Receivers.antt =====
-- lab3/mrt_receiver.c with one sender connected.
use cosc_60_computer_network.Prelude.{
  ℕ, ◌≤◌, ◌≡◌, refl, inl, false, none, some, List, [], ◌∷◌, ◌++◌, ◌==◌, length, replicate,
  length-replicate, arith, Yields, if◌then◌else◌,
}
use cosc_60_computer_network.Prelude.Int.{pos}
use cosc_60_computer_network.Mrt.{adat_type}
use cosc_60_computer_network.Receiver.State.{Ptr, Sender, live, Receiver, Memory}
use cosc_60_computer_network.Receiver.Build.{build_adat}
use cosc_60_computer_network.Receiver.Handle.{Arrival, handle_datagram}
use cosc_60_computer_network.Receiver.Api.{mrt_accept_all, mrt_probe, receive1_round}
use cosc_60_computer_network.Receiver.Transmissions.{Reads, build_adat-Reads}
use cosc_60_computer_network.Receiver.Lookup.{count}
use cosc_60_computer_network.Receiver.Invariant.{IsValidSender, IsValid, ValidAt}
use cosc_60_computer_network.Receiver.Invariant.Handler.{handle_datagram-IsValid}
use cosc_60_computer_network.Receiver.Invariant.Parts.{Runs}
use cosc_60_computer_network.Receiver.Deliver.{unread}
use cosc_60_computer_network.Receiver.Deliver.Stream.{
  Event, arrive, read, run, Delivers, run-Delivers,
}
use cosc_60_computer_network.Receiver.AcceptAll.{AcceptsAll, mrt_accept_all-AcceptsAll}
use cosc_60_computer_network.Receiver.Probe.{mrt_probe-none}
use cosc_60_computer_network.Receiver.Receive1.{Receives, receive1_round-Receives}

size : (n a : ℕ) → length (replicate n a) ≡ n
size n a = length-replicate n a

-- Three bytes are unread, and the fragment 4 comes next.
abbrev caller : Sender
caller = record {
  addr = 7;
  buffer = replicate 2440 5;
  bytes_unread = 3;
  next_frag = pos 4;
  inactive_time = 0;
}

caller-IsValidSender : IsValidSender caller
caller-IsValidSender = record { size = size 2440 5; within = omega arith }

abbrev senders : Memory
senders p = if p == 1 then some caller else none

abbrev connected : Receiver
connected = record {
  senders = senders;
  pending_senders_q = live [];
  connected_senders_q = live (1 ∷ []);
  should_close = false;
  incoming_buffer = replicate 509 0;
  outgoing_buffer = replicate 21 0;
  checkers = 1 ∷ [];
}

senders_valid : (p : Ptr) → 1 ≤ count p (1 ∷ []) → ValidAt senders p
senders_valid p h = let e : p ≡ 1 = ground arith in rw e (caller, refl, caller-IsValidSender)

connected-IsValid : IsValid connected []
connected-IsValid = record {
  once = λ p. ground arith;
  valid = λ p h. senders_valid p (ground arith);
  pending_live = refl;
  connected_live = refl;
  incoming_size = size 509 0;
  incoming_nul = inl refl;
  outgoing_size = refl;
}

-- The same sender while it waits, and between the two locks of mrt_accept1().
abbrev pending : Receiver
pending = record connected { pending_senders_q = live (1 ∷ []); connected_senders_q = live [] }

pending-IsValid : IsValid pending []
pending-IsValid = record {
  once = λ p. ground arith;
  valid = λ p h. senders_valid p (ground arith);
  pending_live = refl;
  connected_live = refl;
  incoming_size = size 509 0;
  incoming_nul = inl refl;
  outgoing_size = refl;
}

abbrev between : Receiver
between = record connected { connected_senders_q = live [] }

between-IsValid : IsValid between (1 ∷ [])
between-IsValid = record {
  once = λ p. ground arith;
  valid = λ p h. senders_valid p (ground arith);
  pending_live = refl;
  connected_live = refl;
  incoming_size = size 509 0;
  incoming_nul = inl refl;
  outgoing_size = refl;
}

abbrev arrival : Arrival
arrival = record { source = 7; datagram = replicate 25 3; block = 2; garbage = replicate 2440 9 }

handle_datagram-IsValid_example : Runs [] (handle_datagram arrival connected)
handle_datagram-IsValid_example =
    handle_datagram-IsValid arrival connected-IsValid (omega (arith, size 25 3)) (record {
      unused = refl;
      garbage_size = size 2440 9;
      not_short = λ p s e. inl (omega (arith, size 25 3));
    })

build_adat-Reads_example :
    Yields
      (Reads adat_type (pos 3) (pos 2437) 20 (replicate 21 9))
      (build_adat (pos 3) (pos 2437) (replicate 21 0))
build_adat-Reads_example =
    build_adat-Reads (replicate 21 9) (replicate 21 0) (omega arith) refl (pos 3) (pos 2437)
      (omega arith) (omega arith)

abbrev fragment : ℕ → List ℕ
fragment k = k ∷ k ∷ []

genuine_lem : (n k : ℕ) → pos n ≡ pos k → (n ∷ n ∷ []) ≡ fragment k
genuine_lem n k e = let e' : n ≡ k = ground arith in rw e'

-- The fragment 5 comes too early, then 4 comes twice with a read in between.
abbrev events : List Event
events =
    arrive 22 (pos 5) (replicate 20 0 ++ (5 ∷ 5 ∷ []))
    ∷ arrive 22 (pos 4) (replicate 20 0 ++ (4 ∷ 4 ∷ []))
    ∷ read 4
    ∷ arrive 22 (pos 4) (replicate 20 0 ++ (4 ∷ 4 ∷ []))
    ∷ []

run-Delivers_example :
    Yields (λ a. Delivers fragment 4 4 (unread caller) a.0 a.1) (run events caller)
run-Delivers_example =
    run-Delivers fragment events caller 4 caller-IsValidSender refl (omega arith) (
      (omega arith, omega arith, genuine_lem 5),
      (
        (omega arith, omega arith, genuine_lem 4),
        (tt, ((omega arith, omega arith, genuine_lem 4), tt)),
      ),
    )

mrt_probe-none_example : mrt_probe connected (7 ∷ []) ≡ some none
mrt_probe-none_example = mrt_probe-none connected (7 ∷ [])

-- The fuel is enough for the one pending sender.
mrt_accept_all-AcceptsAll_example :
    Yields (AcceptsAll pending [] (1 ∷ [])) (mrt_accept_all 2 pending)
mrt_accept_all-AcceptsAll_example =
    mrt_accept_all-AcceptsAll 2 (1 ∷ []) pending-IsValid refl (omega arith)

-- The user reads two of the three bytes.
receive1_round-Receives_example : Yields (Receives 7 2 connected) (receive1_round 7 2 connected)
receive1_round-Receives_example = receive1_round-Receives 7 2 connected-IsValid
