-- ===== src/Chat/Serving.antt =====
-- The queue of sockets of the server, whatever the order of the turns.
use mathlib.Core.Path.{subst}
use cosc_60_computer_network.Prelude.{
  ℕ, zero, suc, ◌≡◌, ◌≢◌, refl, ap, ◌∙◌, sym, ◌⊎◌, inl, inr, Bool-cases, List, [], ◌∷◌, ◌++◌,
}
use cosc_60_computer_network.Bytes.{splice}
use cosc_60_computer_network.Dpp.{is_quit}
use cosc_60_computer_network.Chat.{Recv, failed, disconnected, bytes}
use cosc_60_computer_network.Chat.Server.{
  Server, Thread, Phase, receiving, closed, done, accept_round, server_receiver, receive_step, shut,
  delete_step, rebroadcast, broadcast, broadcast_callback, delete_integer_targets,
}
use cosc_60_computer_network.Chat.System.{
  System, Action, accept, turn, new_thread, turn_at, perform, run, sockets, started,
}
use cosc_60_computer_network.Chat.Distinct.{
  Absent, IsDistinct, delete-first, delete-other, delete-IsDistinct, append-IsDistinct,
}

-- The queue holds the sockets of the threads that are not done, each once.
abbrev pub IsServed : System → Type 0
IsServed y = (y.server.accepted ≡ sockets y.running) × IsDistinct (sockets y.running)

-- accept() returns no number that a thread still uses.
abbrev pub IsFresh : Action → System → Type 0
IsFresh (accept n thread) y = Absent n (sockets y.running)
IsFresh (turn i r) y = Unit

abbrev pub AreFresh : List Action → System → Type 0
AreFresh [] y = Unit
AreFresh (a ∷ rest) y = IsFresh a y × AreFresh rest (perform a y)

-- A step leaves the sockets and the queue, or deletes one socket of the threads from both.
abbrev SocketChanges : List ℕ → List ℕ → Server → Server → Type 0
SocketChanges ns ns' s s' =
    ((ns' ≡ ns) × (s'.accepted ≡ s.accepted))
    ⊎ ((n : ℕ) × ((x : ℕ) → Absent x ns → x ≢ n)
        × (ns' ≡ delete_integer_targets n ns)
        × (s'.accepted ≡ delete_integer_targets n s.accepted))

abbrev Changes : List Thread → List Thread → Server → Server → Type 0
Changes ts ts' s s' = SocketChanges (sockets ts) (sockets ts') s s'

broadcast-accepted : (ns : List ℕ) (s : Server) → (broadcast ns s).accepted ≡ s.accepted
unfolding broadcast broadcast_callback
broadcast-accepted [] s = refl
broadcast-accepted (n ∷ ns) s = broadcast-accepted ns (broadcast_callback n s)

abbrev thread_of : ℕ → List ℕ → Phase → Thread
thread_of n b p = record { sockfd = n; receiver_buffer = b; phase = p }

receive_step-Changes :
    (r : Recv) (n : ℕ) (b : List ℕ) (ts : List Thread) (s : Server)
    → let t = thread_of n b receiving in
      let after = receive_step r t s in Changes (t ∷ ts) (after.0 ∷ ts) s after.1
unfolding receive_step shut rebroadcast
receive_step-Changes failed n b ts s = inl (refl, refl)
receive_step-Changes disconnected n b ts s = inl (refl, refl)
receive_step-Changes (bytes first others) n b ts s =
    elim (Bool-cases (is_quit (splice 0 (first ∷ others) b))) [
      | inl q ↦ rw q (inl (refl, broadcast-accepted s.accepted _))
      | inr q ↦ rw q (inl (refl, broadcast-accepted s.accepted _))
    ]

server_receiver-Changes :
    (p : Phase) (r : Recv) (n : ℕ) (b : List ℕ) (ts : List Thread) (s : Server)
    → let t = thread_of n b p in
      IsDistinct (sockets (t ∷ ts))
      → let after = server_receiver r t s in Changes (t ∷ ts) (after.0 ∷ ts) s after.1
unfolding server_receiver delete_step
server_receiver-Changes receiving r n b ts s d = receive_step-Changes r n b ts s
server_receiver-Changes closed r n b ts s d =
    inr (n, λ x a. a.0, sym (delete-first n (sockets ts) d.0), refl)
server_receiver-Changes done r n b ts s d = inl (refl, refl)

Changes-cons :
    (n : ℕ) (ns ns' : List ℕ) (s s' : Server)
    → Absent n ns
    → SocketChanges ns ns' s s'
    → SocketChanges (n ∷ ns) (n ∷ ns') s s'
Changes-cons n ns ns' s s' a (inl c) = inl (ap (λ l. n ∷ l) c.0, c.1)
Changes-cons n ns ns' s s' a (inr c) =
    inr (c.0, λ x b. c.1 x b.1, ap (λ l. n ∷ l) c.2 ∙ sym (delete-other c.0 n ns (c.1 n a)), c.3)

-- The thread in front is not concerned.
Changes-behind :
    (p : Phase) (n : ℕ) (b : List ℕ) (ts ts' : List Thread) (s s' : Server)
    → let t = thread_of n b p in
      IsDistinct (sockets (t ∷ ts)) → Changes ts ts' s s' → Changes (t ∷ ts) (t ∷ ts') s s'
Changes-behind done n b ts ts' s s' d h = h
Changes-behind receiving n b ts ts' s s' d h = Changes-cons n (sockets ts) (sockets ts') s s' d.0 h
Changes-behind closed n b ts ts' s s' d h = Changes-cons n (sockets ts) (sockets ts') s s' d.0 h

IsDistinct-behind :
    (p : Phase) (n : ℕ) (b : List ℕ) (ts : List Thread)
    → IsDistinct (sockets (thread_of n b p ∷ ts))
    → IsDistinct (sockets ts)
IsDistinct-behind receiving n b ts d = d.1
IsDistinct-behind closed n b ts d = d.1
IsDistinct-behind done n b ts d = d

turn_at-Changes :
    (i : ℕ) (r : Recv) (ts : List Thread) (s : Server)
    → IsDistinct (sockets ts)
    → let after = turn_at i r ts s in Changes ts after.0 s after.1
unfolding turn_at
turn_at-Changes zero r [] s d = inl (refl, refl)
turn_at-Changes (suc i) r [] s d = inl (refl, refl)
turn_at-Changes zero r (t ∷ ts) s d =
    server_receiver-Changes t.phase r t.sockfd t.receiver_buffer ts s d
turn_at-Changes (suc i) r (t ∷ ts) s d =
    let after = turn_at i r ts s in
    let ih = turn_at-Changes i r ts s (IsDistinct-behind t.phase t.sockfd t.receiver_buffer ts d) in
    Changes-behind t.phase t.sockfd t.receiver_buffer ts after.0 s after.1 d ih

with_socket-append :
    (p : Phase) (m n : ℕ) (b : List ℕ) (ts : List Thread)
    → sockets (ts ++ (new_thread n ∷ [])) ≡ sockets ts ++ (n ∷ [])
    → let t = thread_of m b p in
      sockets (t ∷ (ts ++ (new_thread n ∷ []))) ≡ sockets (t ∷ ts) ++ (n ∷ [])
with_socket-append receiving m n b ts e = ap (λ l. m ∷ l) e
with_socket-append closed m n b ts e = ap (λ l. m ∷ l) e
with_socket-append done m n b ts e = e

sockets-append :
    (ts : List Thread) (n : ℕ) → sockets (ts ++ (new_thread n ∷ [])) ≡ sockets ts ++ (n ∷ [])
sockets-append [] n = refl
sockets-append (t ∷ ts) n =
    with_socket-append t.phase t.sockfd n t.receiver_buffer ts (sockets-append ts n)

perform-IsServed : (a : Action) (y : System) → IsFresh a y → IsServed y → IsServed (perform a y)
unfolding perform accept_round
perform-IsServed (accept n thread) y f h =
    let e = sockets-append y.running n in
    (
      ap (λ l. l ++ (n ∷ [])) h.0 ∙ sym e,
      subst (λ l. IsDistinct l) (sym e) (append-IsDistinct n (sockets y.running) h.1 f),
    )
perform-IsServed (turn i r) y f h = elim (turn_at-Changes i r y.running y.server h.1) [
  | inl c ↦ (c.1 ∙ h.0 ∙ sym c.0, subst (λ l. IsDistinct l) (sym c.0) h.1)
  | inr c ↦ (
    c.3 ∙ ap (delete_integer_targets c.0) h.0 ∙ sym c.2,
    subst (λ l. IsDistinct l) (sym c.2) (delete-IsDistinct c.0 (sockets y.running) h.1),
  )
]

run-keeps :
    (actions : List Action) (y : System)
    → AreFresh actions y
    → IsServed y
    → IsServed (run actions y)
unfolding run
run-keeps [] y f h = h
run-keeps (a ∷ rest) y f h = run-keeps rest (perform a y) f.1 (perform-IsServed a y f.0 h)

-- From the start of the server, whatever the order in which connections are accepted and the
-- threads take their turns and whatever they receive, as long as accept() never returns a number
-- that a thread still uses: the queue that broadcasts go to holds exactly the sockets of the
-- threads that are not done, in the order of their arrival and each once.
pub run-IsServed :
    (actions : List Action) → AreFresh actions started → IsServed (run actions started)
run-IsServed actions f = run-keeps actions started f (refl, tt)
