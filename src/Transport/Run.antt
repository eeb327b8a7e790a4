-- ===== src/Transport/Run.antt =====
-- Any sequence of steps keeps what holds of the two sides, from the state that opening the
-- connection leaves.
use cosc_60_computer_network.Prelude.{
  ℕ, zero, suc, ◌+◌, ◌^◌, ◌<◌, ◌≡◌, refl, sym, ap, ◌∙◌, Option, none, some, List, [], ◌∷◌, ◌++◌,
  length, get_elem?, length-append, Yields, yields, Yields->>=, Yields-weaken, arith,
}
use mathlib.Core.Path.{subst}
use cosc_60_computer_network.Bytes.{take-append_le}
use cosc_60_computer_network.Receiver.State.{SockaddrIn, Ptr, Sender, Receiver}
use cosc_60_computer_network.Transport.{
  Net, Action, send, buffer, arrive, acknowledge, read, arrived, acknowledged, act, run,
}
use cosc_60_computer_network.Transport.Datagrams.{IsData, empty, fragment, IsAdat}
use cosc_60_computer_network.Transport.Progress.{HasTaken, joined}
use cosc_60_computer_network.Transport.Buffering.{Submits, send_round-Submits}
use cosc_60_computer_network.Transport.InStep.{
  All-map, All-get_elem?, InStep, send-InStep, receive-InStep, acknowledge-InStep, read-InStep,
}

get_elem?-append :
    (xs ys : List (List ℕ)) (i : ℕ) {q : List ℕ}
    → get_elem? xs i ≡ some q
    → get_elem? (xs ++ ys) i ≡ some q
get_elem?-append [] ys i e = absurd (cc)
get_elem?-append (x ∷ xs) ys zero e = e
get_elem?-append (x ∷ xs) ys (suc i) e = get_elem?-append xs ys i e

-- A longer stream still has what the shorter one had.
pub IsData-append :
    (submitted extra : List (List ℕ)) (d : List ℕ)
    → IsData submitted d
    → IsData (submitted ++ extra) d
IsData-append submitted extra d (empty size shows) = empty size shows
IsData-append submitted extra d (fragment i q here size short shows same) =
    fragment i q (get_elem?-append submitted extra i here) size short shows same

pub HasTaken-append :
    (submitted extra : List (List ℕ)) (id : SockaddrIn) (p : Ptr) (got : List ℕ) (m : ℕ)
    (s : Sender) (r : Receiver)
    → HasTaken submitted id p got m s r
    → HasTaken (submitted ++ extra) id p got m s r
HasTaken-append submitted extra id p got m s r h = record {
  heard = h.heard;
  few = omega (arith, h.few, length-append submitted extra);
  next = h.next;
  bytes = h.bytes ∙ ap joined (sym (take-append_le m submitted extra h.few));
}

abbrev pub Submits-InStep :
    (id : SockaddrIn) (p : Ptr) (size : ℕ) (n n' : Net) (h : InStep id p size n)
    → Submits n h.acked n'
    → InStep id p (size + 1) n'
Submits-InStep id p size n n' h s = record {
  acked = h.acked;
  taken_in = h.taken_in;
  sender = h.sender;
  windows = s.windows;
  has =
      rw (s.grows, s.same_delivered, s.same_receiver)
        (HasTaken-append n.submitted s.extra id p n.delivered h.taken_in h.sender n.receiver h.has);
  data_sent =
      rw (s.grows, s.same_to_receiver)
        (All-map n.to_receiver (λ d is. IsData-append n.submitted s.extra d is) h.data_sent);
  adats_sent = rw s.same_to_sender h.adats_sent;
  acked_le = h.acked_le;
  size_le =
      omega (arith, h.size_le, s.at_most_one, length-append n.submitted s.extra, ap length s.grows);
}

pub weaken :
    {id : SockaddrIn} {p : Ptr} {size : ℕ} {n : Net} → InStep id p size n → InStep id p (size + 1) n
weaken h = record {
  acked = h.acked;
  taken_in = h.taken_in;
  sender = h.sender;
  windows = h.windows;
  has = h.has;
  data_sent = h.data_sent;
  adats_sent = h.adats_sent;
  acked_le = h.acked_le;
  size_le = omega (arith, h.size_le);
}

module _ (id : SockaddrIn) (p : Ptr) (size : ℕ) (small : size + 1 < 2 ^ 31) where
  arrived-InStep :
      (n : Net) (block : ℕ) (garbage : List ℕ) (o : Option (List ℕ))
      → ((d : List ℕ) → o ≡ some d → IsData n.submitted d)
      → InStep id p size n
      → Yields (InStep id p size) (arrived id block garbage n o)
  arrived-InStep n block garbage none is h = yields h
  arrived-InStep n block garbage (some d) is h =
      receive-InStep id p size small n block garbage d h (is d refl)

  acknowledged-InStep :
      (n : Net) (o : Option (List ℕ)) (h : InStep id p size n)
      → ((d : List ℕ) → o ≡ some d → IsAdat h.taken_in d)
      → Yields (InStep id p size) (acknowledged n o)
  acknowledged-InStep n none h is = yields h
  acknowledged-InStep n (some d) h is = acknowledge-InStep id p size small n d h (is d refl)

  pub act-InStep :
      (a : Action) (n : Net) → InStep id p size n → Yields (InStep id p (size + 1)) (act id a n)
  unfolding act
  act-InStep send n h = Yields-weaken (send-InStep id p size small n h) (λ n' h'. weaken h')
  act-InStep (buffer final bytes copied) n h =
      Yields-weaken (send_round-Submits n h.acked copied final bytes h.windows)
        (λ n' s. Submits-InStep id p size n n' h s)
  act-InStep (arrive place block garbage) n h =
      Yields-weaken
        (arrived-InStep n block garbage (get_elem? n.to_receiver place)
          (λ d e. All-get_elem? (IsData n.submitted) n.to_receiver place e h.data_sent) h)
        (λ n' h'. weaken h')
  act-InStep (acknowledge place) n h =
      Yields-weaken
        (acknowledged-InStep n (get_elem? n.to_sender place) h
          (λ d e. All-get_elem? (IsAdat h.taken_in) n.to_sender place e h.adats_sent))
        (λ n' h'. weaken h')
  act-InStep (read len) n h =
      Yields-weaken (read-InStep id p size small n len h) (λ n' h'. weaken h')

pub run-size :
    (id : SockaddrIn) (p : Ptr) (size : ℕ) (actions : List Action) (n : Net)
    → size + length actions + 1 < 2 ^ 31
    → InStep id p size n
    → Yields (InStep id p (size + length actions)) (run id actions n)
unfolding run
run-size id p size [] n small h =
    yields (subst (λ k. InStep id p k n) {x = size} {y = size + 0} (omega arith) h)
run-size id p size (a ∷ actions) n small h =
    Yields->>= (act-InStep id p size (omega arith) a n h) (λ n' h'.
      subst (λ k. Yields (InStep id p k) (run id actions n')) {x = size + 1 + length actions}
        {y = size + suc (length actions)} (omega arith)
        (run-size id p (size + 1) actions n' (omega arith) h'))
