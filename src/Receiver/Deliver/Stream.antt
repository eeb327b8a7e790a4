-- ===== src/Receiver/Deliver/Stream.antt =====
-- A sender's byte stream through loss, duplication and reordering: whatever arrives and however
-- much is read, the user gets the fragments from the expected one on, each once and in order.
use cosc_60_computer_network.Prelude.{
  ℕ, zero, suc, ◌+◌, ◌-◌, ◌^◌, ◌≤◌, ◌<◌, ◌≡◌, sym, ap, ap₂, ◌∙◌, Option, some, List, [], ◌∷◌, ◌++◌,
  length, take, inl, inr, Bool-cases, Yields, yields, append-nil, append_assoc, arith, ◌>>=◌,
}
use mathlib.Core.Path.{subst}
use cosc_60_computer_network.Prelude.Int.{ℤ, pos, ◌+ℤ◌, wrap, wrap_lem}
use cosc_60_computer_network.Bytes.{slice, length-splice}
use cosc_60_computer_network.Receiver.State.{Sender}
use cosc_60_computer_network.Receiver.Handle.{buffer_payload}
use cosc_60_computer_network.Receiver.Api.{bytes_to_read, take_unread}
use cosc_60_computer_network.Receiver.Invariant.{IsValidSender}
use cosc_60_computer_network.Receiver.Invariant.Parts.{
  takes, takes-true, buffer_payload-taken, buffer_payload-dropped,
}
use cosc_60_computer_network.Receiver.Invariant.Calls.{take_unread-IsValidSender}
use cosc_60_computer_network.Receiver.Deliver.{unread, unread-taken, take_unread-append}

-- What happens to a connected sender: a DATA of `n` bytes is in the buffer, or its user reads.
pub data Event : Type 0 where
  arrive : (n : ℕ) → ℤ → List ℕ → Event
  read : ℕ → Event

-- The sender after one event, and the bytes that its user has got.
pub happen : Event → Sender → Option (List ℕ × Sender)
happen (arrive n frag incoming) s = buffer_payload n frag incoming s >>= λ r. some ([], r.0)
happen (read len) s =
    some (take (bytes_to_read len s) s.buffer, take_unread (bytes_to_read len s) s)

pub run : List Event → Sender → Option (List ℕ × Sender)
run [] s = some ([], s)
run (e ∷ es) s = happen e s >>= λ a. run es a.1 >>= λ b. some (a.0 ++ b.0, b.1)

pub next_frag-take_unread : (n : ℕ) (s : Sender) → (take_unread n s).next_frag ≡ s.next_frag
unfolding take_unread
next_frag-take_unread n s = ground arith

pub wrap_suc : (k : ℕ) → k + 1 < 2 ^ 31 → wrap (pos k +ℤ pos 1) ≡ pos (k + 1)
wrap_suc k h =
    let e : pos k +ℤ pos 1 ≡ pos (k + 1) = ground arith in
    ap wrap e ∙ wrap_lem (pos (k + 1)) (omega arith)

module _ (fragment : ℕ → List ℕ) where
  -- The bytes of the fragments `k`, `k + 1`, …, `k + n - 1`.
  abbrev pub fragments : ℕ → ℕ → List ℕ
  fragments k zero = []
  fragments k (suc n) = fragment k ++ fragments (suc k) n

  -- A DATA carries the fragment that its number says, and has a whole header.
  abbrev pub Genuine : Event → Type 0
  Genuine (arrive n frag incoming) =
      (20 ≤ n)
      × (n ≤ length incoming)
      × ((k : ℕ) → frag ≡ pos k → slice 20 (n - 20) incoming ≡ fragment k)
  Genuine (read len) = Unit

  abbrev pub AllGenuine : List Event → Type 0
  AllGenuine [] = Unit
  AllGenuine (e ∷ es) = Genuine e × AllGenuine es

  -- From the fragment `k` on: what was unread, and some number of whole fragments, are what the user
  -- has got and what is unread now.
  pub record Delivers (k room : ℕ) (before : List ℕ) (got : List ℕ) (s : Sender) : Type 0 where
    pub taken_in : ℕ
    pub valid : IsValidSender s
    pub few : taken_in ≤ room
    pub next : s.next_frag ≡ pos (k + taken_in)
    pub bytes : got ++ unread s ≡ before ++ fragments k taken_in

  happen-Delivers :
      (e : Event) (s : Sender) (k : ℕ)
      → IsValidSender s
      → s.next_frag ≡ pos k
      → k + 1 < 2 ^ 31
      → Genuine e
      → Yields {A = List ℕ × Sender} (λ a. Delivers k 1 (unread s) a.0 a.1) (happen e s)
  unfolding happen
  happen-Delivers (read len) s k v ek small g = yields (record {
    taken_in = 0;
    valid = take_unread-IsValidSender (bytes_to_read len s) s v;
    few = omega arith;
    next = next_frag-take_unread (bytes_to_read len s) s ∙ ek ∙ ap pos (omega arith);
    bytes = take_unread-append len s v ∙ sym (append-nil (unread s));
  })
  happen-Delivers (arrive n frag incoming) s k v ek small (long, inside, genuine) =
      elim (Bool-cases (takes n frag s)) [
        | inl t ↦
            let (_, fit, same) = takes-true n frag s (inl long) v.within t in
            rw (buffer_payload-taken n frag incoming s t long) (
              yields (record {
                taken_in = 1;
                valid = record { size = length-splice _ _ s.buffer ∙ v.size; within = fit };
                few = omega arith;
                next = ap (λ z. wrap (z +ℤ pos 1)) ek ∙ wrap_suc k small;
                bytes =
                    unread-taken n incoming s v long inside fit
                    ∙ ap (λ l. unread s ++ l)
                        (genuine k (sym same ∙ ek) ∙ sym (append-nil (fragment k)));
              }))
        | inr f ↦ rw (buffer_payload-dropped n frag incoming s f) (
            yields (record {
              taken_in = 0;
              valid = v;
              few = omega arith;
              next = ek ∙ ap pos (omega arith);
              bytes = sym (append-nil (unread s));
            }))
      ]

  fragments-append : (k m n : ℕ) → fragments k (m + n) ≡ fragments k m ++ fragments (k + m) n
  fragments-append k zero n = ap₂ fragments (omega arith) (omega arith)
  fragments-append k (suc m) n =
      let e : suc m + n ≡ suc (m + n) = omega arith in
      let e' : suc k + m ≡ k + suc m = omega arith in
      rw e (
        ap (λ l. fragment k ++ l)
          (fragments-append (suc k) m n ∙ ap (λ j. fragments (suc k) m ++ fragments j n) e')
        ∙ sym (append_assoc (fragment k) (fragments (suc k) m) (fragments (k + suc m) n)))

  -- One event, then the others.
  Delivers-trans :
      {k r1 r2 : ℕ} {before got1 got2 : List ℕ} {s t : Sender} (d : Delivers k r1 before got1 s)
      → Delivers (k + d.taken_in) r2 (unread s) got2 t
      → Delivers k (r1 + r2) before (got1 ++ got2) t
  Delivers-trans {k} {before} {got1} {got2} {s} {t} d e = record {
    taken_in = d.taken_in + e.taken_in;
    valid = e.valid;
    few = omega (arith, d.few, e.few);
    next = e.next ∙ ap pos (omega arith);
    bytes =
        append_assoc got1 got2 (unread t)
        ∙ ap (λ l. got1 ++ l) e.bytes
        ∙ sym (append_assoc got1 (unread s) (fragments (k + d.taken_in) e.taken_in))
        ∙ ap (λ l. l ++ fragments (k + d.taken_in) e.taken_in) d.bytes
        ∙ append_assoc before (fragments k d.taken_in) (fragments (k + d.taken_in) e.taken_in)
        ∙ ap (λ l. before ++ l) (sym (fragments-append k d.taken_in e.taken_in));
  }

  Delivers-then :
      {k r1 r2 : ℕ} {before got : List ℕ} {t : Sender} {o : Option (List ℕ × Sender)}
      (d : Delivers k r1 before got t)
      → Yields {A = List ℕ × Sender} (λ b. Delivers (k + d.taken_in) r2 (unread t) b.0 b.1) o
      → Yields {A = List ℕ × Sender}
          (λ b. Delivers k (r1 + r2) before b.0 b.1)
          (o >>= λ b. some (got ++ b.0, b.1))
  Delivers-then d (yields e) = yields (Delivers-trans d e)

  run-step :
      (es : List Event) {before : List ℕ} {k room : ℕ} {o : Option (List ℕ × Sender)}
      → Yields {A = List ℕ × Sender} (λ a. Delivers k 1 before a.0 a.1) o
      → ((got : List ℕ) (t : Sender) (d : Delivers k 1 before got t)
          → Yields {A = List ℕ × Sender}
              (λ b. Delivers (k + d.taken_in) room (unread t) b.0 b.1)
              (run es t))
      → Yields {A = List ℕ × Sender}
          (λ b. Delivers k (1 + room) before b.0 b.1)
          (o >>= λ a. run es a.1 >>= λ b. some (a.0 ++ b.0, b.1))
  run-step es (yields {a} d) rest = Delivers-then d (rest a.0 a.1 d)

  -- Let the expected number not be negative, and let it and the number of arrivals and reads add up
  -- to less than 2^31. Whatever DATA arrive for a valid sender (lost, repeated or out of order, as
  -- long as each carries the fragment of its number behind a whole header) and however much its user
  -- reads in between, nothing faults, and the bytes read and the bytes unread are the bytes that were unread
  -- and then the fragments from the expected one on, each once and in order; the next expected
  -- number is the one behind them.
  pub run-Delivers :
      (es : List Event) (s : Sender) (k : ℕ)
      → IsValidSender s
      → s.next_frag ≡ pos k
      → k + length es < 2 ^ 31
      → AllGenuine es
      → Yields {A = List ℕ × Sender} (λ a. Delivers k (length es) (unread s) a.0 a.1) (run es s)
  unfolding run
  run-Delivers [] s k v ek small g = yields (record {
    taken_in = 0;
    valid = v;
    few = omega arith;
    next = ek ∙ ap pos (omega arith);
    bytes = sym (append-nil (unread s));
  })
  run-Delivers (e ∷ es) s k v ek small g =
      let sum : 1 + length es ≡ suc (length es) = omega arith in
      subst
        (λ n. Yields {A = List ℕ × Sender} (λ b. Delivers k n (unread s) b.0 b.1) (run (e ∷ es) s))
        sum
        (run-step es (happen-Delivers e s k v ek (omega arith) g.0)
          (λ got t d. run-Delivers es t (k + d.taken_in) d.valid d.next (omega (arith, d.few)) g.1))
