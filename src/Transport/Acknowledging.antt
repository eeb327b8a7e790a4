-- ===== src/Transport/Acknowledging.antt =====
-- The sender's window is the end of the stream, and an ADAT moves it on.
use cosc_60_computer_network.Prelude.{
  ℕ, ◌+◌, ◌-◌, ◌^◌, ◌≤◌, ◌<◌, ◌≡◌, refl, sym, ap, ◌∙◌, ◌⊎◌, List, length, drop, leb, inl, inr,
  Bool-cases, length-drop, Yields, yields, Yields-weaken, Yields-Whenever, Whenever, gives, arith,
}
use native.Mathlib.Decide.{dec_le}
use cosc_60_computer_network.Prelude.Int.{ℤ, pos, negsuc, ◌-ℤ◌, wrap}
use cosc_60_computer_network.Bytes.{drop-drop}
use cosc_60_computer_network.Packet.{receive}
use cosc_60_computer_network.Sender.Moving.{free_payloads-Whenever}
use cosc_60_computer_network.Sender.State.{Connection}
use cosc_60_computer_network.Sender.Threads.{
  free_payloads, acknowledge, by_difference, handle_adat, dispatch, if_checked, handle_datagram,
}
use cosc_60_computer_network.Sender.Invariant.{IsValid}
use cosc_60_computer_network.Sender.Window.{window, HasWindow, length-payloads}
use cosc_60_computer_network.Sender.Window.Acknowledge.{handle_adat-frees, handle_adat-older}
use cosc_60_computer_network.Sender.Window.Handler.{received-IsValid, with_others}
use cosc_60_computer_network.Transport.Datagrams.{IsAdat, adat}

-- Of the stream, the first `a` payloads are acknowledged and the others stand in the window.
pub record Windows (submitted : List (List ℕ)) (a : ℕ) (c : Connection) : Type 0 where
  pub valid : IsValid c
  pub last : c.last_acknowledged_frag ≡ pos a
  pub rest : window c valid.count ≡ drop a submitted
  pub total : a + valid.count ≡ length submitted

free_payloads-frag :
    (n : ℕ) (left : ℤ) (c : Connection)
    → Whenever (λ c'. c'.last_acknowledged_frag ≡ c.last_acknowledged_frag) (free_payloads n left c)
free_payloads-frag n left c = free_payloads-Whenever n c (λ b l. refl) left

handle_adat-frag :
    (frag winsize : ℤ) (c : Connection) (n : ℕ)
    → wrap (frag -ℤ c.last_acknowledged_frag) ≡ pos n
    → Whenever (λ c'. c'.last_acknowledged_frag ≡ frag) (handle_adat frag winsize c)
unfolding handle_adat by_difference acknowledge
handle_adat-frag frag winsize c n e = elim (Bool-cases (leb n 0)) [
  | inl z ↦ rw (e, z) (gives refl)
  | inr p ↦ rw (e, p) (free_payloads-frag n _ _)
]

-- What an ADAT leaves: the window may have moved on, to a fragment that the ADAT acknowledges.
pub record MovesOn (submitted : List (List ℕ)) (a k : ℕ) (c : Connection) : Type 0 where
  pub now : ℕ
  pub windows : Windows submitted now c
  pub known : (now ≡ a) ⊎ (now ≤ k)

pub HasWindow-total :
    (submitted : List (List ℕ)) (i : ℕ) (c : Connection)
    → i ≤ length submitted
    → (h : HasWindow (drop i submitted) c) → i + h.valid.count ≡ length submitted
HasWindow-total submitted i c le h =
    let count : h.valid.count ≡ length submitted - i =
      sym (length-payloads c.num_bytes_buffered c.sender_buffer 0 h.valid.count)
      ∙ ap length h.contents
      ∙ length-drop i submitted in
    omega arith

new_lem : (i a : ℕ) → a ≤ i → i < 2 ^ 31 → wrap (pos i -ℤ pos a) ≡ pos (i - a)
new_lem i a h s = ground arith

old_lem : (i a : ℕ) → i < a → a < 2 ^ 31 → wrap (pos i -ℤ pos a) ≡ negsuc (a - i - 1)
old_lem i a h s = ground arith

moved :
    (submitted : List (List ℕ)) (a i k : ℕ) (c c' : Connection) (w : Windows submitted a c)
    → a ≤ i
    → i ≤ k
    → k ≤ length submitted
    → HasWindow (drop (i - a) (window c w.valid.count)) c'
    → c'.last_acknowledged_frag ≡ pos i
    → MovesOn submitted a k c'
moved submitted a i k c c' w new ik kl h last =
    let same : drop (i - a) (window c w.valid.count) ≡ drop i submitted =
      ap (drop (i - a)) w.rest ∙ drop-drop a (i - a) i submitted (omega arith) in
    record {
      now = i;
      windows = record {
        valid = h.valid;
        last = last;
        rest = h.contents ∙ same;
        total =
            HasWindow-total submitted i c' (omega arith)
              (record { valid = h.valid; contents = h.contents ∙ same });
      };
      known = inr ik;
    }

handle_adat-MovesOn :
    (submitted : List (List ℕ)) (a i k : ℕ) (winsize : ℤ) (c : Connection)
    → Windows submitted a c
    → i ≤ k
    → k ≤ length submitted
    → length submitted < 2 ^ 31
    → Yields (MovesOn submitted a k) (handle_adat (pos i) winsize c)
handle_adat-MovesOn submitted a i k winsize c w ik kl small = elim (dec_le a i) [
  | yes new ↦
      let diff : wrap (pos i -ℤ c.last_acknowledged_frag) ≡ pos (i - a) =
        ap (λ z. wrap (pos i -ℤ z)) w.last ∙ new_lem i a new (omega arith) in
      Yields-weaken
        (Yields-Whenever
          (handle_adat-frees c w.valid (pos i) winsize (i - a) diff (omega (arith, w.total)))
          (handle_adat-frag (pos i) winsize c (i - a) diff))
        (λ c' (h, last). moved submitted a i k c c' w new ik kl h last)
  | no old ↦
      let diff : wrap (pos i -ℤ c.last_acknowledged_frag) ≡ negsuc (a - i - 1) =
        ap (λ z. wrap (pos i -ℤ z)) w.last ∙ old_lem i a (omega arith) (omega (arith, w.total)) in
      rw (handle_adat-older c (pos i) winsize (a - i - 1) diff) (
        yields (record {
          now = a;
          windows = record {
            valid =
                with_others c c.last_acknowledged_frag c.receiver_window_size 0 c.sending c.checking
                  w.valid;
            last = w.last;
            rest = w.rest;
            total = w.total;
          };
          known = inl refl;
        }))
]

-- An ADAT of the receiver that comes in leaves the window as it is or moves it on.
pub handle_datagram-MovesOn :
    (submitted : List (List ℕ)) (a k : ℕ) (c : Connection) (d : List ℕ)
    → Windows submitted a c
    → IsAdat k d
    → k ≤ length submitted
    → length submitted < 2 ^ 31
    → Yields (MovesOn submitted a k) (handle_datagram d c)
unfolding handle_datagram if_checked dispatch
handle_datagram-MovesOn submitted a k c d w (adat i ik size shows) kl small =
    let v = received-IsValid d c w.valid (omega arith) in
    rw
      (
        shows.accepted c.incoming_buffer w.valid.incoming_size,
        shows.type_read c.incoming_buffer w.valid.incoming_size,
        shows.frag_read c.incoming_buffer w.valid.incoming_size,
      )
      (handle_adat-MovesOn submitted a i k _
        (record c { incoming_buffer = receive d c.incoming_buffer })
        (record { valid = v; last = w.last; rest = w.rest; total = w.total }) ik kl small)
