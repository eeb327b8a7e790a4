-- ===== src/Transport/Progress.antt =====
-- A DATA of the stream that comes in is the next fragment, and is buffered where there is room, or
-- changes nothing; and a read hands on what is buffered.
use cosc_60_computer_network.Prelude.{
  ℕ, zero, suc, ◌+◌, ◌-◌, ◌^◌, ◌≤◌, ◌<◌, ◌≡◌, refl, sym, ap, ◌∙◌, true, false, some, List, [], ◌∷◌,
  ◌++◌, length, take, get_elem?, inl, inr, Bool-cases, append-nil, append_assoc, Yields,
  Yields-weaken, arith,
}
use mathlib.Core.Path.{subst}
use cosc_60_computer_network.Prelude.Int.{
  ℤ, pos, negsuc, ◌+ℤ◌, wrap, sub_ℕ, ◌-ℤ◌, ltb_ℤ, ◌==ℤ◌, IsInt,
}
use cosc_60_computer_network.Bytes.{slice, length-splice}
use cosc_60_computer_network.Mrt.{data_type}
use cosc_60_computer_network.Packet.{get_int, receive}
use cosc_60_computer_network.Packet.Seal.{length-receive}
use cosc_60_computer_network.Receiver.State.{SockaddrIn, Ptr, Sender, Receiver}
use cosc_60_computer_network.Receiver.Handle.{Arrival, Outcome, handle_datagram}
use cosc_60_computer_network.Receiver.Invariant.Parts.{
  takes, taken, window_of, takes-true, buffer_payload-taken, buffer_payload-dropped,
}
use cosc_60_computer_network.Receiver.Deliver.{unread, unread-taken}
use cosc_60_computer_network.Receiver.Deliver.Stream.{wrap_suc}
use cosc_60_computer_network.Transport.Datagrams.{Shows, IsData, empty, fragment}
use cosc_60_computer_network.Transport.Receiving.{Hears, AllAdats, Newest, handle_datagram-Answered}

-- The bytes of the payloads, one after the other.
abbrev pub joined : List (List ℕ) → List ℕ
joined [] = []
joined (p ∷ ps) = p ++ joined ps

pub joined-take_suc :
    (ps : List (List ℕ)) (m : ℕ) {p : List ℕ}
    → get_elem? ps m ≡ some p
    → joined (take (m + 1) ps) ≡ joined (take m ps) ++ p
joined-take_suc [] m e = absurd (cc)
joined-take_suc (q ∷ ps) zero {p} e = let same : q ≡ p = cc in append-nil q ∙ same
joined-take_suc (q ∷ ps) (suc m) {p} e =
    let sum : suc m + 1 ≡ suc (m + 1) = omega arith in
    rw sum (ap (λ l. q ++ l) (joined-take_suc ps m e) ∙ sym (append_assoc q (joined (take m ps)) p))

-- The sender at `p` has taken in `m` payloads of the stream, and has handed on `got`.
pub record HasTaken (submitted : List (List ℕ)) (id : SockaddrIn) (p : Ptr) (got : List ℕ) (m : ℕ)
    (s : Sender) (r : Receiver) : Type 0 where
  pub heard : Hears id p s r
  pub few : m ≤ length submitted
  pub next : s.next_frag ≡ pos (m + 1)
  pub bytes : got ++ unread s ≡ joined (take m submitted)

-- What a DATA with the number `frag` leaves. With nothing unread before, the window has room for
-- another payload, and the expected fragment is taken in.
pub record Advances (submitted : List (List ℕ)) (id : SockaddrIn) (p : Ptr) (got : List ℕ) (m : ℕ)
    (unread_before : ℕ) (frag : ℤ) (o : Outcome) : Type 0 where
  pub sender : Sender
  pub taken_in : ℕ
  pub more : m ≤ taken_in
  pub has : HasTaken submitted id p got taken_in sender o.0
  pub adats : AllAdats taken_in o.1
  pub window : ℤ
  pub newest : Newest taken_in window o.1
  pub roomy : unread_before ≡ 0 → ltb_ℤ window (pos 488) ≡ false
  pub expected_in : unread_before ≡ 0 → frag ≡ pos (m + 1) → taken_in ≡ m + 1

present : (ps : List (List ℕ)) (i : ℕ) {p : List ℕ} → get_elem? ps i ≡ some p → i < length ps
present [] i e = cc
present (q ∷ ps) zero e = omega arith
present (q ∷ ps) (suc i) e = omega (arith, present ps i e)

window-IsInt : (u : ℕ) → u ≤ 2440 → IsInt (sub_ℕ 2440 u)
window-IsInt u h = ground arith

left-IsInt : (u k : ℕ) → u + k ≤ 2440 → IsInt (sub_ℕ 2440 u -ℤ pos k)
left-IsInt u k h = ground arith

next_is : (i m : ℕ) → pos (m + 1) ≡ pos (i + 1) → i ≡ m
next_is i m e = ground arith

not_next : (n k : ℕ) (s : Sender) → s.next_frag ≡ pos k → takes n (negsuc 0) s ≡ false
not_next n k s e =
    let miss : (s.next_frag ==ℤ negsuc 0) ≡ false = ground arith in ground (arith, miss)

roomy_lem : (u k : ℕ) → u ≡ 0 → k ≤ 488 → ltb_ℤ (sub_ℕ 2440 u -ℤ pos k) (pos 488) ≡ false
roomy_lem u k e h = ground arith

roomy_empty : (u : ℕ) → u ≡ 0 → ltb_ℤ (sub_ℕ 2440 u) (pos 488) ≡ false
roomy_empty u e = ground arith

-- The expected fragment is taken where nothing is unread.
refused :
    (n : ℕ) (frag : ℤ) (s : Sender) (m : ℕ)
    → n ≤ 508
    → s.bytes_unread ≡ 0
    → s.next_frag ≡ pos (m + 1)
    → frag ≡ pos (m + 1)
    → takes n frag s ≡ false
    → ⊥
refused n frag s m fits none_unread next same e = ground arith

module _ (submitted : List (List ℕ)) (a : Arrival) (p : Ptr) (got : List ℕ) (m : ℕ) (s : Sender)
    (r : Receiver) (h : HasTaken submitted a.source p got m s r)
    (small : length submitted + 1 < 2 ^ 31) where
  -- Nothing is taken.
  unchanged :
      (frag : ℤ)
      → Shows 509 data_type frag a.datagram
      → takes (length a.datagram) frag s ≡ false
      → length a.datagram ≤ 508
      → Yields (Advances submitted a.source p got m s.bytes_unread frag) (handle_datagram a r)
  unchanged frag shows e fits =
      Yields-weaken
        (handle_datagram-Answered a p r s s frag (window_of s) m h.heard shows
          (buffer_payload-dropped (length a.datagram) frag (receive a.datagram r.incoming_buffer) s
            e)
          h.heard.valid refl h.next (omega (arith, h.few))
          (window-IsInt s.bytes_unread h.heard.valid.within))
        (λ o (heard, adats, newest). record {
          sender = record s { inactive_time = 0 };
          taken_in = m;
          more = omega arith;
          has = record { heard = heard; few = h.few; next = h.next; bytes = h.bytes };
          adats = adats;
          window = window_of s;
          newest = newest;
          roomy = λ z. roomy_empty s.bytes_unread z;
          expected_in = λ z f. absurd (refused (length a.datagram) frag s m fits z h.next f e);
        })

  -- The next fragment is taken.
  advanced :
      (q : List ℕ)
      → Shows 509 data_type (pos (m + 1)) a.datagram
      → get_elem? submitted m ≡ some q
      → length a.datagram ≡ 20 + length q
      → length q ≤ 488
      → slice 20 (length q) (receive a.datagram r.incoming_buffer) ≡ q
      → takes (length a.datagram) (pos (m + 1)) s ≡ true
      → Yields
          (Advances submitted a.source p got m s.bytes_unread (pos (m + 1)))
          (handle_datagram a r)
  advanced q shows here size short same e =
      let n = length a.datagram in
      let incoming = receive a.datagram r.incoming_buffer in
      let room : length incoming ≡ 509 =
        length-receive a.datagram r.incoming_buffer ∙ h.heard.incoming_size in
      let n_q : n - 20 ≡ length q = omega arith in
      let inside : n ≤ length incoming = omega arith in
      let (long, fit, expected) =
        takes-true n (pos (m + 1)) s (inl (omega arith)) h.heard.valid.within e in
      let next : (taken n incoming s).next_frag ≡ pos (m + 1 + 1) =
        ap (λ z. wrap (z +ℤ pos 1)) h.next
        ∙ wrap_suc (m + 1) (omega (arith, present submitted m here)) in
      Yields-weaken
        (handle_datagram-Answered a p r s (taken n incoming s) (pos (m + 1))
          (window_of s -ℤ pos (n - 20)) (m + 1) h.heard shows
          (buffer_payload-taken n (pos (m + 1)) incoming s e long)
          (record { size = length-splice _ _ s.buffer ∙ h.heard.valid.size; within = fit }) refl
          next (omega (arith, present submitted m here)) (left-IsInt s.bytes_unread (n - 20) fit))
        (λ o (heard, adats, newest). record {
          sender = record (taken n incoming s) { inactive_time = 0 };
          taken_in = m + 1;
          more = omega arith;
          has = record {
            heard = heard;
            few = omega (arith, present submitted m here);
            next = next;
            bytes =
                ap (λ l. got ++ l)
                  (unread-taken n incoming s h.heard.valid long inside fit
                    ∙ ap (λ l. unread s ++ l) (ap (λ k. slice 20 k incoming) n_q ∙ same))
                ∙ sym (append_assoc got (unread s) q)
                ∙ ap (λ l. l ++ q) h.bytes
                ∙ sym (joined-take_suc submitted m here);
          };
          adats = adats;
          window = window_of s -ℤ pos (n - 20);
          newest = newest;
          roomy = λ z. roomy_lem s.bytes_unread (n - 20) z (omega arith);
          expected_in = λ z f. refl;
        })

  -- A DATA takes in one payload more or none.
  pub arrive-Advances :
      IsData submitted a.datagram
      → Yields
          (Advances submitted a.source p got m s.bytes_unread
            (get_int 12 (receive a.datagram r.incoming_buffer)))
          (handle_datagram a r)
  arrive-Advances (empty size shows) =
      rw (shows.frag_read r.incoming_buffer h.heard.incoming_size)
        (unchanged (negsuc 0) shows (not_next (length a.datagram) (m + 1) s h.next) (omega arith))
  arrive-Advances (fragment i q here size short shows same) =
      elim (Bool-cases (takes (length a.datagram) (pos (i + 1)) s)) [
        | inl e ↦
            let (long, fit, expected) =
              takes-true (length a.datagram) (pos (i + 1)) s (inl (omega arith))
                h.heard.valid.within e in
            let im : i ≡ m = next_is i m (sym h.next ∙ expected) in
            rw (shows.frag_read r.incoming_buffer h.heard.incoming_size, im)
              (advanced q (subst (λ j. Shows 509 data_type (pos (j + 1)) a.datagram) im shows)
                (ap (λ j. get_elem? submitted j) (sym im) ∙ here) size short
                (same r.incoming_buffer h.heard.incoming_size)
                (ap (λ j. takes (length a.datagram) (pos (j + 1)) s) (sym im) ∙ e))
        | inr e ↦
            rw (shows.frag_read r.incoming_buffer h.heard.incoming_size)
              (unchanged (pos (i + 1)) shows e (omega arith))
      ]
