-- ===== src/Receiver/Invariant/Parts.antt =====
-- The parts of a step: a sender is written, a buffer is filled, and nothing faults.
use cosc_60_computer_network.Prelude.{
  ℕ, ◌+◌, ◌-◌, ◌≤◌, ◌<◌, ◌≡◌, ◌≢◌, ◌⊎◌, inl, inr, ap, ◌∙◌, Bool, true, false, ◌&&◌, Option, some,
  List, length, ◌==◌, Bool-cases, arith,
}
use cosc_60_computer_network.Prelude.Int.{ℤ, pos, ◌+ℤ◌, ◌-ℤ◌, sub_ℕ, leb_ℤ, ◌==ℤ◌, ==ℤ→≡, wrap}
use cosc_60_computer_network.Bytes.{splice, slice, length-splice}
use cosc_60_computer_network.Packet.{seal}
use cosc_60_computer_network.Packet.Seal.{seal-total}
use cosc_60_computer_network.Packet.Fields.{length-put_int}
use cosc_60_computer_network.Receiver.State.{
  Ptr, Sender, Receiver, Memory, SockaddrIn, update, receiver_max_window_size,
}
use cosc_60_computer_network.Receiver.Build.{build_acon, build_adat, build_acls}
use cosc_60_computer_network.Receiver.Lookup.{update-other, update_self}
use cosc_60_computer_network.Receiver.Handle.{Outcome, buffer_payload, copy_payload, send_adat}
use cosc_60_computer_network.Receiver.Invariant.{IsValid, IsValidSender, ValidAt}

module _ (outgoing : List ℕ) (size : length outgoing ≡ 21) where
  sealed_after :
      (n : ℕ) (b : List ℕ)
      → length b ≡ length outgoing
      → 8 ≤ n
      → n < 21
      → (o : List ℕ) × (seal n b ≡ some o) × (length o ≡ 21)
  sealed_after n b e lo hi =
      let (o, eo, el) = seal-total n b lo (omega arith) in (o, eo, omega arith)

  pub build_acon-total :
      (frag : ℤ) → (o : List ℕ) × (build_acon frag outgoing ≡ some o) × (length o ≡ 21)
  unfolding build_acon
  build_acon-total frag =
      sealed_after 20 _
        (length-put_int 16 _ _ ∙ length-put_int 12 _ _ ∙ length-put_int 8 _ outgoing) (omega arith)
        (omega arith)

  pub build_adat-total :
      (frag window : ℤ)
      → (o : List ℕ) × (build_adat frag window outgoing ≡ some o) × (length o ≡ 21)
  unfolding build_adat
  build_adat-total frag window =
      sealed_after 20 _
        (length-put_int 16 _ _ ∙ length-put_int 12 _ _ ∙ length-put_int 8 _ outgoing) (omega arith)
        (omega arith)

  pub build_acls-total : (o : List ℕ) × (build_acls outgoing ≡ some o) × (length o ≡ 21)
  unfolding build_acls
  build_acls-total = sealed_after 12 _ (length-put_int 8 _ outgoing) (omega arith) (omega arith)

pub ValidAt-update :
    (m : Memory) (p : Ptr) (s : Sender) (a : Ptr)
    → IsValidSender s
    → ((a == p) ≡ false → ValidAt m a)
    → ValidAt (update m p (some s)) a
ValidAt-update m p s a v old = elim (Bool-cases (a == p)) [
  | inl same ↦
      let e : a ≡ p = ground arith in (s, ap (update m p (some s)) e ∙ update_self m p (some s), v)
  | inr other ↦ let (t, mt, vt) = old other in (t, update-other m p (some s) a other ∙ mt, vt)
]

-- A held sender is written, and a transmission built.
pub write-IsValid :
    {r : Receiver} {flight : List Ptr} (p : Ptr) (s : Sender) (outgoing : List ℕ)
    → IsValid r flight
    → IsValidSender s
    → length outgoing ≡ 21
    → IsValid
        (record r { senders = update r.senders p (some s); outgoing_buffer = outgoing })
        flight
write-IsValid {r} p s outgoing v vs size = record {
  once = v.once;
  valid = λ a h. ValidAt-update r.senders p s a vs (λ _. v.valid a h);
  pending_live = v.pending_live;
  connected_live = v.connected_live;
  incoming_size = v.incoming_size;
  incoming_nul = v.incoming_nul;
  outgoing_size = size;
}

-- The next DATA of a sender is no shorter than a header, or not the fragment that is expected.
abbrev pub NotShort : ℕ → ℤ → Sender → Type 0
NotShort n frag s = (20 ≤ n) ⊎ (s.next_frag ≢ frag)

-- The test of the code: there is space, and the fragment is the next one.
abbrev pub takes : ℕ → ℤ → Sender → Bool
takes n frag s =
    leb_ℤ (sub_ℕ n 20) (sub_ℕ receiver_max_window_size s.bytes_unread) && (s.next_frag ==ℤ frag)

-- The sender behind a payload of `n - 20` bytes.
abbrev pub taken : ℕ → List ℕ → Sender → Sender
taken n incoming s = record s {
  buffer = splice s.bytes_unread (slice 20 (n - 20) incoming) s.buffer;
  bytes_unread = s.bytes_unread + (n - 20);
  next_frag = wrap (s.next_frag +ℤ pos 1);
}

abbrev pub window_of : Sender → ℤ
window_of s = sub_ℕ receiver_max_window_size s.bytes_unread

pub buffer_payload-dropped :
    (n : ℕ) (frag : ℤ) (incoming : List ℕ) (s : Sender)
    → takes n frag s ≡ false
    → buffer_payload n frag incoming s ≡ some (s, window_of s)
unfolding buffer_payload
buffer_payload-dropped n frag incoming s e = rw e

pub takes-true :
    (n : ℕ) (frag : ℤ) (s : Sender)
    → NotShort n frag s
    → s.bytes_unread ≤ receiver_max_window_size
    → takes n frag s ≡ true
    → (20 ≤ n) × (s.bytes_unread + (n - 20) ≤ receiver_max_window_size) × (s.next_frag ≡ frag)
takes-true n frag s fits within e =
    let same : s.next_frag ≡ frag = ==ℤ→≡ s.next_frag frag (ground arith) in
    let long : 20 ≤ n = ground arith in (long, ground arith, same)

pub buffer_payload-taken :
    (n : ℕ) (frag : ℤ) (incoming : List ℕ) (s : Sender)
    → takes n frag s ≡ true
    → 20 ≤ n
    → buffer_payload n frag incoming s ≡ some (taken n incoming s, window_of s -ℤ pos (n - 20))
unfolding buffer_payload copy_payload
buffer_payload-taken n frag incoming s e long =
    let size : sub_ℕ n 20 ≡ pos (n - 20) = ground arith in rw (e, size)

pub buffer_payload-IsValidSender :
    (n : ℕ) (frag : ℤ) (incoming : List ℕ) (s : Sender)
    → IsValidSender s
    → NotShort n frag s
    → (s' : Sender) × (w : ℤ) × (buffer_payload n frag incoming s ≡ some (s', w)) × IsValidSender s'
buffer_payload-IsValidSender n frag incoming s v fits = elim (Bool-cases (takes n frag s)) [
  | inl yes_taken ↦
      let (long, fit, same) = takes-true n frag s fits v.within yes_taken in
      (
        taken n incoming s,
        _,
        buffer_payload-taken n frag incoming s yes_taken long,
        record { size = length-splice _ _ s.buffer ∙ v.size; within = fit },
      )
  | inr not_taken ↦ (s, _, buffer_payload-dropped n frag incoming s not_taken, v)
]

-- A step ends without a fault in a valid state.
pub data Runs (flight : List Ptr) : Option Outcome → Type 0 where
  runs : {o : Outcome} → IsValid o.0 flight → Runs flight (some o)

pub send_adat-Runs :
    {r : Receiver} {flight : List Ptr} (source : SockaddrIn) (p : Ptr) (s : Sender) (w : ℤ)
    → IsValid r flight
    → IsValidSender s
    → Runs flight (send_adat source p r (s, w))
unfolding send_adat
send_adat-Runs {r} source p s w v vs =
    let (o, e, size) =
      build_adat-total r.outgoing_buffer v.outgoing_size (wrap (s.next_frag -ℤ pos 1)) w in
    rw e (runs (write-IsValid p _ o v (record { size = vs.size; within = vs.within }) size))
