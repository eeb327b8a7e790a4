-- ===== src/Transport/Buffering.antt =====
-- A round of mrt_send() puts its bytes at the end of the stream.
use cosc_60_computer_network.Prelude.{
  ℕ, zero, suc, ◌+◌, ◌-◌, ◌≤◌, ◌<◌, ◌≡◌, refl, sym, ap, ap₂, ◌∙◌, true, false, some, List, [], ◌∷◌,
  ◌++◌, length, drop, ltb, inl, inr, Bool-cases, length-append, append-nil, Whenever-some, Yields,
  yields, Whenever, faults, gives, arith, ◌>>=◌,
}
use mathlib.Core.Path.{subst}
use native.Mathlib.Decide.{dec_lt}
use cosc_60_computer_network.Prelude.Int.{ℤ, pos, negsuc, sub_ℕ, ◌+ℤ◌, ◌-ℤ◌, leb_ℤ, ltb_ℤ, wrap}
use cosc_60_computer_network.Bytes.{slice}
use cosc_60_computer_network.Sender.State.{Connection}
use cosc_60_computer_network.Sender.Api.{
  SendRound, returns, goes_on, sleeps, bytes_to_copy, copy_payload, buffer_more, send_round,
}
use cosc_60_computer_network.Sender.Invariant.{IsValid}
use cosc_60_computer_network.Sender.Window.{window, HasWindow}
use cosc_60_computer_network.Sender.Window.Buffer.{buffer_more-extends}
use cosc_60_computer_network.Transport.{Net, after_buffer}
use cosc_60_computer_network.Transport.Acknowledging.{Windows, HasWindow-total}

-- The acknowledged fragment of a round that goes on.
abbrev FragOf : ℤ → SendRound → Type 0
FragOf z (goes_on c k) = c.last_acknowledged_frag ≡ z
FragOf z (returns r) = Unit
FragOf z sleeps = Unit

copy_payload-frag :
    (bytes : List ℕ) (len copied : ℕ) (i : ℤ) (c : Connection)
    → Whenever (FragOf c.last_acknowledged_frag) (copy_payload bytes len copied i c)
unfolding copy_payload
copy_payload-frag bytes len copied (pos i) c = gives refl
copy_payload-frag bytes len copied (negsuc i) c = faults

buffer_more-frag :
    (bytes : List ℕ) (len copied : ℕ) (c : Connection)
    → Whenever (FragOf c.last_acknowledged_frag) (buffer_more bytes len copied c)
unfolding buffer_more
buffer_more-frag bytes len copied c =
    let first_free = wrap (c.last_payload_index +ℤ pos 1) in
    elim (Bool-cases (ltb_ℤ (pos 0) (wrap (pos 10 -ℤ first_free)))) [
      | inl e ↦ rw e (copy_payload-frag bytes len copied first_free c)
      | inr e ↦ rw e (gives refl)
    ]

-- With a full window nothing is copied.
full_lem : (n : ℕ) → n ≡ 10 → ltb_ℤ (pos 0) (wrap (pos 10 -ℤ wrap (sub_ℕ n 1 +ℤ pos 1))) ≡ false
full_lem n e = ground arith

buffer_more-full :
    (c : Connection) (v : IsValid c) (bytes : List ℕ) (len copied : ℕ)
    → v.count ≡ 10
    → buffer_more bytes len copied c ≡ some (goes_on c copied)
unfolding buffer_more
buffer_more-full c v bytes len copied e =
    let full =
      ap (λ z. ltb_ℤ (pos 0) (wrap (pos 10 -ℤ wrap (z +ℤ pos 1)))) v.last_payload
      ∙ full_lem v.count e in
    rw full

-- A round leaves the sides and the network as they are, but for the connection, whose window is
-- the end of a stream that may have one payload more.
pub record Submits (n : Net) (a : ℕ) (n' : Net) : Type 0 where
  pub windows : Windows n'.submitted a n'.connection
  pub extra : List (List ℕ)
  pub grows : n'.submitted ≡ n.submitted ++ extra
  pub at_most_one : length extra ≤ 1
  pub same_receiver : n'.receiver ≡ n.receiver
  pub same_to_receiver : n'.to_receiver ≡ n.to_receiver
  pub same_to_sender : n'.to_sender ≡ n.to_sender
  pub same_delivered : n'.delivered ≡ n.delivered

stays : (n : Net) (a : ℕ) → Windows n.submitted a n.connection → Submits n a n
stays n a w = record {
  windows = w;
  extra = [];
  grows = sym (append-nil n.submitted);
  at_most_one = omega arith;
  same_receiver = refl;
  same_to_receiver = refl;
  same_to_sender = refl;
  same_delivered = refl;
}

drop-append : (k : ℕ) (xs ys : List (List ℕ)) → k ≤ length xs → drop k (xs ++ ys) ≡ drop k xs ++ ys
drop-append zero xs ys h = refl
drop-append (suc k) [] ys h = elim h [ ]
drop-append (suc k) (x ∷ xs) ys h = drop-append k xs ys (omega arith)

extended :
    (submitted : List (List ℕ)) (a : ℕ) (c c' : Connection) (chunk p : List ℕ)
    (w : Windows submitted a c)
    → HasWindow (window c w.valid.count ++ (chunk ∷ [])) c'
    → c'.last_acknowledged_frag ≡ c.last_acknowledged_frag
    → chunk ≡ p
    → Windows (submitted ++ (p ∷ [])) a c'
extended submitted a c c' chunk p w h last same =
    let rest : window c' h.valid.count ≡ drop a (submitted ++ (p ∷ [])) =
      h.contents
      ∙ ap₂ (λ l q. l ++ (q ∷ [])) w.rest same
      ∙ sym (drop-append a submitted (p ∷ []) (omega (arith, w.total))) in
    record {
      valid = h.valid;
      last = last ∙ w.last;
      rest = rest;
      total =
          HasWindow-total (submitted ++ (p ∷ [])) a c'
            (omega (arith, w.total, length-append submitted (p ∷ [])))
            (record { valid = h.valid; contents = rest });
    }

copied_lem :
    (copied len : ℕ) → copied < len → ltb copied (copied + bytes_to_copy (len - copied)) ≡ true
unfolding bytes_to_copy
copied_lem copied len h = ground arith

buffer_more-Submits :
    (n : Net) (a copied : ℕ) (bytes : List ℕ)
    → Windows n.submitted a n.connection
    → copied < length bytes
    → Yields
        (Submits n a)
        (buffer_more bytes (length bytes) copied n.connection >>= after_buffer bytes copied n)
buffer_more-Submits n a copied bytes w h = elim (dec_lt w.valid.count 10) [
  | yes room ↦
      let (c', e, ext) =
        buffer_more-extends n.connection w.valid bytes (length bytes) copied (omega arith)
          (omega arith) room in
      let frag : c'.last_acknowledged_frag ≡ n.connection.last_acknowledged_frag = Whenever-some (
        subst (Whenever (FragOf n.connection.last_acknowledged_frag)) e
          (buffer_more-frag bytes (length bytes) copied n.connection)) in
      rw (e, copied_lem copied (length bytes) h)
        (yields (record {
          windows =
              extended n.submitted a n.connection c'
                (slice copied (bytes_to_copy (length bytes - copied)) bytes)
                (slice copied (copied + bytes_to_copy (length bytes - copied) - copied) bytes) w ext
                frag (ap (λ k. slice copied k bytes) (omega arith));
          extra = slice copied (copied + bytes_to_copy (length bytes - copied) - copied) bytes ∷ [];
          grows = refl;
          at_most_one = omega arith;
          same_receiver = refl;
          same_to_receiver = refl;
          same_to_sender = refl;
          same_delivered = refl;
        }))
  | no full ↦
      let not_more : ltb copied copied ≡ false = ground arith in
      rw
        (
          buffer_more-full n.connection w.valid bytes (length bytes) copied
              (omega (arith, w.valid.count_le)),
          not_more,
        )
        (yields (stays n a w))
]

-- A round of mrt_send() ends without a fault, and the stream has at most one payload more.
pub send_round-Submits :
    (n : Net) (a copied : ℕ) (final : ℤ) (bytes : List ℕ)
    → Windows n.submitted a n.connection
    → Yields (Submits n a) (
        send_round final bytes (length bytes) copied (some n.connection)
        >>= after_buffer bytes copied n)
unfolding send_round
send_round-Submits n a copied final bytes w =
    elim (Bool-cases (leb_ℤ final n.connection.last_acknowledged_frag)) [
      | inl all ↦ rw all (yields (stays n a w))
      | inr e ↦ elim (Bool-cases (ltb copied (length bytes))) [
        | inl more ↦ rw (e, more) (buffer_more-Submits n a copied bytes w (ground arith))
        | inr done ↦ rw (e, done) (yields (stays n a w))
      ]
    ]
