-- ===== src/Receiver/Transmissions.antt =====
-- What the sender's side reads in the receiver's transmissions.
use cosc_60_computer_network.Prelude.{
  ℕ, ◌<◌, ◌≡◌, ◌∙◌, true, some, List, length, take, arith, Yields, yields,
}
use cosc_60_computer_network.Prelude.Int.{ℤ, IsInt}
use cosc_60_computer_network.Mrt.{acon_type, adat_type}
use cosc_60_computer_network.Packet.{put_int, get_int, seal, receive, checksum_matches}
use cosc_60_computer_network.Packet.Fields.{
  seal-Arrives, get_int-Arrives, get_int-put_int, get_int-put_int_before, length-put_int,
}
use cosc_60_computer_network.Receiver.Build.{build_acon, build_adat, initial_window_size}

-- A transmission of `n` bytes out of `outgoing` that comes in whole passes the check, and the other
-- side reads these three numbers in it.
pub record Reads (type frag window : ℤ) (n : ℕ) (incoming outgoing : List ℕ) : Type 0 where
  pub accepted : checksum_matches (receive (take n outgoing) incoming) ≡ some true
  pub type_read : get_int 8 (receive (take n outgoing) incoming) ≡ type
  pub frag_read : get_int 12 (receive (take n outgoing) incoming) ≡ frag
  pub window_read : get_int 16 (receive (take n outgoing) incoming) ≡ window

module _ (incoming outgoing : List ℕ) (room : 20 < length incoming)
    (size : length outgoing ≡ 21) where
  headed-Reads :
      (type frag window : ℤ)
      → IsInt type
      → IsInt frag
      → IsInt window
      → Yields
          (Reads type frag window 20 incoming)
          (seal 20 (put_int 16 window (put_int 12 frag (put_int 8 type outgoing))))
  headed-Reads type frag window it ifr iw =
      let b1 = put_int 8 type outgoing in
      let b2 = put_int 12 frag b1 in
      let b3 = put_int 16 window b2 in
      let l1 : length b1 ≡ 21 = length-put_int 8 type outgoing ∙ size in
      let l2 : length b2 ≡ 21 = length-put_int 12 frag b1 ∙ l1 in
      let l3 : length b3 ≡ 21 = length-put_int 16 window b2 ∙ l2 in
      let (o, e, a) = seal-Arrives 20 b3 incoming (omega arith) (omega arith) room in
      rw e (
        yields (record {
          accepted = a.accepted;
          type_read =
              get_int-Arrives 8 a (omega arith) (omega arith)
              ∙ get_int-put_int_before 8 16 window b2 (omega arith)
              ∙ get_int-put_int_before 8 12 frag b1 (omega arith)
              ∙ get_int-put_int 8 type outgoing (omega arith) it;
          frag_read =
              get_int-Arrives 12 a (omega arith) (omega arith)
              ∙ get_int-put_int_before 12 16 window b2 (omega arith)
              ∙ get_int-put_int 12 frag b1 (omega arith) ifr;
          window_read =
              get_int-Arrives 16 a (omega arith) (omega arith)
              ∙ get_int-put_int 16 window b2 (omega arith) iw;
        }))

  -- An ADAT, built in a buffer of the code's size from values of an `int`, that comes in whole
  -- passes the sender's check, and reads as an ADAT with the fragment number and the window that
  -- it was built with.
  pub build_adat-Reads :
      (frag window : ℤ)
      → IsInt frag
      → IsInt window
      → Yields (Reads adat_type frag window 20 incoming) (build_adat frag window outgoing)
  unfolding build_adat
  build_adat-Reads frag window ifr iw = headed-Reads adat_type frag window (omega arith) ifr iw

  -- An ACON, built in a buffer of the code's size from the value of an `int`, that comes in whole
  -- passes the sender's check, and reads as an ACON with that fragment number and the whole
  -- window.
  pub build_acon-Reads :
      (frag : ℤ)
      → IsInt frag
      → Yields (Reads acon_type frag initial_window_size 20 incoming) (build_acon frag outgoing)
  unfolding build_acon
  build_acon-Reads frag ifr =
      headed-Reads acon_type frag initial_window_size (omega arith) ifr (omega arith)
