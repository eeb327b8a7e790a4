-- ===== src/Sender/Transmissions.antt =====
-- What the receiver reads in the sender's transmissions.
use cosc_60_computer_network.Prelude.{
  ℕ, ◌+◌, ◌*◌, ◌≤◌, ◌≡◌, sym, ap, ◌∙◌, true, some, List, length, take, arith, Yields, yields,
}
use cosc_60_computer_network.Prelude.Int.{ℤ, pos, negsuc, int_of_word, IsInt, wrap-IsInt}
use cosc_60_computer_network.Bytes.{
  le_value, splice, slice, length-slice, length-splice, slice-splice_self, slice-splice_before,
}
use cosc_60_computer_network.Mrt.{rcon_type, data_type}
use cosc_60_computer_network.Packet.{put_int, get_int, seal, receive, checksum_matches}
use cosc_60_computer_network.Packet.Fields.{
  seal-Arrives, get_int-Arrives, get_int-put_int, get_int-put_int_before, length-put_int,
}
use cosc_60_computer_network.Sender.State.{Connection}
use cosc_60_computer_network.Sender.Build.{build_rcon, build_data_empty, build_data, sending_frag}

-- A transmission of `n` bytes out of `outgoing` that comes in whole passes the receiver's check,
-- and the receiver reads these two numbers in it.
pub record Reads (type frag : ℤ) (n : ℕ) (incoming outgoing : List ℕ) : Type 0 where
  pub accepted : checksum_matches (receive (take n outgoing) incoming) ≡ some true
  pub type_read : get_int 8 (receive (take n outgoing) incoming) ≡ type
  pub frag_read : get_int 12 (receive (take n outgoing) incoming) ≡ frag

module _ (incoming outgoing : List ℕ) (room : length incoming ≡ 509)
    (size : length outgoing ≡ 509) where
  short-Reads :
      (type frag : ℤ)
      → IsInt type
      → IsInt frag
      → Yields (Reads type frag 16 incoming) (seal 16 (put_int 12 frag (put_int 8 type outgoing)))
  short-Reads type frag it ifr =
      let b1 = put_int 8 type outgoing in
      let b2 = put_int 12 frag b1 in
      let l1 : length b1 ≡ 509 = length-put_int 8 type outgoing ∙ size in
      let l2 : length b2 ≡ 509 = length-put_int 12 frag b1 ∙ l1 in
      let (o, e, a) = seal-Arrives 16 b2 incoming (omega arith) (omega arith) (omega arith) in
      rw e (
        yields (record {
          accepted = a.accepted;
          type_read =
              get_int-Arrives 8 a (omega arith) (omega arith)
              ∙ get_int-put_int_before 8 12 frag b1 (omega arith)
              ∙ get_int-put_int 8 type outgoing (omega arith) it;
          frag_read =
              get_int-Arrives 12 a (omega arith) (omega arith)
              ∙ get_int-put_int 12 frag b1 (omega arith) ifr;
        }))

  -- An RCON, built in a buffer of the code's size, that comes in whole passes the receiver's
  -- check, and reads as an RCON with the fragment number 0.
  pub build_rcon-Reads : Yields (Reads rcon_type (pos 0) 16 incoming) (build_rcon outgoing)
  unfolding build_rcon
  build_rcon-Reads = short-Reads rcon_type (pos 0) (omega arith) (omega arith)

  -- An empty DATA, built in a buffer of the code's size, that comes in whole passes the
  -- receiver's check, and reads as a DATA with the fragment number -1.
  pub build_data_empty-Reads :
      Yields (Reads data_type (negsuc 0) 16 incoming) (build_data_empty outgoing)
  unfolding build_data_empty
  build_data_empty-Reads = short-Reads data_type (negsuc 0) (omega arith) (omega arith)

-- A DATA reads with its number and its payload.
pub record ReadsData (c : Connection) (i n : ℕ) (incoming outgoing : List ℕ) : Type 0 where
  pub head : Reads data_type (sending_frag c i) (20 + n) incoming outgoing
  pub payload_read :
      slice 20 n (receive (take (20 + n) outgoing) incoming) ≡ slice (i * 488) n c.sender_buffer

sending_frag-IsInt : (c : Connection) (i : ℕ) → IsInt (sending_frag c i)
unfolding sending_frag
sending_frag-IsInt c i = wrap-IsInt _

-- The payload stands behind the fields.
get_int-splice_payload :
    (location : ℕ) (chunk buffer : List ℕ)
    → location + 4 ≤ 20
    → get_int location (splice 20 chunk buffer) ≡ get_int location buffer
unfolding get_int
get_int-splice_payload location chunk buffer h =
    ap (λ l. int_of_word (le_value l)) (slice-splice_before location 4 20 chunk buffer h)

-- A DATA of at most 488 bytes that stand in the sender's buffer is built without a fault; come in
-- whole, it passes the receiver's check, and reads as a DATA with the fragment number that the
-- sender gave it and the bytes of the payload.
pub build_data-Reads :
    (c : Connection) (i n : ℕ) (incoming : List ℕ)
    → length incoming ≡ 509
    → length c.outgoing_buffer ≡ 509
    → n ≤ 488
    → i * 488 + n ≤ length c.sender_buffer
    → Yields (ReadsData c i n incoming) (build_data c i n)
unfolding build_data
build_data-Reads c i n incoming room size small inside =
    let chunk = slice (i * 488) n c.sender_buffer in
    let b1 = put_int 8 data_type c.outgoing_buffer in
    let b2 = put_int 12 (sending_frag c i) b1 in
    let b3 = splice 20 chunk b2 in
    let lc : length chunk ≡ n = length-slice (i * 488) n c.sender_buffer inside in
    let l1 : length b1 ≡ 509 = length-put_int 8 data_type c.outgoing_buffer ∙ size in
    let l2 : length b2 ≡ 509 = length-put_int 12 (sending_frag c i) b1 ∙ l1 in
    let l3 : length b3 ≡ 509 = length-splice 20 chunk b2 ∙ l2 in
    let (o, e, a) = seal-Arrives (20 + n) b3 incoming (omega arith) (omega arith) (omega arith) in
    rw e (
      yields (record {
        head = record {
          accepted = a.accepted;
          type_read =
              get_int-Arrives 8 a (omega arith) (omega arith)
              ∙ get_int-splice_payload 8 chunk b2 (omega arith)
              ∙ get_int-put_int_before 8 12 (sending_frag c i) b1 (omega arith)
              ∙ get_int-put_int 8 data_type c.outgoing_buffer (omega arith) (omega arith);
          frag_read =
              get_int-Arrives 12 a (omega arith) (omega arith)
              ∙ get_int-splice_payload 12 chunk b2 (omega arith)
              ∙ get_int-put_int 12 (sending_frag c i) b1 (omega arith) (sending_frag-IsInt c i);
        };
        payload_read =
            a.fields 20 n (omega arith) (omega arith)
            ∙ ap (λ k. slice 20 k b3) (sym lc)
            ∙ slice-splice_self 20 chunk b2 (omega arith);
      }))
