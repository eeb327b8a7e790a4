-- ===== src/Tests/Senders.antt =====
-- lab3/mrt_sender.c on a connection that has buffered two payloads and sent one of them.
use cosc_60_computer_network.Prelude.{
  ℕ, zero, suc, ◌+◌, ◌≡◌, ◌≤◌, refl, inl, true, false, none, some, List, [], ◌∷◌, ◌++◌, drop,
  length, replicate, length-replicate, arith, Yields,
}
use cosc_60_computer_network.Prelude.Int.{ℤ, pos, ◌-ℤ◌, wrap}
use cosc_60_computer_network.Bytes.{slice, splice}
use cosc_60_computer_network.Sender.State.{Connection}
use cosc_60_computer_network.Sender.Build.{build_data}
use cosc_60_computer_network.Sender.Threads.{handle_datagram, handle_adat, sender_round}
use cosc_60_computer_network.Sender.Api.{goes_on, bytes_to_copy, buffer_more}
use cosc_60_computer_network.Sender.Transmissions.{ReadsData, build_data-Reads}
use cosc_60_computer_network.Sender.Invariant.{IsValid, AllShort}
use cosc_60_computer_network.Sender.Window.{window, HasWindow}
use cosc_60_computer_network.Sender.Window.Buffer.{buffer_more-extends}
use cosc_60_computer_network.Sender.Window.Acknowledge.{handle_adat-frees, handle_adat-overrun}
use cosc_60_computer_network.Hash.{hash, hash_from, hash_step}
use cosc_60_computer_network.Packet.{get_int, receive, checksum_matches}
use cosc_60_computer_network.Sender.Window.Handler.{handler_round-IsValid}
use cosc_60_computer_network.Sender.Window.Resend.{GoesBack, sender_round-GoesBack}
use cosc_60_computer_network.Sender.Window.Send.{SendsNext, sender_round-SendsNext}

abbrev busy : Connection
busy = record {
  id = pos 1;
  rece_addr = 7;
  last_sent_index = pos 0;
  last_payload_index = pos 1;
  sender_buffer = replicate 4880 5;
  num_bytes_buffered = 488 ∷ 2 ∷ replicate 8 0;
  last_acknowledged_frag = pos 3;
  receiver_window_size = pos 2440;
  inactive_time = 0;
  should_close = false;
  incoming_buffer = replicate 21 0;
  outgoing_buffer = replicate 509 0;
  resend_time = 0;
  sending = true;
  checking = true;
}

size : (n a : ℕ) → length (replicate n a) ≡ n
size n a = length-replicate n a

AllShort-zeros : (n : ℕ) → AllShort (replicate n 0)
AllShort-zeros zero = tt
AllShort-zeros (suc n) = (omega arith, AllShort-zeros n)

abbrev busy-IsValid : IsValid busy
busy-IsValid = record {
  count = 2;
  sent = 1;
  last_payload = refl;
  last_sent = refl;
  count_le = omega arith;
  sent_le = omega arith;
  buffer_size = size 4880 5;
  lengths_size = refl;
  lengths_short = (omega arith, (omega arith, AllShort-zeros 8));
  incoming_size = refl;
  incoming_nul = inl refl;
  outgoing_size = size 509 0;
}

build_data-Reads_example : Yields (ReadsData busy 1 2 (replicate 509 9)) (build_data busy 1 2)
build_data-Reads_example =
    build_data-Reads busy 1 2 (replicate 509 9) (size 509 9) (size 509 0) (omega arith)
      (omega (arith, size 4880 5))

buffer_more-extends_example :
    (c' : Connection) × (buffer_more (8 ∷ 9 ∷ []) 2 0 busy
      ≡ some (goes_on c' (0 + bytes_to_copy 2)))
    × HasWindow
        (window busy (busy-IsValid.count) ++ (slice 0 (bytes_to_copy 2) (8 ∷ 9 ∷ []) ∷ []))
        c'
buffer_more-extends_example =
    buffer_more-extends busy busy-IsValid (8 ∷ 9 ∷ []) 2 0 (omega arith) (omega arith) (omega arith)

-- ADATs with the numbers 4 and 9.
handle_adat-frees_example :
    Yields
      (HasWindow (drop 1 (window busy busy-IsValid.count)))
      (handle_adat (pos 4) (pos 2440) busy)
handle_adat-frees_example =
    handle_adat-frees busy busy-IsValid (pos 4) (pos 2440) 1 refl (omega arith)

handle_adat-overrun_example : handle_adat (pos 9) (pos 2440) busy ≡ none
handle_adat-overrun_example =
    handle_adat-overrun busy busy-IsValid (pos 9) (pos 2440) 6 refl (omega arith) (omega arith)

sender_round-SendsNext_example :
    Yields (SendsNext busy busy-IsValid (replicate 509 9)) (sender_round busy)
sender_round-SendsNext_example =
    sender_round-SendsNext busy busy-IsValid (replicate 509 9) (size 509 9) (omega arith) refl

-- The two payloads are sent.
abbrev sent_all : Connection
sent_all = record busy { last_sent_index = pos 1 }

abbrev sent_all-IsValid : IsValid sent_all
sent_all-IsValid = record {
  count = 2;
  sent = 2;
  last_payload = refl;
  last_sent = refl;
  count_le = omega arith;
  sent_le = omega arith;
  buffer_size = busy-IsValid.buffer_size;
  lengths_size = busy-IsValid.lengths_size;
  lengths_short = busy-IsValid.lengths_short;
  incoming_size = busy-IsValid.incoming_size;
  incoming_nul = busy-IsValid.incoming_nul;
  outgoing_size = busy-IsValid.outgoing_size;
}

sender_round-GoesBack_example : GoesBack 5 sent_all
sender_round-GoesBack_example = sender_round-GoesBack sent_all sent_all-IsValid (omega arith)

-- An ADAT with the fragment number 4 and the window 488, and its hash.
abbrev adat : List ℕ
adat = 169 ∷ 181 ∷ 2 ∷ 0 ∷ 0 ∷ 0 ∷ 0 ∷ 0 ∷ 4 ∷ 0 ∷ 0 ∷ 0 ∷ 4 ∷ 0 ∷ 0 ∷ 0 ∷ 232 ∷ 1 ∷ 0 ∷ 0 ∷ []

adat_checked : checksum_matches (receive adat busy.incoming_buffer) ≡ some true
unfolding checksum_matches receive splice hash hash_from hash_step
adat_checked = refl

adat_frag : get_int 12 (receive adat busy.incoming_buffer) ≡ pos 4
unfolding get_int receive splice
adat_frag = refl

one_more_lem : (z : ℤ) (n : ℕ) → z ≡ pos 4 → wrap (z -ℤ pos 3) ≡ pos n → n ≤ 2
one_more_lem z n e = rw e (λ e'. ground arith)

handler_round-IsValid_example : Yields IsValid (handle_datagram adat busy)
handler_round-IsValid_example =
    handler_round-IsValid adat busy busy-IsValid (omega arith) (λ _ n. one_more_lem _ n adat_frag)
