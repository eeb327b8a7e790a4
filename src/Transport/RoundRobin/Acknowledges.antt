-- ===== src/Transport/RoundRobin/Acknowledges.antt =====
-- handler() on the receiver's last ADAT: the number and the window that it carries are taken over.
use cosc_60_computer_network.Prelude.{
  Bool, ℕ, ◌-◌, ◌≤◌, ◌<◌, ◌^◌, ◌≡◌, refl, ap, ◌∙◌, List, length, leb, inl, inr, Bool-cases,
  if◌then◌else◌, Whenever, gives, arith,
}
use cosc_60_computer_network.Prelude.Int.{ℤ, pos, ◌-ℤ◌, ltb_ℤ, wrap}
use cosc_60_computer_network.Packet.{receive}
use cosc_60_computer_network.Sender.Moving.{free_payloads-Whenever}
use cosc_60_computer_network.Sender.State.{Connection}
use cosc_60_computer_network.Sender.Threads.{
  free_payloads, acknowledge, by_difference, handle_adat, dispatch, if_checked, handle_datagram,
}
use cosc_60_computer_network.Transport.Datagrams.{ShowsAdat}

-- The window only grows.
abbrev pub grown : ℤ → ℤ → ℤ
grown old new = if ltb_ℤ old new then new else old

-- `window`, `sent`, `time` and `close` are what the connection had before.
pub record TakesOver (frag winsize window sent : ℤ) (time : ℕ) (close : Bool) (c : Connection)
    : Type 0 where
  pub last : c.last_acknowledged_frag ≡ frag
  pub wider : c.receiver_window_size ≡ grown window winsize
  pub same_sent : c.last_sent_index ≡ sent
  pub same_time : c.resend_time ≡ time
  pub fresh : c.inactive_time ≡ 0
  pub same_close : c.should_close ≡ close

free_payloads-TakesOver :
    (n : ℕ) (left frag winsize : ℤ) (c : Connection)
    → Whenever
        (TakesOver frag winsize c.receiver_window_size c.last_sent_index c.resend_time
          c.should_close)
        (free_payloads n left (acknowledge frag winsize (record c { inactive_time = 0 })))
unfolding acknowledge
free_payloads-TakesOver n left frag winsize c =
    free_payloads-Whenever n (acknowledge frag winsize (record c { inactive_time = 0 }))
      (λ b l. record {
        last = refl;
        wider = refl;
        same_sent = refl;
        same_time = refl;
        fresh = refl;
        same_close = refl;
      })
      left

handle_adat-TakesOver :
    (frag winsize : ℤ) (c : Connection) (n : ℕ)
    → wrap (frag -ℤ c.last_acknowledged_frag) ≡ pos n
    → Whenever
        (TakesOver frag winsize c.receiver_window_size c.last_sent_index c.resend_time
          c.should_close)
        (handle_adat frag winsize c)
unfolding handle_adat by_difference acknowledge
handle_adat-TakesOver frag winsize c n e = elim (Bool-cases (leb n 0)) [
  | inl z ↦
      rw (e, z)
        (gives (record {
          last = refl;
          wider = refl;
          same_sent = refl;
          same_time = refl;
          fresh = refl;
          same_close = refl;
        }))
  | inr p ↦ rw (e, p) (unfold acknowledge in free_payloads-TakesOver n _ frag winsize c)
]

newer_lem : (i a : ℕ) → a ≤ i → i < 2 ^ 31 → wrap (pos i -ℤ pos a) ≡ pos (i - a)
newer_lem i a h s = ground arith

-- An ADAT that acknowledges no fewer fragments than the last one.
pub handle_datagram-TakesOver :
    (c : Connection) (a k : ℕ) (w : ℤ) (d : List ℕ)
    → length c.incoming_buffer ≡ 21
    → c.last_acknowledged_frag ≡ pos a
    → a ≤ k
    → k < 2 ^ 31
    → ShowsAdat k w d
    → Whenever
        (TakesOver (pos k) w c.receiver_window_size c.last_sent_index c.resend_time c.should_close)
        (handle_datagram d c)
unfolding handle_datagram if_checked dispatch
handle_datagram-TakesOver c a k w d room last le small h =
    let c' : Connection = record c { incoming_buffer = receive d c.incoming_buffer } in
    let diff : wrap (pos k -ℤ c.last_acknowledged_frag) ≡ pos (k - a) =
      ap (λ z. wrap (pos k -ℤ z)) last ∙ newer_lem k a le small in
    rw
      (
        h.shows.accepted c.incoming_buffer room,
        h.shows.type_read c.incoming_buffer room,
        h.shows.frag_read c.incoming_buffer room,
        h.window_read c.incoming_buffer room,
      )
      (handle_adat-TakesOver (pos k) w c' (k - a) diff)
