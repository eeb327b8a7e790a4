-- ===== src/Receiver/Build.antt =====
-- build_acon(), build_adat() and build_acls(): what they leave in the outgoing buffer.
use cosc_60_computer_network.Prelude.{ℕ, Option, List}
use cosc_60_computer_network.Prelude.Int.{ℤ, pos}
use cosc_60_computer_network.Mrt.{
  acon_type, adat_type, acls_type, type_location, fragment_location, windowsize_location,
  header_length,
}
use cosc_60_computer_network.Packet.{put_int, seal}
use cosc_60_computer_network.Receiver.State.{receiver_max_window_size}

abbrev pub initial_window_size : ℤ
initial_window_size = pos receiver_max_window_size

unfoldable pub build_acon : ℤ → List ℕ → Option (List ℕ)
build_acon initial_frag outgoing = seal header_length (
    put_int windowsize_location initial_window_size
      (put_int fragment_location initial_frag (put_int type_location acon_type outgoing)))

unfoldable pub build_adat : ℤ → ℤ → List ℕ → Option (List ℕ)
build_adat received_frag curr_window_size outgoing = seal header_length (
    put_int windowsize_location curr_window_size
      (put_int fragment_location received_frag (put_int type_location adat_type outgoing)))

unfoldable pub build_acls : List ℕ → Option (List ℕ)
build_acls outgoing = seal 12 (put_int type_location acls_type outgoing)
