-- ===== src/Sender/Build.antt =====
-- build_rcon(), build_data_empty(), build_data() and build_rcls(): what they leave in the outgoing
-- buffer. An index into the sender's buffer that is negative or behind its end is a fault.
use cosc_60_computer_network.Prelude.{ℕ, ◌+◌, ◌*◌, Option, List}
use cosc_60_computer_network.Prelude.Int.{ℤ, pos, negsuc, ◌+ℤ◌, wrap}
use cosc_60_computer_network.Bytes.{splice, slice}
use cosc_60_computer_network.Mrt.{
  rcon_type, data_type, rcls_type, type_location, fragment_location, payload_location,
  max_mrt_payload_length,
}
use cosc_60_computer_network.Packet.{put_int, seal}
use cosc_60_computer_network.Sender.State.{Connection}

abbrev pub initial_frag : ℤ
initial_frag = pos 0

-- What is sent of an RCON and of an empty DATA.
abbrev pub short_length : ℕ
short_length = 16

unfoldable pub build_rcon : List ℕ → Option (List ℕ)
build_rcon outgoing =
    seal short_length
      (put_int fragment_location initial_frag (put_int type_location rcon_type outgoing))

unfoldable pub build_data_empty : List ℕ → Option (List ℕ)
build_data_empty outgoing =
    seal short_length
      (put_int fragment_location (negsuc 0) (put_int type_location data_type outgoing))

-- last_acknowledged_frag + payload_index + 1
unfoldable pub sending_frag : Connection → ℕ → ℤ
sending_frag c payload_index = wrap (wrap (c.last_acknowledged_frag +ℤ pos payload_index) +ℤ pos 1)

unfoldable pub build_data : Connection → ℕ → ℕ → Option (List ℕ)
build_data c payload_index payload_len = seal (payload_location + payload_len) (
    splice payload_location
      (slice (payload_index * max_mrt_payload_length) payload_len c.sender_buffer)
      (put_int fragment_location (sending_frag c payload_index)
        (put_int type_location data_type c.outgoing_buffer)))

unfoldable pub build_rcls : List ℕ → Option (List ℕ)
build_rcls outgoing = seal 12 (put_int type_location rcls_type outgoing)
