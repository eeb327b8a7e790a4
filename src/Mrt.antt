-- ===== src/Mrt.antt =====
-- lab3/mrt.h and lab3/mrt.c: the constants that sender and receiver share. An `int` has 4 bytes
-- and an `unsigned long` 8, as the header's comments say, lowest byte first.
use cosc_60_computer_network.Prelude.{ℕ, ◌-◌}
use cosc_60_computer_network.Prelude.Int.{ℤ, pos}

abbrev pub unkn_type : ℤ
unkn_type = pos 0

abbrev pub rcon_type : ℤ
rcon_type = pos 1

abbrev pub acon_type : ℤ
acon_type = pos 2

abbrev pub data_type : ℤ
data_type = pos 3

abbrev pub adat_type : ℤ
adat_type = pos 4

abbrev pub rcls_type : ℤ
rcls_type = pos 5

abbrev pub acls_type : ℤ
acls_type = pos 6

abbrev pub hash_length : ℕ
hash_length = 8

abbrev pub type_location : ℕ
type_location = 8

abbrev pub fragment_location : ℕ
fragment_location = 12

abbrev pub windowsize_location : ℕ
windowsize_location = 16

abbrev pub header_length : ℕ
header_length = 20

abbrev pub payload_location : ℕ
payload_location = 20

abbrev pub max_udp_payload_length : ℕ
max_udp_payload_length = 508

abbrev pub max_mrt_payload_length : ℕ
max_mrt_payload_length = max_udp_payload_length - header_length

-- In microseconds.
abbrev pub expected_rtt : ℕ
expected_rtt = 10000
