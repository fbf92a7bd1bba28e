-- ===== src/Lpdu/Tests.antt =====
-- Concrete frames: runs of lpdu.cpp, and the theorems at these frames.
use bcusdk.Base.{
  ℕ, ◌≡◌, ◌↔◌, refl, true, false, some, none, List, [], ◌∷◌, ◌++◌, length, replicate, arith, inl,
}
use bcusdk.Lpdu.{
  normal, urgent, system, group, individual, LData, l_data, from_packet, to_packet_data, candidate,
  init_candidate, init_l_data, init_standard, init_extended, extended, read_prio, read_addr_type,
  checksum_ok, checksum, asserts, standard_bytes, control_byte, prio_code,
}
use bcusdk.Lpdu.RoundTrip.{received, from_packet-to_packet_data}
use bcusdk.Lpdu.Inversion.{IsRead, from_packet-IsRead}
use bcusdk.Lpdu.Reprint.{corrected, to_packet_data-from_packet, to_packet_data-from_packet_abort}
use bcusdk.Lpdu.Checksum.{checksum_ok_change}

-- A group write from 1.1.1 to 0/0/5 with normal priority.
abbrev sent : LData
sent = record {
  prio = normal;
  repeated = false;
  valid_checksum = true;
  valid_length = true;
  addr_type = group;
  source = 0x1101;
  dest = 5;
  hopcount = 6;
  payload = 0x00 ∷ 0x81 ∷ [];
}

abbrev wire : List ℕ
wire = 0xb4 ∷ 0x11 ∷ 0x01 ∷ 0x00 ∷ 0x05 ∷ 0xe1 ∷ 0x00 ∷ 0x81 ∷ 0x3e ∷ []

sent_bytes : to_packet_data sent ≡ some wire
unfolding to_packet_data asserts standard_bytes control_byte prio_code checksum
sent_bytes = refl

wire_read : from_packet wire ≡ l_data (received sent)
unfolding from_packet candidate init_candidate init_l_data init_standard read_prio read_addr_type
    checksum_ok checksum
wire_read = refl

-- The priority of the frame above arrives as urgent.
wire_priority : (received sent).prio ≡ urgent
wire_priority = refl

from_packet-to_packet_data_example : from_packet wire ≡ l_data (received sent)
from_packet-to_packet_data_example = from_packet-to_packet_data sent wire (omega arith) sent_bytes

to_packet_data-from_packet_example : to_packet_data (corrected (received sent)) ≡ some wire
to_packet_data-from_packet_example =
    to_packet_data-from_packet wire (received sent) (omega arith) wire_read refl refl
      (inl (omega arith))

-- An extended frame with 256 bytes of payload is read, and cannot be written again.
abbrev long_wire : List ℕ
long_wire = 0x10 ∷ 0x00 ∷ 0x11 ∷ 0x01 ∷ 0x00 ∷ 0x05 ∷ 0xff ∷ (replicate 256 0 ++ (0x05 ∷ []))

abbrev long_frame : LData
long_frame = record {
  prio = system;
  repeated = true;
  valid_checksum = true;
  valid_length = true;
  addr_type = individual;
  source = 0x1101;
  dest = 5;
  hopcount = 0;
  payload = replicate 256 0;
}

long_wire_read : from_packet long_wire ≡ l_data long_frame
unfolding from_packet candidate init_candidate init_l_data init_extended extended read_prio
    read_addr_type checksum_ok checksum
long_wire_read = refl

to_packet_data-from_packet_abort_example :
    (to_packet_data long_frame ≡ none) ↔ (length long_frame.payload ≡ 256)
to_packet_data-from_packet_abort_example =
    to_packet_data-from_packet_abort long_wire long_frame (omega arith) long_wire_read

from_packet-IsRead_example : IsRead (received sent)
from_packet-IsRead_example = from_packet-IsRead wire (received sent) (omega arith) wire_read

wire_ok : checksum_ok wire ≡ true
unfolding checksum_ok checksum
wire_ok = refl

abbrev wire_end : List ℕ
wire_end = 0x05 ∷ 0xe1 ∷ 0x00 ∷ 0x81 ∷ 0x3e ∷ []

checksum_ok_change_example : checksum_ok ((0xb4 ∷ 0x11 ∷ 0x01 ∷ []) ++ (0x07 ∷ wire_end)) ≡ false
checksum_ok_change_example =
    checksum_ok_change (0xb4 ∷ 0x11 ∷ 0x01 ∷ []) wire_end 0x00 0x07 (omega arith) (omega arith)
      (omega arith) wire_ok
