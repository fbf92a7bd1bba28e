-- ===== src/Tpdu/Tests.antt =====
-- Concrete messages: runs of tpdu.cpp, and the theorems at these messages.
use bcusdk.Base.{◌≡◌, refl, some, none, [], ◌∷◌, arith}
use bcusdk.Tpdu.{data_connected, ack, from_packet, to_packet}
use bcusdk.Tpdu.RoundTrip.{to_packet-from_packet, from_packet-to_packet}

connected_read : from_packet (0x56 ∷ 0x81 ∷ []) ≡ data_connected 5 (0x56 ∷ 0x81 ∷ [])
unfolding from_packet
connected_read = refl

-- A serial number of more than four bits stops the program.
ack_stops : to_packet (ack 16) ≡ none
unfolding to_packet
ack_stops = refl

connected_bytes : to_packet (data_connected 5 (0x02 ∷ 0x81 ∷ [])) ≡ some (0x56 ∷ 0x81 ∷ [])
unfolding to_packet
connected_bytes = refl

to_packet-from_packet_example : to_packet (from_packet (0x56 ∷ 0x81 ∷ [])) ≡ some (0x56 ∷ 0x81 ∷ [])
to_packet-from_packet_example = to_packet-from_packet (0x56 ∷ 0x81 ∷ []) (omega arith)

from_packet-to_packet_example : from_packet (0x56 ∷ 0x81 ∷ []) ≡ data_connected 5 (0x56 ∷ 0x81 ∷ [])
from_packet-to_packet_example =
    from_packet-to_packet (data_connected 5 (0x02 ∷ 0x81 ∷ [])) (0x56 ∷ 0x81 ∷ []) (omega arith)
      connected_bytes
