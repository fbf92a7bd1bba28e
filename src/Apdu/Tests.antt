-- ===== src/Apdu/Tests.antt =====
-- Messages of the application layer, and the theorems at them.
use bcusdk.Base.{IsBytes, List, [], arith, false, refl, some, true, ℕ, ◌↔◌, ◌∷◌, ◌≡◌}
use bcusdk.Apdu.{Apdu, memory_read, memory_response}
use bcusdk.Apdu.Answers.{Answers, is_response}
use bcusdk.Apdu.Answers.Equivalence.{is_response_iff}
use bcusdk.Apdu.Bounds.{from_packet-IsReadApdu}
use bcusdk.Apdu.Codec.{from_packet, to_packet}
use bcusdk.Apdu.Memory.{to_packet_memory_response}
use bcusdk.Apdu.Ranges.{IsReadApdu}
use bcusdk.Apdu.RoundTrip.{as_read, from_packet-to_packet_apdu}
use bcusdk.Apdu.Stable.{from_packet_stable}

abbrev unset : ℕ → ℕ
unset i = 0xaa

abbrev block_read : Apdu
block_read = memory_response 3 0x0116 (0x01 ∷ 0x02 ∷ 0xff ∷ [])

abbrev block_bytes : List ℕ
block_bytes = 0x02 ∷ 0x43 ∷ 0x01 ∷ 0x16 ∷ 0x01 ∷ 0x02 ∷ 0xff ∷ []

block_bytes-IsBytes : IsBytes block_bytes
block_bytes-IsBytes = ground arith

block_read_written : to_packet unset block_read ≡ some block_bytes
unfolding to_packet to_packet_memory_response
block_read_written = refl

from_packet-to_packet_apdu_example : from_packet block_bytes ≡ as_read block_read block_bytes
from_packet-to_packet_apdu_example =
    from_packet-to_packet_apdu unset block_read block_bytes (ground arith) block_read_written

from_packet_stable_example :
    (d : List ℕ) × ((to_packet unset (from_packet block_bytes) ≡ some d)
      × (from_packet d ≡ as_read (from_packet block_bytes) d))
from_packet_stable_example = from_packet_stable unset block_bytes block_bytes-IsBytes

from_packet-IsReadApdu_example : IsReadApdu (from_packet block_bytes)
from_packet-IsReadApdu_example = from_packet-IsReadApdu block_bytes block_bytes-IsBytes

is_response_iff_example :
    is_response block_read (memory_read 3 0x0116) ≡ true ↔ Answers block_read (memory_read 3 0x0116)
is_response_iff_example = is_response_iff block_read (memory_read 3 0x0116)

other_address : is_response block_read (memory_read 3 0x0117) ≡ false
unfolding is_response
other_address = refl
