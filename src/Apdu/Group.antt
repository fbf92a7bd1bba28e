-- ===== src/Apdu/Group.antt =====
-- apdu.cpp: `init` and `ToPacket` of the messages on group values and individual addresses.
use bcusdk.Base.{
  ℕ, Bool, true, false, not, ◌&&◌, ◌||◌, Option, none, some, List, [], ◌∷◌, ◌++◌, length, take,
  drop, at, word, ltb, ◌==◌, if◌then◌else◌, bit_and, bit_or,
}
use bcusdk.Apdu.{
  Apdu, group_value_read, group_value_response, group_value_write, individual_address_write,
  individual_address_read, individual_address_response, serial_number_read, serial_number_response,
  serial_number_write,
}
use bcusdk.Apdu.Fields.{high_byte, low_byte, asserting, taken_if}

unfoldable pub init_group_value_read : List ℕ → Option Apdu
init_group_value_read c = taken_if (length c == 2) group_value_read

unfoldable pub to_packet_group_value_read : List ℕ
to_packet_group_value_read = 0x00 ∷ 0x00 ∷ []

unfoldable pub init_group_value_response : List ℕ → Option Apdu
init_group_value_response c =
    if ltb (length c) 2
    then none
    else if length c == 2
    then some (group_value_response true (bit_and (at c 1) 0x3f ∷ []))
    else some (group_value_response false (drop 2 c))

-- `!issmall || (data () == 1 && (data[0] & 0xC0) == 0)`
abbrev pub fits_small : Bool → List ℕ → Bool
fits_small issmall content =
    not issmall || (length content == 1 && bit_and (at content 0) 0xc0 == 0)

unfoldable pub to_packet_group_value_response : Bool → List ℕ → Option (List ℕ)
to_packet_group_value_response issmall content = asserting (fits_small issmall content) (
    if issmall
    then 0x00 ∷ bit_or 0x40 (bit_and (at content 0) 0x3f) ∷ []
    else 0x00 ∷ 0x40 ∷ content)

unfoldable pub init_group_value_write : List ℕ → Option Apdu
init_group_value_write c =
    if ltb (length c) 2
    then none
    else if length c == 2
    then some (group_value_write true (bit_and (at c 1) 0x3f ∷ []))
    else some (group_value_write false (drop 2 c))

unfoldable pub to_packet_group_value_write : Bool → List ℕ → Option (List ℕ)
to_packet_group_value_write issmall content = asserting (fits_small issmall content) (
    if issmall
    then 0x00 ∷ bit_or 0x80 (bit_and (at content 0) 0x3f) ∷ []
    else 0x00 ∷ 0x80 ∷ content)

unfoldable pub init_individual_address_write : List ℕ → Option Apdu
init_individual_address_write c =
    taken_if (length c == 4) (individual_address_write (word (at c 2) (at c 3)))

unfoldable pub to_packet_individual_address_write : ℕ → List ℕ
to_packet_individual_address_write addr = 0x00 ∷ 0xc0 ∷ high_byte addr ∷ low_byte addr ∷ []

unfoldable pub init_individual_address_read : List ℕ → Option Apdu
init_individual_address_read c = taken_if (length c == 2) individual_address_read

unfoldable pub to_packet_individual_address_read : List ℕ
to_packet_individual_address_read = 0x01 ∷ 0x00 ∷ []

unfoldable pub init_individual_address_response : List ℕ → Option Apdu
init_individual_address_response c = taken_if (length c == 2) individual_address_response

unfoldable pub to_packet_individual_address_response : List ℕ
to_packet_individual_address_response = 0x01 ∷ 0x40 ∷ []

-- `memcpy (serno, c.array () + 2, 6)`
abbrev pub read_serial : List ℕ → List ℕ
read_serial c = take 6 (drop 2 c)

unfoldable pub init_serial_number_read : List ℕ → Option Apdu
init_serial_number_read c = taken_if (length c == 8) (serial_number_read (read_serial c))

-- A serial number is an array of six bytes.
unfoldable pub to_packet_serial_number_read : List ℕ → List ℕ
to_packet_serial_number_read serno = 0x03 ∷ 0xdc ∷ serno

unfoldable pub init_serial_number_response : List ℕ → Option Apdu
init_serial_number_response c =
    taken_if (length c == 12) (serial_number_response (read_serial c) (word (at c 8) (at c 9)))

unfoldable pub to_packet_serial_number_response : List ℕ → ℕ → List ℕ
to_packet_serial_number_response serno addr =
    0x03 ∷ 0xdd ∷ (serno ++ (high_byte addr ∷ low_byte addr ∷ 0 ∷ 0 ∷ []))

unfoldable pub init_serial_number_write : List ℕ → Option Apdu
init_serial_number_write c =
    taken_if (length c == 14) (serial_number_write (read_serial c) (word (at c 8) (at c 9)))

-- The second byte is that of the response.
unfoldable pub to_packet_serial_number_write : List ℕ → ℕ → List ℕ
to_packet_serial_number_write serno addr =
    0x03 ∷ 0xdd ∷ (serno ++ (high_byte addr ∷ low_byte addr ∷ 0 ∷ 0 ∷ 0 ∷ 0 ∷ []))
