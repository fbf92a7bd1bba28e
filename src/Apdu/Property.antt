-- ===== src/Apdu/Property.antt =====
-- apdu.cpp: `init` and `ToPacket` of the messages on properties, device descriptors and the
-- analogue converter.
use bcusdk.Base.{
  ℕ, Bool, ◌&&◌, Option, none, some, List, [], ◌∷◌, length, drop, at, word, ltb, ◌==◌,
  if◌then◌else◌, bit_and, bit_or,
}
use bcusdk.Base.Bits.{shl, shr}
use bcusdk.Apdu.{
  Apdu, property_value_read, property_value_response, property_value_write,
  property_description_read, property_description_response, device_descriptor_read,
  device_descriptor_response, adc_read, adc_response,
}
use bcusdk.Apdu.Fields.{high_byte, low_byte, asserting, taken_if}

-- `(c[4] >> 4) & 0x0f`
abbrev pub read_count : List ℕ → ℕ
read_count c = bit_and (shr (at c 4) 4) 0x0f

-- `(c[4] & 0x0f) << 8 | c[5]`
abbrev pub read_start : List ℕ → ℕ
read_start c = bit_or (shl (bit_and (at c 4) 0x0f) 8) (at c 5)

-- `(count & 0x0f) << 4 | ((start >> 8) & 0x0f)`
abbrev pub count_start : ℕ → ℕ → ℕ
count_start count start = bit_or (shl (bit_and count 0x0f) 4) (bit_and (shr start 8) 0x0f)

-- The two asserts of the messages on property values.
abbrev pub in_property : ℕ → ℕ → Bool
in_property count start = bit_and count 0xf0 == 0 && bit_and start 0xf000 == 0

unfoldable pub init_property_value_read : List ℕ → Option Apdu
init_property_value_read c =
    taken_if (length c == 6) (property_value_read (at c 2) (at c 3) (read_count c) (read_start c))

unfoldable pub to_packet_property_value_read : ℕ → ℕ → ℕ → ℕ → Option (List ℕ)
to_packet_property_value_read obj prop count start =
    asserting (in_property count start)
      (0x03 ∷ 0xd5 ∷ obj ∷ prop ∷ count_start count start ∷ low_byte start ∷ [])

unfoldable pub init_property_value_response : List ℕ → Option Apdu
init_property_value_response c =
    if ltb (length c) 6
    then none
    else some (property_value_response (at c 2) (at c 3) (read_count c) (read_start c) (drop 6 c))

unfoldable pub to_packet_property_value_response : ℕ → ℕ → ℕ → ℕ → List ℕ → Option (List ℕ)
to_packet_property_value_response obj prop count start content =
    asserting (in_property count start)
      (0x03 ∷ 0xd6 ∷ obj ∷ prop ∷ count_start count start ∷ low_byte start ∷ content)

unfoldable pub init_property_value_write : List ℕ → Option Apdu
init_property_value_write c =
    if ltb (length c) 6
    then none
    else some (property_value_write (at c 2) (at c 3) (read_count c) (read_start c) (drop 6 c))

unfoldable pub to_packet_property_value_write : ℕ → ℕ → ℕ → ℕ → List ℕ → Option (List ℕ)
to_packet_property_value_write obj prop count start content =
    asserting (in_property count start)
      (0x03 ∷ 0xd7 ∷ obj ∷ prop ∷ count_start count start ∷ low_byte start ∷ content)

unfoldable pub init_property_description_read : List ℕ → Option Apdu
init_property_description_read c =
    taken_if (length c == 5) (property_description_read (at c 2) (at c 3) (at c 4))

unfoldable pub to_packet_property_description_read : ℕ → ℕ → ℕ → List ℕ
to_packet_property_description_read obj prop property_index =
    0x03 ∷ 0xd8 ∷ obj ∷ prop ∷ property_index ∷ []

unfoldable pub init_property_description_response : List ℕ → Option Apdu
init_property_description_response c = taken_if (length c == 9) (
    property_description_response (at c 2) (at c 3) (at c 4) (at c 5) (word (at c 6) (at c 7))
      (at c 8))

unfoldable pub to_packet_property_description_response : ℕ → ℕ → ℕ → ℕ → ℕ → ℕ → List ℕ
to_packet_property_description_response obj prop property_index type count access =
    0x03
    ∷ 0xd9
    ∷ obj
    ∷ prop
    ∷ property_index
    ∷ type
    ∷ high_byte count
    ∷ low_byte count
    ∷ access
    ∷ []

unfoldable pub init_device_descriptor_read : List ℕ → Option Apdu
init_device_descriptor_read c =
    taken_if (length c == 2) (device_descriptor_read (bit_and (at c 1) 0x3f))

unfoldable pub to_packet_device_descriptor_read : ℕ → Option (List ℕ)
to_packet_device_descriptor_read type =
    asserting (bit_and type 0xc0 == 0) (0x03 ∷ bit_or 0x00 (bit_and type 0x3f) ∷ [])

unfoldable pub init_device_descriptor_response : List ℕ → Option Apdu
init_device_descriptor_response c =
    taken_if (length c == 4)
      (device_descriptor_response (bit_and (at c 1) 0x3f) (word (at c 2) (at c 3)))

-- The second byte starts from 0x01, where fromPacket looks for 0x40.
unfoldable pub to_packet_device_descriptor_response : ℕ → ℕ → Option (List ℕ)
to_packet_device_descriptor_response type descriptor =
    asserting (bit_and type 0xc0 == 0)
      (0x03 ∷ bit_or 0x01 (bit_and type 0x3f) ∷ high_byte descriptor ∷ low_byte descriptor ∷ [])

unfoldable pub init_adc_read : List ℕ → Option Apdu
init_adc_read c = taken_if (length c == 3) (adc_read (bit_and (at c 1) 0x3f) (at c 2))

unfoldable pub to_packet_adc_read : ℕ → ℕ → Option (List ℕ)
to_packet_adc_read channel count =
    asserting (bit_and channel 0xc0 == 0) (0x01 ∷ bit_or 0x80 (bit_and channel 0x3f) ∷ count ∷ [])

unfoldable pub init_adc_response : List ℕ → Option Apdu
init_adc_response c =
    taken_if (length c == 5)
      (adc_response (bit_and (at c 1) 0x3f) (at c 2) (word (at c 3) (at c 4)))

unfoldable pub to_packet_adc_response : ℕ → ℕ → ℕ → Option (List ℕ)
to_packet_adc_response channel count val =
    asserting (bit_and channel 0xc0 == 0)
      (0x01 ∷ bit_or 0xc0 (bit_and channel 0x3f) ∷ count ∷ high_byte val ∷ low_byte val ∷ [])
