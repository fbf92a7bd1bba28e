-- ===== src/Apdu/RoundTrip/Property.antt =====
-- Properties, descriptors and the analogue converter, written by ToPacket and read by
-- APDU::fromPacket.
use bcusdk.Base.{IsByte, IsWord, List, [], arith, at, bit_or, refl, some, ℕ, ◌∷◌, ◌≡◌}
use bcusdk.Apdu.{
  adc_read, adc_response, device_descriptor_read, property_description_response,
  property_value_read, property_value_response, property_value_write, unknown,
}
use bcusdk.Apdu.Codec.{from_packet, init}
use bcusdk.Apdu.Fields.{high_byte, low_byte}
use bcusdk.Apdu.Headers.{
  class_of_adc_read, class_of_adc_response, class_of_device_descriptor_read, field_of, with_one,
}
use bcusdk.Apdu.Property.{
  count_start, init_adc_read, init_adc_response, init_device_descriptor_read,
  init_property_description_response, init_property_value_read, init_property_value_response,
  init_property_value_write, to_packet_adc_read, to_packet_adc_response,
  to_packet_device_descriptor_read, to_packet_device_descriptor_response,
  to_packet_property_description_response, to_packet_property_value_read,
  to_packet_property_value_response, to_packet_property_value_write,
}
use bcusdk.Apdu.RoundTrip.Cons.{from_packet-cons}
use bcusdk.Apdu.Service.{class_of}
use bcusdk.Apdu.Values.{
  count_back, half_byte, small, small_back, start_back, start_bound, word_back,
}

pub property_value_read_back :
    (obj prop count start : ℕ) (c : List ℕ)
    → IsByte count
    → IsWord start
    → to_packet_property_value_read obj prop count start ≡ some c
    → from_packet c ≡ property_value_read obj prop count start
unfolding to_packet_property_value_read init init_property_value_read class_of
property_value_read_back obj prop count start c h k e = ground (
  arith,
  half_byte count h,
  start_bound start k,
  from_packet-cons 0x03 0xd5 (obj ∷ prop ∷ count_start count start ∷ low_byte start ∷ []),
  count_back count start,
  start_back count start,
)

pub property_value_response_back :
    (obj prop count start : ℕ) (content c : List ℕ)
    → IsByte count
    → IsWord start
    → to_packet_property_value_response obj prop count start content ≡ some c
    → from_packet c ≡ property_value_response obj prop count start content
unfolding to_packet_property_value_response init init_property_value_response class_of
property_value_response_back obj prop count start content c h k e = ground (
  arith,
  half_byte count h,
  start_bound start k,
  from_packet-cons 0x03 0xd6 (obj ∷ prop ∷ count_start count start ∷ low_byte start ∷ content),
  count_back count start,
  start_back count start,
)

pub property_value_write_back :
    (obj prop count start : ℕ) (content c : List ℕ)
    → IsByte count
    → IsWord start
    → to_packet_property_value_write obj prop count start content ≡ some c
    → from_packet c ≡ property_value_write obj prop count start content
unfolding to_packet_property_value_write init init_property_value_write class_of
property_value_write_back obj prop count start content c h k e = ground (
  arith,
  half_byte count h,
  start_bound start k,
  from_packet-cons 0x03 0xd7 (obj ∷ prop ∷ count_start count start ∷ low_byte start ∷ content),
  count_back count start,
  start_back count start,
)

pub property_description_response_back :
    (obj prop property_index type count access : ℕ)
    → IsWord count
    → from_packet
        (to_packet_property_description_response obj prop property_index type count access)
      ≡ property_description_response obj prop property_index type count access
unfolding to_packet_property_description_response init init_property_description_response class_of
    from_packet
property_description_response_back obj prop property_index type count access h =
    rw (word_back count h) refl

pub device_descriptor_read_back :
    (type : ℕ) (c : List ℕ)
    → IsByte type
    → to_packet_device_descriptor_read type ≡ some c
    → from_packet c ≡ device_descriptor_read type
unfolding to_packet_device_descriptor_read init init_device_descriptor_read
device_descriptor_read_back type c h e = ground (
  arith,
  small type h,
  small_back type,
  from_packet-cons 0x03 (at c 1) [],
  class_of_device_descriptor_read type,
  field_of 0 type,
)

-- The response is written with the code of the request, for which it is too long.
pub device_descriptor_response_lost :
    (type descriptor : ℕ) (c : List ℕ)
    → IsByte type
    → to_packet_device_descriptor_response type descriptor ≡ some c
    → from_packet c ≡ unknown c
unfolding to_packet_device_descriptor_response init init_device_descriptor_read
device_descriptor_response_lost type descriptor c h e = ground (
  arith,
  small type h,
  small_back type,
  with_one type,
  from_packet-cons 0x03 (at c 1) (high_byte descriptor ∷ low_byte descriptor ∷ []),
  class_of_device_descriptor_read (bit_or 0x01 type),
)

pub adc_read_back :
    (channel count : ℕ) (c : List ℕ)
    → IsByte channel
    → to_packet_adc_read channel count ≡ some c
    → from_packet c ≡ adc_read channel count
unfolding to_packet_adc_read init init_adc_read
adc_read_back channel count c h e = ground (
  arith,
  small channel h,
  small_back channel,
  from_packet-cons 0x01 (at c 1) (count ∷ []),
  class_of_adc_read channel,
  field_of 2 channel,
)

pub adc_response_back :
    (channel count val : ℕ) (c : List ℕ)
    → IsByte channel
    → IsWord val
    → to_packet_adc_response channel count val ≡ some c
    → from_packet c ≡ adc_response channel count val
unfolding to_packet_adc_response init init_adc_response
adc_response_back channel count val c h k e = ground (
  arith,
  small channel h,
  small_back channel,
  word_back val k,
  from_packet-cons 0x01 (at c 1) (count ∷ high_byte val ∷ low_byte val ∷ []),
  class_of_adc_response channel,
  field_of 3 channel,
)
