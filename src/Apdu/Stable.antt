-- ===== src/Apdu/Stable.antt =====
-- ToPacket on the messages that APDU::fromPacket made.
use bcusdk.Base.{Bool, IsBytes, List, arith, at, false, refl, some, true, ℕ, ◌≡◌}
use bcusdk.Apdu.{
  Apdu, adc_read, adc_response, authorize_request, authorize_response, device_descriptor_read,
  device_descriptor_response, domain_address_read, domain_address_response,
  domain_address_selective_read, domain_address_write, group_value_read, group_value_response,
  group_value_write, individual_address_read, individual_address_response, individual_address_write,
  key_response, key_write, memory_bit_write, memory_read, memory_response, memory_write,
  property_description_read, property_description_response, property_value_read,
  property_value_response, property_value_write, restart, serial_number_read,
  serial_number_response, serial_number_write, service_information, unknown,
  user_manufacturer_info_read, user_manufacturer_info_response, user_memory_bit_write,
  user_memory_read, user_memory_response, user_memory_write,
}
use bcusdk.Apdu.Bounds.{from_packet-IsReadApdu}
use bcusdk.Apdu.Codec.{from_packet, to_packet}
use bcusdk.Apdu.Fields.{asserting}
use bcusdk.Apdu.Group.{to_packet_group_value_response, to_packet_group_value_write}
use bcusdk.Apdu.Memory.{
  to_packet_memory_bit_write, to_packet_memory_read, to_packet_memory_response,
  to_packet_memory_write, to_packet_user_memory_bit_write, to_packet_user_memory_read,
  to_packet_user_memory_response, to_packet_user_memory_write,
}
use bcusdk.Apdu.Property.{
  to_packet_adc_read, to_packet_adc_response, to_packet_device_descriptor_read,
  to_packet_device_descriptor_response, to_packet_property_value_read,
  to_packet_property_value_response, to_packet_property_value_write,
}
use bcusdk.Apdu.Ranges.{IsApdu, IsReadApdu}
use bcusdk.Apdu.RoundTrip.{as_read, from_packet-to_packet_apdu}
use bcusdk.Apdu.Values.{half_byte_fits, small_fits, start_fits}

asserting-true :
    (test : Bool) (c : List ℕ) → test ≡ true → (d : List ℕ) × (asserting test c ≡ some d)
asserting-true test c e = (c, rw e refl)

-- No assert of ToPacket stops the program on such a message.
pub to_packet_written :
    (fresh : ℕ → ℕ) (m : Apdu) → IsReadApdu m → (c : List ℕ) × (to_packet fresh m ≡ some c)
unfolding to_packet to_packet_group_value_response to_packet_group_value_write
    to_packet_property_value_read to_packet_property_value_response to_packet_property_value_write
    to_packet_device_descriptor_read to_packet_device_descriptor_response to_packet_adc_read
    to_packet_adc_response to_packet_memory_read to_packet_memory_response to_packet_memory_write
    to_packet_memory_bit_write to_packet_user_memory_read to_packet_user_memory_response
    to_packet_user_memory_write to_packet_user_memory_bit_write
to_packet_written fresh (unknown c) w = (c, refl)
to_packet_written fresh group_value_read w = (_, refl)
to_packet_written fresh (group_value_response true q) w =
    asserting-true _ _ (ground (arith, small_fits (at q 0)))
to_packet_written fresh (group_value_response false q) w = (_, refl)
to_packet_written fresh (group_value_write true q) w =
    asserting-true _ _ (ground (arith, small_fits (at q 0)))
to_packet_written fresh (group_value_write false q) w = (_, refl)
to_packet_written fresh individual_address_read w = (_, refl)
to_packet_written fresh individual_address_response w = (_, refl)
to_packet_written fresh (individual_address_write p) w = (_, refl)
to_packet_written fresh (serial_number_read p) w = (_, refl)
to_packet_written fresh (serial_number_response p q) w = (_, refl)
to_packet_written fresh (serial_number_write p q) w = (_, refl)
to_packet_written fresh (service_information p q r) w = (_, refl)
to_packet_written fresh (domain_address_write p) w = (_, refl)
to_packet_written fresh domain_address_read w = (_, refl)
to_packet_written fresh (domain_address_response p) w = (_, refl)
to_packet_written fresh (domain_address_selective_read p q r) w = (_, refl)
to_packet_written fresh (property_value_read p q r s) w =
    asserting-true _ _ (ground (arith, half_byte_fits r, start_fits s))
to_packet_written fresh (property_value_response p q r s t) w =
    asserting-true _ _ (ground (arith, half_byte_fits r, start_fits s))
to_packet_written fresh (property_value_write p q r s t) w =
    asserting-true _ _ (ground (arith, half_byte_fits r, start_fits s))
to_packet_written fresh (property_description_read p q r) w = (_, refl)
to_packet_written fresh (property_description_response p q r s t u) w = (_, refl)
to_packet_written fresh (device_descriptor_read p) w =
    asserting-true _ _ (ground (arith, small_fits p))
to_packet_written fresh (device_descriptor_response p q) w =
    asserting-true _ _ (ground (arith, small_fits p))
to_packet_written fresh (adc_read p q) w = asserting-true _ _ (ground (arith, small_fits p))
to_packet_written fresh (adc_response p q r) w = asserting-true _ _ (ground (arith, small_fits p))
to_packet_written fresh (memory_read p q) w = asserting-true _ _ (ground (arith, half_byte_fits p))
to_packet_written fresh (memory_response p q r) w =
    asserting-true _ _ (ground (arith, half_byte_fits p))
to_packet_written fresh (memory_write p q r) w =
    asserting-true _ _ (ground (arith, half_byte_fits p))
to_packet_written fresh (memory_bit_write p q r s) w = asserting-true _ _ (ground (arith))
to_packet_written fresh (user_memory_read p q r) w =
    asserting-true _ _ (ground (arith, half_byte_fits p, half_byte_fits q))
to_packet_written fresh (user_memory_response p q r s) w =
    asserting-true _ _ (ground (arith, half_byte_fits p, half_byte_fits q))
to_packet_written fresh (user_memory_write p q r s) w =
    asserting-true _ _ (ground (arith, half_byte_fits p, half_byte_fits q))
to_packet_written fresh (user_memory_bit_write p q r s t) w = asserting-true _ _ (ground (arith))
to_packet_written fresh user_manufacturer_info_read w = (_, refl)
to_packet_written fresh (user_manufacturer_info_response p q) w = (_, refl)
to_packet_written fresh restart w = (_, refl)
to_packet_written fresh (authorize_request p) w = (_, refl)
to_packet_written fresh (authorize_response p) w = (_, refl)
to_packet_written fresh (key_write p q) w = (_, refl)
to_packet_written fresh (key_response p) w = (_, refl)

IsReadApdu-IsApdu : (m : Apdu) → IsReadApdu m → IsApdu m
IsReadApdu-IsApdu (unknown c) w = w
IsReadApdu-IsApdu (group_value_response true d) w = w.2
IsReadApdu-IsApdu (group_value_response false d) w = w.1
IsReadApdu-IsApdu (group_value_write true d) w = w.2
IsReadApdu-IsApdu (group_value_write false d) w = w.1
IsReadApdu-IsApdu group_value_read w = w
IsReadApdu-IsApdu individual_address_read w = w
IsReadApdu-IsApdu individual_address_response w = w
IsReadApdu-IsApdu (individual_address_write p) w = w
IsReadApdu-IsApdu (serial_number_read p) w = w
IsReadApdu-IsApdu (serial_number_response p q) w = w
IsReadApdu-IsApdu (serial_number_write p q) w = w
IsReadApdu-IsApdu (service_information p q r) w = w
IsReadApdu-IsApdu (domain_address_write p) w = w
IsReadApdu-IsApdu domain_address_read w = w
IsReadApdu-IsApdu (domain_address_response p) w = w
IsReadApdu-IsApdu (domain_address_selective_read p q r) w = w
IsReadApdu-IsApdu (property_value_read p q r s) w = (w.0, w.1, omega arith, omega arith)
IsReadApdu-IsApdu (property_value_response p q r s t) w = (w.0, w.1, omega arith, omega arith, w.4)
IsReadApdu-IsApdu (property_value_write p q r s t) w = (w.0, w.1, omega arith, omega arith, w.4)
IsReadApdu-IsApdu (property_description_read p q r) w = w
IsReadApdu-IsApdu (property_description_response p q r s t u) w = w
IsReadApdu-IsApdu (device_descriptor_read p) w = omega arith
IsReadApdu-IsApdu (device_descriptor_response p q) w = (omega arith, w.1)
IsReadApdu-IsApdu (adc_read p q) w = (omega arith, w.1)
IsReadApdu-IsApdu (adc_response p q r) w = (omega arith, w.1, w.2)
IsReadApdu-IsApdu (memory_read p q) w = (omega arith, w.1)
IsReadApdu-IsApdu (memory_response p q r) w = (omega arith, w.1, w.2.1)
IsReadApdu-IsApdu (memory_write p q r) w = (omega arith, w.1, w.2.1)
IsReadApdu-IsApdu (memory_bit_write p q r s) w = (w.0, w.1, w.2.1, w.3.1)
IsReadApdu-IsApdu (user_memory_read p q r) w = (omega arith, omega arith, w.2)
IsReadApdu-IsApdu (user_memory_response p q r s) w = (omega arith, omega arith, w.2, w.3.1)
IsReadApdu-IsApdu (user_memory_write p q r s) w = (omega arith, omega arith, w.2, w.3.1)
IsReadApdu-IsApdu (user_memory_bit_write p q r s t) w = (omega arith, w.1, w.2, w.3.1, w.4.1)
IsReadApdu-IsApdu user_manufacturer_info_read w = w
IsReadApdu-IsApdu (user_manufacturer_info_response p q) w = w
IsReadApdu-IsApdu restart w = w
IsReadApdu-IsApdu (authorize_request p) w = w
IsReadApdu-IsApdu (authorize_response p) w = w
IsReadApdu-IsApdu (key_write p q) w = w
IsReadApdu-IsApdu (key_response p) w = w

-- Whatever bytes APDU::fromPacket is given, no assert of ToPacket stops the program on the message,
-- and reading what ToPacket writes gives the message again, up to what the round trip loses.
pub from_packet_stable :
    (fresh : ℕ → ℕ) (c : List ℕ)
    → IsBytes c
    → (d : List ℕ) × ((to_packet fresh (from_packet c) ≡ some d)
        × (from_packet d ≡ as_read (from_packet c) d))
from_packet_stable fresh c b =
    let r = from_packet-IsReadApdu c b in
    let written = to_packet_written fresh (from_packet c) r in
    (
      written.0,
      (
        written.1,
        from_packet-to_packet_apdu fresh (from_packet c) written.0 (IsReadApdu-IsApdu _ r)
            written.1,
      ),
    )
