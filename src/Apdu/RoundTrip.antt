-- ===== src/Apdu/RoundTrip.antt =====
-- APDU::fromPacket after ToPacket.
pub mod Cons
pub mod Group
pub mod Domain
pub mod Property
pub mod Memory
pub mod Access
use bcusdk.Base.{List, arith, false, refl, some, ℕ, ◌≡◌}
use bcusdk.Apdu.{
  Apdu, adc_read, adc_response, authorize_request, authorize_response, device_descriptor_read,
  device_descriptor_response, domain_address_read, domain_address_response,
  domain_address_selective_read, domain_address_write, group_value_read, group_value_response,
  group_value_write, individual_address_read, individual_address_response, individual_address_write,
  key_response, key_write, memory_bit_write, memory_read, memory_response, memory_write,
  property_description_read, property_description_response, property_value_read,
  property_value_response, property_value_write, restart, serial_number_read,
  serial_number_response, serial_number_write, service_information, unknown,
  user_manufacturer_info_read, user_manufacturer_info_response, user_memory_bit_write,
  user_memory_read, user_memory_response, user_memory_write,
}
use bcusdk.Apdu.Access.{
  init_authorize_response, init_key_response, init_restart, to_packet_authorize_response,
  to_packet_key_response, to_packet_restart,
}
use bcusdk.Apdu.Codec.{from_packet, init, to_packet}
use bcusdk.Apdu.Domain.{init_domain_address_read, to_packet_domain_address_read}
use bcusdk.Apdu.Group.{
  init_group_value_read, init_individual_address_read, init_individual_address_response,
  to_packet_group_value_read, to_packet_individual_address_read,
  to_packet_individual_address_response,
}
use bcusdk.Apdu.Memory.{init_user_manufacturer_info_read, to_packet_user_manufacturer_info_read}
use bcusdk.Apdu.Property.{init_property_description_read, to_packet_property_description_read}
use bcusdk.Apdu.Ranges.{IsApdu}
use bcusdk.Apdu.RoundTrip.Access.{authorize_request_back, key_write_back}
use bcusdk.Apdu.RoundTrip.Domain.{
  domain_address_response_back, domain_address_selective_read_lost, domain_address_write_back,
  service_information_back,
}
use bcusdk.Apdu.RoundTrip.Group.{
  content_read, group_value_response_back, group_value_write_back, individual_address_write_back,
  serial_number_read_back, serial_number_response_back, serial_number_write_lost, small_read,
}
use bcusdk.Apdu.RoundTrip.Memory.{
  memory_bit_write_back, memory_read_back, memory_response_back, memory_write_back,
  user_manufacturer_info_response_back, user_memory_bit_write_back, user_memory_read_back,
  user_memory_response_back, user_memory_write_back,
}
use bcusdk.Apdu.RoundTrip.Property.{
  adc_read_back, adc_response_back, device_descriptor_read_back, device_descriptor_response_lost,
  property_description_response_back, property_value_read_back, property_value_response_back,
  property_value_write_back,
}
use bcusdk.Apdu.Service.{class_of}

-- The message that is read of the packet `c` that was written for a message. An unknown message is
-- written as its bytes, and read as whatever they are.
abbrev pub as_read : Apdu → List ℕ → Apdu
as_read (unknown d) c = from_packet d
as_read (group_value_response issmall d) c =
    group_value_response (small_read issmall d) (content_read issmall d)
as_read (group_value_write issmall d) c =
    group_value_write (small_read issmall d) (content_read issmall d)
as_read (serial_number_write serno addr) c = unknown c
as_read (service_information v d a) c = service_information v false a
as_read (domain_address_selective_read d a r) c = unknown c
as_read (device_descriptor_response type descriptor) c = unknown c
as_read (user_memory_bit_write e n a x y) c = user_memory_bit_write 0 n a x y
as_read m c = m

of_some : {c d : List ℕ} {m : Apdu} → some c ≡ some d → from_packet c ≡ m → from_packet d ≡ m
of_some e h = ground arith

lost_some : {c d : List ℕ} → some c ≡ some d → from_packet c ≡ unknown c → from_packet d ≡ unknown d
lost_some e h = ground arith

-- What ToPacket writes is read back by APDU::fromPacket as the same message, for all values of the
-- fields that fit their types and pass the asserts, except that: an unknown message is written as
-- the bytes that it holds, and is read as what fromPacket makes of these, which may be another class;
-- the messages that set an address by serial number, that
-- read selectively by domain address and that answer for a device descriptor are read as unknown
-- messages; the second flag of a service information is lost; the address extension of a user
-- memory bit write is lost; and an empty group value that is not small comes back as a small 0.
pub from_packet-to_packet_apdu :
    (fresh : ℕ → ℕ) (m : Apdu) (c : List ℕ)
    → IsApdu m
    → to_packet fresh m ≡ some c
    → from_packet c ≡ as_read m c
unfolding to_packet
from_packet-to_packet_apdu fresh (unknown d) c w e = of_some e refl
from_packet-to_packet_apdu fresh group_value_read c w e =
    of_some e
      (unfold to_packet_group_value_read init init_group_value_read class_of from_packet in refl)
from_packet-to_packet_apdu fresh (group_value_response p q) c w e =
    group_value_response_back p q c w e
from_packet-to_packet_apdu fresh (group_value_write p q) c w e = group_value_write_back p q c w e
from_packet-to_packet_apdu fresh individual_address_read c w e = of_some e (
    unfold to_packet_individual_address_read init init_individual_address_read class_of
      from_packet in
    refl)
from_packet-to_packet_apdu fresh individual_address_response c w e = of_some e (
    unfold to_packet_individual_address_response init init_individual_address_response class_of
      from_packet in
    refl)
from_packet-to_packet_apdu fresh (individual_address_write p) c w e =
    of_some e (individual_address_write_back p w)
from_packet-to_packet_apdu fresh (serial_number_read p) c w e =
    of_some e (serial_number_read_back p w)
from_packet-to_packet_apdu fresh (serial_number_response p q) c w e =
    of_some e (serial_number_response_back p q w.0 w.1)
from_packet-to_packet_apdu fresh (serial_number_write p q) c w e =
    lost_some e (serial_number_write_lost p q w.0)
from_packet-to_packet_apdu fresh (service_information p q r) c w e =
    of_some e (service_information_back p q r)
from_packet-to_packet_apdu fresh (domain_address_write p) c w e =
    of_some e (domain_address_write_back p w)
from_packet-to_packet_apdu fresh domain_address_read c w e = of_some e (
    unfold to_packet_domain_address_read init init_domain_address_read class_of from_packet in refl)
from_packet-to_packet_apdu fresh (domain_address_response p) c w e =
    of_some e (domain_address_response_back p w)
from_packet-to_packet_apdu fresh (domain_address_selective_read p q r) c w e =
    lost_some e (domain_address_selective_read_lost fresh p q r)
from_packet-to_packet_apdu fresh (property_value_read p q r s) c w e =
    property_value_read_back p q r s c w.2 w.3 e
from_packet-to_packet_apdu fresh (property_value_response p q r s t) c w e =
    property_value_response_back p q r s t c w.2 w.3 e
from_packet-to_packet_apdu fresh (property_value_write p q r s t) c w e =
    property_value_write_back p q r s t c w.2 w.3 e
from_packet-to_packet_apdu fresh (property_description_read p q r) c w e = of_some e (
    unfold to_packet_property_description_read init init_property_description_read class_of
      from_packet in
    refl)
from_packet-to_packet_apdu fresh (property_description_response p q r s t u) c w e =
    of_some e (property_description_response_back p q r s t u w.4)
from_packet-to_packet_apdu fresh (device_descriptor_read p) c w e =
    device_descriptor_read_back p c w e
from_packet-to_packet_apdu fresh (device_descriptor_response p q) c w e =
    device_descriptor_response_lost p q c w.0 e
from_packet-to_packet_apdu fresh (adc_read p q) c w e = adc_read_back p q c w.0 e
from_packet-to_packet_apdu fresh (adc_response p q r) c w e = adc_response_back p q r c w.0 w.2 e
from_packet-to_packet_apdu fresh (memory_read p q) c w e = memory_read_back p q c w.0 w.1 e
from_packet-to_packet_apdu fresh (memory_response p q r) c w e =
    memory_response_back p q r c w.0 w.1 e
from_packet-to_packet_apdu fresh (memory_write p q r) c w e = memory_write_back p q r c w.0 w.1 e
from_packet-to_packet_apdu fresh (memory_bit_write p q r s) c w e =
    memory_bit_write_back p q r s c w.1 e
from_packet-to_packet_apdu fresh (user_memory_read p q r) c w e =
    user_memory_read_back p q r c w.0 w.1 w.2 e
from_packet-to_packet_apdu fresh (user_memory_response p q r s) c w e =
    user_memory_response_back p q r s c w.0 w.1 w.2 e
from_packet-to_packet_apdu fresh (user_memory_write p q r s) c w e =
    user_memory_write_back p q r s c w.0 w.1 w.2 e
from_packet-to_packet_apdu fresh (user_memory_bit_write p q r s t) c w e =
    user_memory_bit_write_back p q r s t c w.2 e
from_packet-to_packet_apdu fresh user_manufacturer_info_read c w e = of_some e (
    unfold to_packet_user_manufacturer_info_read init init_user_manufacturer_info_read class_of
      from_packet in
    refl)
from_packet-to_packet_apdu fresh (user_manufacturer_info_response p q) c w e =
    of_some e (user_manufacturer_info_response_back p q w.1)
from_packet-to_packet_apdu fresh restart c w e =
    of_some e (unfold to_packet_restart init init_restart class_of from_packet in refl)
from_packet-to_packet_apdu fresh (authorize_request p) c w e =
    of_some e (authorize_request_back p w)
from_packet-to_packet_apdu fresh (authorize_response p) c w e =
    of_some e (
      unfold to_packet_authorize_response init init_authorize_response class_of from_packet in refl)
from_packet-to_packet_apdu fresh (key_write p q) c w e = of_some e (key_write_back p q w.1)
from_packet-to_packet_apdu fresh (key_response p) c w e =
    of_some e (unfold to_packet_key_response init init_key_response class_of from_packet in refl)
