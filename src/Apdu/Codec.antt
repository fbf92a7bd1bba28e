-- ===== src/Apdu/Codec.antt =====
-- apdu.cpp: APDU::fromPacket and the dispatch of `init` and `ToPacket`.
use bcusdk.Base.{List, Option, at, if◌then◌else◌, leb, length, none, some, ℕ}
use bcusdk.Apdu.{
  Apdu, ApduType, a_adc_read, a_adc_response, a_authorize_request, a_authorize_response,
  a_device_descriptor_read, a_device_descriptor_response, a_domain_address_read,
  a_domain_address_response, a_domain_address_selective_read, a_domain_address_write,
  a_group_value_read, a_group_value_response, a_group_value_write, a_individual_address_read,
  a_individual_address_response, a_individual_address_write, a_key_response, a_key_write,
  a_memory_bit_write, a_memory_read, a_memory_response, a_memory_write, a_property_description_read,
  a_property_description_response, a_property_value_read, a_property_value_response,
  a_property_value_write, a_restart, a_serial_number_read, a_serial_number_response,
  a_serial_number_write, a_service_information, a_unknown, a_user_manufacturer_info_read,
  a_user_manufacturer_info_response, a_user_memory_bit_write, a_user_memory_read,
  a_user_memory_response, a_user_memory_write, adc_read, adc_response, authorize_request,
  authorize_response, device_descriptor_read, device_descriptor_response, domain_address_read,
  domain_address_response, domain_address_selective_read, domain_address_write, group_value_read,
  group_value_response, group_value_write, individual_address_read, individual_address_response,
  individual_address_write, key_response, key_write, memory_bit_write, memory_read, memory_response,
  memory_write, property_description_read, property_description_response, property_value_read,
  property_value_response, property_value_write, restart, serial_number_read,
  serial_number_response, serial_number_write, service_information, unknown,
  user_manufacturer_info_read, user_manufacturer_info_response, user_memory_bit_write,
  user_memory_read, user_memory_response, user_memory_write,
}
use bcusdk.Apdu.Access.{
  init_authorize_request, init_authorize_response, init_key_response, init_key_write, init_restart,
  to_packet_authorize_request, to_packet_authorize_response, to_packet_key_response,
  to_packet_key_write, to_packet_restart,
}
use bcusdk.Apdu.Domain.{
  init_domain_address_read, init_domain_address_response, init_domain_address_selective_read,
  init_domain_address_write, init_service_information, to_packet_domain_address_read,
  to_packet_domain_address_response, to_packet_domain_address_selective_read,
  to_packet_domain_address_write, to_packet_service_information,
}
use bcusdk.Apdu.Group.{
  init_group_value_read, init_group_value_response, init_group_value_write,
  init_individual_address_read, init_individual_address_response, init_individual_address_write,
  init_serial_number_read, init_serial_number_response, init_serial_number_write,
  to_packet_group_value_read, to_packet_group_value_response, to_packet_group_value_write,
  to_packet_individual_address_read, to_packet_individual_address_response,
  to_packet_individual_address_write, to_packet_serial_number_read,
  to_packet_serial_number_response, to_packet_serial_number_write,
}
use bcusdk.Apdu.Memory.{
  init_memory_bit_write, init_memory_read, init_memory_response, init_memory_write,
  init_user_manufacturer_info_read, init_user_manufacturer_info_response,
  init_user_memory_bit_write, init_user_memory_read, init_user_memory_response,
  init_user_memory_write, to_packet_memory_bit_write, to_packet_memory_read,
  to_packet_memory_response, to_packet_memory_write, to_packet_user_manufacturer_info_read,
  to_packet_user_manufacturer_info_response, to_packet_user_memory_bit_write,
  to_packet_user_memory_read, to_packet_user_memory_response, to_packet_user_memory_write,
}
use bcusdk.Apdu.Property.{
  init_adc_read, init_adc_response, init_device_descriptor_read, init_device_descriptor_response,
  init_property_description_read, init_property_description_response, init_property_value_read,
  init_property_value_response, init_property_value_write, to_packet_adc_read,
  to_packet_adc_response, to_packet_device_descriptor_read, to_packet_device_descriptor_response,
  to_packet_property_description_read, to_packet_property_description_response,
  to_packet_property_value_read, to_packet_property_value_response, to_packet_property_value_write,
}
use bcusdk.Apdu.Service.{class_of}

-- `init` by the class of the object; `none` is the answer false.
unfoldable pub init : ApduType → List ℕ → Option Apdu
init a_unknown c = some (unknown c)
init a_group_value_read c = init_group_value_read c
init a_group_value_response c = init_group_value_response c
init a_group_value_write c = init_group_value_write c
init a_individual_address_read c = init_individual_address_read c
init a_individual_address_response c = init_individual_address_response c
init a_individual_address_write c = init_individual_address_write c
init a_serial_number_read c = init_serial_number_read c
init a_serial_number_response c = init_serial_number_response c
init a_serial_number_write c = init_serial_number_write c
init a_service_information c = init_service_information c
init a_domain_address_write c = init_domain_address_write c
init a_domain_address_read c = init_domain_address_read c
init a_domain_address_response c = init_domain_address_response c
init a_domain_address_selective_read c = init_domain_address_selective_read c
init a_property_value_read c = init_property_value_read c
init a_property_value_response c = init_property_value_response c
init a_property_value_write c = init_property_value_write c
init a_property_description_read c = init_property_description_read c
init a_property_description_response c = init_property_description_response c
init a_device_descriptor_read c = init_device_descriptor_read c
init a_device_descriptor_response c = init_device_descriptor_response c
init a_adc_read c = init_adc_read c
init a_adc_response c = init_adc_response c
init a_memory_read c = init_memory_read c
init a_memory_response c = init_memory_response c
init a_memory_write c = init_memory_write c
init a_memory_bit_write c = init_memory_bit_write c
init a_user_memory_read c = init_user_memory_read c
init a_user_memory_response c = init_user_memory_response c
init a_user_memory_write c = init_user_memory_write c
init a_user_memory_bit_write c = init_user_memory_bit_write c
init a_user_manufacturer_info_read c = init_user_manufacturer_info_read c
init a_user_manufacturer_info_response c = init_user_manufacturer_info_response c
init a_restart c = init_restart c
init a_authorize_request c = init_authorize_request c
init a_authorize_response c = init_authorize_response c
init a_key_write c = init_key_write c
init a_key_response c = init_key_response c

abbrev pub init_class : Option ApduType → List ℕ → Option Apdu
init_class none c = none
init_class (some type) c = init type c

abbrev pub or_unknown : List ℕ → Option Apdu → Apdu
or_unknown c none = unknown c
or_unknown c (some a) = a

-- APDU::fromPacket
unfoldable pub from_packet : List ℕ → Apdu
unfolding class_of init
from_packet c =
    or_unknown c (if leb 2 (length c) then init_class (class_of (at c 0) (at c 1)) c else none)

-- ToPacket: `none` where an assert stops the program. `fresh` is what `resize` leaves in a new byte.
unfoldable pub to_packet : (ℕ → ℕ) → Apdu → Option (List ℕ)
to_packet fresh (unknown c) = some c
to_packet fresh group_value_read = some to_packet_group_value_read
to_packet fresh (group_value_response p q) = to_packet_group_value_response p q
to_packet fresh (group_value_write p q) = to_packet_group_value_write p q
to_packet fresh individual_address_read = some to_packet_individual_address_read
to_packet fresh individual_address_response = some to_packet_individual_address_response
to_packet fresh (individual_address_write p) = some (to_packet_individual_address_write p)
to_packet fresh (serial_number_read p) = some (to_packet_serial_number_read p)
to_packet fresh (serial_number_response p q) = some (to_packet_serial_number_response p q)
to_packet fresh (serial_number_write p q) = some (to_packet_serial_number_write p q)
to_packet fresh (service_information p q r) = some (to_packet_service_information p q r)
to_packet fresh (domain_address_write p) = some (to_packet_domain_address_write p)
to_packet fresh domain_address_read = some to_packet_domain_address_read
to_packet fresh (domain_address_response p) = some (to_packet_domain_address_response p)
to_packet fresh (domain_address_selective_read p q r) =
    some (to_packet_domain_address_selective_read fresh p q r)
to_packet fresh (property_value_read p q r s) = to_packet_property_value_read p q r s
to_packet fresh (property_value_response p q r s t) = to_packet_property_value_response p q r s t
to_packet fresh (property_value_write p q r s t) = to_packet_property_value_write p q r s t
to_packet fresh (property_description_read p q r) = some (to_packet_property_description_read p q r)
to_packet fresh (property_description_response p q r s t u) =
    some (to_packet_property_description_response p q r s t u)
to_packet fresh (device_descriptor_read p) = to_packet_device_descriptor_read p
to_packet fresh (device_descriptor_response p q) = to_packet_device_descriptor_response p q
to_packet fresh (adc_read p q) = to_packet_adc_read p q
to_packet fresh (adc_response p q r) = to_packet_adc_response p q r
to_packet fresh (memory_read p q) = to_packet_memory_read p q
to_packet fresh (memory_response p q r) = to_packet_memory_response p q r
to_packet fresh (memory_write p q r) = to_packet_memory_write p q r
to_packet fresh (memory_bit_write p q r s) = to_packet_memory_bit_write p q r s
to_packet fresh (user_memory_read p q r) = to_packet_user_memory_read p q r
to_packet fresh (user_memory_response p q r s) = to_packet_user_memory_response p q r s
to_packet fresh (user_memory_write p q r s) = to_packet_user_memory_write p q r s
to_packet fresh (user_memory_bit_write p q r s t) = to_packet_user_memory_bit_write p q r s t
to_packet fresh user_manufacturer_info_read = some to_packet_user_manufacturer_info_read
to_packet fresh (user_manufacturer_info_response p q) =
    some (to_packet_user_manufacturer_info_response p q)
to_packet fresh restart = some to_packet_restart
to_packet fresh (authorize_request p) = some (to_packet_authorize_request p)
to_packet fresh (authorize_response p) = some (to_packet_authorize_response p)
to_packet fresh (key_write p q) = some (to_packet_key_write p q)
to_packet fresh (key_response p) = some (to_packet_key_response p)
