-- ===== src/Apdu/Service.antt =====
-- apdu.cpp: the `switch` of APDU::fromPacket.
use bcusdk.Base.{Option, bit_and, if◌then◌else◌, none, some, ℕ, ◌==◌}
use bcusdk.Apdu.{
  ApduType, a_adc_read, a_adc_response, a_authorize_request, a_authorize_response,
  a_device_descriptor_read, a_device_descriptor_response, a_domain_address_read,
  a_domain_address_response, a_domain_address_selective_read, a_domain_address_write,
  a_group_value_read, a_group_value_response, a_group_value_write, a_individual_address_read,
  a_individual_address_response, a_individual_address_write, a_key_response, a_key_write,
  a_memory_bit_write, a_memory_read, a_memory_response, a_memory_write, a_property_description_read,
  a_property_description_response, a_property_value_read, a_property_value_response,
  a_property_value_write, a_restart, a_serial_number_read, a_serial_number_response,
  a_serial_number_write, a_service_information, a_user_manufacturer_info_read,
  a_user_manufacturer_info_response, a_user_memory_bit_write, a_user_memory_read,
  a_user_memory_response, a_user_memory_write,
}

-- `switch (c[1] & 0xC0)`
abbrev by_top :
    ℕ → Option ApduType → Option ApduType → Option ApduType → Option ApduType → Option ApduType
by_top c1 a b c d =
    let top = bit_and c1 0xc0 in
    if top == 0x00
    then a
    else if top == 0x40
    then b
    else if top == 0x80
    then c
    else if top == 0xc0
    then d
    else none

-- `switch (c[1])` of the user memory services.
abbrev user_service : ℕ → Option ApduType
user_service c1 =
    if c1 == 0xc0
    then some a_user_memory_read
    else if c1 == 0xc1
    then some a_user_memory_response
    else if c1 == 0xc2
    then some a_user_memory_write
    else if c1 == 0xc4
    then some a_user_memory_bit_write
    else if c1 == 0xc5
    then some a_user_manufacturer_info_read
    else if c1 == 0xc6
    then some a_user_manufacturer_info_response
    else none

-- `switch (c[1])` of the other services.
abbrev other_service : ℕ → Option ApduType
other_service c1 =
    if c1 == 0xd0
    then some a_memory_bit_write
    else if c1 == 0xd1
    then some a_authorize_request
    else if c1 == 0xd2
    then some a_authorize_response
    else if c1 == 0xd3
    then some a_key_write
    else if c1 == 0xd4
    then some a_key_response
    else if c1 == 0xd5
    then some a_property_value_read
    else if c1 == 0xd6
    then some a_property_value_response
    else if c1 == 0xd7
    then some a_property_value_write
    else if c1 == 0xd8
    then some a_property_description_read
    else if c1 == 0xd9
    then some a_property_description_response
    else if c1 == 0xdc
    then some a_serial_number_read
    else if c1 == 0xdd
    then some a_serial_number_response
    else if c1 == 0xde
    then some a_serial_number_write
    else if c1 == 0xdf
    then some a_service_information
    else if c1 == 0xe0
    then some a_domain_address_write
    else if c1 == 0xe1
    then some a_domain_address_read
    else if c1 == 0xe2
    then some a_domain_address_response
    else if c1 == 0xe3
    then some a_domain_address_selective_read
    else none

-- The class of the object that fromPacket creates before it calls `init`, by the first two bytes.
unfoldable pub class_of : ℕ → ℕ → Option ApduType
class_of c0 c1 =
    let service = bit_and c0 0x03 in
    if service == 0
    then by_top c1 (some a_group_value_read) (some a_group_value_response)
        (some a_group_value_write) (some a_individual_address_write)
    else if service == 1
    then by_top c1 (some a_individual_address_read) (some a_individual_address_response)
        (some a_adc_read) (some a_adc_response)
    else if service == 2
    then by_top c1 (some a_memory_read) (some a_memory_response) (some a_memory_write)
        (user_service c1)
    else if service == 3
    then by_top c1 (some a_device_descriptor_read) (some a_device_descriptor_response)
        (some a_restart) (other_service c1)
    else none
