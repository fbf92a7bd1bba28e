-- ===== src/Apdu/Ranges.antt =====
-- The values that the fields of the messages in apdu.h can hold, and the narrower ranges of a message
-- that APDU::fromPacket makes.
use bcusdk.Base.{
  Bool, IsByte, IsBytes, IsWord, List, at, false, length, true, ℕ, ◌<◌, ◌^◌, ◌≡◌, ◌≤◌,
}
use bcusdk.Apdu.{
  Apdu, adc_read, adc_response, authorize_request, authorize_response, device_descriptor_read,
  device_descriptor_response, domain_address_read, domain_address_response,
  domain_address_selective_read, domain_address_write, group_value_read, group_value_response,
  group_value_write, individual_address_read, individual_address_response, individual_address_write,
  key_response, key_write, memory_bit_write, memory_read, memory_response, memory_write,
  property_description_read, property_description_response, property_value_read,
  property_value_response, property_value_write, restart, serial_number_read,
  serial_number_response, serial_number_write, service_information, unknown,
  user_manufacturer_info_read, user_manufacturer_info_response, user_memory_bit_write,
  user_memory_read, user_memory_response, user_memory_write,
}

abbrev pub IsSerial : List ℕ → Type 0
IsSerial s = (length s ≡ 6) × IsBytes s

abbrev pub IsKey : ℕ → Type 0
IsKey k = k < 2 ^ 32

-- A message of C++ values.
abbrev pub IsApdu : Apdu → Type 0
IsApdu (unknown p) = IsBytes p
IsApdu group_value_read = Unit
IsApdu (group_value_response p q) = IsBytes q
IsApdu (group_value_write p q) = IsBytes q
IsApdu individual_address_read = Unit
IsApdu individual_address_response = Unit
IsApdu (individual_address_write p) = IsWord p
IsApdu (serial_number_read p) = IsSerial p
IsApdu (serial_number_response p q) = IsSerial p × IsWord q
IsApdu (serial_number_write p q) = IsSerial p × IsWord q
IsApdu (service_information p q r) = Unit
IsApdu (domain_address_write p) = IsWord p
IsApdu domain_address_read = Unit
IsApdu (domain_address_response p) = IsWord p
IsApdu (domain_address_selective_read p q r) = IsWord p × IsWord q × IsByte r
IsApdu (property_value_read p q r s) = IsByte p × IsByte q × IsByte r × IsWord s
IsApdu (property_value_response p q r s t) = IsByte p × IsByte q × IsByte r × IsWord s × IsBytes t
IsApdu (property_value_write p q r s t) = IsByte p × IsByte q × IsByte r × IsWord s × IsBytes t
IsApdu (property_description_read p q r) = IsByte p × IsByte q × IsByte r
IsApdu (property_description_response p q r s t u) =
    IsByte p × IsByte q × IsByte r × IsByte s × IsWord t × IsByte u
IsApdu (device_descriptor_read p) = IsByte p
IsApdu (device_descriptor_response p q) = IsByte p × IsWord q
IsApdu (adc_read p q) = IsByte p × IsByte q
IsApdu (adc_response p q r) = IsByte p × IsByte q × IsWord r
IsApdu (memory_read p q) = IsByte p × IsWord q
IsApdu (memory_response p q r) = IsByte p × IsWord q × IsBytes r
IsApdu (memory_write p q r) = IsByte p × IsWord q × IsBytes r
IsApdu (memory_bit_write p q r s) = IsByte p × IsWord q × IsBytes r × IsBytes s
IsApdu (user_memory_read p q r) = IsByte p × IsByte q × IsWord r
IsApdu (user_memory_response p q r s) = IsByte p × IsByte q × IsWord r × IsBytes s
IsApdu (user_memory_write p q r s) = IsByte p × IsByte q × IsWord r × IsBytes s
IsApdu (user_memory_bit_write p q r s t) = IsByte p × IsByte q × IsWord r × IsBytes s × IsBytes t
IsApdu user_manufacturer_info_read = Unit
IsApdu (user_manufacturer_info_response p q) = IsByte p × IsWord q
IsApdu restart = Unit
IsApdu (authorize_request p) = IsKey p
IsApdu (authorize_response p) = IsByte p
IsApdu (key_write p q) = IsByte p × IsKey q
IsApdu (key_response p) = IsByte p

-- A value of six bits by itself, or one byte and more.
abbrev pub IsGroupValue : Bool → List ℕ → Type 0
IsGroupValue true content = (length content ≡ 1) × at content 0 < 64 × IsBytes content
IsGroupValue false content = 1 ≤ length content × IsBytes content

-- As many bytes as announced.
abbrev pub IsBlock : ℕ → List ℕ → Type 0
IsBlock count content = (length content ≡ count) × IsBytes content

abbrev pub IsReadApdu : Apdu → Type 0
IsReadApdu (unknown c) = IsBytes c
IsReadApdu group_value_read = Unit
IsReadApdu (group_value_response p q) = IsGroupValue p q
IsReadApdu (group_value_write p q) = IsGroupValue p q
IsReadApdu individual_address_read = Unit
IsReadApdu individual_address_response = Unit
IsReadApdu (individual_address_write p) = IsWord p
IsReadApdu (serial_number_read p) = IsSerial p
IsReadApdu (serial_number_response p q) = IsSerial p × IsWord q
IsReadApdu (serial_number_write p q) = IsSerial p × IsWord q
IsReadApdu (service_information p q r) = Unit
IsReadApdu (domain_address_write p) = IsWord p
IsReadApdu domain_address_read = Unit
IsReadApdu (domain_address_response p) = IsWord p
IsReadApdu (domain_address_selective_read p q r) = IsWord p × IsWord q × IsByte r
IsReadApdu (property_value_read p q r s) = IsByte p × IsByte q × r < 16 × s < 4096
IsReadApdu (property_value_response p q r s t) = IsByte p × IsByte q × r < 16 × s < 4096 × IsBytes t
IsReadApdu (property_value_write p q r s t) = IsByte p × IsByte q × r < 16 × s < 4096 × IsBytes t
IsReadApdu (property_description_read p q r) = IsByte p × IsByte q × IsByte r
IsReadApdu (property_description_response p q r s t u) =
    IsByte p × IsByte q × IsByte r × IsByte s × IsWord t × IsByte u
IsReadApdu (device_descriptor_read p) = p < 64
IsReadApdu (device_descriptor_response p q) = p < 64 × IsWord q
IsReadApdu (adc_read p q) = p < 64 × IsByte q
IsReadApdu (adc_response p q r) = p < 64 × IsByte q × IsWord r
IsReadApdu (memory_read p q) = p < 16 × IsWord q
IsReadApdu (memory_response p q r) = p < 16 × IsWord q × IsBlock p r
IsReadApdu (memory_write p q r) = p < 16 × IsWord q × IsBlock p r
IsReadApdu (memory_bit_write p q r s) = IsByte p × IsWord q × IsBlock p r × IsBlock p s
IsReadApdu (user_memory_read p q r) = p < 16 × q < 16 × IsWord r
IsReadApdu (user_memory_response p q r s) = p < 16 × q < 16 × IsWord r × IsBlock q s
IsReadApdu (user_memory_write p q r s) = p < 16 × q < 16 × IsWord r × IsBlock q s
IsReadApdu (user_memory_bit_write p q r s t) =
    (p ≡ 0) × IsByte q × IsWord r × IsBlock q s × IsBlock q t
IsReadApdu user_manufacturer_info_read = Unit
IsReadApdu (user_manufacturer_info_response p q) = IsByte p × IsWord q
IsReadApdu restart = Unit
IsReadApdu (authorize_request p) = IsKey p
IsReadApdu (authorize_response p) = IsByte p
IsReadApdu (key_write p q) = IsByte p × IsKey q
IsReadApdu (key_response p) = IsByte p
