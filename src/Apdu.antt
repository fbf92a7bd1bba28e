-- ===== src/Apdu.antt =====
-- eibd/libserver/apdu.h and apdu.cpp: the messages of the application layer. Text output (Decode)
-- is left out.
pub mod Fields
pub mod Group
pub mod Domain
pub mod Property
pub mod Memory
pub mod Access
pub mod Service
pub mod Codec
pub mod Values
pub mod Headers
pub mod Ranges
pub mod RoundTrip
pub mod Bounds
pub mod Stable
pub mod Answers
mod Tests
use bcusdk.Base.{ℕ, Bool, List}

-- One constructor for each subclass of APDU, with its fields in the order of the declaration.
-- Numbers are bit patterns: the signed value of an ADC response is its 16 bits.
pub data Apdu : Type 0 where
  unknown : List ℕ → Apdu
  group_value_read : Apdu
  group_value_response group_value_write : Bool → List ℕ → Apdu
  individual_address_read individual_address_response : Apdu
  individual_address_write : ℕ → Apdu
  serial_number_read : List ℕ → Apdu
  serial_number_response serial_number_write : List ℕ → ℕ → Apdu
  service_information : Bool → Bool → Bool → Apdu
  domain_address_write : ℕ → Apdu
  domain_address_read : Apdu
  domain_address_response : ℕ → Apdu
  domain_address_selective_read : ℕ → ℕ → ℕ → Apdu
  property_value_read : ℕ → ℕ → ℕ → ℕ → Apdu
  property_value_response property_value_write : ℕ → ℕ → ℕ → ℕ → List ℕ → Apdu
  property_description_read : ℕ → ℕ → ℕ → Apdu
  property_description_response : ℕ → ℕ → ℕ → ℕ → ℕ → ℕ → Apdu
  device_descriptor_read : ℕ → Apdu
  device_descriptor_response : ℕ → ℕ → Apdu
  adc_read : ℕ → ℕ → Apdu
  adc_response : ℕ → ℕ → ℕ → Apdu
  memory_read : ℕ → ℕ → Apdu
  memory_response memory_write : ℕ → ℕ → List ℕ → Apdu
  memory_bit_write : ℕ → ℕ → List ℕ → List ℕ → Apdu
  user_memory_read : ℕ → ℕ → ℕ → Apdu
  user_memory_response user_memory_write : ℕ → ℕ → ℕ → List ℕ → Apdu
  user_memory_bit_write : ℕ → ℕ → ℕ → List ℕ → List ℕ → Apdu
  user_manufacturer_info_read : Apdu
  user_manufacturer_info_response : ℕ → ℕ → Apdu
  restart : Apdu
  authorize_request : ℕ → Apdu
  authorize_response : ℕ → Apdu
  key_write : ℕ → ℕ → Apdu
  key_response : ℕ → Apdu

pub data ApduType : Type 0 where
  a_unknown a_group_value_read a_group_value_response a_group_value_write a_individual_address_read
        a_individual_address_response a_individual_address_write a_serial_number_read
        a_serial_number_response a_serial_number_write a_service_information a_domain_address_write
        a_domain_address_read a_domain_address_response a_domain_address_selective_read
        a_property_value_read a_property_value_response a_property_value_write
        a_property_description_read a_property_description_response a_device_descriptor_read
        a_device_descriptor_response a_adc_read a_adc_response a_memory_read a_memory_response
        a_memory_write a_memory_bit_write a_user_memory_read a_user_memory_response
        a_user_memory_write a_user_memory_bit_write a_user_manufacturer_info_read
        a_user_manufacturer_info_response a_restart a_authorize_request a_authorize_response
        a_key_write a_key_response :
      ApduType

unfoldable pub get_type : Apdu → ApduType
get_type (unknown _) = ApduType.a_unknown
get_type group_value_read = ApduType.a_group_value_read
get_type (group_value_response _ _) = ApduType.a_group_value_response
get_type (group_value_write _ _) = ApduType.a_group_value_write
get_type individual_address_read = ApduType.a_individual_address_read
get_type individual_address_response = ApduType.a_individual_address_response
get_type (individual_address_write _) = ApduType.a_individual_address_write
get_type (serial_number_read _) = ApduType.a_serial_number_read
get_type (serial_number_response _ _) = ApduType.a_serial_number_response
get_type (serial_number_write _ _) = ApduType.a_serial_number_write
get_type (service_information _ _ _) = ApduType.a_service_information
get_type (domain_address_write _) = ApduType.a_domain_address_write
get_type domain_address_read = ApduType.a_domain_address_read
get_type (domain_address_response _) = ApduType.a_domain_address_response
get_type (domain_address_selective_read _ _ _) = ApduType.a_domain_address_selective_read
get_type (property_value_read _ _ _ _) = ApduType.a_property_value_read
get_type (property_value_response _ _ _ _ _) = ApduType.a_property_value_response
get_type (property_value_write _ _ _ _ _) = ApduType.a_property_value_write
get_type (property_description_read _ _ _) = ApduType.a_property_description_read
get_type (property_description_response _ _ _ _ _ _) = ApduType.a_property_description_response
get_type (device_descriptor_read _) = ApduType.a_device_descriptor_read
get_type (device_descriptor_response _ _) = ApduType.a_device_descriptor_response
get_type (adc_read _ _) = ApduType.a_adc_read
get_type (adc_response _ _ _) = ApduType.a_adc_response
get_type (memory_read _ _) = ApduType.a_memory_read
get_type (memory_response _ _ _) = ApduType.a_memory_response
get_type (memory_write _ _ _) = ApduType.a_memory_write
get_type (memory_bit_write _ _ _ _) = ApduType.a_memory_bit_write
get_type (user_memory_read _ _ _) = ApduType.a_user_memory_read
get_type (user_memory_response _ _ _ _) = ApduType.a_user_memory_response
get_type (user_memory_write _ _ _ _) = ApduType.a_user_memory_write
get_type (user_memory_bit_write _ _ _ _ _) = ApduType.a_user_memory_bit_write
get_type user_manufacturer_info_read = ApduType.a_user_manufacturer_info_read
get_type (user_manufacturer_info_response _ _) = ApduType.a_user_manufacturer_info_response
get_type restart = ApduType.a_restart
get_type (authorize_request _) = ApduType.a_authorize_request
get_type (authorize_response _) = ApduType.a_authorize_response
get_type (key_write _ _) = ApduType.a_key_write
get_type (key_response _) = ApduType.a_key_response
