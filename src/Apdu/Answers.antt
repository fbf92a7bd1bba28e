-- ===== src/Apdu/Answers.antt =====
-- apdu.cpp: isResponse.
pub mod Equivalence
use bcusdk.Base.{Bool, List, [], false, if◌then◌else◌, not, true, ℕ, ◌&&◌, ◌==◌, ◌∷◌}
use bcusdk.Apdu.{
  Apdu, adc_read, adc_response, authorize_request, authorize_response, device_descriptor_read,
  device_descriptor_response, domain_address_read, domain_address_response, group_value_read,
  group_value_response, individual_address_read, individual_address_response, key_response,
  key_write, memory_read, memory_response, property_description_read, property_description_response,
  property_value_read, property_value_response, property_value_write, serial_number_read,
  serial_number_response, user_manufacturer_info_read, user_manufacturer_info_response,
  user_memory_read, user_memory_response,
}

-- `memcmp (a->serno, serno, sizeof (serno))` is 0.
abbrev pub same_serial : List ℕ → List ℕ → Bool
same_serial [] [] = true
same_serial (x ∷ a) (y ∷ b) = let rest = same_serial a b in x == y && rest
same_serial _ _ = false

-- isResponse of the classes that can be an answer, on a request `q`; a class that tests the type of
-- the request casts it then.
unfoldable pub is_response_group_value : Apdu → Bool
is_response_group_value group_value_read = true
is_response_group_value _ = false

unfoldable pub is_response_individual_address : Apdu → Bool
is_response_individual_address individual_address_read = true
is_response_individual_address _ = false

unfoldable pub is_response_serial_number : List ℕ → Apdu → Bool
is_response_serial_number serno (serial_number_read serno') =
    if not (same_serial serno' serno) then false else true
is_response_serial_number serno _ = false

unfoldable pub is_response_domain_address : Apdu → Bool
is_response_domain_address domain_address_read = true
is_response_domain_address _ = false

unfoldable pub is_response_property_value : ℕ → ℕ → ℕ → ℕ → Apdu → Bool
is_response_property_value obj prop count start (property_value_write obj' prop' count' start' _) =
    if obj' == obj && (prop' == prop && (start' == start && count' == count)) then true else false
is_response_property_value obj prop count start (property_value_read obj' prop' count' start') =
    if not (obj' == obj)
    then false
    else if not (prop' == prop)
    then false
    else if not (start' == start)
    then false
    else if not (count' == count)
    then false
    else true
is_response_property_value obj prop count start _ = false

unfoldable pub is_response_property_description : ℕ → Apdu → Bool
is_response_property_description obj (property_description_read obj' _ _) =
    if not (obj' == obj) then false else true
is_response_property_description obj _ = false

unfoldable pub is_response_device_descriptor : ℕ → Apdu → Bool
is_response_device_descriptor type (device_descriptor_read type') =
    if not (type' == type) then false else true
is_response_device_descriptor type _ = false

unfoldable pub is_response_adc : ℕ → ℕ → Apdu → Bool
is_response_adc channel count (adc_read channel' count') =
    if not (count' == count) then false else if not (channel' == channel) then false else true
is_response_adc channel count _ = false

unfoldable pub is_response_memory : ℕ → ℕ → Apdu → Bool
is_response_memory count addr (memory_read count' addr') =
    if not (count' == count) then false else if not (addr' == addr) then false else true
is_response_memory count addr _ = false

unfoldable pub is_response_user_memory : ℕ → ℕ → ℕ → Apdu → Bool
is_response_user_memory addr_extension count addr (user_memory_read addr_extension' count' addr') =
    if not (count' == count)
    then false
    else if not (addr' == addr)
    then false
    else if not (addr_extension' == addr_extension)
    then false
    else true
is_response_user_memory addr_extension count addr _ = false

unfoldable pub is_response_manufacturer_info : Apdu → Bool
is_response_manufacturer_info user_manufacturer_info_read = true
is_response_manufacturer_info _ = false

unfoldable pub is_response_authorize : Apdu → Bool
is_response_authorize (authorize_request _) = true
is_response_authorize _ = false

unfoldable pub is_response_key : ℕ → Apdu → Bool
is_response_key level (key_write level' _) = level' == level
is_response_key level _ = false

-- `isResponse`: whether the first message can be the answer to the second.
unfoldable pub is_response : Apdu → Apdu → Bool
unfolding is_response_group_value is_response_individual_address is_response_serial_number
    is_response_domain_address is_response_property_value is_response_property_description
    is_response_device_descriptor is_response_adc is_response_memory is_response_user_memory
    is_response_manufacturer_info is_response_authorize is_response_key
is_response (group_value_response _ _) q = is_response_group_value q
is_response individual_address_response q = is_response_individual_address q
is_response (serial_number_response serno _) q = is_response_serial_number serno q
is_response (domain_address_response _) q = is_response_domain_address q
is_response (property_value_response obj prop count start _) q =
    is_response_property_value obj prop count start q
is_response (property_description_response obj _ _ _ _ _) q = is_response_property_description obj q
is_response (device_descriptor_response type _) q = is_response_device_descriptor type q
is_response (adc_response channel count _) q = is_response_adc channel count q
is_response (memory_response count addr _) q = is_response_memory count addr q
is_response (user_memory_response addr_extension count addr _) q =
    is_response_user_memory addr_extension count addr q
is_response (user_manufacturer_info_response _ _) q = is_response_manufacturer_info q
is_response (authorize_response _) q = is_response_authorize q
is_response (key_response level) q = is_response_key level q
is_response _ q = false

-- The answers, by an independent description: every field that names what is asked for is repeated,
-- but not the number and the index of a property that is described.
pub data Answers : Apdu → Apdu → Type 0 where
  group_value : (s : Bool) (d : List ℕ) → Answers (group_value_response s d) group_value_read
  individual_address : Answers individual_address_response individual_address_read
  serial_number :
      (serno : List ℕ) (addr : ℕ)
      → Answers (serial_number_response serno addr) (serial_number_read serno)
  domain_address : (addr : ℕ) → Answers (domain_address_response addr) domain_address_read
  property_written :
      (obj prop count start : ℕ) (d e : List ℕ)
      → Answers
          (property_value_response obj prop count start d)
          (property_value_write obj prop count start e)
  property_value :
      (obj prop count start : ℕ) (d : List ℕ)
      → Answers
          (property_value_response obj prop count start d)
          (property_value_read obj prop count start)
  property_description :
      (obj p i t n a p' i' : ℕ)
      → Answers (property_description_response obj p i t n a) (property_description_read obj p' i')
  device_descriptor :
      (type d : ℕ) → Answers (device_descriptor_response type d) (device_descriptor_read type)
  adc : (channel count val : ℕ) → Answers (adc_response channel count val) (adc_read channel count)
  memory :
      (count addr : ℕ) (d : List ℕ)
      → Answers (memory_response count addr d) (memory_read count addr)
  user_memory :
      (e count addr : ℕ) (d : List ℕ)
      → Answers (user_memory_response e count addr d) (user_memory_read e count addr)
  manufacturer_info :
      (m d : ℕ) → Answers (user_manufacturer_info_response m d) user_manufacturer_info_read
  authorized : (level key : ℕ) → Answers (authorize_response level) (authorize_request key)
  key : (level k : ℕ) → Answers (key_response level) (key_write level k)
