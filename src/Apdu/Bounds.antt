-- ===== src/Apdu/Bounds.antt =====
-- The ranges of the fields that APDU::fromPacket reads.
pub mod Parts
use bcusdk.Base.{
  All-drop, Bool, IsByte, IsBytes, List, Option, arith, at, at-IsByte, bit_and, drop, if◌then◌else◌,
  leb, length, ltb, none, refl, some, true, ℕ, ◌*◌, ◌+◌, ◌-◌, ◌==◌, ◌≡◌,
}
use bcusdk.Apdu.{
  Apdu, ApduType, a_adc_read, a_adc_response, a_authorize_request, a_authorize_response,
  a_device_descriptor_read, a_device_descriptor_response, a_domain_address_read,
  a_domain_address_response, a_domain_address_selective_read, a_domain_address_write,
  a_group_value_read, a_group_value_response, a_group_value_write, a_individual_address_read,
  a_individual_address_response, a_individual_address_write, a_key_response, a_key_write,
  a_memory_bit_write, a_memory_read, a_memory_response, a_memory_write, a_property_description_read,
  a_property_description_response, a_property_value_read, a_property_value_response,
  a_property_value_write, a_restart, a_serial_number_read, a_serial_number_response,
  a_serial_number_write, a_service_information, a_unknown, a_user_manufacturer_info_read,
  a_user_manufacturer_info_response, a_user_memory_bit_write, a_user_memory_read,
  a_user_memory_response, a_user_memory_write,
}
use bcusdk.Apdu.Access.{
  init_authorize_request, init_authorize_response, init_key_response, init_key_write, init_restart,
}
use bcusdk.Apdu.Bounds.Parts.{
  bytes_range, either, four_bits, read_key-IsKey, mask_range, read_serial-IsSerial, six_bits,
  small_range, start_range, taken, unless,
}
use bcusdk.Apdu.Codec.{from_packet, init, init_class, or_unknown}
use bcusdk.Apdu.Domain.{
  init_domain_address_read, init_domain_address_response, init_domain_address_selective_read,
  init_domain_address_write, init_service_information,
}
use bcusdk.Apdu.Group.{
  init_group_value_read, init_group_value_response, init_group_value_write,
  init_individual_address_read, init_individual_address_response, init_individual_address_write,
  init_serial_number_read, init_serial_number_response, init_serial_number_write,
}
use bcusdk.Apdu.Memory.{
  init_memory_bit_write, init_memory_read, init_memory_response, init_memory_write,
  init_user_manufacturer_info_read, init_user_manufacturer_info_response,
  init_user_memory_bit_write, init_user_memory_read, init_user_memory_response,
  init_user_memory_write,
}
use bcusdk.Apdu.Property.{
  init_adc_read, init_adc_response, init_device_descriptor_read, init_device_descriptor_response,
  init_property_description_read, init_property_description_response, init_property_value_read,
  init_property_value_response, init_property_value_write,
}
use bcusdk.Apdu.Ranges.{IsReadApdu}
use bcusdk.Apdu.Service.{class_of}
use bcusdk.Base.Bits.{shr}
use mathlib.Core.Path.{subst}
use mathlib.Core.Option.{some-injective}

init-IsReadApdu :
    (k : ApduType) (c : List ℕ) {m : Apdu} → IsBytes c → init k c ≡ some m → IsReadApdu m
unfolding init init_group_value_read init_group_value_response init_group_value_write
    init_individual_address_read init_individual_address_response init_individual_address_write
    init_serial_number_read init_serial_number_response init_serial_number_write
    init_service_information init_domain_address_write init_domain_address_read
    init_domain_address_response init_domain_address_selective_read init_property_value_read
    init_property_value_response init_property_value_write init_property_description_read
    init_property_description_response init_device_descriptor_read init_device_descriptor_response
    init_adc_read init_adc_response init_memory_read init_memory_response init_memory_write
    init_memory_bit_write init_user_memory_read init_user_memory_response init_user_memory_write
    init_user_memory_bit_write init_user_manufacturer_info_read init_user_manufacturer_info_response
    init_restart init_authorize_request init_authorize_response init_key_write init_key_response
init-IsReadApdu a_unknown c b e = subst IsReadApdu (some-injective _ _ e) b
init-IsReadApdu a_group_value_read c b e = taken _ _ e (λ h. tt)
init-IsReadApdu a_group_value_response c b e =
    unless (ltb (length c) 2) _ e
      (λ h g. either (length c == 2) _ _ g (small_range c) (λ f. bytes_range c b (ground arith)))
init-IsReadApdu a_group_value_write c b e =
    unless (ltb (length c) 2) _ e
      (λ h g. either (length c == 2) _ _ g (small_range c) (λ f. bytes_range c b (ground arith)))
init-IsReadApdu a_individual_address_read c b e = taken _ _ e (λ h. tt)
init-IsReadApdu a_individual_address_response c b e = taken _ _ e (λ h. tt)
init-IsReadApdu a_individual_address_write c b e = taken _ _ e (λ h. omega arith)
init-IsReadApdu a_serial_number_read c b e =
    taken (length c == 8) _ e (λ h. read_serial-IsSerial c b (ground arith))
init-IsReadApdu a_serial_number_response c b e =
    taken (length c == 12) _ e (λ h. (read_serial-IsSerial c b (ground arith), omega arith))
init-IsReadApdu a_serial_number_write c b e =
    taken (length c == 14) _ e (λ h. (read_serial-IsSerial c b (ground arith), omega arith))
init-IsReadApdu a_service_information c b e = taken _ _ e (λ h. tt)
init-IsReadApdu a_domain_address_write c b e = taken _ _ e (λ h. omega arith)
init-IsReadApdu a_domain_address_read c b e = taken _ _ e (λ h. tt)
init-IsReadApdu a_domain_address_response c b e = taken _ _ e (λ h. omega arith)
init-IsReadApdu a_domain_address_selective_read c b e =
    taken _ _ e (λ h. (omega arith, omega arith, at-IsByte c 6 b))
init-IsReadApdu a_property_value_read c b e =
    taken _ _ e
      (λ h. (at-IsByte c 2 b, at-IsByte c 3 b, four_bits (shr (at c 4) 4), start_range c b))
init-IsReadApdu a_property_value_response c b e = unless (ltb (length c) 6) _ e (λ h g.
    taken true _ g (λ _. (
      at-IsByte c 2 b,
      at-IsByte c 3 b,
      four_bits (shr (at c 4) 4),
      start_range c b,
      All-drop IsByte 6 c b,
    )))
init-IsReadApdu a_property_value_write c b e = unless (ltb (length c) 6) _ e (λ h g.
    taken true _ g (λ _. (
      at-IsByte c 2 b,
      at-IsByte c 3 b,
      four_bits (shr (at c 4) 4),
      start_range c b,
      All-drop IsByte 6 c b,
    )))
init-IsReadApdu a_property_description_read c b e =
    taken _ _ e (λ h. (at-IsByte c 2 b, at-IsByte c 3 b, at-IsByte c 4 b))
init-IsReadApdu a_property_description_response c b e = taken _ _ e (λ h. (
  at-IsByte c 2 b,
  at-IsByte c 3 b,
  at-IsByte c 4 b,
  at-IsByte c 5 b,
  omega arith,
  at-IsByte c 8 b,
))
init-IsReadApdu a_device_descriptor_read c b e = taken _ _ e (λ h. six_bits (at c 1))
init-IsReadApdu a_device_descriptor_response c b e =
    taken _ _ e (λ h. (six_bits (at c 1), omega arith))
init-IsReadApdu a_adc_read c b e = taken _ _ e (λ h. (six_bits (at c 1), at-IsByte c 2 b))
init-IsReadApdu a_adc_response c b e =
    taken _ _ e (λ h. (six_bits (at c 1), at-IsByte c 2 b, omega arith))
init-IsReadApdu a_memory_read c b e = taken _ _ e (λ h. (four_bits (at c 1), omega arith))
init-IsReadApdu a_memory_response c b e = unless (ltb (length c) 4) _ e (λ g f.
    taken (length (drop 4 c) == bit_and (at c 1) 0xf) _ f
      (λ h. (four_bits (at c 1), omega arith, (ground arith, All-drop IsByte 4 c b))))
init-IsReadApdu a_memory_write c b e = unless (ltb (length c) 4) _ e (λ g f.
    taken (length (drop 4 c) == bit_and (at c 1) 0xf) _ f
      (λ h. (four_bits (at c 1), omega arith, (ground arith, All-drop IsByte 4 c b))))
init-IsReadApdu a_memory_bit_write c b e = unless (ltb (length c) 5) _ e (λ g f.
    taken (length c - 5 == at c 2 * 2) _ f (λ h. (
      at-IsByte c 2 b,
      omega arith,
      mask_range c 5 (at c 2) b (ground arith),
      mask_range c (5 + at c 2) (at c 2) b (ground arith),
    )))
init-IsReadApdu a_user_memory_read c b e =
    taken _ _ e (λ h. (four_bits (shr (at c 2) 4), four_bits (at c 2), omega arith))
init-IsReadApdu a_user_memory_response c b e = unless (ltb (length c) 5) _ e (λ g f.
    taken (length (drop 5 c) == bit_and (at c 2) 0xf) _ f (λ h. (
      four_bits (shr (at c 2) 4),
      four_bits (at c 2),
      omega arith,
      (ground arith, All-drop IsByte 5 c b),
    )))
init-IsReadApdu a_user_memory_write c b e = unless (ltb (length c) 5) _ e (λ g f.
    taken (length (drop 5 c) == bit_and (at c 2) 0xf) _ f (λ h. (
      four_bits (shr (at c 2) 4),
      four_bits (at c 2),
      omega arith,
      (ground arith, All-drop IsByte 5 c b),
    )))
init-IsReadApdu a_user_memory_bit_write c b e = unless (ltb (length c) 5) _ e (λ g f.
    taken (length c - 5 == at c 2 * 2) _ f (λ h. (
      refl,
      at-IsByte c 2 b,
      omega arith,
      mask_range c 5 (at c 2) b (ground arith),
      mask_range c (5 + at c 2) (at c 2) b (ground arith),
    )))
init-IsReadApdu a_user_manufacturer_info_read c b e = taken _ _ e (λ h. tt)
init-IsReadApdu a_user_manufacturer_info_response c b e =
    taken _ _ e (λ h. (at-IsByte c 2 b, omega arith))
init-IsReadApdu a_restart c b e = taken _ _ e (λ h. tt)
init-IsReadApdu a_authorize_request c b e = taken _ _ e (λ h. read_key-IsKey c)
init-IsReadApdu a_authorize_response c b e = taken _ _ e (λ h. at-IsByte c 2 b)
init-IsReadApdu a_key_write c b e = taken _ _ e (λ h. (at-IsByte c 2 b, read_key-IsKey c))
init-IsReadApdu a_key_response c b e = taken _ _ e (λ h. at-IsByte c 2 b)

or_unknown-IsReadApdu :
    (c : List ℕ) (o : Option Apdu)
    → IsBytes c
    → ((m : Apdu) → o ≡ some m → IsReadApdu m)
    → IsReadApdu (or_unknown c o)
or_unknown-IsReadApdu c none b h = b
or_unknown-IsReadApdu c (some m) b h = h m refl

long_enough :
    (test : Bool) (o : Option Apdu) {m : Apdu} → (if test then o else none) ≡ some m → o ≡ some m
long_enough test o e = ground arith

init_class-IsReadApdu :
    (k : Option ApduType) (c : List ℕ) {m : Apdu}
    → IsBytes c
    → init_class k c ≡ some m
    → IsReadApdu m
init_class-IsReadApdu none c b e = ground arith
init_class-IsReadApdu (some k) c b e = init-IsReadApdu k c b e

-- Whatever bytes APDU::fromPacket is given, the fields of the message are in their ranges: half
-- bytes are below 16, six bit fields below 64, starting elements below 4096, a serial number has six
-- bytes, a block of memory as many bytes as its count says, a small group value one value below 64
-- and any other group value one byte at least.
pub from_packet-IsReadApdu : (c : List ℕ) → IsBytes c → IsReadApdu (from_packet c)
unfolding from_packet
from_packet-IsReadApdu c b =
    let made = init_class (class_of (at c 0) (at c 1)) c in
    or_unknown-IsReadApdu c (if leb 2 (length c) then made else none) b (λ m e.
      init_class-IsReadApdu (class_of (at c 0) (at c 1)) c b
        (long_enough (leb 2 (length c)) made e))
