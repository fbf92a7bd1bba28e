-- ===== src/Apdu/Domain.antt =====
-- apdu.cpp: `init` and `ToPacket` of the messages on services and domain addresses.
use bcusdk.Base.{
  ℕ, Bool, not, Option, List, [], ◌∷◌, length, at, word, ◌==◌, if◌then◌else◌, bit_and, bit_or,
}
use bcusdk.Apdu.{
  Apdu, service_information, domain_address_write, domain_address_read, domain_address_response,
  domain_address_selective_read,
}
use bcusdk.Apdu.Fields.{high_byte, low_byte, taken_if}

-- `(x & mask) ? 1 : 0`
abbrev pub has_bit : ℕ → ℕ → Bool
has_bit x mask = not (bit_and x mask == 0)

-- The second flag is looked for in the byte after the one that ToPacket writes it to.
unfoldable pub init_service_information : List ℕ → Option Apdu
init_service_information c =
    taken_if (length c == 5)
      (service_information (has_bit (at c 2) 0x04) (has_bit (at c 3) 0x02) (has_bit (at c 2) 0x01))

unfoldable pub to_packet_service_information : Bool → Bool → Bool → List ℕ
to_packet_service_information verify_mode duplicate_address appl_stopped =
    0x03
    ∷ 0xdf
    ∷ bit_or
        (bit_or (bit_or 0x00 (if verify_mode then 0x04 else 0x00))
          (if duplicate_address then 0x02 else 0x00))
        (if appl_stopped then 0x01 else 0x00)
    ∷ 0x00
    ∷ 0x00
    ∷ []

unfoldable pub init_domain_address_write : List ℕ → Option Apdu
init_domain_address_write c =
    taken_if (length c == 4) (domain_address_write (word (at c 2) (at c 3)))

unfoldable pub to_packet_domain_address_write : ℕ → List ℕ
to_packet_domain_address_write addr = 0x03 ∷ 0xe0 ∷ high_byte addr ∷ low_byte addr ∷ []

unfoldable pub init_domain_address_read : List ℕ → Option Apdu
init_domain_address_read c = taken_if (length c == 2) domain_address_read

unfoldable pub to_packet_domain_address_read : List ℕ
to_packet_domain_address_read = 0x03 ∷ 0xe1 ∷ []

unfoldable pub init_domain_address_response : List ℕ → Option Apdu
init_domain_address_response c =
    taken_if (length c == 4) (domain_address_response (word (at c 2) (at c 3)))

unfoldable pub to_packet_domain_address_response : ℕ → List ℕ
to_packet_domain_address_response addr = 0x03 ∷ 0xe2 ∷ high_byte addr ∷ low_byte addr ∷ []

unfoldable pub init_domain_address_selective_read : List ℕ → Option Apdu
init_domain_address_selective_read c =
    taken_if (length c == 7)
      (domain_address_selective_read (word (at c 2) (at c 3)) (word (at c 4) (at c 5)) (at c 6))

-- The address is stored over the domain address, and the bytes 4 and 5 keep what `resize` left
-- there, which is `fresh`; the second byte is that of the response.
unfoldable pub to_packet_domain_address_selective_read : (ℕ → ℕ) → ℕ → ℕ → ℕ → List ℕ
to_packet_domain_address_selective_read fresh domainaddr addr range =
    0x03 ∷ 0xe2 ∷ high_byte addr ∷ low_byte addr ∷ fresh 4 ∷ fresh 5 ∷ range ∷ []
