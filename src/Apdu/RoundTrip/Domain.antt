-- ===== src/Apdu/RoundTrip/Domain.antt =====
-- Services and domain addresses, written by ToPacket and read by APDU::fromPacket.
use bcusdk.Base.{Bool, IsWord, false, refl, true, ℕ, ◌≡◌}
use bcusdk.Apdu.{domain_address_response, domain_address_write, service_information, unknown}
use bcusdk.Apdu.Codec.{from_packet, init}
use bcusdk.Apdu.Domain.{
  init_domain_address_response, init_domain_address_write, init_service_information,
  to_packet_domain_address_response, to_packet_domain_address_selective_read,
  to_packet_domain_address_write, to_packet_service_information,
}
use bcusdk.Apdu.Service.{class_of}
use bcusdk.Apdu.Values.{word_back}

pub service_information_back :
    (verify_mode duplicate_address appl_stopped : Bool)
    → from_packet (to_packet_service_information verify_mode duplicate_address appl_stopped)
      ≡ service_information verify_mode false appl_stopped
unfolding to_packet_service_information init init_service_information class_of from_packet
service_information_back true true true = refl
service_information_back true true false = refl
service_information_back true false true = refl
service_information_back true false false = refl
service_information_back false true true = refl
service_information_back false true false = refl
service_information_back false false true = refl
service_information_back false false false = refl

pub domain_address_write_back :
    (addr : ℕ)
    → IsWord addr
    → from_packet (to_packet_domain_address_write addr) ≡ domain_address_write addr
unfolding to_packet_domain_address_write init init_domain_address_write class_of from_packet
domain_address_write_back addr h = rw (word_back addr h) refl

pub domain_address_response_back :
    (addr : ℕ)
    → IsWord addr
    → from_packet (to_packet_domain_address_response addr) ≡ domain_address_response addr
unfolding to_packet_domain_address_response init init_domain_address_response class_of from_packet
domain_address_response_back addr h = rw (word_back addr h) refl

-- The selective read is written with the code of the response, for which it is too long.
pub domain_address_selective_read_lost :
    (fresh : ℕ → ℕ) (domainaddr addr range : ℕ)
    → from_packet (to_packet_domain_address_selective_read fresh domainaddr addr range)
      ≡ unknown (to_packet_domain_address_selective_read fresh domainaddr addr range)
unfolding to_packet_domain_address_selective_read init init_domain_address_response class_of
    from_packet
domain_address_selective_read_lost fresh domainaddr addr range = refl
