-- ===== src/Apdu/RoundTrip/Access.antt =====
-- Access keys, written by ToPacket and read by APDU::fromPacket.
use bcusdk.Base.{refl, ℕ, ◌≡◌}
use bcusdk.Apdu.{authorize_request, key_write}
use bcusdk.Apdu.Access.{
  init_authorize_request, init_key_write, to_packet_authorize_request, to_packet_key_write,
}
use bcusdk.Apdu.Codec.{from_packet, init}
use bcusdk.Apdu.Ranges.{IsKey}
use bcusdk.Apdu.Service.{class_of}
use bcusdk.Apdu.Values.{key_back}

pub authorize_request_back :
    (key : ℕ) → IsKey key → from_packet (to_packet_authorize_request key) ≡ authorize_request key
unfolding to_packet_authorize_request init init_authorize_request class_of from_packet
authorize_request_back key h = rw (key_back key h) refl

pub key_write_back :
    (level key : ℕ) → IsKey key → from_packet (to_packet_key_write level key) ≡ key_write level key
unfolding to_packet_key_write init init_key_write class_of from_packet
key_write_back level key h = rw (key_back key h) refl
