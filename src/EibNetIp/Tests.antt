-- ===== src/EibNetIp/Tests.antt =====
-- Packets of EIBnet/IP, and the theorems at them.
use bcusdk.Base.{[], arith, refl, replicate, true, ℕ, ◌++◌, ◌↔◌, ◌∷◌, ◌≡◌}
use bcusdk.EibNetIp.{
  IpMessage, Packet, SockAddr, connect_request, no_address, oversized, parsed, tunnel_ack,
}
use bcusdk.EibNetIp.Codec.{class_of_message, parse_as, tunnelling_response}
use bcusdk.EibNetIp.Discovery.{parse_description_response}
use bcusdk.EibNetIp.Parsers.{IsEmptyBlock, oversized_iff, parse_as_unique, service_code}
use bcusdk.EibNetIp.Tunnel.{parse_tunnel_ack}

abbrev unset : ℕ → ℕ
unset i = 0xaa

abbrev gateway : SockAddr
gateway = record { family = 2; port = 3671; addr = 0xc0a80101 }

-- A connection is asked for behind a translator of addresses.
abbrev request : IpMessage
request = connect_request no_address no_address (0x04 ∷ 0x02 ∷ 0x00 ∷ []) true

abbrev acknowledgement : Packet
acknowledgement = record { service = 0x0421; content = 4 ∷ 1 ∷ 7 ∷ 0 ∷ []; src = gateway }

acknowledged : parse_as tunnelling_response acknowledgement ≡ parsed (tunnel_ack 1 7 0)
unfolding parse_as parse_tunnel_ack
acknowledged = refl

parse_as_unique_example :
    (tunnelling_response ≡ tunnelling_response)
    × (class_of_message (tunnel_ack 1 7 0) ≡ tunnelling_response)
    × (acknowledgement.service ≡ service_code tunnelling_response)
parse_as_unique_example =
    parse_as_unique tunnelling_response tunnelling_response acknowledgement (tunnel_ack 1 7 0)
      (tunnel_ack 1 7 0) acknowledged acknowledged

-- 54 bytes of a first block, then an empty second one.
abbrev empty_second : Packet
empty_second = record {
  service = 0x0204;
  content = 54 ∷ 1 ∷ (replicate 52 0 ++ (0 ∷ 2 ∷ []));
  src = gateway;
}

oversized_iff_example :
    parse_description_response empty_second ≡ oversized 4294967295
    ↔ IsEmptyBlock empty_second × (◌≡◌ {A = ℕ} 4294967295 4294967295)
oversized_iff_example = oversized_iff empty_second 4294967295 (ground arith)

asks_for_too_much : parse_description_response empty_second ≡ oversized 4294967295
unfolding parse_description_response
asks_for_too_much = refl
