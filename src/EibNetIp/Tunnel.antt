-- ===== src/EibNetIp/Tunnel.antt =====
-- eibnetip.cpp: the messages that carry frames, and their acknowledgements.
use bcusdk.Base.{List, [], at, drop, if◌then◌else◌, length, ltb, not, ℕ, ◌==◌, ◌∷◌}
use bcusdk.EibNetIp.{
  Packet, Parsed, config_ack, config_request, parsed, refused, sent, tunnel_ack, tunnel_request,
}

unfoldable pub tunnel_request_packet : ℕ → ℕ → List ℕ → Packet
tunnel_request_packet channel seqno cemi = sent 0x0420 (4 ∷ channel ∷ seqno ∷ 0 ∷ cemi)

unfoldable pub parse_tunnel_request : Packet → Parsed
parse_tunnel_request p =
    if not (p.service == 0x0420)
    then refused
    else if ltb (length p.content) 6
    then refused
    else if not (at p.content 0 == 4)
    then refused
    else parsed (tunnel_request (at p.content 1) (at p.content 2) (drop 4 p.content))

unfoldable pub tunnel_ack_packet : ℕ → ℕ → ℕ → Packet
tunnel_ack_packet channel seqno status = sent 0x0421 (4 ∷ channel ∷ seqno ∷ status ∷ [])

unfoldable pub parse_tunnel_ack : Packet → Parsed
parse_tunnel_ack p =
    if not (p.service == 0x0421)
    then refused
    else if not (length p.content == 4)
    then refused
    else if not (at p.content 0 == 4)
    then refused
    else parsed (tunnel_ack (at p.content 1) (at p.content 2) (at p.content 3))

unfoldable pub config_request_packet : ℕ → ℕ → List ℕ → Packet
config_request_packet channel seqno cemi = sent 0x0310 (4 ∷ channel ∷ seqno ∷ 0 ∷ cemi)

unfoldable pub parse_config_request : Packet → Parsed
parse_config_request p =
    if not (p.service == 0x0310)
    then refused
    else if ltb (length p.content) 6
    then refused
    else if not (at p.content 0 == 4)
    then refused
    else parsed (config_request (at p.content 1) (at p.content 2) (drop 4 p.content))

unfoldable pub config_ack_packet : ℕ → ℕ → ℕ → Packet
config_ack_packet channel seqno status = sent 0x0311 (4 ∷ channel ∷ seqno ∷ status ∷ [])

unfoldable pub parse_config_ack : Packet → Parsed
parse_config_ack p =
    if not (p.service == 0x0311)
    then refused
    else if not (length p.content == 4)
    then refused
    else if not (at p.content 0 == 4)
    then refused
    else parsed (config_ack (at p.content 1) (at p.content 2) (at p.content 3))
