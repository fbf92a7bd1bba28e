-- ===== src/EibNetIp/RoundTrip/Tunnel.antt =====
-- The messages that carry frames, and all acknowledgements: ToPacket, then the parser.
use bcusdk.Base.{List, arith, length, ℕ, ◌≡◌, ◌≤◌}
use bcusdk.EibNetIp.{SockAddr, config_request, parsed, tunnel_request}
use bcusdk.EibNetIp.RoundTrip.Connect.{from}
use bcusdk.EibNetIp.Tunnel.{
  config_request_packet, parse_config_request, parse_tunnel_request, tunnel_request_packet,
}

pub tunnel_request_back :
    (channel seqno : ℕ) (cemi : List ℕ) (src : SockAddr)
    → 2 ≤ length cemi
    → parse_tunnel_request (from src (tunnel_request_packet channel seqno cemi))
      ≡ parsed (tunnel_request channel seqno cemi)
unfolding parse_tunnel_request tunnel_request_packet
tunnel_request_back channel seqno cemi src h = ground arith

pub config_request_back :
    (channel seqno : ℕ) (cemi : List ℕ) (src : SockAddr)
    → 2 ≤ length cemi
    → parse_config_request (from src (config_request_packet channel seqno cemi))
      ≡ parsed (config_request channel seqno cemi)
unfolding parse_config_request config_request_packet
config_request_back channel seqno cemi src h = ground arith
