-- ===== src/EibNetIp/Codec.antt =====
-- eibnetip.cpp: ToPacket and the parsers, by the class of the message.
use bcusdk.Base.{ℕ}
use bcusdk.EibNetIp.{
  IpMessage, Packet, Parsed, config_ack, config_request, connect_request, connect_response,
  connectionstate_request, connectionstate_response, description_request, description_response,
  disconnect_request, disconnect_response, search_request, search_response, tunnel_ack,
  tunnel_request,
}
use bcusdk.EibNetIp.Connect.{
  connect_request_packet, connect_response_packet, connectionstate_request_packet,
  connectionstate_response_packet, disconnect_request_packet, disconnect_response_packet,
  parse_connect_request, parse_connect_response, parse_connectionstate_request,
  parse_connectionstate_response, parse_disconnect_request, parse_disconnect_response,
}
use bcusdk.EibNetIp.Discovery.{
  description_request_packet, description_response_packet, parse_description_request,
  parse_description_response, parse_search_request, parse_search_response, search_request_packet,
  search_response_packet,
}
use bcusdk.EibNetIp.Tunnel.{
  config_ack_packet, config_request_packet, parse_config_ack, parse_config_request,
  parse_tunnel_ack, parse_tunnel_request, tunnel_ack_packet, tunnel_request_packet,
}

-- The classes of the messages.
pub data Service : Type 0 where
  connection_request connection_response state_request state_response disconnection_request
        disconnection_response tunnelling_request tunnelling_response configuration_request
        configuration_ack describe_request describe_response find_request find_response :
      Service

abbrev pub class_of_message : IpMessage → Service
class_of_message (connect_request _ _ _ _) = connection_request
class_of_message (connect_response _ _ _ _ _) = connection_response
class_of_message (connectionstate_request _ _ _) = state_request
class_of_message (connectionstate_response _ _) = state_response
class_of_message (disconnect_request _ _ _) = disconnection_request
class_of_message (disconnect_response _ _) = disconnection_response
class_of_message (tunnel_request _ _ _) = tunnelling_request
class_of_message (tunnel_ack _ _ _) = tunnelling_response
class_of_message (config_request _ _ _) = configuration_request
class_of_message (config_ack _ _ _) = configuration_ack
class_of_message (description_request _ _) = describe_request
class_of_message (description_response _ _) = describe_response
class_of_message (search_request _ _) = find_request
class_of_message (search_response _ _ _) = find_response

-- ToPacket of the class of a message. `fresh` is what `resize` leaves in a new byte.
unfoldable pub packet_of : (ℕ → ℕ) → IpMessage → Packet
packet_of fresh (connect_request c d cri nat) = connect_request_packet c d cri nat
packet_of fresh (connect_response ch st d nat crd) = connect_response_packet ch st d nat crd
packet_of fresh (connectionstate_request ch c nat) = connectionstate_request_packet ch c nat
packet_of fresh (connectionstate_response ch st) = connectionstate_response_packet ch st
packet_of fresh (disconnect_request c ch nat) = disconnect_request_packet c ch nat
packet_of fresh (disconnect_response ch st) = disconnect_response_packet ch st
packet_of fresh (tunnel_request ch n cemi) = tunnel_request_packet ch n cemi
packet_of fresh (tunnel_ack ch n st) = tunnel_ack_packet ch n st
packet_of fresh (config_request ch n cemi) = config_request_packet ch n cemi
packet_of fresh (config_ack ch n st) = config_ack_packet ch n st
packet_of fresh (description_request c nat) = description_request_packet c nat
packet_of fresh (description_response d optional) = description_response_packet fresh d optional
packet_of fresh (search_request c nat) = search_request_packet c nat
packet_of fresh (search_response d c nat) = search_response_packet d c nat

-- The parser of a class.
unfoldable pub parse_as : Service → Packet → Parsed
parse_as connection_request p = parse_connect_request p
parse_as connection_response p = parse_connect_response p
parse_as state_request p = parse_connectionstate_request p
parse_as state_response p = parse_connectionstate_response p
parse_as disconnection_request p = parse_disconnect_request p
parse_as disconnection_response p = parse_disconnect_response p
parse_as tunnelling_request p = parse_tunnel_request p
parse_as tunnelling_response p = parse_tunnel_ack p
parse_as configuration_request p = parse_config_request p
parse_as configuration_ack p = parse_config_ack p
parse_as describe_request p = parse_description_request p
parse_as describe_response p = parse_description_response p
parse_as find_request p = parse_search_request p
parse_as find_response p = parse_search_response p
