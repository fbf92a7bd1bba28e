-- ===== src/EibNetIp/RoundTrip.antt =====
-- eibnetip.cpp: a message that is sent, from ToPacket of its class over EIBNetIPPacket::ToPacket to the
-- receiver's EIBNetIPPacket::fromPacket and its parser.
pub mod Connect
pub mod Tunnel
pub mod Fields
pub mod Describe
pub mod Search
use bcusdk.Base.{Bool, [], false, length, true, ℕ, ◌<◌, ◌==◌, ◌≤◌}
use bcusdk.EibNetIp.{
  IpMessage, SockAddr, config_request, connect_request, connect_response, connectionstate_request,
  description_request, description_response, disconnect_request, no_address, search_request,
  search_response, tunnel_request,
}
use bcusdk.EibNetIp.Address.{IsSockAddr, read_address, read_nat}
use bcusdk.EibNetIp.Discovery.{unset_serial}
use bcusdk.EibNetIp.RoundTrip.Fields.{IsDescription, description_read}

-- The ranges of the fields, with the sizes that a parser insists on.
abbrev pub IsIpMessage : IpMessage → Type 0
IsIpMessage (connect_request c d cri nat) =
    IsSockAddr c × IsSockAddr d × 1 ≤ length cri × length cri < 255
IsIpMessage (connect_response ch st d nat crd) = IsSockAddr d × 1 ≤ length crd × length crd < 255
IsIpMessage (connectionstate_request ch c nat) = IsSockAddr c
IsIpMessage (disconnect_request c ch nat) = IsSockAddr c
IsIpMessage (tunnel_request ch n cemi) = 2 ≤ length cemi
IsIpMessage (config_request ch n cemi) = 2 ≤ length cemi
IsIpMessage (description_request c nat) = IsSockAddr c
IsIpMessage (description_response d optional) = IsDescription d
IsIpMessage (search_request c nat) = IsSockAddr c
IsIpMessage (search_response d c nat) = IsDescription d × IsSockAddr c
IsIpMessage _ = Unit

abbrev refusal_read : Bool → IpMessage → IpMessage → IpMessage
refusal_read true opened closed = opened
refusal_read false opened closed = closed

-- The message that the receiver gets: addresses that were written as 0 are those of the sender, a
-- connection that is refused has no address, the serial number of a description is what `resize`
-- left, and the last byte of a name is 0.
abbrev pub as_received : (ℕ → ℕ) → SockAddr → IpMessage → IpMessage
as_received fresh src (connect_request c d cri nat) =
    connect_request (read_address src c nat) (read_address src d nat) cri
      (read_nat d nat (read_nat c nat false))
as_received fresh src (connect_response ch st d nat crd) =
    refusal_read (st == 0)
      (connect_response ch 0 (read_address src d nat) (read_nat d nat false) crd)
      (connect_response ch st no_address false [])
as_received fresh src (connectionstate_request ch c nat) =
    connectionstate_request ch (read_address src c nat) (read_nat c nat false)
as_received fresh src (disconnect_request c ch nat) =
    disconnect_request (read_address src c nat) ch (read_nat c nat false)
as_received fresh src (description_request c nat) =
    description_request (read_address src c nat) (read_nat c nat false)
as_received fresh src (description_response d optional) =
    description_response (description_read d (unset_serial fresh)) optional
as_received fresh src (search_request c nat) =
    search_request (read_address src c nat) (read_nat c nat false)
as_received fresh src (search_response d c nat) =
    search_response (description_read d d.serial) (read_address src c nat) (read_nat c nat false)
as_received fresh src m = m
