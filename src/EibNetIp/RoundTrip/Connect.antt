-- ===== src/EibNetIp/RoundTrip/Connect.antt =====
-- The messages that open, watch and close a connection: ToPacket, then the parser.
use bcusdk.Base.{
  Bool, List, [], arith, false, length, length-append, refl, ℕ, ◌%◌, ◌++◌, ◌+◌, ◌<◌, ◌==◌, ◌∷◌, ◌≡◌,
  ◌≤◌,
}
use bcusdk.EibNetIp.{
  Packet, SockAddr, connect_request, connect_response, connectionstate_request, disconnect_request,
  ip_to_eibnetip, no_address, parsed,
}
use bcusdk.EibNetIp.Address.{IsSockAddr, address_back, read_address, read_nat}
use bcusdk.EibNetIp.Connect.{
  connect_request_packet, connect_response_packet, connectionstate_request_packet,
  disconnect_request_packet, parse_connect_request, parse_connect_response,
  parse_connectionstate_request, parse_disconnect_request,
}
use bcusdk.EibNetIp.Parts.{address-drop, address-length, address-take, address_whole, two_addresses}

-- The packet `p` as it arrives from `src`.
abbrev pub from : SockAddr → Packet → Packet
from src p = record p { src = src }

pub connectionstate_request_back :
    (channel : ℕ) (caddr src : SockAddr) (nat : Bool)
    → IsSockAddr caddr
    → parse_connectionstate_request (from src (connectionstate_request_packet channel caddr nat))
      ≡ parsed
          (connectionstate_request channel (read_address src caddr nat) (read_nat caddr nat false))
unfolding parse_connectionstate_request connectionstate_request_packet
connectionstate_request_back channel caddr src nat w =
    rw (address-length caddr nat, address_whole caddr nat, address_back caddr src nat false w) refl

pub disconnect_request_back :
    (caddr : SockAddr) (channel : ℕ) (src : SockAddr) (nat : Bool)
    → IsSockAddr caddr
    → parse_disconnect_request (from src (disconnect_request_packet caddr channel nat))
      ≡ parsed (disconnect_request (read_address src caddr nat) channel (read_nat caddr nat false))
unfolding parse_disconnect_request disconnect_request_packet
disconnect_request_back caddr channel src nat w =
    rw (address-length caddr nat, address_whole caddr nat, address_back caddr src nat false w) refl

pub connect_response_back :
    (channel : ℕ) (daddr src : SockAddr) (nat : Bool) (crd : List ℕ)
    → IsSockAddr daddr
    → 1 ≤ length crd
    → length crd < 255
    → parse_connect_response (from src (connect_response_packet channel 0 daddr nat crd))
      ≡ parsed
          (connect_response channel 0 (read_address src daddr nat) (read_nat daddr nat false) crd)
unfolding parse_connect_response connect_response_packet
connect_response_back channel daddr src nat crd w h k = ground (
  arith,
  address-take daddr nat ((length crd + 1) % 256 ∷ crd),
  address-drop daddr nat ((length crd + 1) % 256 ∷ crd),
  address_back daddr src nat false w,
)

pub connect_refusal_back :
    (channel status : ℕ) (daddr src : SockAddr) (nat : Bool) (crd : List ℕ)
    → (status == 0) ≡ false
    → parse_connect_response (from src (connect_response_packet channel status daddr nat crd))
      ≡ parsed (connect_response channel status no_address false [])
unfolding parse_connect_response connect_response_packet
connect_refusal_back channel status daddr src nat crd e = ground arith

pub connect_request_back :
    (caddr daddr src : SockAddr) (cri : List ℕ) (nat : Bool)
    → IsSockAddr caddr
    → IsSockAddr daddr
    → 1 ≤ length cri
    → length cri < 255
    → parse_connect_request (from src (connect_request_packet caddr daddr cri nat))
      ≡ parsed (
          connect_request
            (read_address src caddr nat)
            (read_address src daddr nat)
            cri
            (read_nat daddr nat (read_nat caddr nat false)))
unfolding parse_connect_request connect_request_packet
connect_request_back caddr daddr src cri nat v w h k =
    let rest = (length cri + 1) % 256 ∷ cri in
    ground (
      arith,
      address-take caddr nat (ip_to_eibnetip daddr nat ++ rest),
      address-drop caddr nat (ip_to_eibnetip daddr nat ++ rest),
      address-take daddr nat rest,
      address-drop daddr nat rest,
      two_addresses caddr daddr nat ((length cri + 1) % 256) cri,
      address-length caddr nat,
      address-length daddr nat,
      length-append (ip_to_eibnetip caddr nat) (ip_to_eibnetip daddr nat ++ rest),
      length-append (ip_to_eibnetip daddr nat) rest,
      address_back caddr src nat false v,
      address_back daddr src nat (read_nat caddr nat false) w,
    )
