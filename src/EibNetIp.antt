-- ===== src/EibNetIp.antt =====
-- eibd/libserver/eibnetip.h and eibnetip.cpp: the packets of EIBnet/IP, their addresses, and the
-- messages they carry.
pub mod Connect
pub mod Tunnel
pub mod Discovery
pub mod Codec
pub mod Address
pub mod Parts
pub mod Blocks
pub mod RoundTrip
pub mod Parsers
mod Tests
use bcusdk.Base.{
  Bool, List, Option, [], at, bit_and, drop, false, if◌then◌else◌, length, ltb, none, not, some,
  true, word, ℕ, ◌+◌, ◌==◌, ◌||◌, ◌∷◌,
}
use bcusdk.Apdu.Fields.{key_of}
use bcusdk.Base.Bits.{shr}

-- `struct sockaddr_in`, the port and the address as ntohs and ntohl give them.
pub record SockAddr : Type 0 where
  pub family : ℕ
  pub port : ℕ
  pub addr : ℕ

abbrev pub af_inet : ℕ
af_inet = 2

-- After `memset`.
abbrev pub no_address : SockAddr
no_address = record { family = 0; port = 0; addr = 0 }

-- EIBNetIPPacket
pub record Packet : Type 0 where
  pub service : ℕ
  pub content : List ℕ
  pub src : SockAddr

-- compareIPAddress
unfoldable pub compare_ip_address : SockAddr → SockAddr → Bool
compare_ip_address a b =
    if not (a.family == af_inet)
    then false
    else if not (b.family == af_inet)
    then false
    else if not (a.port == b.port)
    then false
    else if not (a.addr == b.addr)
    then false
    else true

-- EIBNetIPPacket::fromPacket; `none` is the answer 0.
unfoldable pub from_packet : List ℕ → SockAddr → Option Packet
from_packet c src =
    if ltb (length c) 6
    then none
    else if not (at c 0 == 0x06) || not (at c 1 == 0x10)
    then none
    else if not (word (at c 4) (at c 5) == length c)
    then none
    else some (record { service = word (at c 2) (at c 3); content = drop 6 c; src = src })

-- EIBNetIPPacket::ToPacket
unfoldable pub to_packet : Packet → List ℕ
to_packet p =
    0x06
    ∷ 0x10
    ∷ bit_and (shr p.service 8) 0xff
    ∷ bit_and p.service 0xff
    ∷ bit_and (shr (length p.content + 6) 8) 0xff
    ∷ bit_and (length p.content + 6) 0xff
    ∷ p.content

-- IPtoEIBNetIP
unfoldable pub ip_to_eibnetip : SockAddr → Bool → List ℕ
ip_to_eibnetip a true = 0x08 ∷ 0x01 ∷ 0 ∷ 0 ∷ 0 ∷ 0 ∷ 0 ∷ 0 ∷ []
ip_to_eibnetip a false =
    0x08
    ∷ 0x01
    ∷ bit_and (shr a.addr 24) 0xff
    ∷ bit_and (shr a.addr 16) 0xff
    ∷ bit_and (shr a.addr 8) 0xff
    ∷ bit_and a.addr 0xff
    ∷ bit_and (shr a.port 8) 0xff
    ∷ bit_and a.port 0xff
    ∷ []

-- EIBnettoIP: the address, and `nat`, which is never cleared; `none` is the answer 1.
unfoldable pub eibnet_to_ip : List ℕ → SockAddr → Bool → Option (SockAddr × Bool)
eibnet_to_ip buf src nat =
    let ip = key_of (at buf 2) (at buf 3) (at buf 4) (at buf 5) in
    let port = word (at buf 6) (at buf 7) in
    let read_port = if port == 0 then src.port else port in
    if not (at buf 0 == 0x08) || not (at buf 1 == 0x01)
    then none
    else if ip == 0
    then some (record { family = af_inet; port = read_port; addr = src.addr }, true)
    else some (record { family = af_inet; port = read_port; addr = ip }, nat)

-- DIB_service_Entry
pub record ServiceEntry : Type 0 where
  pub family : ℕ
  pub version : ℕ

-- What the two messages that describe a device have in common.
pub record Description : Type 0 where
  pub knxmedium : ℕ
  pub devicestatus : ℕ
  pub individual_addr : ℕ
  pub installid : ℕ
  pub serial : List ℕ
  pub services : List ServiceEntry
  pub multicastaddr : List ℕ
  pub mac : List ℕ
  pub name : List ℕ

-- The classes EIBnet_ConnectRequest to EIBnet_SearchResponse, with their fields: channels, sequence
-- numbers and states are bytes, the flag is `nat`. The field `status` of the request for the state of a
-- connection is neither written nor read.
pub data IpMessage : Type 0 where
  connect_request : (caddr daddr : SockAddr) (cri : List ℕ) (nat : Bool) → IpMessage
  connect_response : (channel status : ℕ) (daddr : SockAddr) (nat : Bool) (crd : List ℕ) → IpMessage
  connectionstate_request : (channel : ℕ) (caddr : SockAddr) (nat : Bool) → IpMessage
  connectionstate_response : (channel status : ℕ) → IpMessage
  disconnect_request : (caddr : SockAddr) (channel : ℕ) (nat : Bool) → IpMessage
  disconnect_response : (channel status : ℕ) → IpMessage
  tunnel_request : (channel seqno : ℕ) (cemi : List ℕ) → IpMessage
  tunnel_ack : (channel seqno status : ℕ) → IpMessage
  config_request : (channel seqno : ℕ) (cemi : List ℕ) → IpMessage
  config_ack : (channel seqno status : ℕ) → IpMessage
  description_request : (caddr : SockAddr) (nat : Bool) → IpMessage
  description_response : Description → (optional : List ℕ) → IpMessage
  search_request : (caddr : SockAddr) (nat : Bool) → IpMessage
  search_response : Description → (caddr : SockAddr) (nat : Bool) → IpMessage

-- What a parser makes of a packet, starting from an object as its constructor leaves it: the answer
-- 1, or the message. `oversized n` is the answer 0 with an array of `n` services that the loop does not fill.
pub data Parsed : Type 0 where
  refused : Parsed
  oversized : ℕ → Parsed
  parsed : IpMessage → Parsed

abbrev pub sent : ℕ → List ℕ → Packet
sent service content = record { service = service; content = content; src = no_address }
