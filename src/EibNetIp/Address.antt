-- ===== src/EibNetIp/Address.antt =====
-- eibnetip.cpp: IPtoEIBNetIP followed by EIBnettoIP, and ToPacket followed by fromPacket.
use bcusdk.Base.{
  Bool, Bool-cases, IsWord, arith, false, if◌then◌else◌, inl, inr, length, refl, some, true, ◌+◌,
  ◌<◌, ◌==◌, ◌||◌, ◌≡◌,
}
use bcusdk.Apdu.Fields.{key_of}
use bcusdk.Apdu.Ranges.{IsKey}
use bcusdk.Apdu.Values.{key_back, word_back}
use bcusdk.EibNetIp.{
  Packet, SockAddr, af_inet, eibnet_to_ip, from_packet, ip_to_eibnetip, to_packet,
}

-- The ranges of an address.
abbrev pub IsSockAddr : SockAddr → Type 0
IsSockAddr a = IsWord a.port × IsKey a.addr

-- The address that is read of one that was written: what was written as 0 is taken from the sender.
abbrev pub read_address : SockAddr → SockAddr → Bool → SockAddr
read_address src a nat = record {
  family = af_inet;
  port = if nat || (a.port == 0) then src.port else a.port;
  addr = if nat || (a.addr == 0) then src.addr else a.addr;
}

-- `nat` after such an address was read.
abbrev pub read_nat : SockAddr → Bool → Bool → Bool
read_nat a nat before = if nat || (a.addr == 0) then true else before

pub address_back :
    (a src : SockAddr) (nat before : Bool)
    → IsSockAddr a
    → eibnet_to_ip (ip_to_eibnetip a nat) src before
      ≡ some (read_address src a nat, read_nat a nat before)
unfolding eibnet_to_ip ip_to_eibnetip
address_back a src true before w = unfold key_of in refl
address_back a src false before w =
    rw (key_back a.addr w.1, word_back a.port w.0)
      (elim (Bool-cases (a.addr == 0)) [ inl e ↦ rw e refl | inr e ↦ rw e refl ])

pub from_packet-to_packet_ip :
    (p : Packet) (src : SockAddr)
    → IsWord p.service
    → length p.content + 6 < 65536
    → from_packet (to_packet p) src ≡ some (record p { src = src })
unfolding from_packet to_packet
from_packet-to_packet_ip p src w h =
    ground (arith, word_back p.service w, word_back (length p.content + 6) h)
