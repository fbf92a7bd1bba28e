-- ===== src/EibNetIp/Discovery.antt =====
-- eibnetip.cpp: the messages by which devices are searched for and described. A serial number has six
-- bytes, a multicast address four, a MAC address six and a name thirty.
use bcusdk.Base.{
  Bool, List, [], at, bit_and, drop, false, if◌then◌else◌, length, ltb, none, not, some, suc, take,
  word, ℕ, ◌%◌, ◌*◌, ◌++◌, ◌+◌, ◌-◌, ◌/◌, ◌==◌, ◌∷◌,
}
use bcusdk.Base.Bits.{shr}
use bcusdk.EibNetIp.{
  Description, Packet, Parsed, ServiceEntry, SockAddr, description_request, description_response,
  eibnet_to_ip, ip_to_eibnetip, oversized, parsed, refused, search_request, search_response, sent,
}

unfoldable pub description_request_packet : SockAddr → Bool → Packet
unfolding ip_to_eibnetip
description_request_packet caddr nat = sent 0x0203 (ip_to_eibnetip caddr nat)

unfoldable pub parse_description_request : Packet → Parsed
unfolding eibnet_to_ip
parse_description_request p =
    if not (p.service == 0x0203)
    then refused
    else if not (length p.content == 8)
    then refused
    else elim (eibnet_to_ip p.content p.src false) [
      | none ↦ refused
      | some (caddr, nat) ↦ parsed (description_request caddr nat)
    ]

-- The loop over the services.
abbrev pub service_bytes : List ServiceEntry → List ℕ
service_bytes [] = []
service_bytes (s ∷ rest) = s.family ∷ s.version ∷ service_bytes rest

-- The block of the services, after its length byte.
abbrev pub service_block : List ServiceEntry → List ℕ
service_block services = (length services * 2 + 2) % 256 ∷ 2 ∷ service_bytes services

-- The loop that reads `n` services; the length test before it grants that they are there.
abbrev pub read_services : ℕ → List ℕ → List ServiceEntry
read_services (suc n) (f ∷ v ∷ c) = record { family = f; version = v } ∷ read_services n c
read_services _ _ = []

-- The name, the last byte of which is overwritten by 0.
abbrev pub closed_name : List ℕ → List ℕ
closed_name name = take 29 name ++ (0 ∷ [])

-- The head of a description; `serial` stands for the six bytes from position 8.
abbrev pub device_block : Description → List ℕ → List ℕ
device_block d serial =
    54
    ∷ 1
    ∷ d.knxmedium
    ∷ d.devicestatus
    ∷ bit_and (shr d.individual_addr 8) 0xff
    ∷ bit_and d.individual_addr 0xff
    ∷ bit_and (shr d.installid 8) 0xff
    ∷ bit_and d.installid 0xff
    ∷ (serial ++ (d.multicastaddr ++ (d.mac ++ closed_name d.name)))

-- The six bytes that `resize` leaves unset.
abbrev pub unset_serial : (ℕ → ℕ) → List ℕ
unset_serial fresh = fresh 8 ∷ fresh 9 ∷ fresh 10 ∷ fresh 11 ∷ fresh 12 ∷ fresh 13 ∷ []

-- The serial number is copied to position 18 instead of 8, and overwritten by the MAC address.
unfoldable pub description_response_packet : (ℕ → ℕ) → Description → List ℕ → Packet
description_response_packet fresh d optional =
    sent 0x0204 (device_block d (unset_serial fresh) ++ (service_block d.services ++ optional))

-- The fields from position 2 of a description `c`.
abbrev pub read_description : List ℕ → List ServiceEntry → Description
read_description c services = record {
  knxmedium = at c 2;
  devicestatus = at c 3;
  individual_addr = word (at c 4) (at c 5);
  installid = word (at c 6) (at c 7);
  serial = take 6 (drop 8 c);
  services = services;
  multicastaddr = take 4 (drop 14 c);
  mac = take 6 (drop 18 c);
  name = closed_name (take 30 (drop 24 c));
}

-- `(p.data[54] / 2) - 1` as the unsigned argument of `resize`, where -1 is 2 ^ 32 - 1.
abbrev pub resize_argument : ℕ → ℕ
resize_argument block = (block / 2 + 4294967295) % 4294967296

-- The same as the int that bounds the loop, which makes no round for -1.
abbrev pub loop_rounds : ℕ → ℕ
loop_rounds block = block / 2 - 1

unfoldable pub parse_description_response : Packet → Parsed
parse_description_response p =
    let c = p.content in
    if not (p.service == 0x0204)
    then refused
    else if ltb (length c) 56
    then refused
    else if not (at c 0 == 54)
    then refused
    else if not (at c 1 == 1)
    then refused
    else if not (at c 55 == 2)
    then refused
    else if not (at c 54 % 2 == 0)
    then refused
    else if ltb (length c) (at c 54 + 54)
    then refused
    else if resize_argument (at c 54) == loop_rounds (at c 54)
    then parsed (
        description_response
          (read_description c (read_services (loop_rounds (at c 54)) (drop 56 c)))
          (drop (at c 54 + 54) c))
    else oversized (resize_argument (at c 54))

unfoldable pub search_request_packet : SockAddr → Bool → Packet
unfolding ip_to_eibnetip
search_request_packet caddr nat = sent 0x0201 (ip_to_eibnetip caddr nat)

unfoldable pub parse_search_request : Packet → Parsed
unfolding eibnet_to_ip
parse_search_request p =
    if not (p.service == 0x0201)
    then refused
    else if not (length p.content == 8)
    then refused
    else elim (eibnet_to_ip p.content p.src false) [
      | none ↦ refused
      | some (caddr, nat) ↦ parsed (search_request caddr nat)
    ]

unfoldable pub search_response_packet : Description → SockAddr → Bool → Packet
unfolding ip_to_eibnetip
search_response_packet d caddr nat =
    sent 0x0202 (ip_to_eibnetip caddr nat ++ (device_block d d.serial ++ service_block d.services))

unfoldable pub parse_search_response : Packet → Parsed
unfolding eibnet_to_ip
parse_search_response p =
    let c = drop 8 p.content in
    if not (p.service == 0x0202)
    then refused
    else if ltb (length p.content) 64
    then refused
    else elim (eibnet_to_ip (take 8 p.content) p.src false) [
      | none ↦ refused
      | some (caddr, nat) ↦
          if not (at c 0 == 54)
          then refused
          else if not (at c 1 == 1)
          then refused
          else if not (at c 55 == 2)
          then refused
          else if not (at c 54 % 2 == 0)
          then refused
          else if ltb (length p.content) (at c 54 + 62)
          then refused
          else if resize_argument (at c 54) == loop_rounds (at c 54)
          then parsed (
              search_response
                (read_description c (read_services (loop_rounds (at c 54)) (drop 56 c))) caddr nat)
          else oversized (resize_argument (at c 54))
    ]
