-- ===== src/EibNetIp/RoundTrip/Search.antt =====
-- The search for devices: ToPacket, then the parser.
use bcusdk.Base.{
  Bool, List, [], ap, arith, at, drop, false, if◌then◌else◌, length, length-append, ltb, not, refl,
  some, sym, take, ℕ, ◌%◌, ◌++◌, ◌+◌, ◌==◌, ◌∙◌, ◌≡◌,
}
use bcusdk.EibNetIp.{
  Description, Parsed, SockAddr, eibnet_to_ip, ip_to_eibnetip, oversized, parsed, refused,
  search_request, search_response, sent,
}
use bcusdk.EibNetIp.Address.{IsSockAddr, address_back, read_address, read_nat}
use bcusdk.EibNetIp.Discovery.{
  closed_name, loop_rounds, parse_search_request, parse_search_response, read_description,
  read_services, resize_argument, search_request_packet, search_response_packet, service_block,
  service_bytes,
}
use bcusdk.EibNetIp.Parts.{address-drop, address-length, address-take}
use bcusdk.EibNetIp.RoundTrip.Connect.{from}
use bcusdk.EibNetIp.RoundTrip.Fields.{
  IsDescription, IsFound, assembled, at_of_drop, block_tests, described, description_read,
  fields_read, services_found, written-IsFound,
}
use mathlib.Core.List.{append-nil}

pub search_request_back :
    (caddr src : SockAddr) (nat : Bool)
    → IsSockAddr caddr
    → parse_search_request (from src (search_request_packet caddr nat))
      ≡ parsed (search_request (read_address src caddr nat) (read_nat caddr nat false))
unfolding parse_search_request search_request_packet
search_request_back caddr src nat w =
    rw (address-length caddr nat, address_back caddr src nat false w) refl

-- What the parser of a search response does behind the address.
abbrev behind_address : ℕ → SockAddr → Bool → List ℕ → Parsed
behind_address size caddr nat c =
    if ltb size 64
    then refused
    else if not (at c 55 == 2)
    then refused
    else if not (at c 54 % 2 == 0)
    then refused
    else if ltb size (at c 54 + 62)
    then refused
    else if resize_argument (at c 54) == loop_rounds (at c 54)
    then parsed (
        search_response (read_description c (read_services (loop_rounds (at c 54)) (drop 56 c)))
          caddr nat)
    else oversized (resize_argument (at c 54))

search_by :
    (content : List ℕ) (src caddr : SockAddr) (nat : Bool)
    → eibnet_to_ip (take 8 content) src false ≡ some (caddr, nat)
    → at (drop 8 content) 0 ≡ 54
    → at (drop 8 content) 1 ≡ 1
    → parse_search_response (from src (sent 0x0202 content))
      ≡ behind_address (length content) caddr nat (drop 8 content)
unfolding parse_search_response
search_by content src caddr nat e h k = rw (e, h, k) refl

search_parsed :
    (d : Description) (caddr src : SockAddr) (nat : Bool) (serial t : List ℕ)
    → IsDescription d
    → IsSockAddr caddr
    → IsFound d serial t []
    → parse_search_response (from src (sent 0x0202 (ip_to_eibnetip caddr nat ++ described d t)))
      ≡ parsed (
          search_response
            (description_read d serial)
            (read_address src caddr nat)
            (read_nat caddr nat false))
search_parsed d caddr src nat serial t w v f =
    let block = at_of_drop 46 t _ _ f.rest in
    let mark = at_of_drop 47 t _ _ block.1 in
    let few = w.few in
    let size = f.size in
    let bytes = (services_found d.services [] w.few).0 in
    let content = ip_to_eibnetip caddr nat ++ described d t in
    let whole = length-append (ip_to_eibnetip caddr nat) (described d t) in
    let eight = address-length caddr nat in
    let rest = address-drop caddr nat (described d t) in
    let a = read_address src caddr nat in
    let n = read_nat caddr nat false in
    let long : 56 + length (service_bytes d.services ++ []) + 8 ≡ length content =
      omega (arith, size, whole, eight) in
    search_by content src a n
      (ap (λ l. eibnet_to_ip l src false) (address-take caddr nat (described d t))
        ∙ address_back caddr src nat false v)
      (ap (λ l. at l 0) rest) (ap (λ l. at l 1) rest)
    ∙ ap (behind_address (length content) a n) rest
    ∙ block_tests 64 62 (length content) (at t 47) (at t 46) _ (omega (arith, long)) mark.0
        (omega (arith, block.0)) (omega (arith, block.0, long, bytes)) (omega (arith, block.0))
        (omega (arith, block.0))
    ∙ ap (λ r. parsed (search_response r a n)) (fields_read d serial t [] w f)

pub search_response_back :
    (d : Description) (caddr src : SockAddr) (nat : Bool)
    → IsDescription d
    → IsSockAddr caddr
    → parse_search_response (from src (search_response_packet d caddr nat))
      ≡ parsed (
          search_response
            (description_read d d.serial)
            (read_address src caddr nat)
            (read_nat caddr nat false))
unfolding search_response_packet
search_response_back d caddr src nat w v =
    let block = service_block d.services in
    let joined =
      assembled d.serial d.multicastaddr d.mac (closed_name d.name) block
      ∙ ap (λ b. d.serial ++ (d.multicastaddr ++ (d.mac ++ (closed_name d.name ++ b))))
          (sym (append-nil block)) in
    ap
      (λ t.
        parse_search_response (from src (sent 0x0202 (ip_to_eibnetip caddr nat ++ described d t))))
      joined
    ∙ search_parsed d caddr src nat d.serial _ w v (written-IsFound d d.serial [] w w.serials)
