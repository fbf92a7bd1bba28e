-- ===== src/EibNetIp/RoundTrip/Describe.antt =====
-- The description of a device: ToPacket, then the parser.
use bcusdk.Base.{Bool, List, ap, arith, at, false, length, refl, ℕ, ◌++◌, ◌∙◌, ◌≡◌}
use bcusdk.EibNetIp.{Description, SockAddr, description_request, description_response, parsed, sent}
use bcusdk.EibNetIp.Address.{IsSockAddr, address_back, read_address, read_nat}
use bcusdk.EibNetIp.Discovery.{
  closed_name, description_request_packet, description_response_packet, parse_description_request,
  parse_description_response, service_block, unset_serial,
}
use bcusdk.EibNetIp.Parts.{address-length}
use bcusdk.EibNetIp.RoundTrip.Connect.{from}
use bcusdk.EibNetIp.RoundTrip.Fields.{
  IsDescription, IsFound, assembled, at_of_drop, block_tests, described, description_read,
  fields_read, optional_read, services_found, written-IsFound,
}
use mathlib.Core.Path.{ap₂}

pub description_request_back :
    (caddr src : SockAddr) (nat : Bool)
    → IsSockAddr caddr
    → parse_description_request (from src (description_request_packet caddr nat))
      ≡ parsed (description_request (read_address src caddr nat) (read_nat caddr nat false))
unfolding parse_description_request description_request_packet
description_request_back caddr src nat w =
    rw (address-length caddr nat, address_back caddr src nat false w) refl

-- A packet whose fields were found.
description_parsed :
    (d : Description) (src : SockAddr) (serial t optional : List ℕ)
    → IsDescription d
    → IsFound d serial t optional
    → parse_description_response (from src (sent 0x0204 (described d t)))
      ≡ parsed (description_response (description_read d serial) optional)
unfolding parse_description_response
description_parsed d src serial t optional w f =
    let block = at_of_drop 46 t _ _ f.rest in
    let mark = at_of_drop 47 t _ _ block.1 in
    let few = w.few in
    let size = f.size in
    let bytes = (services_found d.services optional w.few).0 in
    block_tests 56 54 (length (described d t)) (at t 47) (at t 46) _ (omega (arith, size)) mark.0
      (omega (arith, block.0)) (omega (arith, block.0, size, bytes)) (omega (arith, block.0))
      (omega (arith, block.0))
    ∙ ap₂ (λ r o. parsed (description_response r o)) (fields_read d serial t optional w f)
        (optional_read d serial t optional w f)

pub description_response_back :
    (fresh : ℕ → ℕ) (d : Description) (src : SockAddr) (optional : List ℕ)
    → IsDescription d
    → parse_description_response (from src (description_response_packet fresh d optional))
      ≡ parsed (description_response (description_read d (unset_serial fresh)) optional)
unfolding description_response_packet
description_response_back fresh d src optional w =
    ap (λ t. parse_description_response (from src (sent 0x0204 (described d t))))
      (assembled (unset_serial fresh) d.multicastaddr d.mac (closed_name d.name)
        (service_block d.services ++ optional))
    ∙ description_parsed d src (unset_serial fresh) _ optional w
        (written-IsFound d (unset_serial fresh) optional w refl)
