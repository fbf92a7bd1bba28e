-- ===== src/EibNetIp/Connect.antt =====
-- eibnetip.cpp: the messages that open, watch and close a connection.
use bcusdk.Base.{
  Bool, List, [], at, drop, false, if◌then◌else◌, length, ltb, none, not, some, take, ℕ, ◌%◌, ◌++◌,
  ◌+◌, ◌-◌, ◌==◌, ◌∷◌,
}
use bcusdk.EibNetIp.{
  Packet, Parsed, SockAddr, connect_request, connect_response, connectionstate_request,
  connectionstate_response, disconnect_request, disconnect_response, eibnet_to_ip, ip_to_eibnetip,
  no_address, parsed, refused, sent,
}

unfoldable pub connect_request_packet : SockAddr → SockAddr → List ℕ → Bool → Packet
unfolding ip_to_eibnetip
connect_request_packet caddr daddr cri nat =
    sent 0x0205
      (ip_to_eibnetip caddr nat ++ (ip_to_eibnetip daddr nat ++ ((length cri + 1) % 256 ∷ cri)))

unfoldable pub parse_connect_request : Packet → Parsed
unfolding eibnet_to_ip
parse_connect_request p =
    if not (p.service == 0x0205)
    then refused
    else if ltb (length p.content) 18
    then refused
    else elim (eibnet_to_ip (take 8 p.content) p.src false) [
      | none ↦ refused
      | some (caddr, nat) ↦ elim (eibnet_to_ip (take 8 (drop 8 p.content)) p.src nat) [
        | none ↦ refused
        | some (daddr, nat') ↦
            if not (length p.content - 16 == at p.content 16)
            then refused
            else parsed (connect_request caddr daddr (drop 17 p.content) nat')
      ]
    ]

unfoldable pub connect_response_packet : ℕ → ℕ → SockAddr → Bool → List ℕ → Packet
unfolding ip_to_eibnetip
connect_response_packet channel status daddr nat crd = sent 0x0206 (
    if status == 0
    then channel ∷ status ∷ (ip_to_eibnetip daddr nat ++ ((length crd + 1) % 256 ∷ crd))
    else channel ∷ status ∷ [])

unfoldable pub parse_connect_response : Packet → Parsed
unfolding eibnet_to_ip
parse_connect_response p =
    if not (p.service == 0x0206)
    then refused
    else if ltb (length p.content) 2
    then refused
    else if not (at p.content 1 == 0)
    then if not (length p.content == 2)
      then refused
      else parsed (connect_response (at p.content 0) (at p.content 1) no_address false [])
    else if ltb (length p.content) 12
    then refused
    else elim (eibnet_to_ip (take 8 (drop 2 p.content)) p.src false) [
      | none ↦ refused
      | some (daddr, nat) ↦
          if not (length p.content - 10 == at p.content 10)
          then refused
          else parsed
              (connect_response (at p.content 0) (at p.content 1) daddr nat (drop 11 p.content))
    ]

unfoldable pub connectionstate_request_packet : ℕ → SockAddr → Bool → Packet
unfolding ip_to_eibnetip
connectionstate_request_packet channel caddr nat =
    sent 0x0207 (channel ∷ 0 ∷ ip_to_eibnetip caddr nat)

unfoldable pub parse_connectionstate_request : Packet → Parsed
unfolding eibnet_to_ip
parse_connectionstate_request p =
    if not (p.service == 0x0207)
    then refused
    else if not (length p.content == 10)
    then refused
    else elim (eibnet_to_ip (take 8 (drop 2 p.content)) p.src false) [
      | none ↦ refused
      | some (caddr, nat) ↦ parsed (connectionstate_request (at p.content 0) caddr nat)
    ]

unfoldable pub connectionstate_response_packet : ℕ → ℕ → Packet
connectionstate_response_packet channel status = sent 0x0208 (channel ∷ status ∷ [])

unfoldable pub parse_connectionstate_response : Packet → Parsed
parse_connectionstate_response p =
    if not (p.service == 0x0208)
    then refused
    else if not (length p.content == 2)
    then refused
    else parsed (connectionstate_response (at p.content 0) (at p.content 1))

unfoldable pub disconnect_request_packet : SockAddr → ℕ → Bool → Packet
unfolding ip_to_eibnetip
disconnect_request_packet caddr channel nat = sent 0x0209 (channel ∷ 0 ∷ ip_to_eibnetip caddr nat)

unfoldable pub parse_disconnect_request : Packet → Parsed
unfolding eibnet_to_ip
parse_disconnect_request p =
    if not (p.service == 0x0209)
    then refused
    else if not (length p.content == 10)
    then refused
    else elim (eibnet_to_ip (take 8 (drop 2 p.content)) p.src false) [
      | none ↦ refused
      | some (caddr, nat) ↦ parsed (disconnect_request caddr (at p.content 0) nat)
    ]

unfoldable pub disconnect_response_packet : ℕ → ℕ → Packet
disconnect_response_packet channel status = sent 0x020a (channel ∷ status ∷ [])

unfoldable pub parse_disconnect_response : Packet → Parsed
parse_disconnect_response p =
    if not (p.service == 0x020a)
    then refused
    else if not (length p.content == 2)
    then refused
    else parsed (disconnect_response (at p.content 0) (at p.content 1))
