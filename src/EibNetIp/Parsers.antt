-- ===== src/EibNetIp/Parsers.antt =====
-- The parsers of eibnetip.cpp side by side: which packets they take, and where they go wrong.
use bcusdk.Base.{
  ==_iff, Bool, Bool-cases, IsBytes, Option, ap, arith, at, at-IsByte, drop, false, if◌then◌else◌,
  inl, inr, length, ltb, none, not, some, sym, take, ℕ, ◌%◌, ◌+◌, ◌<◌, ◌==◌, ◌↔◌, ◌∙◌, ◌≡◌, ◌≤◌,
}
use bcusdk.EibNetIp.{IpMessage, Packet, Parsed, SockAddr, eibnet_to_ip, oversized, parsed, refused}
use bcusdk.EibNetIp.Codec.{
  Service, class_of_message, configuration_ack, configuration_request, connection_request,
  connection_response, describe_request, describe_response, disconnection_request,
  disconnection_response, find_request, find_response, parse_as, state_request, state_response,
  tunnelling_request, tunnelling_response,
}
use bcusdk.EibNetIp.Connect.{
  parse_connect_request, parse_connect_response, parse_connectionstate_request,
  parse_connectionstate_response, parse_disconnect_request, parse_disconnect_response,
}
use bcusdk.EibNetIp.Discovery.{
  loop_rounds, parse_description_request, parse_description_response, parse_search_request,
  parse_search_response, resize_argument,
}
use bcusdk.EibNetIp.Tunnel.{
  parse_config_ack, parse_config_request, parse_tunnel_ack, parse_tunnel_request,
}

-- The service codes of eibnetip.h.
abbrev pub service_code : Service → ℕ
service_code find_request = 0x0201
service_code find_response = 0x0202
service_code describe_request = 0x0203
service_code describe_response = 0x0204
service_code connection_request = 0x0205
service_code connection_response = 0x0206
service_code state_request = 0x0207
service_code state_response = 0x0208
service_code disconnection_request = 0x0209
service_code disconnection_response = 0x020a
service_code tunnelling_request = 0x0420
service_code tunnelling_response = 0x0421
service_code configuration_request = 0x0310
service_code configuration_ack = 0x0311

-- A chain of tests that comes to its end gives the message at its end.
end_of :
    (t1 t2 t3 t4 t5 t6 : Bool) (n : ℕ) (r m : IpMessage)
    → (if t1
        then refused
        else if t2
        then refused
        else if t3
        then refused
        else if t4
        then refused
        else if t5
        then refused
        else if t6
        then parsed r
        else oversized n)
      ≡ parsed m
    → r ≡ m
end_of t1 t2 t3 t4 t5 t6 n r m e = ground arith

start_of :
    (t1 t2 : Bool) (r : Parsed) (m : IpMessage)
    → (if t1 then refused else if t2 then refused else r) ≡ parsed m
    → (t1 ≡ false) × (r ≡ parsed m)
start_of t1 t2 r m e = ground arith

behind :
    (o : Option (SockAddr × Bool)) (f : SockAddr × Bool → Parsed) (m : IpMessage)
    → elim o [ none ↦ refused | some x ↦ f x ] ≡ parsed m
    → (x : SockAddr × Bool) × (f x ≡ parsed m)
behind none f m e = ground arith
behind (some x) f m e = (x, e)

described_by :
    (p : Packet) (m : IpMessage)
    → parse_description_response p ≡ parsed m
    → (p.service ≡ 0x0204) × (class_of_message m ≡ describe_response)
unfolding parse_description_response
described_by p m e =
    let c = p.content in
    let start = start_of (not (p.service == 0x0204)) (ltb (length c) 56) _ m e in
    let last =
      end_of (not (at c 0 == 54)) (not (at c 1 == 1)) (not (at c 55 == 2)) (not (at c 54 % 2 == 0))
        (ltb (length c) (at c 54 + 54)) (resize_argument (at c 54) == loop_rounds (at c 54)) _ _ m
        start.1 in
    ((==_iff p.service 0x0204).0 (ground arith), ap class_of_message (sym last))

found_by :
    (p : Packet) (m : IpMessage)
    → parse_search_response p ≡ parsed m
    → (p.service ≡ 0x0202) × (class_of_message m ≡ find_response)
unfolding parse_search_response
found_by p m e =
    let c = drop 8 p.content in
    let start = start_of (not (p.service == 0x0202)) (ltb (length p.content) 64) _ m e in
    let found = behind (eibnet_to_ip (take 8 p.content) p.src false) _ m start.1 in
    let last =
      end_of (not (at c 0 == 54)) (not (at c 1 == 1)) (not (at c 55 == 2)) (not (at c 54 % 2 == 0))
        (ltb (length p.content) (at c 54 + 62)) (resize_argument (at c 54) == loop_rounds (at c 54))
        _ _ m found.1 in
    ((==_iff p.service 0x0202).0 (ground arith), ap class_of_message (sym last))

taken_by :
    (k : Service) (p : Packet) (m : IpMessage)
    → parse_as k p ≡ parsed m
    → (p.service ≡ service_code k) × (class_of_message m ≡ k)
unfolding parse_as
taken_by connection_request p m e = unfold parse_connect_request in ground arith
taken_by connection_response p m e = unfold parse_connect_response in ground arith
taken_by state_request p m e = unfold parse_connectionstate_request in ground arith
taken_by state_response p m e = unfold parse_connectionstate_response in ground arith
taken_by disconnection_request p m e = unfold parse_disconnect_request in ground arith
taken_by disconnection_response p m e = unfold parse_disconnect_response in ground arith
taken_by tunnelling_request p m e = unfold parse_tunnel_request in ground arith
taken_by tunnelling_response p m e = unfold parse_tunnel_ack in ground arith
taken_by configuration_request p m e = unfold parse_config_request in ground arith
taken_by configuration_ack p m e = unfold parse_config_ack in ground arith
taken_by describe_request p m e = unfold parse_description_request in ground arith
taken_by describe_response p m e = described_by p m e
taken_by find_request p m e = unfold parse_search_request in ground arith
taken_by find_response p m e = found_by p m e

service_code-injective : (k l : Service) → service_code k ≡ service_code l → k ≡ l
service_code-injective k l e = ground arith

-- A packet is taken by one parser at most, the one of its service code, which makes a message of its
-- own class.
pub parse_as_unique :
    (k l : Service) (p : Packet) (m n : IpMessage)
    → parse_as k p ≡ parsed m
    → parse_as l p ≡ parsed n
    → (k ≡ l) × (class_of_message m ≡ k) × (p.service ≡ service_code k)
parse_as_unique k l p m n e f =
    let first = taken_by k p m e in
    let second = taken_by l p n f in
    (service_code-injective k l (sym first.0 ∙ second.0), first.1, first.0)

-- The second block of a device description has length 0, and all that the parser tests is right.
abbrev pub IsEmptyBlock : Packet → Type 0
IsEmptyBlock p =
    (p.service ≡ 0x0204)
    × (56 ≤ length p.content)
    × (at p.content 0 ≡ 54)
    × (at p.content 1 ≡ 1)
    × (at p.content 54 ≡ 0)
    × (at p.content 55 ≡ 2)

module _ (n : ℕ) where
  two_passed :
      (t1 t2 : Bool) (r : Parsed)
      → (if t1 then refused else if t2 then refused else r) ≡ oversized n
      → (t1 ≡ false) × (t2 ≡ false) × (r ≡ oversized n)
  two_passed t1 t2 r e = ground arith

  passed_size : (t : Bool) (r : Parsed) → (if t then refused else r) ≡ oversized n → r ≡ oversized n
  passed_size t r e = ground arith

  size_asked :
      (t : Bool) (m : IpMessage) (k : ℕ)
      → (if t then parsed m else oversized k) ≡ oversized n
      → (t ≡ false) × (k ≡ n)
  size_asked t m k e = ground arith

-- The number of places is more than the loop fills for the length 0 alone.
unfilled :
    (block : ℕ)
    → block < 256
    → block % 2 ≡ 0
    → (resize_argument block == loop_rounds block) ≡ false
    → block ≡ 0
unfilled block h k e = elim (Bool-cases (block == 0)) [
  | inl t ↦ (==_iff block 0).0 t
  | inr f ↦ absurd (
      ground
        (arith, e, f, (==_iff (resize_argument block) (loop_rounds block)).1 (ground (arith, f))))
]

empty_block :
    (p : Packet) (n : ℕ)
    → IsBytes p.content
    → parse_description_response p ≡ oversized n
    → IsEmptyBlock p × (n ≡ 4294967295)
unfolding parse_description_response
empty_block p n v e =
    let c = p.content in
    let a = two_passed n (not (p.service == 0x0204)) (ltb (length c) 56) _ e in
    let b = two_passed n (not (at c 0 == 54)) (not (at c 1 == 1)) _ a.2 in
    let d = two_passed n (not (at c 55 == 2)) (not (at c 54 % 2 == 0)) _ b.2 in
    let f = passed_size n (ltb (length c) (at c 54 + 54)) _ d.2 in
    let g = size_asked n (resize_argument (at c 54) == loop_rounds (at c 54)) _ _ f in
    let zero_length = unfilled (at c 54) (at-IsByte c 54 v) (ground arith) g.0 in
    (
      (
        (==_iff p.service 0x0204).0 (ground arith),
        ground arith,
        (==_iff (at c 0) 54).0 (ground arith),
        (==_iff (at c 1) 1).0 (ground arith),
        zero_length,
        (==_iff (at c 55) 2).0 (ground arith),
      ),
      omega (arith, g.1, zero_length),
    )

-- On a packet of bytes, the parser of a device description takes it with an array of `n` services that its
-- loop does not fill exactly if the packet has an empty second block, and then `n` is 2 ^ 32 - 1.
pub oversized_iff :
    (p : Packet) (n : ℕ)
    → IsBytes p.content
    → parse_description_response p ≡ oversized n ↔ IsEmptyBlock p × (n ≡ 4294967295)
unfolding parse_description_response
oversized_iff p n v = (empty_block p n v, λ w. ground arith)
