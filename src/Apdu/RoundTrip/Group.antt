-- ===== src/Apdu/RoundTrip/Group.antt =====
-- Group values and individual addresses, written by ToPacket and read by APDU::fromPacket.
use bcusdk.Base.{Bool, IsBytes, IsWord, List, [], arith, at, false, refl, some, true, ℕ, ◌∷◌, ◌≡◌}
use bcusdk.Apdu.{
  group_value_response, group_value_write, individual_address_write, serial_number_read,
  serial_number_response, unknown,
}
use bcusdk.Apdu.Codec.{from_packet, init}
use bcusdk.Apdu.Group.{
  init_group_value_response, init_group_value_write, init_individual_address_write,
  init_serial_number_read, init_serial_number_response, to_packet_group_value_response,
  to_packet_group_value_write, to_packet_individual_address_write, to_packet_serial_number_read,
  to_packet_serial_number_response, to_packet_serial_number_write,
}
use bcusdk.Apdu.Headers.{class_of_group_value_response, class_of_group_value_write, field_of}
use bcusdk.Apdu.Ranges.{IsSerial}
use bcusdk.Apdu.RoundTrip.Cons.{from_packet-cons}
use bcusdk.Apdu.Service.{class_of}
use bcusdk.Apdu.Values.{small, small_back, word_back}

-- What is read of a group value that was written: an empty one looks like a small 0.
abbrev pub small_read : Bool → List ℕ → Bool
small_read false [] = true
small_read issmall _ = issmall

abbrev pub content_read : Bool → List ℕ → List ℕ
content_read false [] = 0 ∷ []
content_read _ content = content

pub group_value_response_back :
    (issmall : Bool) (content c : List ℕ)
    → IsBytes content
    → to_packet_group_value_response issmall content ≡ some c
    → from_packet c
      ≡ group_value_response (small_read issmall content) (content_read issmall content)
unfolding to_packet_group_value_response init init_group_value_response
group_value_response_back true [] c b e = ground arith
group_value_response_back true (x ∷ []) c b e = ground (
  arith,
  small x b.0,
  small_back x,
  from_packet-cons 0x00 (at c 1) [],
  class_of_group_value_response x,
  field_of 1 x,
)
group_value_response_back true (x ∷ y ∷ content) c b e = ground arith
group_value_response_back false [] c b e =
    ground (arith, from_packet-cons 0x00 0x40 [], class_of_group_value_response 0)
group_value_response_back false (x ∷ content) c b e =
    ground (arith, from_packet-cons 0x00 0x40 (x ∷ content), class_of_group_value_response 0)

pub group_value_write_back :
    (issmall : Bool) (content c : List ℕ)
    → IsBytes content
    → to_packet_group_value_write issmall content ≡ some c
    → from_packet c ≡ group_value_write (small_read issmall content) (content_read issmall content)
unfolding to_packet_group_value_write init init_group_value_write
group_value_write_back true [] c b e = ground arith
group_value_write_back true (x ∷ []) c b e = ground (
  arith,
  small x b.0,
  small_back x,
  from_packet-cons 0x00 (at c 1) [],
  class_of_group_value_write x,
  field_of 2 x,
)
group_value_write_back true (x ∷ y ∷ content) c b e = ground arith
group_value_write_back false [] c b e =
    ground (arith, from_packet-cons 0x00 0x80 [], class_of_group_value_write 0)
group_value_write_back false (x ∷ content) c b e =
    ground (arith, from_packet-cons 0x00 0x80 (x ∷ content), class_of_group_value_write 0)

pub individual_address_write_back :
    (addr : ℕ)
    → IsWord addr
    → from_packet (to_packet_individual_address_write addr) ≡ individual_address_write addr
unfolding to_packet_individual_address_write init init_individual_address_write class_of from_packet
individual_address_write_back addr h = rw (word_back addr h) refl

pub serial_number_read_back :
    (serno : List ℕ)
    → IsSerial serno
    → from_packet (to_packet_serial_number_read serno) ≡ serial_number_read serno
unfolding to_packet_serial_number_read init init_serial_number_read class_of from_packet
serial_number_read_back (a ∷ b ∷ c ∷ d ∷ e ∷ f ∷ []) h = refl
serial_number_read_back _ h = ground arith

pub serial_number_response_back :
    (serno : List ℕ) (addr : ℕ)
    → IsSerial serno
    → IsWord addr
    → from_packet (to_packet_serial_number_response serno addr) ≡ serial_number_response serno addr
unfolding to_packet_serial_number_response init init_serial_number_response class_of from_packet
serial_number_response_back (a ∷ b ∷ c ∷ d ∷ e ∷ f ∷ []) addr h k = rw (word_back addr k) refl
serial_number_response_back _ addr h k = ground arith

-- The message that sets an address by serial number is written with the code of the response, for
-- which it is too long.
pub serial_number_write_lost :
    (serno : List ℕ) (addr : ℕ)
    → IsSerial serno
    → from_packet (to_packet_serial_number_write serno addr)
      ≡ unknown (to_packet_serial_number_write serno addr)
unfolding to_packet_serial_number_write init init_serial_number_response class_of from_packet
serial_number_write_lost (a ∷ b ∷ c ∷ d ∷ e ∷ f ∷ []) addr h = refl
serial_number_write_lost _ addr h = ground arith
