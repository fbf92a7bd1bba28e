-- ===== src/Apdu/RoundTrip/Memory.antt =====
-- Memory and user memory, written by ToPacket and read by APDU::fromPacket.
use bcusdk.Base.{
  IsByte, IsWord, List, [], ap, arith, at, drop, drop-append_length, length, length-append, refl,
  some, sym, take, take-append_length, take_all, ℕ, ◌++◌, ◌∙◌, ◌∷◌, ◌≡◌,
}
use bcusdk.Apdu.{
  memory_bit_write, memory_read, memory_response, memory_write, user_manufacturer_info_response,
  user_memory_bit_write, user_memory_read, user_memory_response, user_memory_write,
}
use bcusdk.Apdu.Codec.{from_packet, init}
use bcusdk.Apdu.Fields.{high_byte, low_byte}
use bcusdk.Apdu.Headers.{
  count_of, class_of_memory_read, class_of_memory_response, class_of_memory_write,
}
use bcusdk.Apdu.Memory.{
  extension_count, init_memory_bit_write, init_memory_read, init_memory_response, init_memory_write,
  init_user_manufacturer_info_response, init_user_memory_bit_write, init_user_memory_read,
  init_user_memory_response, init_user_memory_write, to_packet_memory_bit_write,
  to_packet_memory_read, to_packet_memory_response, to_packet_memory_write,
  to_packet_user_manufacturer_info_response, to_packet_user_memory_bit_write,
  to_packet_user_memory_read, to_packet_user_memory_response, to_packet_user_memory_write,
}
use bcusdk.Apdu.RoundTrip.Cons.{from_packet-cons}
use bcusdk.Apdu.Service.{class_of}
use bcusdk.Apdu.Values.{extended_count_back, extension_back, half_byte, half_byte_back, word_back}

pub memory_read_back :
    (count addr : ℕ) (c : List ℕ)
    → IsByte count
    → IsWord addr
    → to_packet_memory_read count addr ≡ some c
    → from_packet c ≡ memory_read count addr
unfolding to_packet_memory_read init init_memory_read
memory_read_back count addr c h k e = ground (
  arith,
  half_byte count h,
  half_byte_back count,
  word_back addr k,
  from_packet-cons 0x02 (at c 1) (high_byte addr ∷ low_byte addr ∷ []),
  class_of_memory_read count,
  count_of 0 count,
)

pub memory_response_back :
    (count addr : ℕ) (content c : List ℕ)
    → IsByte count
    → IsWord addr
    → to_packet_memory_response count addr content ≡ some c
    → from_packet c ≡ memory_response count addr content
unfolding to_packet_memory_response init init_memory_response
memory_response_back count addr content c h k e = ground (
  arith,
  half_byte count h,
  half_byte_back count,
  word_back addr k,
  from_packet-cons 0x02 (at c 1) (high_byte addr ∷ low_byte addr ∷ content),
  class_of_memory_response count,
  count_of 1 count,
)

pub memory_write_back :
    (count addr : ℕ) (content c : List ℕ)
    → IsByte count
    → IsWord addr
    → to_packet_memory_write count addr content ≡ some c
    → from_packet c ≡ memory_write count addr content
unfolding to_packet_memory_write init init_memory_write
memory_write_back count addr content c h k e = ground (
  arith,
  half_byte count h,
  half_byte_back count,
  word_back addr k,
  from_packet-cons 0x02 (at c 1) (high_byte addr ∷ low_byte addr ∷ content),
  class_of_memory_write count,
  count_of 2 count,
)

-- The two masks, which follow each other.
masks-take : (n : ℕ) (a x : List ℕ) → length a ≡ n → length x ≡ n → take n (a ++ x) ≡ a
masks-take n a x e f = take-append_length a x n (sym e)

masks-drop : (n : ℕ) (a x : List ℕ) → length a ≡ n → length x ≡ n → take n (drop n (a ++ x)) ≡ x
masks-drop n a x e f = ap (take n) (drop-append_length a x n (sym e)) ∙ take_all n x (omega arith)

pub memory_bit_write_back :
    (count addr : ℕ) (andmask xormask c : List ℕ)
    → IsWord addr
    → to_packet_memory_bit_write count addr andmask xormask ≡ some c
    → from_packet c ≡ memory_bit_write count addr andmask xormask
unfolding to_packet_memory_bit_write init init_memory_bit_write class_of
memory_bit_write_back count addr andmask xormask c k e = ground (
  arith,
  word_back addr k,
  from_packet-cons 0x03 0xd0 (count ∷ high_byte addr ∷ low_byte addr ∷ (andmask ++ xormask)),
  length-append andmask xormask,
  masks-take count andmask xormask,
  masks-drop count andmask xormask,
)

pub user_memory_read_back :
    (extension count addr : ℕ) (c : List ℕ)
    → IsByte extension
    → IsByte count
    → IsWord addr
    → to_packet_user_memory_read extension count addr ≡ some c
    → from_packet c ≡ user_memory_read extension count addr
unfolding to_packet_user_memory_read init init_user_memory_read class_of
user_memory_read_back extension count addr c g h k e = ground (
  arith,
  half_byte count h,
  half_byte extension g,
  word_back addr k,
  from_packet-cons 0x02 0xc0
      (extension_count extension count ∷ high_byte addr ∷ low_byte addr ∷ []),
  extension_back extension count,
  extended_count_back extension count,
)

pub user_memory_response_back :
    (extension count addr : ℕ) (content c : List ℕ)
    → IsByte extension
    → IsByte count
    → IsWord addr
    → to_packet_user_memory_response extension count addr content ≡ some c
    → from_packet c ≡ user_memory_response extension count addr content
unfolding to_packet_user_memory_response init init_user_memory_response class_of
user_memory_response_back extension count addr content c g h k e = ground (
  arith,
  half_byte count h,
  half_byte extension g,
  word_back addr k,
  from_packet-cons 0x02 0xc1
      (extension_count extension count ∷ high_byte addr ∷ low_byte addr ∷ content),
  extension_back extension count,
  extended_count_back extension count,
)

pub user_memory_write_back :
    (extension count addr : ℕ) (content c : List ℕ)
    → IsByte extension
    → IsByte count
    → IsWord addr
    → to_packet_user_memory_write extension count addr content ≡ some c
    → from_packet c ≡ user_memory_write extension count addr content
unfolding to_packet_user_memory_write init init_user_memory_write class_of
user_memory_write_back extension count addr content c g h k e = ground (
  arith,
  half_byte count h,
  half_byte extension g,
  word_back addr k,
  from_packet-cons 0x02 0xc2
      (extension_count extension count ∷ high_byte addr ∷ low_byte addr ∷ content),
  extension_back extension count,
  extended_count_back extension count,
)

pub user_memory_bit_write_back :
    (extension count addr : ℕ) (andmask xormask c : List ℕ)
    → IsWord addr
    → to_packet_user_memory_bit_write extension count addr andmask xormask ≡ some c
    → from_packet c ≡ user_memory_bit_write 0 count addr andmask xormask
unfolding to_packet_user_memory_bit_write init init_user_memory_bit_write class_of
user_memory_bit_write_back extension count addr andmask xormask c k e = ground (
  arith,
  word_back addr k,
  from_packet-cons 0x02 0xc4 (count ∷ high_byte addr ∷ low_byte addr ∷ (andmask ++ xormask)),
  length-append andmask xormask,
  masks-take count andmask xormask,
  masks-drop count andmask xormask,
)

pub user_manufacturer_info_response_back :
    (manufacturerid content : ℕ)
    → IsWord content
    → from_packet (to_packet_user_manufacturer_info_response manufacturerid content)
      ≡ user_manufacturer_info_response manufacturerid content
unfolding to_packet_user_manufacturer_info_response init init_user_manufacturer_info_response
    class_of from_packet
user_manufacturer_info_response_back manufacturerid content h = rw (word_back content h) refl
