-- ===== src/Apdu/Memory.antt =====
-- apdu.cpp: `init` and `ToPacket` of the messages on memory and user memory.
use bcusdk.Base.{
  ℕ, ◌+◌, ◌-◌, ◌*◌, ◌&&◌, Option, none, List, [], ◌∷◌, ◌++◌, length, take, drop, at, word, ltb,
  ◌==◌, if◌then◌else◌, bit_and, bit_or,
}
use bcusdk.Base.Bits.{shl, shr}
use bcusdk.Apdu.{
  Apdu, memory_read, memory_response, memory_write, memory_bit_write, user_memory_read,
  user_memory_response, user_memory_write, user_memory_bit_write, user_manufacturer_info_read,
  user_manufacturer_info_response,
}
use bcusdk.Apdu.Fields.{high_byte, low_byte, asserting, taken_if}

unfoldable pub init_memory_read : List ℕ → Option Apdu
init_memory_read c =
    taken_if (length c == 4) (memory_read (bit_and (at c 1) 0xf) (word (at c 2) (at c 3)))

unfoldable pub to_packet_memory_read : ℕ → ℕ → Option (List ℕ)
to_packet_memory_read count addr =
    asserting (bit_and count 0xf0 == 0)
      (0x02 ∷ bit_or 0x00 (bit_and count 0x0f) ∷ high_byte addr ∷ low_byte addr ∷ [])

unfoldable pub init_memory_response : List ℕ → Option Apdu
init_memory_response c =
    if ltb (length c) 4
    then none
    else let count = bit_and (at c 1) 0xf in
      taken_if (length (drop 4 c) == count)
        (memory_response count (word (at c 2) (at c 3)) (drop 4 c))

unfoldable pub to_packet_memory_response : ℕ → ℕ → List ℕ → Option (List ℕ)
to_packet_memory_response count addr content =
    asserting (bit_and count 0xf0 == 0 && length content == count)
      (0x02 ∷ bit_or 0x40 (bit_and count 0x0f) ∷ high_byte addr ∷ low_byte addr ∷ content)

unfoldable pub init_memory_write : List ℕ → Option Apdu
init_memory_write c =
    if ltb (length c) 4
    then none
    else let count = bit_and (at c 1) 0xf in
      taken_if (length (drop 4 c) == count) (memory_write count (word (at c 2) (at c 3)) (drop 4 c))

unfoldable pub to_packet_memory_write : ℕ → ℕ → List ℕ → Option (List ℕ)
to_packet_memory_write count addr content =
    asserting (bit_and count 0xf0 == 0 && length content == count)
      (0x02 ∷ bit_or 0x80 (bit_and count 0x0f) ∷ high_byte addr ∷ low_byte addr ∷ content)

unfoldable pub init_memory_bit_write : List ℕ → Option Apdu
init_memory_bit_write c =
    if ltb (length c) 5
    then none
    else let count = at c 2 in
      taken_if (length c - 5 == count * 2) (
        memory_bit_write count (word (at c 3) (at c 4)) (take count (drop 5 c))
          (take count (drop (5 + count) c)))

unfoldable pub to_packet_memory_bit_write : ℕ → ℕ → List ℕ → List ℕ → Option (List ℕ)
to_packet_memory_bit_write count addr andmask xormask =
    asserting (length andmask == count && length xormask == count)
      (0x03 ∷ 0xd0 ∷ count ∷ high_byte addr ∷ low_byte addr ∷ (andmask ++ xormask))

-- `(c[2] >> 4) & 0xf`
abbrev pub read_extension : List ℕ → ℕ
read_extension c = bit_and (shr (at c 2) 4) 0xf

-- `(addr_extension & 0x0f) << 4 | (count & 0x0f)`
abbrev pub extension_count : ℕ → ℕ → ℕ
extension_count addr_extension count =
    bit_or (shl (bit_and addr_extension 0x0f) 4) (bit_and count 0x0f)

unfoldable pub init_user_memory_read : List ℕ → Option Apdu
init_user_memory_read c =
    taken_if (length c == 5)
      (user_memory_read (read_extension c) (bit_and (at c 2) 0xf) (word (at c 3) (at c 4)))

unfoldable pub to_packet_user_memory_read : ℕ → ℕ → ℕ → Option (List ℕ)
to_packet_user_memory_read addr_extension count addr =
    asserting (bit_and count 0xf0 == 0 && bit_and addr_extension 0xf0 == 0)
      (0x02 ∷ 0xc0 ∷ extension_count addr_extension count ∷ high_byte addr ∷ low_byte addr ∷ [])

unfoldable pub init_user_memory_response : List ℕ → Option Apdu
init_user_memory_response c =
    if ltb (length c) 5
    then none
    else let count = bit_and (at c 2) 0xf in
      taken_if (length (drop 5 c) == count)
        (user_memory_response (read_extension c) count (word (at c 3) (at c 4)) (drop 5 c))

unfoldable pub to_packet_user_memory_response : ℕ → ℕ → ℕ → List ℕ → Option (List ℕ)
to_packet_user_memory_response addr_extension count addr content =
    asserting
      (bit_and count 0xf0 == 0 && (bit_and addr_extension 0xf0 == 0 && length content == count))
      (0x02
        ∷ 0xc1
        ∷ extension_count addr_extension count
        ∷ high_byte addr
        ∷ low_byte addr
        ∷ content)

unfoldable pub init_user_memory_write : List ℕ → Option Apdu
init_user_memory_write c =
    if ltb (length c) 5
    then none
    else let count = bit_and (at c 2) 0xf in
      taken_if (length (drop 5 c) == count)
        (user_memory_write (read_extension c) count (word (at c 3) (at c 4)) (drop 5 c))

unfoldable pub to_packet_user_memory_write : ℕ → ℕ → ℕ → List ℕ → Option (List ℕ)
to_packet_user_memory_write addr_extension count addr content =
    asserting
      (bit_and count 0xf0 == 0 && (bit_and addr_extension 0xf0 == 0 && length content == count))
      (0x02
        ∷ 0xc2
        ∷ extension_count addr_extension count
        ∷ high_byte addr
        ∷ low_byte addr
        ∷ content)

-- The address extension stays 0, as the constructor left it.
unfoldable pub init_user_memory_bit_write : List ℕ → Option Apdu
init_user_memory_bit_write c =
    if ltb (length c) 5
    then none
    else let count = at c 2 in
      taken_if (length c - 5 == count * 2) (
        user_memory_bit_write 0 count (word (at c 3) (at c 4)) (take count (drop 5 c))
          (take count (drop (5 + count) c)))

unfoldable pub to_packet_user_memory_bit_write : ℕ → ℕ → ℕ → List ℕ → List ℕ → Option (List ℕ)
to_packet_user_memory_bit_write addr_extension count addr andmask xormask =
    asserting (length andmask == count && length xormask == count)
      (0x02 ∷ 0xc4 ∷ count ∷ high_byte addr ∷ low_byte addr ∷ (andmask ++ xormask))

unfoldable pub init_user_manufacturer_info_read : List ℕ → Option Apdu
init_user_manufacturer_info_read c = taken_if (length c == 2) user_manufacturer_info_read

unfoldable pub to_packet_user_manufacturer_info_read : List ℕ
to_packet_user_manufacturer_info_read = 0x02 ∷ 0xc5 ∷ []

unfoldable pub init_user_manufacturer_info_response : List ℕ → Option Apdu
init_user_manufacturer_info_response c =
    taken_if (length c == 5) (user_manufacturer_info_response (at c 2) (word (at c 3) (at c 4)))

unfoldable pub to_packet_user_manufacturer_info_response : ℕ → ℕ → List ℕ
to_packet_user_manufacturer_info_response manufacturerid content =
    0x02 ∷ 0xc6 ∷ manufacturerid ∷ high_byte content ∷ low_byte content ∷ []
