-- ===== src/Lpdu/RoundTrip.antt =====
-- L_Data_PDU::ToPacket followed by LPDU::fromPacket.
use bcusdk.Base.{
  ℕ, ◌+◌, ◌-◌, ◌≤◌, ◌<◌, ◌≡◌, ap, ◌∙◌, true, some, List, [], ◌∷◌, ◌++◌, length, ◌==◌, arith,
  bit_and, bit_or, at, IsWord, take_all, length-append, ==_refl,
}
use bcusdk.Base.Bits.{shl, shr, bit_and_15, bit_and_255, bit_and_high, bit_or-zero}
use bcusdk.Lpdu.{
  LData, l_data, checksum, candidate, new_data, init_l_data, init_standard, init_extended,
  from_packet, to_packet_data, standard_bytes, extended_bytes, control_byte, addr_bit, asserts,
  init_candidate,
}
use bcusdk.Lpdu.Header.{
  exchange, IsControl-standard, IsControl-extended, hop_byte, hop_byte_lem, address_bytes,
}
use bcusdk.Lpdu.Parse.{init_standard_lem, init_extended_lem}

-- The widths of the fields: eibaddr_t and uchar.
pub record IsFrame (f : LData) : Type 0 where
  pub source : IsWord f.source
  pub dest : IsWord f.dest
  pub hopcount : f.hopcount < 256

-- The frame as a receiver sees it.
abbrev pub received : LData → LData
received f = record f { prio = exchange f.prio; valid_checksum = true; valid_length = true }

pub from_packet_data :
    (c : List ℕ) (f : LData)
    → 1 ≤ length c
    → candidate (at c 0) ≡ new_data
    → init_l_data c ≡ some f
    → from_packet c ≡ l_data f
unfolding from_packet init_candidate
from_packet_data c f n k e = rw k (rw (e, init_candidate) (ground arith))

init_l_data_standard :
    (c : List ℕ)
    → 6 ≤ length c
    → (bit_and (at c 0) 0x53 == 0x10) ≡ true
    → bit_and (at c 0) 0x80 ≡ 0x80
    → init_l_data c ≡ init_standard c
unfolding init_l_data
init_l_data_standard c n m t = ground arith

init_l_data_extended :
    (c : List ℕ)
    → 6 ≤ length c
    → (bit_and (at c 0) 0x53 == 0x10) ≡ true
    → bit_and (at c 0) 0x80 ≡ 0x00
    → init_l_data c ≡ init_extended c
unfolding init_l_data
init_l_data_extended c n m t = ground arith

-- A short frame before its checksum, with the mask of the copied length gone.
pub standard_bytes_lem :
    (f : LData)
    → length f.payload ≤ 16
    → standard_bytes f
      ≡ control_byte 0x90 f.prio f.repeated
        ∷ bit_and (shr f.source 8) 0xff
        ∷ bit_and f.source 0xff
        ∷ bit_and (shr f.dest 8) 0xff
        ∷ bit_and f.dest 0xff
        ∷ hop_byte f.hopcount (bit_and (length f.payload - 1) 0x0f) f.addr_type
        ∷ f.payload
unfolding standard_bytes
standard_bytes_lem f q = rw (
    take_all (1 + bit_and (length f.payload - 1) 0x0f) f.payload
      (omega (arith, bit_and_15 (length f.payload - 1))))

standard-received :
    (f : LData)
    → IsFrame f
    → f.hopcount < 8
    → 1 ≤ length f.payload
    → length f.payload ≤ 16
    → from_packet (standard_bytes f ++ (checksum (standard_bytes f) ∷ [])) ≡ l_data (received f)
standard-received f w h p q =
    let n = bit_and (length f.payload - 1) 0x0f in
    let (kind, mark, format, prio, repeated) = IsControl-standard f.prio f.repeated in
    let nib : n ≡ length f.payload - 1 = omega (arith, bit_and_15 (length f.payload - 1)) in
    let hb = hop_byte_lem f.hopcount n f.addr_type h (omega arith) in
    rw (standard_bytes_lem f q) (
      from_packet_data _ (received f) (omega arith) kind (
        init_l_data_standard _
          (omega (arith, length-append f.payload (checksum (standard_bytes f) ∷ []))) mark format
        ∙ init_standard_lem _ _ _ _ _ _ _ f.payload (omega (arith, hb.nibble))
        ∙ cc (
          prio,
          repeated,
          hb.hops,
          hb.addr,
          address_bytes f.source w.source,
          address_bytes f.dest w.dest,
          ==_refl (checksum (standard_bytes f)),
          standard_bytes_lem f q,
        )))

pub extended_bytes_lem :
    (f : LData)
    → length f.payload ≤ 255
    → extended_bytes f
      ≡ control_byte 0x10 f.prio f.repeated
        ∷ bit_or (shl (bit_and f.hopcount 0x07) 4) (addr_bit f.addr_type)
        ∷ bit_and (shr f.source 8) 0xff
        ∷ bit_and f.source 0xff
        ∷ bit_and (shr f.dest 8) 0xff
        ∷ bit_and f.dest 0xff
        ∷ bit_and (length f.payload - 1) 0xff
        ∷ f.payload
unfolding extended_bytes
extended_bytes_lem f q = rw (
    take_all (1 + bit_and (length f.payload - 1) 0xff) f.payload
      (omega (arith, bit_and_255 (length f.payload - 1))))

extended-received :
    (f : LData)
    → IsFrame f
    → f.hopcount < 8
    → 1 ≤ length f.payload
    → length f.payload ≤ 255
    → from_packet (extended_bytes f ++ (checksum (extended_bytes f) ∷ [])) ≡ l_data (received f)
extended-received f w h p q =
    let (kind, mark, format, prio, repeated) = IsControl-extended f.prio f.repeated in
    let n : bit_and (length f.payload - 1) 0xff ≡ length f.payload - 1 =
      omega (arith, bit_and_255 (length f.payload - 1)) in
    let hb = hop_byte_lem f.hopcount 0 f.addr_type h (omega arith) in
    let same =
      ap (λ (t : ℕ). bit_or t (addr_bit f.addr_type))
        (bit_or-zero (shl (bit_and f.hopcount 0x07) 4)) in
    rw (extended_bytes_lem f q) (
      from_packet_data _ (received f) (omega arith) kind (
        init_l_data_extended _ (omega arith) mark format
        ∙ init_extended_lem _ _ _ _ _ _ _ _ f.payload (rw (← same) hb.nibble) (omega arith)
        ∙ cc (
          prio,
          repeated,
          hb.hops,
          hb.addr,
          same,
          address_bytes f.source w.source,
          address_bytes f.dest w.dest,
          ==_refl (checksum (extended_bytes f)),
          extended_bytes_lem f q,
        )))

-- Where ToPacket passes its asserts, fromPacket reads the frame back: source, destination, address
-- type, hop count, repeat flag and payload are the same, the checksum and the length are valid,
-- and the priority is the same for low and system while normal and urgent are exchanged.
pub from_packet-to_packet_data :
    (f : LData) (c : List ℕ)
    → IsFrame f
    → to_packet_data f ≡ some c
    → from_packet c ≡ l_data (received f)
unfolding to_packet_data asserts
from_packet-to_packet_data f c w e =
    ground (arith, bit_and_high f.hopcount w.hopcount, standard-received f w, extended-received f w)
