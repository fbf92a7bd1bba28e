-- ===== src/Emi.antt =====
-- eibd/libserver/emi.h and emi.cpp: frames as the messages that bus interfaces exchange with a host,
-- in the common format (CEMI) and in the older ones (EMI).
pub mod Control
pub mod RoundTrip
pub mod Bounds
mod Tests
use bcusdk.Base.{
  ℕ, ◌+◌, ◌-◌, Bool, true, false, not, ◌&&◌, Option, none, some, List, [], ◌∷◌, ◌++◌, length, take,
  drop, ltb, leb, ◌==◌, if◌then◌else◌, bit_and, bit_or, at, word,
}
use bcusdk.Base.Bits.{shl, shr}
use bcusdk.Lpdu.{
  Busmonitor, LData, Priority, AddrType, group, individual, new_l_data, prio_code, addr_bit,
  read_prio, read_addr_type,
}

-- `pdu[2]` of L_Data_ToCEMI: `short` where the payload fits the short format, `flag` for the bit 0x20.
unfoldable pub cemi_control : Priority → Bool → Bool → ℕ
cemi_control p short flag =
    bit_or (bit_or (bit_or 0x10 (shl (prio_code p) 2)) (if short then 0x80 else 0x00))
      (if flag then 0x20 else 0x00)

-- The bit 0x20: the message code 0x29 is an indication, which alone knows repetitions.
abbrev pub repeat_flag : ℕ → Bool → Bool
repeat_flag code repeated = if code == 0x29 then not repeated else true

-- The three asserts at the head of L_Data_ToCEMI; the bound on the length is not that of ToPacket.
unfoldable pub cemi_asserts : LData → Bool
cemi_asserts f =
    leb 1 (length f.payload) && (ltb (length f.payload) 0xff && bit_and f.hopcount 0xf8 == 0)

-- L_Data_ToCEMI: `none` is a failed assert.
unfoldable pub l_data_to_cemi : ℕ → LData → Option (List ℕ)
l_data_to_cemi code f =
    if cemi_asserts f
    then some (
        code
        ∷ 0x00
        ∷ cemi_control f.prio (leb (length f.payload - 1) 0x0f) (repeat_flag code f.repeated)
        ∷ bit_or (bit_or (addr_bit f.addr_type) (shl (bit_and f.hopcount 0x7) 4)) 0x0
        ∷ bit_and (shr f.source 8) 0xff
        ∷ bit_and f.source 0xff
        ∷ bit_and (shr f.dest 8) 0xff
        ∷ bit_and f.dest 0xff
        ∷ (length f.payload - 1)
        ∷ f.payload)
    else none

-- `!data[start] & 0x80 && data[start + 1] & 0x0f`: the `!` binds first, and leaves 0 or 1.
abbrev pub has_extended_format : ℕ → ℕ → Bool
has_extended_format control second =
    not (bit_and (if control == 0 then 1 else 0) 0x80 == 0) && not (bit_and second 0x0f == 0)

-- CEMI_to_L_Data: `none` is the answer 0. The checksum and the length are as the constructor left them.
unfoldable pub cemi_to_l_data : List ℕ → Option LData
cemi_to_l_data c =
    let start = at c 1 + 2 in
    if ltb (length c) 2
    then none
    else if ltb (length c) (7 + start)
    then none
    else if ltb (length c) (7 + start + at c (6 + start) + 1)
    then none
    else if has_extended_format (at c start) (at c (start + 1))
    then none
    else some (record new_l_data {
      source = word (at c (start + 2)) (at c (start + 3));
      dest = word (at c (start + 4)) (at c (start + 5));
      payload = take (at c (6 + start) + 1) (drop (start + 7) c);
      repeated = if at c 0 == 0x29 then bit_and (at c start) 0x20 == 0 else false;
      prio = read_prio (at c start);
      hopcount = bit_and (shr (at c (start + 1)) 4) 0x07;
      addr_type = read_addr_type (at c (start + 1));
    })

-- The constructor of L_Busmonitor_PDU.
abbrev pub new_busmonitor : Busmonitor
new_busmonitor = record { pdu = []; status = 0; timestamp = 0 }

-- CEMI_to_Busmonitor: the status and the time stay as the constructor leaves them.
unfoldable pub cemi_to_busmonitor : List ℕ → Option Busmonitor
cemi_to_busmonitor c =
    let start = at c 1 + 2 in
    if ltb (length c) 2
    then none
    else if ltb (length c) (1 + start)
    then none
    else some (record new_busmonitor { pdu = take (length c - start) (drop start c) })

-- Busmonitor_to_CEMI: neither the status nor the time of the frame is written.
unfoldable pub busmonitor_to_cemi : ℕ → Busmonitor → ℕ → List ℕ
busmonitor_to_cemi code p count = code ∷ 4 ∷ 3 ∷ 1 ∷ 1 ∷ bit_and count 0x7 ∷ p.pdu

-- L_Data_ToEMI: the source is left to the interface.
unfoldable pub l_data_to_emi : ℕ → LData → List ℕ
l_data_to_emi code f =
    code
    ∷ shl (prio_code f.prio) 2
    ∷ 0
    ∷ 0
    ∷ bit_and (shr f.dest 8) 0xff
    ∷ bit_and f.dest 0xff
    ∷ bit_or (bit_or (shl (bit_and f.hopcount 0x07) 4) (bit_and (length f.payload - 1) 0x0f))
        (addr_bit f.addr_type)
    ∷ f.payload

-- EMI_to_L_Data: a length that is too large is cut to what is there.
unfoldable pub emi_to_l_data : List ℕ → Option LData
emi_to_l_data c =
    let len = bit_and (at c 6) 0x0f + 1 in
    if ltb (length c) 8
    then none
    else some (record new_l_data {
      source = word (at c 2) (at c 3);
      dest = word (at c 4) (at c 5);
      prio = read_prio (at c 1);
      addr_type = read_addr_type (at c 6);
      payload = take (if ltb (length c - 7) len then length c - 7 else len) (drop 7 c);
      hopcount = bit_and (shr (at c 6) 4) 0x07;
    })
