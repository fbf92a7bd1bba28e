-- ===== src/Emi/RoundTrip.antt =====
-- The readers of emi.cpp after its writers.
use bcusdk.Base.{
  ℕ, ◌+◌, ◌-◌, ◌≤◌, ◌<◌, ◌≡◌, ◌∙◌, Bool, true, false, not, none, some, List, ◌∷◌, length, leb, ◌==◌,
  if◌then◌else◌, arith, bit_and, bit_or, word, take_all,
}
use bcusdk.Base.Bits.{shl, shr, bit_and_15, bit_and_high}
use bcusdk.Lpdu.{Busmonitor, LData, new_l_data, addr_bit, read_prio, read_addr_type}
use bcusdk.Lpdu.Header.{exchange, hop_byte_lem, address_bytes}
use bcusdk.Lpdu.RoundTrip.{IsFrame}
use bcusdk.Emi.{
  cemi_asserts, cemi_control, repeat_flag, l_data_to_cemi, cemi_to_l_data, cemi_to_busmonitor,
  busmonitor_to_cemi, l_data_to_emi, emi_to_l_data,
}
use bcusdk.Emi.Control.{IsCemiControl-cemi_control, read_prio-shl, second_byte}

-- A frame as it comes out of a CEMI message with a code: only an indication says whether it is repeated.
abbrev pub by_cemi : ℕ → LData → LData
by_cemi code f = record f {
  prio = exchange f.prio;
  valid_checksum = true;
  valid_length = true;
  repeated = if code == 0x29 then f.repeated else false;
}

-- A CEMI message without additional information.
cemi_to_l_data_lem :
    (code b1 b2 s1 s2 d1 d2 n : ℕ) (d : List ℕ)
    → length d ≡ n + 1
    → cemi_to_l_data (code ∷ 0x00 ∷ b1 ∷ b2 ∷ s1 ∷ s2 ∷ d1 ∷ d2 ∷ n ∷ d)
      ≡ some (record {
        prio = read_prio b1;
        repeated = if code == 0x29 then bit_and b1 0x20 == 0 else false;
        valid_checksum = true;
        valid_length = true;
        addr_type = read_addr_type b2;
        source = word s1 s2;
        dest = word d1 d2;
        hopcount = bit_and (shr b2 4) 0x07;
        payload = d;
      })
unfolding cemi_to_l_data new_l_data
cemi_to_l_data_lem code b1 b2 s1 s2 d1 d2 n d e = ground (arith, take_all (n + 1) d)

repeated_read :
    (code b : ℕ) (r : Bool)
    → (bit_and b 0x20 == 0) ≡ not (repeat_flag code r)
    → (if code == 0x29 then bit_and b 0x20 == 0 else false) ≡ (if code == 0x29 then r else false)
repeated_read code b r e = ground (arith, e)

cemi-written :
    (code : ℕ) (f : LData)
    → IsFrame f
    → f.hopcount < 8
    → 1 ≤ length f.payload
    → cemi_to_l_data (
        code
        ∷ 0x00
        ∷ cemi_control f.prio (leb (length f.payload - 1) 0x0f) (repeat_flag code f.repeated)
        ∷ bit_or (bit_or (addr_bit f.addr_type) (shl (bit_and f.hopcount 0x7) 4)) 0x0
        ∷ bit_and (shr f.source 8) 0xff
        ∷ bit_and f.source 0xff
        ∷ bit_and (shr f.dest 8) 0xff
        ∷ bit_and f.dest 0xff
        ∷ (length f.payload - 1)
        ∷ f.payload)
      ≡ some (by_cemi code f)
cemi-written code f w h p =
    let flag = repeat_flag code f.repeated in
    let short = leb (length f.payload - 1) 0x0f in
    let (prio, bit) = IsCemiControl-cemi_control f.prio short flag in
    let hb = hop_byte_lem f.hopcount 0 f.addr_type h (omega arith) in
    cemi_to_l_data_lem code _ _ _ _ _ _ _ f.payload (omega arith)
    ∙ cc (
      prio,
      repeated_read code (cemi_control f.prio short flag) f.repeated bit,
      second_byte f.hopcount f.addr_type h,
      hb.hops,
      hb.addr,
      address_bytes f.source w.source,
      address_bytes f.dest w.dest,
    )

-- Where L_Data_ToCEMI passes its asserts, CEMI_to_L_Data reads the frame back, except that normal and
-- urgent priority are exchanged, and that the repeat flag is lost unless the message is an
-- indication.
pub cemi_to_l_data-l_data_to_cemi :
    (code : ℕ) (f : LData) (c : List ℕ)
    → IsFrame f
    → l_data_to_cemi code f ≡ some c
    → cemi_to_l_data c ≡ some (by_cemi code f)
unfolding l_data_to_cemi cemi_asserts
cemi_to_l_data-l_data_to_cemi code f c w e =
    ground (arith, bit_and_high f.hopcount w.hopcount, cemi-written code f w, e)

-- Of a bus monitor frame that Busmonitor_to_CEMI writes, CEMI_to_Busmonitor gives back the bytes, while the
-- status and the time are lost and come back as 0; a frame without bytes is refused.
pub cemi_to_busmonitor-busmonitor_to_cemi :
    (code count : ℕ) (p : Busmonitor)
    → cemi_to_busmonitor (busmonitor_to_cemi code p count) ≡ (
        if length p.pdu == 0
        then none
        else some (record { pdu = p.pdu; status = 0; timestamp = 0 }))
unfolding cemi_to_busmonitor busmonitor_to_cemi
cemi_to_busmonitor-busmonitor_to_cemi code count p = ground (arith, take_all (length p.pdu) p.pdu)

-- A frame as it comes out of an EMI message: the source is left out.
abbrev pub by_emi : LData → LData
unfolding new_l_data
by_emi f = record new_l_data {
  prio = exchange f.prio;
  addr_type = f.addr_type;
  dest = f.dest;
  hopcount = f.hopcount;
  payload = f.payload;
}

emi_to_l_data_lem :
    (code b1 d1 d2 b6 : ℕ) (d : List ℕ)
    → 1 ≤ length d
    → length d ≡ bit_and b6 0x0f + 1
    → emi_to_l_data (code ∷ b1 ∷ 0 ∷ 0 ∷ d1 ∷ d2 ∷ b6 ∷ d)
      ≡ some (record {
        prio = read_prio b1;
        repeated = false;
        valid_checksum = true;
        valid_length = true;
        addr_type = read_addr_type b6;
        source = 0;
        dest = word d1 d2;
        hopcount = bit_and (shr b6 4) 0x07;
        payload = d;
      })
unfolding emi_to_l_data new_l_data
emi_to_l_data_lem code b1 d1 d2 b6 d h e =
    ground (arith, take_all (bit_and b6 0x0f + 1) d, take_all (length d) d)

-- A frame with a payload of 1 to 16 bytes and a hop count of at most 7 comes back from an EMI message
-- with its destination, address type, hop count and payload, normal and urgent priority exchanged,
-- and the source and the repeat flag cleared.
pub emi_to_l_data-l_data_to_emi :
    (code : ℕ) (f : LData)
    → IsFrame f
    → f.hopcount < 8
    → 1 ≤ length f.payload
    → length f.payload ≤ 16
    → emi_to_l_data (l_data_to_emi code f) ≡ some (by_emi f)
unfolding emi_to_l_data l_data_to_emi new_l_data
emi_to_l_data-l_data_to_emi code f w h p q =
    let n = bit_and (length f.payload - 1) 0x0f in
    let nib : n ≡ length f.payload - 1 = omega (arith, bit_and_15 (length f.payload - 1)) in
    let hb = hop_byte_lem f.hopcount n f.addr_type h (omega arith) in
    emi_to_l_data_lem code _ _ _ _ f.payload p (omega (arith, hb.nibble))
    ∙ cc (read_prio-shl f.prio, hb.hops, hb.addr, address_bytes f.dest w.dest)
