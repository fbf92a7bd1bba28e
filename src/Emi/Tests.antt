-- ===== src/Emi/Tests.antt =====
-- Messages of the EMI formats, and the theorems at them.
use bcusdk.Base.{
  ℕ, ◌+◌, ◌≡◌, ◌≢◌, ◌≤◌, ◌↔◌, refl, true, some, none, List, [], ◌∷◌, length, at, IsBytes, arith,
}
use bcusdk.Lpdu.{Busmonitor, LData, normal, group, prio_code}
use bcusdk.Lpdu.RoundTrip.{IsFrame}
use bcusdk.Emi.{
  cemi_asserts, cemi_control, l_data_to_cemi, cemi_to_l_data, cemi_to_busmonitor,
  busmonitor_to_cemi, l_data_to_emi, emi_to_l_data,
}
use bcusdk.Emi.RoundTrip.{
  by_cemi, by_emi, cemi_to_l_data-l_data_to_cemi, emi_to_l_data-l_data_to_emi,
  cemi_to_busmonitor-busmonitor_to_cemi,
}
use bcusdk.Emi.Bounds.{
  IsReadEmi, cemi_to_l_data_taken, cemi_to_l_data-IsReadEmi, emi_to_l_data-IsReadEmi,
}

abbrev telegram : LData
telegram = record {
  prio = normal;
  repeated = true;
  valid_checksum = true;
  valid_length = true;
  addr_type = group;
  source = 0x1101;
  dest = 5;
  hopcount = 6;
  payload = 0x00 ∷ 0x81 ∷ [];
}

telegram-IsFrame : IsFrame telegram
telegram-IsFrame = record { source = omega arith; dest = omega arith; hopcount = omega arith }

abbrev indication : List ℕ
indication = 0x29 ∷ 0x00 ∷ 0x94 ∷ 0xe0 ∷ 0x11 ∷ 0x01 ∷ 0x00 ∷ 0x05 ∷ 0x01 ∷ 0x00 ∷ 0x81 ∷ []

indication_lem : l_data_to_cemi 0x29 telegram ≡ some indication
unfolding l_data_to_cemi cemi_asserts cemi_control prio_code
indication_lem = refl

cemi_to_l_data-l_data_to_cemi_example : cemi_to_l_data indication ≡ some (by_cemi 0x29 telegram)
cemi_to_l_data-l_data_to_cemi_example =
    cemi_to_l_data-l_data_to_cemi 0x29 telegram indication telegram-IsFrame indication_lem

emi_to_l_data-l_data_to_emi_example :
    emi_to_l_data (l_data_to_emi 0x11 telegram) ≡ some (by_emi telegram)
emi_to_l_data-l_data_to_emi_example =
    emi_to_l_data-l_data_to_emi 0x11 telegram telegram-IsFrame (omega arith) (omega arith)
      (omega arith)

-- A frame that was seen at some time.
abbrev seen : Busmonitor
seen = record { pdu = 0xbc ∷ 0x11 ∷ []; status = 3; timestamp = 77 }

cemi_to_busmonitor-busmonitor_to_cemi_example :
    cemi_to_busmonitor (busmonitor_to_cemi 0x2b seen 9)
    ≡ some (record { pdu = 0xbc ∷ 0x11 ∷ []; status = 0; timestamp = 0 })
cemi_to_busmonitor-busmonitor_to_cemi_example = cemi_to_busmonitor-busmonitor_to_cemi 0x2b 9 seen

-- A message that names an extended frame format in the low nibble of its second control byte.
abbrev strange : List ℕ
strange = 0x29 ∷ 0x00 ∷ 0x14 ∷ 0xef ∷ 0x11 ∷ 0x01 ∷ 0x00 ∷ 0x05 ∷ 0x00 ∷ 0x81 ∷ []

cemi_to_l_data_taken_example :
    (cemi_to_l_data strange ≢ none)
    ↔ ((2 ≤ length strange) × (10 + at strange 1 + at strange (at strange 1 + 8) ≤ length strange))
cemi_to_l_data_taken_example = cemi_to_l_data_taken strange

indication-IsBytes : IsBytes indication
indication-IsBytes = ground arith

cemi_to_l_data-IsReadEmi_example : IsReadEmi (by_cemi 0x29 telegram)
cemi_to_l_data-IsReadEmi_example =
    cemi_to_l_data-IsReadEmi indication (by_cemi 0x29 telegram) indication-IsBytes
      (cemi_to_l_data-l_data_to_cemi 0x29 telegram indication telegram-IsFrame indication_lem)

request-IsBytes : IsBytes (l_data_to_emi 0x11 telegram)
unfolding l_data_to_emi prio_code
request-IsBytes = ground arith

emi_to_l_data-IsReadEmi_example :
    IsReadEmi (by_emi telegram) × (length (by_emi telegram).payload ≤ 16)
emi_to_l_data-IsReadEmi_example =
    emi_to_l_data-IsReadEmi (l_data_to_emi 0x11 telegram) (by_emi telegram) request-IsBytes (
      emi_to_l_data-l_data_to_emi 0x11 telegram telegram-IsFrame (omega arith) (omega arith)
        (omega arith))
