-- ===== src/Emi/Control.antt =====
-- The bit fields that the writers of EMI messages make, as the readers take them.
use bcusdk.Base.{ℕ, ◌<◌, ◌≡◌, refl, Bool, true, false, ◌==◌, not, bit_and, bit_or}
use bcusdk.Base.Bits.{shl, table, same_below}
use bcusdk.Lpdu.{Priority, low, AddrType, group, individual, prio_code, read_prio, addr_bit}
use bcusdk.Lpdu.Header.{exchange, hop_byte}
use bcusdk.Emi.{cemi_control}

abbrev pub IsCemiControl : ℕ → Priority → Bool → Type 0
IsCemiControl b p flag = (read_prio b ≡ exchange p) × ((bit_and b 0x20 == 0) ≡ not flag)

pub IsCemiControl-cemi_control :
    (p : Priority) (short flag : Bool) → IsCemiControl (cemi_control p short flag) p flag
unfolding cemi_control read_prio prio_code
IsCemiControl-cemi_control low true true = (refl, refl)
IsCemiControl-cemi_control low true false = (refl, refl)
IsCemiControl-cemi_control low false true = (refl, refl)
IsCemiControl-cemi_control low false false = (refl, refl)
IsCemiControl-cemi_control _ true true = (refl, refl)
IsCemiControl-cemi_control _ true false = (refl, refl)
IsCemiControl-cemi_control _ false true = (refl, refl)
IsCemiControl-cemi_control _ false false = (refl, refl)

pub read_prio-shl : (p : Priority) → read_prio (shl (prio_code p) 2) ≡ exchange p
unfolding read_prio prio_code
read_prio-shl low = refl
read_prio-shl _ = refl

-- The fields of the second byte stand in another order than in L_Data_PDU::ToPacket.
pub second_byte :
    (hop : ℕ) (a : AddrType)
    → hop < 8
    → bit_or (bit_or (addr_bit a) (shl (bit_and hop 0x7) 4)) 0x0 ≡ hop_byte hop 0 a
unfolding same_below
second_byte hop group h =
    table 8 (λ n. bit_or (bit_or 0x80 (shl (bit_and n 0x7) 4)) 0x0) (λ n. hop_byte n 0 group) refl
      hop h
second_byte hop individual h =
    table 8 (λ n. bit_or (bit_or 0x00 (shl (bit_and n 0x7) 4)) 0x0) (λ n. hop_byte n 0 individual)
      refl hop h
