-- ===== src/Lpdu/Header.antt =====
-- The bit fields of the header bytes that L_Data_PDU::ToPacket writes, as init reads them.
use bcusdk.Base.{
  ℕ, ◌+◌, ◌*◌, ◌/◌, ◌%◌, ◌<◌, ◌≡◌, refl, ◌∙◌, Bool, true, false, arith, ◌==◌, if◌then◌else◌,
  bit_and, bit_or, word, word_bytes,
}
use bcusdk.Base.Bits.{
  shl, shr, bit_and_7, bit_and_15, bit_and_255, bit_or_fields, bit_or-zero, bit_or_top, bit_and_top,
}
use bcusdk.Lpdu.{
  Priority, low, normal, urgent, system, AddrType, group, individual, prio_code, read_prio,
  read_addr_type, control_byte, addr_bit, candidate, new_data,
}

-- The priority that comes back: ToPacket writes 1 for normal and 2 for urgent, init reads 1 as
-- urgent and 2 as normal.
abbrev pub exchange : Priority → Priority
exchange low = low
exchange normal = urgent
exchange urgent = normal
exchange system = system

-- What fromPacket and init make of a control byte with the format bit `top`.
abbrev pub IsControl : ℕ → ℕ → Priority → Bool → Type 0
IsControl b top p r =
    (candidate b ≡ new_data)
    × ((bit_and b 0x53 == 0x10) ≡ true)
    × (bit_and b 0x80 ≡ top)
    × (read_prio b ≡ exchange p)
    × ((bit_and b 0x20 == 0) ≡ r)

pub IsControl-standard : (p : Priority) (r : Bool) → IsControl (control_byte 0x90 p r) 0x80 p r
unfolding control_byte candidate read_prio prio_code
IsControl-standard low true = (refl, refl, refl, refl, refl)
IsControl-standard low false = (refl, refl, refl, refl, refl)
IsControl-standard _ true = (refl, refl, refl, refl, refl)
IsControl-standard _ false = (refl, refl, refl, refl, refl)

pub IsControl-extended : (p : Priority) (r : Bool) → IsControl (control_byte 0x10 p r) 0x00 p r
unfolding control_byte candidate read_prio prio_code
IsControl-extended low true = (refl, refl, refl, refl, refl)
IsControl-extended low false = (refl, refl, refl, refl, refl)
IsControl-extended _ true = (refl, refl, refl, refl, refl)
IsControl-extended _ false = (refl, refl, refl, refl, refl)

-- The byte of the hop count, a nibble and the address type.
abbrev pub hop_byte : ℕ → ℕ → AddrType → ℕ
hop_byte hop n a = bit_or (bit_or (shl (bit_and hop 0x07) 4) n) (addr_bit a)

pub record IsHopByte (b hop n : ℕ) (a : AddrType) : Type 0 where
  pub byte : b < 256
  pub hops : bit_and (shr b 4) 0x07 ≡ hop
  pub nibble : bit_and b 0x0f ≡ n
  pub addr : read_addr_type b ≡ a

hop_sum :
    (hop n : ℕ) (a : AddrType)
    → hop < 8
    → n < 16
    → hop_byte hop n a ≡ bit_or (hop * 16 + n) (addr_bit a)
hop_sum hop n a h k = rw (bit_and_7 hop) (rw (bit_or_fields 4 (hop % 8) n k) (ground arith))

hop_byte_fields :
    (b hop n : ℕ) (a : AddrType)
    → b < 256
    → b / 16 % 8 ≡ hop
    → b % 16 ≡ n
    → (if b / 128 * 128 == 0 then individual else group) ≡ a
    → IsHopByte b hop n a
unfolding read_addr_type
hop_byte_fields b hop n a h e k t = record {
  byte = h;
  hops = bit_and_7 (b / 16) ∙ e;
  nibble = bit_and_15 b ∙ k;
  addr = rw (bit_and_top b h) t;
}

pub hop_byte_lem :
    (hop n : ℕ) (a : AddrType) → hop < 8 → n < 16 → IsHopByte (hop_byte hop n a) hop n a
hop_byte_lem hop n group h k =
    let e = hop_sum hop n group h k ∙ bit_or_top (hop * 16 + n) (omega arith) in
    rw e (
      hop_byte_fields (hop * 16 + n + 128) hop n group (omega arith) (omega arith) (omega arith)
        (ground arith))
hop_byte_lem hop n individual h k =
    let e = hop_sum hop n individual h k ∙ bit_or-zero (hop * 16 + n) in
    rw e (
      hop_byte_fields (hop * 16 + n) hop n individual (omega arith) (omega arith) (omega arith)
        (ground arith))

-- The two bytes of an address.
pub address_bytes : (w : ℕ) → w < 65536 → word (bit_and (shr w 8) 0xff) (bit_and w 0xff) ≡ w
address_bytes w h = rw (bit_and_255 w, bit_and_255 (w / 256)) (word_bytes w h)
