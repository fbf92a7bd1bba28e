-- ===== src/Lpdu/Reprint.antt =====
-- LPDU::fromPacket followed by L_Data_PDU::ToPacket.
use bcusdk.Base.{
  ℕ, ◌+◌, ◌-◌, ◌≤◌, ◌<◌, ◌≡◌, ◌≢◌, refl, sym, ap, ◌∙◌, true, some, List, [], ◌∷◌, ◌++◌, length,
  take, drop, ◌==◌, arith, bit_and, at, word, IsBytes, none, length-take, length-drop, at-IsByte,
  word_sum, if◌then◌else◌, ◌⊎◌, inl, inr, drop_last, drop-at, ◌↔◌, ==_iff,
}
use bcusdk.Base.Bits.{
  shl, shr, table, same_below, bit_and_15, bit_and_255, bit_and_high, bit_or-zero,
}
use bcusdk.Lpdu.{
  LData, l_data, checksum, checksum_ok, init_standard, init_extended, extended, asserts,
  from_packet, read_prio, read_addr_type, control_byte, prio_code, to_packet_data, standard_bytes,
  extended_bytes,
}
use bcusdk.Lpdu.Header.{exchange, hop_byte}
use bcusdk.Lpdu.Inversion.{
  from_packet-IsRead, Parsed-of_init, init_l_data_of_from_packet, standard_fields, extended_fields,
  standard-IsRead, extended-IsRead,
}
use bcusdk.Lpdu.Parse.{checksum_ok_append}
use bcusdk.Lpdu.RoundTrip.{standard_bytes_lem, extended_bytes_lem}

-- The control byte that ToPacket would write for what init read from `x`, with the two priorities
-- put back.
reread : ℕ → ℕ
reread x =
    control_byte (if bit_and x 0x80 == 0 then 0x10 else 0x90) (exchange (read_prio x))
      (bit_and x 0x20 == 0)

reread_lem : (x : ℕ) → x < 256 → bit_and x 0x53 ≡ 0x10 → reread x ≡ x
reread_lem x h e = rw (e) at (
    table 256 (λ y. if bit_and y 0x53 == 0x10 then reread y else y) (λ y. y)
      (unfold same_below reread control_byte read_prio prio_code in refl) x h)

hop_reread :
    (b : ℕ) → b < 256 → hop_byte (bit_and (shr b 4) 0x07) (bit_and b 0x0f) (read_addr_type b) ≡ b
hop_reread =
    table 256 (λ b. hop_byte (bit_and (shr b 4) 0x07) (bit_and b 0x0f) (read_addr_type b)) (λ b. b)
      (unfold same_below read_addr_type in refl)

-- The bytes of an address are written as they were read.
high_byte : (a b : ℕ) → a < 256 → b < 256 → bit_and (shr (word a b) 8) 0xff ≡ a
high_byte a b h k = omega (arith, word_sum a b h k, bit_and_255 (shr (word a b) 8))

low_byte : (a b : ℕ) → a < 256 → b < 256 → bit_and (word a b) 0xff ≡ b
low_byte a b h k = omega (arith, word_sum a b h k, bit_and_255 (word a b))

-- ToPacket stops at an assert on a frame that fromPacket read exactly if its payload has 256 bytes.
pub to_packet_data-from_packet_abort :
    (c : List ℕ) (f : LData)
    → IsBytes c
    → from_packet c ≡ l_data f
    → (to_packet_data f ≡ none) ↔ (length f.payload ≡ 256)
unfolding to_packet_data asserts
to_packet_data-from_packet_abort c f b e =
    ground (arith, from_packet-IsRead c f b e, bit_and_high f.hopcount)

-- The bytes of a short frame, one by one.
first_six :
    (c : List ℕ) → 6 ≤ length c → c ≡ at c 0 ∷ at c 1 ∷ at c 2 ∷ at c 3 ∷ at c 4 ∷ at c 5 ∷ drop 6 c
first_six c h = cc (
  drop-at 0 c (omega arith),
  drop-at 1 c (omega arith),
  drop-at 2 c (omega arith),
  drop-at 3 c (omega arith),
  drop-at 4 c (omega arith),
  drop-at 5 c (omega arith),
)

-- The frame with the two priorities put back.
abbrev pub corrected : LData → LData
corrected f = record f { prio = exchange f.prio }

-- A valid checksum is the one that ToPacket computes.
checksum_of_ok :
    (c b : List ℕ) (cs : ℕ) → c ≡ b ++ (cs ∷ []) → checksum_ok c ≡ true → cs ≡ checksum b
checksum_of_ok c b cs e v = (==_iff cs (checksum b)).0 (sym (checksum_ok_append b cs) ∙ rw e at v)

to_packet_short :
    (f : LData) (b : List ℕ)
    → standard_bytes f ≡ b
    → 1 ≤ length f.payload
    → length f.payload ≤ 16
    → f.hopcount < 8
    → to_packet_data f ≡ some (b ++ (checksum b ∷ []))
unfolding to_packet_data asserts
to_packet_short f b e p q h = rw e (ground (arith, bit_and_high f.hopcount))

to_packet_long :
    (f : LData) (b : List ℕ)
    → extended_bytes f ≡ b
    → 16 < length f.payload
    → length f.payload ≤ 255
    → f.hopcount < 8
    → to_packet_data f ≡ some (b ++ (checksum b ∷ []))
unfolding to_packet_data asserts
to_packet_long f b e p q h = rw e (ground (arith, bit_and_high f.hopcount))

control_standard_again :
    (x : ℕ)
    → x < 256
    → bit_and x 0x53 ≡ 0x10
    → bit_and x 0x80 ≢ 0
    → control_byte 0x90 (exchange (read_prio x)) (bit_and x 0x20 == 0) ≡ x
control_standard_again x h e t = unfold reread in ground (arith, reread_lem x h e)

control_extended_again :
    (x : ℕ)
    → x < 256
    → bit_and x 0x53 ≡ 0x10
    → bit_and x 0x80 ≡ 0
    → control_byte 0x10 (exchange (read_prio x)) (bit_and x 0x20 == 0) ≡ x
control_extended_again x h e t = unfold reread in ground (arith, reread_lem x h e)

-- The bytes before the checksum of a standard frame are written as they were read.
standard_again :
    (c : List ℕ) (f : LData)
    → IsBytes c
    → bit_and (at c 0) 0x53 ≡ 0x10
    → bit_and (at c 0) 0x80 ≢ 0
    → init_standard c ≡ some f
    → length f.payload ≡ bit_and (at c 5) 0x0f + 1
    → standard_bytes (corrected f) ≡ at c 0 ∷ at c 1 ∷ at c 2 ∷ at c 3 ∷ at c 4 ∷ at c 5 ∷ f.payload
standard_again c f b m t e len =
    let (n, eq) = standard_fields c f e in
    let nibble : bit_and (length f.payload - 1) 0x0f ≡ bit_and (at c 5) 0x0f =
      omega (arith, bit_and_15 (at c 5), bit_and_15 (length f.payload - 1)) in
    rw (standard_bytes_lem (corrected f) (omega (arith, bit_and_15 (at c 5)))) (
      cc (
        eq,
        control_standard_again (at c 0) (at-IsByte c 0 b) m t,
        high_byte (at c 1) (at c 2) (at-IsByte c 1 b) (at-IsByte c 2 b),
        low_byte (at c 1) (at c 2) (at-IsByte c 1 b) (at-IsByte c 2 b),
        high_byte (at c 3) (at c 4) (at-IsByte c 3 b) (at-IsByte c 4 b),
        low_byte (at c 3) (at c 4) (at-IsByte c 3 b) (at-IsByte c 4 b),
        hop_reread (at c 5) (at-IsByte c 5 b),
        nibble,
      ))

standard-reprint :
    (c : List ℕ) (f : LData)
    → IsBytes c
    → 6 ≤ length c
    → bit_and (at c 0) 0x53 ≡ 0x10
    → bit_and (at c 0) 0x80 ≢ 0
    → init_standard c ≡ some f
    → f.valid_checksum ≡ true
    → to_packet_data (corrected f) ≡ some c
standard-reprint c f b l m t e v =
    let (n, eq) = standard_fields c f e in
    let r = standard-IsRead c f b e in
    let k = bit_and (at c 5) 0x0f in
    let payload : f.payload ≡ take (k + 1) (drop 6 c) = ap (λ (g : LData). g.payload) eq in
    let len : length f.payload ≡ k + 1 = omega (
      arith,
      ap (λ (d : List ℕ). length d) payload,
      length-take (k + 1) (drop 6 c),
      length-drop 6 c,
    ) in
    let body = at c 0 ∷ at c 1 ∷ at c 2 ∷ at c 3 ∷ at c 4 ∷ at c 5 ∷ f.payload in
    let whole : c ≡ body ++ (at c (k + 7) ∷ []) =
      cc (first_six c l, payload, drop_last 6 (k + 1) (k + 7) c (omega arith) (omega arith)) in
    let ok : checksum_ok c ≡ true = cc (ap (λ (g : LData). g.valid_checksum) eq) in
    to_packet_short (corrected f) body (standard_again c f b m t e len) (omega arith)
      (omega (arith, bit_and_15 (at c 5))) r.hopcount
    ∙ cc (whole, checksum_of_ok c body (at c (k + 7)) whole ok)

extended_again :
    (c : List ℕ) (f : LData)
    → IsBytes c
    → bit_and (at c 0) 0x53 ≡ 0x10
    → bit_and (at c 0) 0x80 ≡ 0
    → bit_and (at c 1) 0x0f ≡ 0
    → f ≡ extended c true (take (at c 6 + 1) (drop 7 c))
    → length f.payload ≡ at c 6 + 1
    → length f.payload ≤ 255
    → extended_bytes (corrected f)
      ≡ at c 0 ∷ at c 1 ∷ at c 2 ∷ at c 3 ∷ at c 4 ∷ at c 5 ∷ at c 6 ∷ f.payload
unfolding extended
extended_again c f b m t z eq len q =
    let nibble : bit_and (length f.payload - 1) 0xff ≡ at c 6 =
      omega (arith, bit_and_255 (length f.payload - 1)) in
    let same = bit_or-zero (shl (bit_and f.hopcount 0x07) 4) in
    rw (extended_bytes_lem (corrected f) q) (
      cc (
        eq,
        control_extended_again (at c 0) (at-IsByte c 0 b) m t,
        high_byte (at c 2) (at c 3) (at-IsByte c 2 b) (at-IsByte c 3 b),
        low_byte (at c 2) (at c 3) (at-IsByte c 2 b) (at-IsByte c 3 b),
        high_byte (at c 4) (at c 5) (at-IsByte c 4 b) (at-IsByte c 5 b),
        low_byte (at c 4) (at c 5) (at-IsByte c 4 b) (at-IsByte c 5 b),
        hop_reread (at c 1) (at-IsByte c 1 b),
        same,
        nibble,
        z,
      ))

extended-reprint :
    (c : List ℕ) (f : LData)
    → IsBytes c
    → 6 ≤ length c
    → bit_and (at c 0) 0x53 ≡ 0x10
    → bit_and (at c 0) 0x80 ≡ 0
    → init_extended c ≡ some f
    → f.valid_checksum ≡ true
    → f.valid_length ≡ true
    → 16 < length f.payload
    → length f.payload ≤ 255
    → to_packet_data (corrected f) ≡ some c
unfolding extended
extended-reprint c f b l m t e v w p q = elim (extended_fields c f e).1 [
  | inr (n, eq) ↦ cc (ap (λ (g : LData). g.valid_length) eq)
  | inl (n, eq) ↦
      let r = extended-IsRead c f b e in
      let payload : f.payload ≡ take (at c 6 + 1) (drop 7 c) = ap (λ (g : LData). g.payload) eq in
      let len : length f.payload ≡ at c 6 + 1 = omega (
        arith,
        ap (λ (d : List ℕ). length d) payload,
        length-take (at c 6 + 1) (drop 7 c),
        length-drop 7 c,
      ) in
      let body = at c 0 ∷ at c 1 ∷ at c 2 ∷ at c 3 ∷ at c 4 ∷ at c 5 ∷ at c 6 ∷ f.payload in
      let whole : c ≡ body ++ (at c (at c 6 + 8) ∷ []) = cc (
        first_six c l,
        drop-at 6 c (omega arith),
        payload,
        drop_last 7 (at c 6 + 1) (at c 6 + 8) c (omega arith) (omega arith),
      ) in
      let ok : checksum_ok c ≡ true = cc (ap (λ (g : LData). g.valid_checksum) eq) in
      to_packet_long (corrected f) body
        (extended_again c f b m t (extended_fields c f e).0 eq len q) p q r.hopcount
      ∙ cc (whole, checksum_of_ok c body (at c (at c 6 + 8)) whole ok)
]

-- A complete frame with a valid checksum that fromPacket read from bytes `c` prints as exactly `c`,
-- once the two exchanged priorities are put back; this takes a standard frame, or an extended one
-- whose payload needs that format and passes ToPacket's assert.
pub to_packet_data-from_packet :
    (c : List ℕ) (f : LData)
    → IsBytes c
    → from_packet c ≡ l_data f
    → f.valid_checksum ≡ true
    → f.valid_length ≡ true
    → (bit_and (at c 0) 0x80 ≢ 0) ⊎ ((16 < length f.payload) × (length f.payload ≤ 255))
    → to_packet_data (corrected f) ≡ some c
to_packet_data-from_packet c f b e v w size =
    let (l, m, how) = Parsed-of_init c f (init_l_data_of_from_packet c f e) in
    elim how [
      | inl (t, s) ↦ standard-reprint c f b l m t s v
      | inr (t, x) ↦ elim size [
        | inl no_top ↦ absurd (no_top t)
        | inr (p, q) ↦ extended-reprint c f b l m t x v w p q
      ]
    ]
