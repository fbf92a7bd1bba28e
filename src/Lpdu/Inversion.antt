-- ===== src/Lpdu/Inversion.antt =====
-- From a frame that LPDU::fromPacket read back to the bytes it came from.
use bcusdk.Base.{
  ℕ, ◌+◌, ◌≤◌, ◌<◌, ◌≡◌, true, false, some, List, length, take, drop, ◌==◌, arith, bit_and, at,
  word, IsBytes, IsWord, length-take, length-drop, at-IsByte, ◌⊎◌, inl, inr, ◌≢◌, All-take,
  All-drop,
}
use bcusdk.Base.Bits.{shr, bit_and_7, bit_and_15}
use bcusdk.Lpdu.{
  LData, l_data, checksum_ok, init_l_data, init_standard, init_extended, extended, from_packet,
  init_candidate, read_prio, read_addr_type,
}

pub init_l_data_of_from_packet :
    (c : List ℕ) (f : LData) → from_packet c ≡ l_data f → init_l_data c ≡ some f
unfolding from_packet init_candidate
init_l_data_of_from_packet c f e = ground arith

-- The format bit says which of the two formats init read.
abbrev pub Parsed : List ℕ → LData → Type 0
Parsed c f =
    ((bit_and (at c 0) 0x80 ≢ 0) × (init_standard c ≡ some f))
    ⊎ ((bit_and (at c 0) 0x80 ≡ 0) × (init_extended c ≡ some f))

pub Parsed-of_init :
    (c : List ℕ) (f : LData)
    → init_l_data c ≡ some f
    → (6 ≤ length c) × (bit_and (at c 0) 0x53 ≡ 0x10) × Parsed c f
unfolding init_l_data
Parsed-of_init c f e = ground arith

-- A valid standard frame, field by field.
pub standard_fields :
    (c : List ℕ) (f : LData)
    → init_standard c ≡ some f
    → (length c ≡ bit_and (at c 5) 0x0f + 8)
      × (f ≡ record {
        prio = read_prio (at c 0);
        repeated = bit_and (at c 0) 0x20 == 0;
        valid_checksum = checksum_ok c;
        valid_length = true;
        addr_type = read_addr_type (at c 5);
        source = word (at c 1) (at c 2);
        dest = word (at c 3) (at c 4);
        hopcount = bit_and (shr (at c 5) 4) 0x07;
        payload = take (bit_and (at c 5) 0x0f + 1) (drop 6 c);
      })
unfolding init_standard
standard_fields c f e = ground arith

-- An extended frame: its length byte fits, or it has 23 bytes and is marked as incomplete.
pub extended_fields :
    (c : List ℕ) (f : LData)
    → init_extended c ≡ some f
    → (bit_and (at c 1) 0x0f ≡ 0)
      × (((length c ≡ at c 6 + 9) × (f ≡ extended c true (take (at c 6 + 1) (drop 7 c))))
          ⊎ ((length c ≡ 23) × (f ≡ extended c false (take 8 (drop 7 c)))))
unfolding init_extended
extended_fields c f e = ground arith

-- What holds of every frame that was read.
pub record IsRead (f : LData) : Type 0 where
  pub source : IsWord f.source
  pub dest : IsWord f.dest
  pub hopcount : f.hopcount < 8
  pub some_payload : 1 ≤ length f.payload
  pub payload_fits : length f.payload ≤ 256
  pub incomplete : f.valid_length ≡ false → length f.payload ≡ 8
  pub bytes : IsBytes f.payload

pub standard-IsRead : (c : List ℕ) (f : LData) → IsBytes c → init_standard c ≡ some f → IsRead f
standard-IsRead c f b e =
    let (n, eq) = standard_fields c f e in
    rw eq (record {
      source = omega (arith);
      dest = omega arith;
      hopcount = omega (arith, bit_and_7 (shr (at c 5) 4));
      some_payload =
          omega (arith, length-take (bit_and (at c 5) 0x0f + 1) (drop 6 c), length-drop 6 c);
      payload_fits = omega (
        arith,
        length-take (bit_and (at c 5) 0x0f + 1) (drop 6 c),
        length-drop 6 c,
        bit_and_15 (at c 5),
      );
      incomplete = λ h. cc;
      bytes = All-take _ _ _ (All-drop _ 6 c b);
    })

pub extended-IsRead : (c : List ℕ) (f : LData) → IsBytes c → init_extended c ≡ some f → IsRead f
unfolding extended
extended-IsRead c f b e = elim (extended_fields c f e).1 [
  | inl (n, eq) ↦ rw eq (record {
    source = omega (arith);
    dest = omega arith;
    hopcount = omega (arith, bit_and_7 (shr (at c 1) 4));
    some_payload = omega (arith, length-take (at c 6 + 1) (drop 7 c), length-drop 7 c);
    payload_fits =
        omega (arith, length-take (at c 6 + 1) (drop 7 c), length-drop 7 c, at-IsByte c 6 b);
    incomplete = λ h. cc;
    bytes = All-take _ _ _ (All-drop _ 7 c b);
  })
  | inr (n, eq) ↦ rw eq (record {
    source = omega (arith);
    dest = omega arith;
    hopcount = omega (arith, bit_and_7 (shr (at c 1) 4));
    some_payload = omega (arith, length-take 8 (drop 7 c), length-drop 7 c);
    payload_fits = omega (arith, length-take 8 (drop 7 c), length-drop 7 c);
    incomplete = λ h. omega (arith, length-take 8 (drop 7 c), length-drop 7 c);
    bytes = All-take _ 8 _ (All-drop _ 7 c b);
  })
]

-- A frame that fromPacket reads from bytes has addresses of 16 bits, at most 7 hops and a payload of
-- 1 to 256 bytes; one that is marked as incomplete has a payload of 8 bytes.
pub from_packet-IsRead : (c : List ℕ) (f : LData) → IsBytes c → from_packet c ≡ l_data f → IsRead f
from_packet-IsRead c f b e = elim (Parsed-of_init c f (init_l_data_of_from_packet c f e)).2 [
  | inl (_, s) ↦ standard-IsRead c f b s
  | inr (_, x) ↦ extended-IsRead c f b x
]
