-- ===== src/Emi/Bounds.antt =====
-- Which messages the EMI readers take, and the ranges of what they read.
use bcusdk.Base.{
  ℕ, ◌+◌, ◌-◌, ◌≤◌, ◌<◌, ◌≡◌, ◌≢◌, ◌↔◌, refl, ap, false, none, some, List, length, drop,
  length-take, length-drop, All-take, All-drop, IsByte, IsBytes, IsWord, Bool-cases, inl, inr, at,
  at-IsByte, arith, ltb, ◌==◌, if◌then◌else◌, bit_and,
}
use bcusdk.Base.Bits.{shr, bit_and_7, bit_and_15}
use bcusdk.Lpdu.{LData, new_l_data}
use bcusdk.Emi.{has_extended_format, cemi_to_l_data, emi_to_l_data}

same_place : (a : ℕ) → 6 + (a + 2) ≡ a + 8
same_place a = omega arith

never_extended : (a b : ℕ) → has_extended_format a b ≡ false
never_extended a b = elim (Bool-cases (a == 0)) [ inl t ↦ rw t refl | inr t ↦ rw t refl ]

-- CEMI_to_L_Data takes a message exactly if it has at least as many bytes as its two lengths say,
-- whatever its control bytes hold: the test of the frame format refuses nothing.
pub cemi_to_l_data_taken :
    (c : List ℕ)
    → (cemi_to_l_data c ≢ none) ↔ ((2 ≤ length c) × (10 + at c 1 + at c (at c 1 + 8) ≤ length c))
unfolding cemi_to_l_data
cemi_to_l_data_taken c =
    let start = at c 1 + 2 in
    let place : at c (6 + start) ≡ at c (at c 1 + 8) = ap (at c) (same_place (at c 1)) in
    (
      λ h. ground (arith, place, never_extended (at c start) (at c (start + 1)), h),
      λ h e. ground (arith, place, never_extended (at c start) (at c (start + 1)), h, e),
    )

-- Every field is within its width, and the payload has 1 to 256 bytes.
pub record IsReadEmi (f : LData) : Type 0 where
  pub source : IsWord f.source
  pub dest : IsWord f.dest
  pub hopcount : f.hopcount < 8
  pub bytes : IsBytes f.payload
  pub some_bytes : 1 ≤ length f.payload
  pub size : length f.payload ≤ 256

-- What CEMI_to_L_Data reads from bytes has two addresses of 16 bits, a hop count of at most 7, and 1 to
-- 256 bytes of payload.
pub cemi_to_l_data-IsReadEmi :
    (c : List ℕ) (f : LData) → IsBytes c → cemi_to_l_data c ≡ some f → IsReadEmi f
unfolding cemi_to_l_data new_l_data
cemi_to_l_data-IsReadEmi c f b e =
    let start = at c 1 + 2 in
    let n = at c (6 + start) + 1 in
    ground (
      arith,
      at-IsByte c (6 + start) b,
      bit_and_7 (shr (at c (start + 1)) 4),
      length-take n (drop (start + 7) c),
      length-drop (start + 7) c,
      All-take IsByte n (drop (start + 7) c) (All-drop IsByte (start + 7) c b),
      e,
    )

-- The same of EMI_to_L_Data.
pub emi_to_l_data-IsReadEmi :
    (c : List ℕ) (f : LData)
    → IsBytes c
    → emi_to_l_data c ≡ some f
    → IsReadEmi f × (length f.payload ≤ 16)
unfolding emi_to_l_data new_l_data
emi_to_l_data-IsReadEmi c f b e =
    let len = bit_and (at c 6) 0x0f + 1 in
    let n = if ltb (length c - 7) len then length c - 7 else len in
    ground (
      arith,
      bit_and_15 (at c 6),
      bit_and_7 (shr (at c 6) 4),
      length-take n (drop 7 c),
      length-drop 7 c,
      All-take IsByte n (drop 7 c) (All-drop IsByte 7 c b),
      e,
    )
