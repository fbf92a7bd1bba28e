-- ===== src/Layer7/Scan.antt =====
-- eibd/libserver/management.cpp: X_Get_PEIType, and X_PropertyScan, which asks a device for all properties
-- of all its objects.
use bcusdk.Base.{
  List, Option, [], at, if◌then◌else◌, length, ltb, none, some, suc, word, zero, ℕ, ◌%◌, ◌&&◌, ◌*◌,
  ◌++◌, ◌+◌, ◌-◌, ◌/◌, ◌==◌, ◌∷◌,
}
use bcusdk.Layer7.{Link, Result, converter_read, failed, ok, property_desc, property_read, ◌>>=◌}

-- PropertyInfo
pub record PropertyInfo : Type 0 where
  pub obj : ℕ
  pub property : ℕ
  pub type : ℕ
  pub count : ℕ
  pub access : ℕ

-- `(v * 10 + 16) / 128` on the bit patterns of sixteen bits with a sign; the division of C cuts
-- towards 0.
abbrev pub pei_type_of : ℕ → ℕ
pei_type_of v =
    if ltb v 32768 then (v * 10 + 16) / 128 else (65536 - ((65536 - v) * 10 - 16) / 128) % 65536

module _ {S : Type 0} (link : Link S) (fresh : ℕ → ℕ) where
  unfoldable pub pei_type : S → Result S ℕ
  unfolding converter_read
  pei_type s = converter_read link fresh 4 1 s >>= λ v s1. ok (pei_type_of v) s1

  -- The type of an object stands in its value: `p1.count = (a[0] << 8) | (a[1])`.
  abbrev typed : PropertyInfo → List ℕ → S → Result S PropertyInfo
  typed p a s =
      if length a == 2 then ok (record p { count = word (at a 0) (at a 1) }) s else failed s

  unfoldable pub object_type : PropertyInfo → S → Result S PropertyInfo
  unfolding property_read
  object_type p s =
      if (p.property == 1) && (p.type == 4)
      then property_read link fresh p.obj 1 1 1 s >>= typed p
      else ok p s

  -- One round of the inner loop up to `i++`.
  unfoldable pub scan_one : ℕ → ℕ → S → Result S PropertyInfo
  unfolding property_desc object_type
  scan_one obj i s = property_desc link fresh obj 0 i s >>= λ d s1.
      object_type (record { obj = obj; property = d.0; type = d.1; count = d.2; access = d.3 }) s1

  -- The inner loop, a do-while: the value of `i` behind it, and the array. `none` is out of fuel.
  unfoldable pub scan_object :
      ℕ → ℕ → ℕ → List PropertyInfo → S → Result S (Option (ℕ × List PropertyInfo))
  unfolding scan_one
  scan_object zero obj i p s = ok none s
  scan_object (suc n) obj i p s = scan_one obj i s >>= λ p1 s1.
      if p1.property == 0
      then ok (some ((i + 1) % 256, p)) s1
      else scan_object n obj ((i + 1) % 256) (p ++ (p1 ∷ [])) s1

  -- The outer loop, with `m` rounds of the inner one for each object.
  unfoldable pub scan_objects :
      ℕ → ℕ → ℕ → List PropertyInfo → S → Result S (Option (List PropertyInfo))
  unfolding scan_object
  scan_objects m zero obj p s = ok none s
  scan_objects m (suc n) obj p s = scan_object m obj 0 p s >>= λ r s1. elim r [
    | none ↦ ok none s1
    | some (i, q) ↦ if i == 1 then ok (some q) s1 else scan_objects m n ((obj + 1) % 256) q s1
  ]

  -- X_PropertyScan
  unfoldable pub property_scan : ℕ → ℕ → S → Result S (Option (List PropertyInfo))
  unfolding scan_objects
  property_scan m n s = scan_objects m n 0 [] s
