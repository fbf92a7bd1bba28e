-- ===== src/Lpdu/Checksum.antt =====
-- What the checksum of an L_Data frame notices.
use bcusdk.Base.{
  ℕ, ◌≡◌, ◌≢◌, true, false, List, [], ◌∷◌, ◌++◌, arith, IsByte, IsBytes, inl, inr, bit_xor,
  last_cases, All-append, All-append_left, All-append_right,
}
use bcusdk.Base.Xor.{foldl-bit_xor-IsByte, foldl-bit_xor-change}
use mathlib.Core.List.{foldl, append_assoc}
use bcusdk.Lpdu.{checksum, checksum_ok}
use bcusdk.Lpdu.Parse.{checksum_ok_append}

checksum-injective :
    (b d : List ℕ)
    → IsBytes b
    → IsBytes d
    → checksum b ≡ checksum d
    → foldl bit_xor 0 b ≡ foldl bit_xor 0 d
unfolding checksum
checksum-injective b d hb hd e =
    omega
      (arith, foldl-bit_xor-IsByte b 0 (omega arith) hb, foldl-bit_xor-IsByte d 0 (omega arith) hd)

-- Where the checksum byte itself is changed.
checksum_ok_last :
    (u : List ℕ) (x y : ℕ)
    → x ≢ y
    → checksum_ok (u ++ (x ∷ [])) ≡ true
    → checksum_ok (u ++ (y ∷ [])) ≡ false
checksum_ok_last u x y ne ok =
    rw (checksum_ok_append u y) (ground (arith, rw (checksum_ok_append u x) at ok))

-- Where a byte before the checksum is changed.
checksum_ok_inner :
    (u v : List ℕ) (x y cs : ℕ)
    → IsBytes (u ++ (x ∷ v))
    → IsBytes (u ++ (y ∷ v))
    → x ≢ y
    → checksum_ok ((u ++ (x ∷ v)) ++ (cs ∷ [])) ≡ true
    → checksum_ok ((u ++ (y ∷ v)) ++ (cs ∷ [])) ≡ false
checksum_ok_inner u v x y cs hx hy ne ok =
    rw (checksum_ok_append (u ++ (y ∷ v)) cs)
      (ground (arith, rw (checksum_ok_append (u ++ (x ∷ v)) cs) at ok, differ))
  where
    differ : checksum (u ++ (x ∷ v)) ≢ checksum (u ++ (y ∷ v))
    differ e = ne (foldl-bit_xor-change u v x y 0 (checksum-injective _ _ hx hy e))

-- A frame of bytes whose checksum is right has a wrong checksum after any one of its bytes, the
-- checksum included, is replaced by another byte.
pub checksum_ok_change :
    (u v : List ℕ) (x y : ℕ)
    → IsBytes (u ++ (x ∷ v))
    → IsByte y
    → x ≢ y
    → checksum_ok (u ++ (x ∷ v)) ≡ true
    → checksum_ok (u ++ (y ∷ v)) ≡ false
checksum_ok_change u v x y h hy ne ok = elim (last_cases v) [
  | inl e ↦ rw e (checksum_ok_last u x y ne (rw e at ok))
  | inr (w, cs, e) ↦
      let bu = All-append_left IsByte u (x ∷ v) h in
      let bv = All-append_right IsByte u (x ∷ v) h in
      let bw = All-append_left IsByte w (cs ∷ []) (rw e at bv.1) in
      rw (e, ← append_assoc u (y ∷ w) (cs ∷ []))
        (checksum_ok_inner u w x y cs (All-append IsByte u (x ∷ w) bu (bv.0, bw))
          (All-append IsByte u (y ∷ w) bu (hy, bw)) ne
          (rw (e, ← append_assoc u (x ∷ w) (cs ∷ [])) at ok))
]
