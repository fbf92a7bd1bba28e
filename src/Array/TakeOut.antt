-- ===== src/Array/TakeOut.antt =====
-- Taking an element out of an array by moving the last one into its place.
use bcusdk.Base.{
  ℕ, zero, suc, ◌-◌, ◌≡◌, refl, true, Bool, some, List, [], ◌∷◌, ◌++◌, length, take, get_elem?,
  arith, find_index, find_index_split, tally, tally-append, length-append, last_cases, inl, inr,
  take-append_length,
}
use mathlib.Core.List.{append_assoc}
use bcusdk.Array.{put, take_out}
use bcusdk.Array.Cut.{put_front}

module _ {ℓ} {A : Type ℓ} where
  get_last : (u : List A) (z : A) (n : ℕ) → n ≡ length u → get_elem? (u ++ (z ∷ [])) n ≡ some z
  get_last [] z zero e = refl
  get_last [] z (suc n) e = absurd (omega arith)
  get_last (y ∷ u) z zero e = absurd (omega arith)
  get_last (y ∷ u) z (suc n) e = get_last u z n (omega arith)

  -- The step of the callers on an array whose last element is `z`.
  take_out_step :
      (i : ℕ) (a : List A) (z : A)
      → take_out i (a ++ (z ∷ [])) ≡ take (length a) (put (a ++ (z ∷ [])) i z)
  unfolding take_out
  take_out_step i a z =
      let n : length (a ++ (z ∷ [])) - 1 ≡ length a = omega (arith, length-append a (z ∷ [])) in
      rw (n, get_last a z (length a) refl, take_out) (rw n)

  -- The last element is just cut off; any other is replaced by the last one.
  pub take_out_last : (u : List A) (x : A) → take_out (length u) (u ++ (x ∷ [])) ≡ u
  take_out_last u x =
      rw (take_out_step (length u) u x, put_front u x x [] (length u) refl)
        (take-append_length u (x ∷ []) (length u) refl)

  take_out_inner :
      (u w : List A) (x z : A) → take_out (length u) ((u ++ (x ∷ w)) ++ (z ∷ [])) ≡ u ++ (z ∷ w)
  take_out_inner u w x z =
      rw
        (
          take_out_step (length u) (u ++ (x ∷ w)) z,
          append_assoc u (x ∷ w) (z ∷ []),
          put_front u x z (w ++ (z ∷ [])) (length u) refl,
          ← append_assoc u (z ∷ w) (z ∷ []),
        )
        (take-append_length (u ++ (z ∷ w)) (z ∷ []) (length (u ++ (x ∷ w)))
          (omega (arith, length-append u (x ∷ w), length-append u (z ∷ w))))

  tally_moved :
      (q : A → Bool) (u : List A) (x : A) (v : List A)
      → tally q (u ++ (x ∷ v)) ≡ tally q (x ∷ take_out (length u) (u ++ (x ∷ v)))
  tally_moved q u x v = elim (last_cases v) [
    | inl e ↦ rw (e, take_out_last u x) (omega (arith, tally-append q u (x ∷ [])))
    | inr (w, z, e) ↦
        rw (e, ← append_assoc u (x ∷ w) (z ∷ []), take_out_inner u w x z)
          (omega (
            arith,
            tally-append q (u ++ (x ∷ w)) (z ∷ []),
            tally-append q u (x ∷ w),
            tally-append q u (z ∷ w),
          ))
  ]

  tally_found :
      (q : A → Bool) (a : List A) (i : ℕ) (u : List A) (x : A) (v : List A)
      → a ≡ u ++ (x ∷ v)
      → length u ≡ i
      → tally q a ≡ tally q (x ∷ take_out i a)
  tally_found q a i u x v eq len = rw (eq, ← len) (tally_moved q u x v)

  -- What a search found leaves the array, and every other element stays as often as it was there.
  pub take_out-tally :
      (p : A → Bool) (a : List A) (i : ℕ)
      → find_index p a ≡ some i
      → (x : A) × (p x ≡ true) × ((q : A → Bool) → tally q a ≡ tally q (x ∷ take_out i a))
  take_out-tally p a i e =
      let (u, x, v, eq, len, t) = find_index_split p a i e in
      (x, t, λ q. tally_found q a i u x v eq len)
