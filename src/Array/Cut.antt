-- ===== src/Array/Cut.antt =====
-- Deleting and replacing one element.
use bcusdk.Base.{
  ℕ, zero, suc, ◌+◌, ◌-◌, ◌<◌, ◌≡◌, refl, sym, ap, ◌∙◌, Bool-cases, leb, get_elem?, some, false,
  inl, inr, List, [], ◌∷◌, ◌++◌, length, take, drop, drop_all, arith, take-append_length,
  length-append,
}
use bcusdk.Array.{put, deletepart}

module _ {ℓ} {A : Type ℓ} where
  pub deletepart_one :
      (i : ℕ) (es : List A) → i < length es → deletepart i 1 es ≡ take i es ++ drop (suc i) es
  unfolding deletepart
  deletepart_one i es h =
      let inside : leb (length es) i ≡ false = ground (arith, h) in
      elim (Bool-cases (leb (length es) (i + 1))) [
        | inl t ↦
            let whole : drop (i + (length es - i)) es ≡ drop (suc i) es =
              drop_all (i + (length es - i)) es (omega arith)
              ∙ sym (drop_all (suc i) es (ground (arith, t))) in
            rw (inside, t, deletepart) (ap (λ r. take i es ++ r) whole)
        | inr t ↦
            let next : i + 1 ≡ suc i = omega arith in
            rw (inside, t, deletepart) (ap (λ n. take i es ++ drop n es) next)
      ]

  drop_past :
      (u : List A) (x : A) (v : List A) (n : ℕ) → n ≡ length u → drop (suc n) (u ++ (x ∷ v)) ≡ v
  drop_past [] x v zero e = refl
  drop_past [] x v (suc n) e = absurd (omega arith)
  drop_past (y ∷ u) x v zero e = absurd (omega arith)
  drop_past (y ∷ u) x v (suc n) e = drop_past u x v n (omega arith)

  pub deletepart_middle :
      (u : List A) (x : A) (v : List A) (n : ℕ)
      → n ≡ length u
      → deletepart n 1 (u ++ (x ∷ v)) ≡ u ++ v
  deletepart_middle u x v n e =
      rw
        (
          deletepart_one n (u ++ (x ∷ v)) (omega (arith, length-append u (x ∷ v))),
          take-append_length u (x ∷ v) n e,
          drop_past u x v n e,
        )
        refl

  pub put_front :
      (u : List A) (x z : A) (v : List A) (n : ℕ)
      → n ≡ length u
      → put (u ++ (x ∷ v)) n z ≡ u ++ (z ∷ v)
  put_front [] x z v zero e = refl
  put_front [] x z v (suc n) e = absurd (omega arith)
  put_front (y ∷ u) x z v zero e = absurd (omega arith)
  put_front (y ∷ u) x z v (suc n) e = ap (λ l. y ∷ l) (put_front u x z v n (omega arith))

  pub get_middle :
      (u : List A) (z : A) (w : List A) (n : ℕ) → n ≡ length u → get_elem? (u ++ (z ∷ w)) n ≡ some z
  get_middle [] z w zero e = refl
  get_middle [] z w (suc n) e = absurd (omega arith)
  get_middle (y ∷ u) z w zero e = absurd (omega arith)
  get_middle (y ∷ u) z w (suc n) e = get_middle u z w n (omega arith)
