-- ===== src/Array/Insert.antt =====
-- `add` and `insert` of common/array.h.
use bcusdk.Base.{
  ℕ, zero, suc, ◌+◌, ◌-◌, ◌≡◌, refl, true, false, List, [], ◌∷◌, ◌++◌, length, drop, take_all, leb,
  arith, take-append_length, length-append,
}
use bcusdk.Array.{add, resize, insert}
use bcusdk.Array.Cut.{put_front}

module _ {ℓ} {A : Type ℓ} where
  -- A new element at the end.
  pub add-append : (fresh v : A) (a : List A) → add fresh v a ≡ a ++ (v ∷ [])
  unfolding add resize
  add-append fresh v a =
      let one : length a + 1 - length a ≡ 1 = omega arith in
      rw (take_all (length a + 1) a (omega arith), one, add)
        (put_front a fresh v [] (length a) refl)

  drop_front : (u w : List A) (n : ℕ) → n ≡ length u → drop n (u ++ w) ≡ w
  drop_front [] w zero e = refl
  drop_front [] w (suc n) e = absurd (omega arith)
  drop_front (y ∷ u) w zero e = absurd (omega arith)
  drop_front (y ∷ u) w (suc n) e = drop_front u w n (omega arith)

  -- `insert` before an element `x`: the new element takes the place of `x`, which is lost, and the place
  -- in front of it is left as `new T[n]` made it. At the end, or `n` places past it, the new element is
  -- added.
  pub insert-append :
      (fresh v x : A) (u w : List A) (n : ℕ)
      → (insert fresh (length u) v (u ++ (x ∷ w)) ≡ u ++ (fresh ∷ (v ∷ w)))
        × (insert fresh (length u + n) v u ≡ u ++ (v ∷ []))
  unfolding insert
  insert-append fresh v x u w n =
      let before : leb (length (u ++ (x ∷ w))) (length u) ≡ false =
        ground (arith, length-append u (x ∷ w)) in
      let past : leb (length u) (length u + n) ≡ true = ground arith in
      (
        rw (before, insert)
            (rw
              (
                take-append_length u (x ∷ w) (length u) refl,
                put_front u x v w (length u) refl,
                drop_front u (v ∷ w) (length u) refl,
              )
              refl),
        rw (past, insert) (add-append fresh v u),
      )
