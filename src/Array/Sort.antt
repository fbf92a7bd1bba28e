-- ===== src/Array/Sort.antt =====
-- common/array.h: `sort`, on numbers.
use bcusdk.Base.{
  All, Bool-cases, List, [], ap, arith, at, if◌then◌else◌, inl, inr, length, length-append, ltb,
  refl, suc, sym, zero, ℕ, ◌++◌, ◌+◌, ◌-◌, ◌∙◌, ◌∷◌, ◌≡◌, ◌≤◌,
}
use bcusdk.Array.{put}
use bcusdk.Array.Cut.{put_front}
use mathlib.Core.Path.{ap₂}
use mathlib.Core.List.{append_assoc, Perm}
use mathlib.Core.List.Perm

-- `if (data[i] > data[j])` and the exchange.
unfoldable pub exchange : ℕ → ℕ → List ℕ → List ℕ
exchange i j a = if ltb (at a j) (at a i) then put (put a i (at a j)) j (at a i) else a

-- The loop over `j`, with the rounds that are left.
unfoldable pub sort_inner : ℕ → ℕ → ℕ → List ℕ → List ℕ
sort_inner zero i j a = a
sort_inner (suc n) i j a = sort_inner n i (j + 1) (exchange i j a)

-- The loop over `i`.
unfoldable pub sort_outer : ℕ → ℕ → List ℕ → List ℕ
unfolding sort_inner
sort_outer zero i a = a
sort_outer (suc n) i a = sort_outer n (i + 1) (sort_inner (length a - (i + 1)) i (i + 1) a)

unfoldable pub sort : List ℕ → List ℕ
unfolding sort_outer
sort a = sort_outer (length a) 0 a

-- One round of the outer loop without positions: the least element, and what is left.
pass : ℕ → List ℕ → ℕ × List ℕ
pass x [] = (x, [])
pass x (y ∷ ys) =
    let small = pass y ys in
    let same = pass x ys in if ltb y x then (small.0, x ∷ small.1) else (same.0, y ∷ same.1)

selected : ℕ → List ℕ → List ℕ
selected (suc n) (x ∷ v) = (pass x v).0 ∷ selected n (pass x v).1
selected _ v = v

at_middle : (u : List ℕ) (x : ℕ) (v : List ℕ) (n : ℕ) → n ≡ length u → at (u ++ (x ∷ v)) n ≡ x
at_middle [] x v zero e = refl
at_middle [] x v (suc n) e = absurd (omega arith)
at_middle (y ∷ u) x v zero e = absurd (omega arith)
at_middle (y ∷ u) x v (suc n) e = at_middle u x v n (omega arith)

-- The element at `j` is behind the one at `i` and what stands between them.
module _ (u mid ys : List ℕ) (x y i j : ℕ) (before : i ≡ length u)
    (between : j ≡ length u + 1 + length mid) where
  far : u ++ (x ∷ (mid ++ (y ∷ ys))) ≡ (u ++ (x ∷ mid)) ++ (y ∷ ys)
  far = sym (append_assoc u (x ∷ mid) (y ∷ ys))

  at_far : at (u ++ (x ∷ (mid ++ (y ∷ ys)))) j ≡ y
  at_far =
      ap (λ l. at l j) far
      ∙ at_middle (u ++ (x ∷ mid)) y ys j (omega (arith, length-append u (x ∷ mid)))

  exchanged : put (put (u ++ (x ∷ (mid ++ (y ∷ ys)))) i y) j x ≡ u ++ (y ∷ (mid ++ (x ∷ ys)))
  exchanged =
      ap (λ l. put l j x) (put_front u x y (mid ++ (y ∷ ys)) i before)
      ∙ ap (λ l. put l j x) (sym (append_assoc u (y ∷ mid) (y ∷ ys)))
      ∙ put_front (u ++ (y ∷ mid)) y x ys j (omega (arith, length-append u (y ∷ mid)))
      ∙ append_assoc u (y ∷ mid) (x ∷ ys)

  exchange_lem :
      exchange i j (u ++ (x ∷ (mid ++ (y ∷ ys))))
      ≡ (if ltb y x then u ++ (y ∷ (mid ++ (x ∷ ys))) else u ++ (x ∷ (mid ++ (y ∷ ys))))
  unfolding exchange
  exchange_lem = rw (at_far, at_middle u x (mid ++ (y ∷ ys)) i before, exchanged) refl

shifted :
    (n i j p w z : ℕ) (u mid ys q : List ℕ)
    → sort_inner n i j (u ++ (w ∷ ((mid ++ (z ∷ [])) ++ ys))) ≡ u ++ (p ∷ ((mid ++ (z ∷ [])) ++ q))
    → sort_inner n i j (u ++ (w ∷ (mid ++ (z ∷ ys)))) ≡ u ++ (p ∷ (mid ++ (z ∷ q)))
shifted n i j p w z u mid ys q e =
    ap (λ l. sort_inner n i j (u ++ (w ∷ l))) (sym (append_assoc mid (z ∷ []) ys))
    ∙ e
    ∙ ap (λ l. u ++ (p ∷ l)) (append_assoc mid (z ∷ []) q)

sort_inner-pass :
    (u mid : List ℕ) (x : ℕ) (ys : List ℕ) (i j : ℕ)
    → i ≡ length u
    → j ≡ length u + 1 + length mid
    → sort_inner (length ys) i j (u ++ (x ∷ (mid ++ ys)))
      ≡ u ++ ((pass x ys).0 ∷ (mid ++ (pass x ys).1))
unfolding sort_inner pass
sort_inner-pass u mid x [] i j e f = refl
sort_inner-pass u mid x (y ∷ ys) i j e f =
    let step = ap (sort_inner (length ys) i (j + 1)) (exchange_lem u mid ys x y i j e f) in
    let kept =
      sort_inner-pass u (mid ++ (y ∷ [])) x ys i (j + 1) e
        (omega (arith, length-append mid (y ∷ []))) in
    let changed =
      sort_inner-pass u (mid ++ (x ∷ [])) y ys i (j + 1) e
        (omega (arith, length-append mid (x ∷ []))) in
    step ∙ (elim (Bool-cases (ltb y x)) [
      | inl h ↦ rw h (shifted (length ys) i (j + 1) _ y x u mid ys _ changed)
      | inr h ↦ rw h (shifted (length ys) i (j + 1) _ x y u mid ys _ kept)
    ])

pass-length : (x : ℕ) (ys : List ℕ) → length (pass x ys).1 ≡ length ys
unfolding pass
pass-length x [] = refl
pass-length x (y ∷ ys) = elim (Bool-cases (ltb y x)) [
  | inl e ↦ rw e (ap suc (pass-length y ys))
  | inr e ↦ rw e (ap suc (pass-length x ys))
]

sort_outer-selected :
    (n : ℕ) (u v : List ℕ) → n ≡ length v → sort_outer n (length u) (u ++ v) ≡ u ++ selected n v
unfolding sort_outer selected
sort_outer-selected zero u [] e = refl
sort_outer-selected zero u (x ∷ v) e = absurd (omega arith)
sort_outer-selected (suc n) u [] e = absurd (omega arith)
sort_outer-selected (suc n) u (x ∷ v) e =
    let p = (pass x v).0 in
    let q = (pass x v).1 in
    let size : length (u ++ (x ∷ v)) - (length u + 1) ≡ length v =
      omega (arith, length-append u (x ∷ v)) in
    let next : length u + 1 ≡ length (u ++ (p ∷ [])) = omega (arith, length-append u (p ∷ [])) in
    ap (λ k. sort_outer n (length u + 1) (sort_inner k (length u) (length u + 1) (u ++ (x ∷ v))))
      size
    ∙ ap (sort_outer n (length u + 1))
        (sort_inner-pass u [] x v (length u) (length u + 1) refl (omega arith))
    ∙ ap₂ (sort_outer n) next (sym (append_assoc u (p ∷ []) q))
    ∙ sort_outer-selected n (u ++ (p ∷ [])) q (omega (arith, pass-length x v))
    ∙ append_assoc u (p ∷ []) (selected n q)

-- Ascending lists.
abbrev pub IsAscending : List ℕ → Type 0
IsAscending [] = Unit
IsAscending (x ∷ l) = All (λ y. x ≤ y) l × IsAscending l

pass-All :
    (P : ℕ → Type 0) (x : ℕ) (ys : List ℕ) → P x → All P ys → P (pass x ys).0 × All P (pass x ys).1
unfolding pass
pass-All P x [] p h = (p, tt)
pass-All P x (y ∷ ys) p h = elim (Bool-cases (ltb y x)) [
  | inl e ↦ rw e (let r = pass-All P y ys h.0 h.1 in (r.0, (p, r.1)))
  | inr e ↦ rw e (let r = pass-All P x ys p h.1 in (r.0, (h.0, r.1)))
]

selected-All : (P : ℕ → Type 0) (n : ℕ) (v : List ℕ) → All P v → All P (selected n v)
unfolding selected
selected-All P zero v h = h
selected-All P (suc n) [] h = h
selected-All P (suc n) (x ∷ v) h =
    let r = pass-All P x v h.0 h.1 in (r.0, selected-All P n (pass x v).1 r.1)

-- The first element of a pass is the least.
pass-least : (x : ℕ) (ys : List ℕ) → (pass x ys).0 ≤ x × All (λ y. (pass x ys).0 ≤ y) (pass x ys).1
unfolding pass
pass-least x [] = (omega arith, tt)
pass-least x (y ∷ ys) = elim (Bool-cases (ltb y x)) [
  | inl e ↦ rw e (let r = pass-least y ys in (ground arith, (ground arith, r.1)))
  | inr e ↦ rw e (let r = pass-least x ys in (r.0, (ground arith, r.1)))
]

selected-IsAscending : (n : ℕ) (v : List ℕ) → n ≡ length v → IsAscending (selected n v)
unfolding selected
selected-IsAscending zero [] e = tt
selected-IsAscending zero (x ∷ v) e = absurd (omega arith)
selected-IsAscending (suc n) [] e = absurd (omega arith)
selected-IsAscending (suc n) (x ∷ v) e = (
  selected-All _ n (pass x v).1 (pass-least x v).1,
  selected-IsAscending n (pass x v).1 (omega (arith, pass-length x v)),
)

pass-perm : (x : ℕ) (ys : List ℕ) → Perm ((pass x ys).0 ∷ (pass x ys).1) (x ∷ ys)
unfolding pass
pass-perm x [] = Perm.rfl
pass-perm x (y ∷ ys) = elim (Bool-cases (ltb y x)) [
  | inl e ↦ rw e (Perm.trans (Perm.swap _ _ _) (Perm.cons x (pass-perm y ys)))
  | inr e ↦
      rw e
        (Perm.trans (Perm.swap _ _ _) (Perm.trans (Perm.cons y (pass-perm x ys)) (Perm.swap _ _ _)))
]

selected-perm : (n : ℕ) (v : List ℕ) → Perm (selected n v) v
unfolding selected
selected-perm zero v = Perm.rfl
selected-perm (suc n) [] = Perm.rfl
selected-perm (suc n) (x ∷ v) =
    Perm.trans (Perm.cons _ (selected-perm n (pass x v).1)) (pass-perm x v)

-- `sort` makes an ascending array of the same elements, each as often as before.
pub sort-IsAscending : (a : List ℕ) → IsAscending (sort a) × Perm (sort a) a
unfolding sort
sort-IsAscending a =
    let whole = sort_outer-selected (length a) [] a refl in
    rw whole (selected-IsAscending (length a) a refl, selected-perm (length a) a)
