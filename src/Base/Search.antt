-- ===== src/Base/Search.antt =====
-- The loops that search a list with a test.
use Prim.Native.Nat.{ℕ, suc, ◌+◌}
use bcusdk.Base.Tests.{if◌then◌else◌, ltb, Bool-cases, Option-cases}
use bcusdk.Base.Lists.{length}
use mathlib.Core.Path.{◌≡◌, refl, ap}
use mathlib.Core.Logic.{inl, inr}
use mathlib.Core.Bool.{Bool, true, false, ◌||◌}
use mathlib.Core.Option.{Option, none, some}
use mathlib.Core.List.{List, [], ◌∷◌, ◌++◌}
use native.Mathlib.Omega.{arith}

module _ {ℓ} {A : Type ℓ} where
  -- The index of the first element that passes.
  abbrev pub find_index : (A → Bool) → List A → Option ℕ
  find_index p [] = none
  find_index p (x ∷ xs) =
      let later = find_index p xs in
      if p x then some 0 else elim later [ none ↦ none | some i ↦ some (suc i) ]

  -- Does some element pass?
  abbrev pub any : (A → Bool) → List A → Bool
  any p [] = false
  any p (x ∷ xs) = p x || any p xs

  abbrev pub is_empty : List A → Bool
  is_empty [] = true
  is_empty (x ∷ xs) = false

  -- How many pass.
  abbrev pub tally : (A → Bool) → List A → ℕ
  tally p [] = 0
  tally p (x ∷ xs) = (if p x then 1 else 0) + tally p xs

module _ {ℓ} {A : Type ℓ} where
  pub tally-append : (p : A → Bool) (xs ys : List A) → tally p (xs ++ ys) ≡ tally p xs + tally p ys
  tally-append p [] ys = omega arith
  tally-append p (x ∷ xs) ys = omega (arith, tally-append p xs ys)

  pub any-tally : (p : A → Bool) (xs : List A) → any p xs ≡ ltb 0 (tally p xs)
  any-tally p [] = refl
  any-tally p (x ∷ xs) = ground (arith, any-tally p xs)

  -- What is found passes.
  pub find_index_split :
      (p : A → Bool) (xs : List A) (i : ℕ)
      → find_index p xs ≡ some i
      → (u : List A) × (x : A) × (v : List A) × (xs ≡ u ++ (x ∷ v)) × (length u ≡ i) × (p x ≡ true)
  find_index_split p [] i e = cc
  find_index_split p (x ∷ xs) i e = elim (Bool-cases (p x)) [
    | inl t ↦ ([], x, xs, refl, ground (arith, t, e), t)
    | inr f ↦ elim (Option-cases (find_index p xs)) [
      | inl n ↦ absurd (ground (arith, f, n, e))
      | inr (j, h) ↦
          let (u, y, v, eq, len, t) = find_index_split p xs j h in
          (x ∷ u, y, v, ap (λ l. x ∷ l) eq, ground (arith, f, h, e, len), t)
    ]
  ]

  pub any-append_one :
      (p : A → Bool) (xs : List A) (x : A) → any p (xs ++ (x ∷ [])) ≡ (any p xs || p x)
  any-append_one p [] x = ground arith
  any-append_one p (y ∷ xs) x = ground (arith, any-append_one p xs x)

  pub is_empty-append_one : (xs : List A) (x : A) → is_empty (xs ++ (x ∷ [])) ≡ false
  is_empty-append_one [] x = refl
  is_empty-append_one (y ∷ xs) x = refl

  pub is_empty_of_found :
      (p : A → Bool) (xs : List A) (i : ℕ) → find_index p xs ≡ some i → is_empty xs ≡ false
  is_empty_of_found p [] i e = cc
  is_empty_of_found p (x ∷ xs) i e = refl
