-- ===== src/Array/Equal.antt =====
-- `operator ==` of byte arrays (common/array.h).
use bcusdk.Base.{ℕ, ◌≡◌, ◌↔◌, refl, true, List, [], ◌∷◌, length, arith}
use bcusdk.Array.{equal, same_elements}

same_elements_refl : (a : List ℕ) → same_elements a a ≡ true
unfolding same_elements
same_elements_refl [] = refl
same_elements_refl (x ∷ a) = ground (arith, same_elements_refl a)

same_elements_eq : (a b : List ℕ) → length a ≡ length b → same_elements a b ≡ true → a ≡ b
unfolding same_elements
same_elements_eq [] [] n e = refl
same_elements_eq [] (y ∷ b) n e = absurd (omega arith)
same_elements_eq (x ∷ a) [] n e = absurd (omega arith)
same_elements_eq (x ∷ a) (y ∷ b) n e = ground (arith, same_elements_eq a b)

pub equal_refl : (a : List ℕ) → equal a a ≡ true
unfolding equal
equal_refl a = ground (arith, same_elements_refl a)

pub equal_iff : (a b : List ℕ) → (equal a b ≡ true) ↔ (a ≡ b)
unfolding equal
equal_iff a b = (λ e. ground (arith, same_elements_eq a b), λ e. rw e (equal_refl b))
