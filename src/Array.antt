-- ===== src/Array.antt =====
-- common/array.h: the growing array, as the list of its elements. The memory that `new T[n]` leaves
-- unset is a parameter `fresh` of the operations that expose it. Copies and assignments are the
-- list itself.
pub mod Cut
pub mod Equal
pub mod Insert
pub mod TakeOut
pub mod Sort
mod Tests
use bcusdk.Base.{
  ℕ, zero, suc, ◌+◌, ◌-◌, Bool, true, false, none, some, List, [], ◌∷◌, ◌++◌, length, get_elem?,
  take, drop, replicate, ltb, leb, ◌==◌, if◌then◌else◌,
}

-- `operator ==`: the sizes first, then element by element.
same_elements : List ℕ → List ℕ → Bool
same_elements (x ∷ xs) (y ∷ ys) = let rest = same_elements xs ys in if x == y then rest else false
same_elements _ _ = true

unfoldable pub equal : List ℕ → List ℕ → Bool
unfolding same_elements
equal a b = if length a == length b then same_elements a b else false

module _ {ℓ} {A : Type ℓ} where
  -- `resize`: keeps what fits, and leaves the rest unset.
  unfoldable pub resize : A → ℕ → List A → List A
  resize fresh n a = take n a ++ replicate (n - length a) fresh

  -- `a[i] = v` within bounds.
  abbrev pub put : List A → ℕ → A → List A
  put [] i v = []
  put (x ∷ a) zero v = v ∷ a
  put (x ∷ a) (suc i) v = x ∷ put a i v

  -- `add`
  unfoldable pub add : A → A → List A → List A
  unfolding resize
  add fresh v a = put (resize fresh (length a + 1) a) (length a) v

  -- The copy loop of `setpart`.
  unfoldable pub copy_at : List A → ℕ → List A → List A
  copy_at [] start a = a
  copy_at (v ∷ vs) start a = copy_at vs (start + 1) (put a start v)

  -- `setpart`
  unfoldable pub setpart : A → List A → ℕ → List A → List A
  unfolding resize copy_at
  setpart fresh vs start a =
      copy_at vs start
        (if ltb (length a) (length vs + start) then resize fresh (length vs + start) a else a)

  -- The loop `data[i - cnt] = data[i]` of `deletepart` followed by the cut to the new size.
  unfoldable pub deletepart : ℕ → ℕ → List A → List A
  deletepart start cnt a =
      if leb (length a) start
      then a
      else if cnt == 0
      then a
      else let cnt' = if leb (length a) (start + cnt) then length a - start else cnt in
        take start a ++ drop (start + cnt') a

  -- `insert`: the new element is stored in the old block, which is then copied one place further
  -- and thrown away, so that the place of the new element is left unset.
  unfoldable pub insert : A → ℕ → A → List A → List A
  unfolding add
  insert fresh pos v a =
      if leb (length a) pos then add fresh v a else take pos a ++ (fresh ∷ drop pos (put a pos v))

  -- `a[i] = a[a () - 1]; a.resize (a () - 1)`, by which the callers take an element out.
  unfoldable pub take_out : ℕ → List A → List A
  take_out i a = elim (get_elem? a (length a - 1)) [
    | none ↦ a
    | some z ↦ take (length a - 1) (put a i z)
  ]
