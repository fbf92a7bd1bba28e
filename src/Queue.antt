-- ===== src/Queue.antt =====
-- eibd/libserver/queue.h: the FIFO queue as the list of its elements, first to leave first.
use bcusdk.Base.{Bool, true, false, Option, none, some, List, [], ◌∷◌, ◌++◌}

module _ {ℓ} {A : Type ℓ} where
  -- `put`
  abbrev pub put : A → List A → List A
  put x q = q ++ (x ∷ [])

  -- `get`: `none` is the failed assert on an empty queue.
  abbrev pub get : List A → Option (A × List A)
  get [] = none
  get (x ∷ q) = some (x, q)

  -- `top`
  abbrev pub top : List A → Option A
  top [] = none
  top (x ∷ q) = some x

  -- `isempty`
  abbrev pub isempty : List A → Bool
  isempty [] = true
  isempty (x ∷ q) = false
