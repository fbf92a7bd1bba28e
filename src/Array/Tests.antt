-- ===== src/Array/Tests.antt =====
-- The theorems on arrays at concrete ones.
use bcusdk.Base.{ℕ, ◌≡◌, refl, [], ◌∷◌}
use bcusdk.Array.{insert, copy_at}
use bcusdk.Array.Sort.{IsAscending, sort, sort-IsAscending, sort_outer, sort_inner, exchange}
use mathlib.Core.List.{Perm}
use bcusdk.Array.Insert.{insert-append}

insert-append_example :
    (insert {A = ℕ} 99 2 7 (1 ∷ (2 ∷ (3 ∷ (4 ∷ [])))) ≡ 1 ∷ (2 ∷ (99 ∷ (7 ∷ (4 ∷ [])))))
    × (insert {A = ℕ} 99 5 7 (1 ∷ (2 ∷ [])) ≡ 1 ∷ (2 ∷ (7 ∷ [])))
insert-append_example = insert-append 99 7 3 (1 ∷ (2 ∷ [])) (4 ∷ []) 3

sort-IsAscending_example :
    IsAscending (sort (3 ∷ (1 ∷ (2 ∷ (1 ∷ [])))))
    × Perm (sort (3 ∷ (1 ∷ (2 ∷ (1 ∷ []))))) (3 ∷ (1 ∷ (2 ∷ (1 ∷ []))))
sort-IsAscending_example = sort-IsAscending (3 ∷ (1 ∷ (2 ∷ (1 ∷ []))))

sorted : sort (3 ∷ (1 ∷ (2 ∷ (1 ∷ [])))) ≡ 1 ∷ (1 ∷ (2 ∷ (3 ∷ [])))
unfolding sort sort_outer sort_inner exchange copy_at
sorted = refl
