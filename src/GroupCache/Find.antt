-- ===== src/GroupCache/Find.antt =====
-- The binary search of GroupCache::find and GroupCache::remove on an ordered array.
use bcusdk.Base.{
  ℕ, zero, suc, ◌+◌, ◌-◌, ◌/◌, ◌<◌, ◌≤◌, ◌≡◌, ◌≢◌, ◌⊎◌, inl, inr, refl, sym, Option, none, some,
  List, [], ◌∷◌, length, get_elem?, arith, ◌==◌, ltb, Bool-cases, place_within,
}
use mathlib.Core.Path.{subst}
use bcusdk.GroupCache.{Entry, search, find}
use bcusdk.GroupCache.Order.{Sorted, Sorted-place}

-- No entry for the address, or one at a place.
abbrev pub Absent : ℕ → List Entry → Type 0
Absent a c = (i : ℕ) (e : Entry) → get_elem? c i ≡ some e → e.dst ≢ a

abbrev pub Found : ℕ → List Entry → Option (ℕ × Entry) → Type 0
Found a c r =
    ((r ≡ none) × Absent a c)
    ⊎ ((p : ℕ) × (e : Entry) × (r ≡ some (p, e)) × (get_elem? c p ≡ some e) × (e.dst ≡ a))

-- Everything before `l` is below the address, and everything from `h` on above it.
abbrev Narrowed : ℕ → ℕ → ℕ → List Entry → Type 0
Narrowed l h a c =
    ((i : ℕ) (e : Entry) → get_elem? c i ≡ some e → i < l → e.dst < a)
    × ((i : ℕ) (e : Entry) → get_elem? c i ≡ some e → h ≤ i → a < e.dst)

search_stop : (fuel l h a : ℕ) (c : List Entry) → h ≤ l → search fuel l h a c ≡ none
unfolding search
search_stop zero l h a c k = refl
search_stop (suc fuel) l h a c k = ground arith

search_here :
    (fuel l h a : ℕ) (c : List Entry) (e : Entry)
    → l < h
    → get_elem? c ((l + (h - 1)) / 2) ≡ some e
    → e.dst ≡ a
    → search (suc fuel) l h a c ≡ some ((l + (h - 1)) / 2, e)
unfolding search
search_here fuel l h a c e k g q = ground (arith, k, g, q)

search_right :
    (fuel l h a : ℕ) (c : List Entry) (e : Entry)
    → l < h
    → get_elem? c ((l + (h - 1)) / 2) ≡ some e
    → e.dst < a
    → search (suc fuel) l h a c ≡ search fuel ((l + (h - 1)) / 2 + 1) h a c
unfolding search
search_right fuel l h a c e k g q = ground (arith, k, g, q)

search_left :
    (fuel l h a : ℕ) (c : List Entry) (e : Entry)
    → l < h
    → get_elem? c ((l + (h - 1)) / 2) ≡ some e
    → a < e.dst
    → search (suc fuel) l h a c ≡ search fuel l ((l + (h - 1)) / 2) a c
unfolding search
search_left fuel l h a c e k g q = ground (arith, k, g, q)

absent : (l h a : ℕ) (c : List Entry) → h ≤ l → Narrowed l h a c → Absent a c
absent l h a c k n i e g q = elim (Bool-cases (ltb i l)) [
  | inl t ↦ ground (arith, n.0 i e g, t, q)
  | inr t ↦ ground (arith, n.1 i e g, t, q, k)
]

beyond : (c : List Entry) (i : ℕ) (e : Entry) → get_elem? c i ≡ some e → i < length c
beyond [] i e g = cc
beyond (x ∷ c) zero e g = omega arith
beyond (x ∷ c) (suc i) e g = omega (arith, beyond c i e g)

trichotomy : (m n : ℕ) → (m ≡ n) ⊎ ((m < n) ⊎ (n < m))
trichotomy m n = elim (Bool-cases (m == n)) [
  | inl t ↦ inl (ground (arith, t))
  | inr t ↦ elim (Bool-cases (ltb m n)) [
    | inl k ↦ inr (inl (ground (arith, k)))
    | inr k ↦ inr (inr (ground (arith, t, k)))
  ]
]

places_below :
    (c : List Entry) (p a : ℕ) (e : Entry)
    → Sorted c
    → get_elem? c p ≡ some e
    → e.dst < a
    → (i : ℕ) (f : Entry) → get_elem? c i ≡ some f
    → i < p + 1
    → f.dst < a
places_below c p a e s g q i f gi k = elim (Bool-cases (i == p)) [
  | inl t ↦ let eq : i ≡ p = ground (arith, t) in ground (arith, g, gi, eq, q)
  | inr t ↦ omega (arith, Sorted-place c i p f e s (ground (arith, t, k)) gi g)
]

places_above :
    (c : List Entry) (p a : ℕ) (e : Entry)
    → Sorted c
    → get_elem? c p ≡ some e
    → a < e.dst
    → (i : ℕ) (f : Entry) → get_elem? c i ≡ some f
    → p ≤ i
    → a < f.dst
places_above c p a e s g q i f gi k = elim (Bool-cases (i == p)) [
  | inl t ↦ let eq : i ≡ p = ground (arith, t) in ground (arith, g, gi, eq, q)
  | inr t ↦ omega (arith, Sorted-place c p i e f s (ground (arith, t, k)) g gi)
]

search-Found :
    (fuel l h a : ℕ) (c : List Entry)
    → Sorted c
    → h ≤ length c
    → h - l ≤ fuel
    → Narrowed l h a c
    → Found a c (search fuel l h a c)
search-Found zero l h a c s len f n =
    inl (search_stop zero l h a c (omega arith), absent l h a c (omega arith) n)
search-Found (suc fuel) l h a c s len f n = elim (Bool-cases (ltb l h)) [
  | inr t ↦
      let k : h ≤ l = ground (arith, t) in
      inl (search_stop (suc fuel) l h a c k, absent l h a c k n)
  | inl t ↦
      let k : l < h = ground (arith, t) in
      let p = (l + (h - 1)) / 2 in
      let (e, g) = place_within c p (omega arith) in
      elim (trichotomy e.dst a) [
        | inl q ↦ inr (p, e, search_here fuel l h a c e k g q, g, q)
        | inr (inl q) ↦
            subst (Found a c) (sym (search_right fuel l h a c e k g q)) (
              search-Found fuel (p + 1) h a c s len (omega arith) (places_below c p a e s g q, n.1))
        | inr (inr q) ↦ subst (Found a c) (sym (search_left fuel l h a c e k g q)) (
            search-Found fuel l p a c s (omega arith) (omega arith)
              (n.0, places_above c p a e s g q))
      ]
]

pub find-Found : (a : ℕ) (c : List Entry) → Sorted c → Found a c (find a c)
unfolding find
find-Found a c s =
    search-Found (length c) 0 (length c) a c s (omega arith) (omega arith)
      ((λ i e g k. absurd (omega arith)), (λ i e g k. absurd (omega (arith, beyond c i e g))))
