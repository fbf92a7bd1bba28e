-- ===== src/GroupCache/Order.antt =====
-- The order of the entries, and what it says of the parts of the array.
use bcusdk.Base.{
  ℕ, zero, suc, ◌<◌, ◌≤◌, ◌≡◌, refl, Option, none, some, List, [], ◌∷◌, ◌++◌, get_elem?, arith, All,
  All-append_right, All-place, ◌==◌, if◌then◌else◌,
}
use bcusdk.GroupCache.{Entry}

abbrev pub IsBelow : ℕ → Entry → Type 0
IsBelow a e = e.dst < a

abbrev pub IsAbove : ℕ → Entry → Type 0
IsAbove a e = a < e.dst

-- Ascending addresses, none of them twice.
abbrev pub Sorted : List Entry → Type 0
Sorted [] = Unit
Sorted (e ∷ c) = All (IsAbove e.dst) c × Sorted c

-- The entry of an address, as a finite map has it.
abbrev pub lookup : ℕ → List Entry → Option Entry
lookup a [] = none
lookup a (e ∷ c) = let rest = lookup a c in if e.dst == a then some e else rest

pub lookup-below : (a : ℕ) (c : List Entry) → All (IsBelow a) c → lookup a c ≡ none
lookup-below a [] h = refl
lookup-below a (e ∷ c) h = ground (arith, h, lookup-below a c)

pub lookup-above : (a : ℕ) (c : List Entry) → All (IsAbove a) c → lookup a c ≡ none
lookup-above a [] h = refl
lookup-above a (e ∷ c) h = ground (arith, h, lookup-above a c)

pub lookup-append :
    (a : ℕ) (c d : List Entry)
    → lookup a (c ++ d) ≡ (elim (lookup a c) [ none ↦ lookup a d | some e ↦ some e ])
lookup-append a [] d = refl
lookup-append a (e ∷ c) d = ground (arith, lookup-append a c d)

pub IsAbove-below : (a b : ℕ) (c : List Entry) → a ≤ b → All (IsAbove b) c → All (IsAbove a) c
IsAbove-below a b [] h k = tt
IsAbove-below a b (e ∷ c) h k = (omega (arith, k.0), IsAbove-below a b c h k.1)

pub IsBelow-above : (a b : ℕ) (c : List Entry) → a ≤ b → All (IsBelow a) c → All (IsBelow b) c
IsBelow-above a b [] h k = tt
IsBelow-above a b (e ∷ c) h k = (omega (arith, k.0), IsBelow-above a b c h k.1)

-- An ordered array around one of its entries.
pub Sorted-split :
    (u : List Entry) (e : Entry) (v : List Entry)
    → Sorted (u ++ (e ∷ v))
    → All (IsBelow e.dst) u × All (IsAbove e.dst) v
Sorted-split [] e v s = (tt, s.0)
Sorted-split (x ∷ u) e v s =
    let (b, a) = Sorted-split u e v s.1 in
    ((ground (arith, All-append_right (IsAbove x.dst) u (e ∷ v) s.0), b), a)

-- The order by places.
pub Sorted-place :
    (c : List Entry) (i j : ℕ) (e f : Entry)
    → Sorted c
    → i < j
    → get_elem? c i ≡ some e
    → get_elem? c j ≡ some f
    → e.dst < f.dst
Sorted-place [] i j e f s h p q = cc
Sorted-place (x ∷ c) zero zero e f s h p q = absurd (omega arith)
Sorted-place (x ∷ c) (suc i) zero e f s h p q = absurd (omega arith)
Sorted-place (x ∷ c) zero (suc j) e f s h p q =
    ground (arith, p, All-place (IsAbove x.dst) c j f s.0 q)
Sorted-place (x ∷ c) (suc i) (suc j) e f s h p q = Sorted-place c i j e f s.1 (omega arith) p q
