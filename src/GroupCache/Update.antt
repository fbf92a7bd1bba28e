-- ===== src/GroupCache/Update.antt =====
-- GroupCache::add, the replacement of an entry and GroupCache::remove on an ordered array.
use bcusdk.Base.{
  ℕ, zero, suc, ◌+◌, ◌-◌, ◌<◌, ◌≡◌, ◌⊎◌, inl, inr, refl, sym, ◌∙◌, ap, none, some, true, false,
  List, [], ◌∷◌, ◌++◌, length, arith, All, All-append, All-append_left, All-append_right, ◌==◌, ltb,
  if◌then◌else◌, Bool-cases, split_place, last_cases, length-append, take_all,
}
use mathlib.Core.List.{append-nil, append_assoc}
use mathlib.Core.Path.{subst}
use bcusdk.Array
use bcusdk.Array.Cut.{deletepart_middle, put_front, get_middle}
use bcusdk.GroupCache.{Entry, find, add, shift_up}
use bcusdk.GroupCache.Order.{
  IsBelow, IsAbove, Sorted, Sorted-split, lookup, lookup-below, lookup-above, lookup-append,
  IsBelow-above,
}
use bcusdk.GroupCache.Find.{Absent, find-Found}

Sorted-left : (u v : List Entry) → Sorted (u ++ v) → Sorted u
Sorted-left [] v s = tt
Sorted-left (x ∷ u) v s = (All-append_left (IsAbove x.dst) u v s.0, Sorted-left u v s.1)

Sorted-without :
    (u : List Entry) (e : Entry) (v : List Entry) → Sorted (u ++ (e ∷ v)) → Sorted (u ++ v)
Sorted-without [] e v s = s.1
Sorted-without (x ∷ u) e v s = (
  All-append (IsAbove x.dst) u v (All-append_left (IsAbove x.dst) u (e ∷ v) s.0)
      (All-append_right (IsAbove x.dst) u (e ∷ v) s.0).1,
  Sorted-without u e v s.1,
)

Sorted-with :
    (u : List Entry) (e : Entry) (v : List Entry)
    → Sorted (u ++ v)
    → All (IsBelow e.dst) u
    → All (IsAbove e.dst) v
    → Sorted (u ++ (e ∷ v))
Sorted-with [] e v s b a = (a, s)
Sorted-with (x ∷ u) e v s b a = (
  All-append (IsAbove x.dst) u (e ∷ v) (All-append_left (IsAbove x.dst) u v s.0)
      (b.0, All-append_right (IsAbove x.dst) u v s.0),
  Sorted-with u e v s.1 b.1 a,
)

-- An array around the address `a`: what is before is below, what is behind above.
pub lookup-around :
    (a b : ℕ) (u : List Entry) (e : Entry) (v : List Entry)
    → e.dst ≡ a
    → All (IsBelow a) u
    → lookup b (u ++ (e ∷ v)) ≡ (if b == a then some e else lookup b (u ++ v))
lookup-around a b u e v q h =
    ground (arith, lookup-append b u (e ∷ v), lookup-append b u v, lookup-below a u h, q)

lookup-gone :
    (a b : ℕ) (u v : List Entry) → All (IsBelow a) u → All (IsAbove a) v → lookup a (u ++ v) ≡ none
lookup-gone a b u v h k =
    ground (arith, lookup-append a u v, lookup-below a u h, lookup-above a v k)

lookup-Absent : (a : ℕ) (c : List Entry) → Absent a c → lookup a c ≡ none
lookup-Absent a [] h = refl
lookup-Absent a (e ∷ c) h = ground (arith, h 0 e refl, lookup-Absent a c (λ i f g. h (suc i) f g))

-- The two results of `find` on an ordered array.
pub find-split :
    (a : ℕ) (c : List Entry)
    → Sorted c
    → ((find a c ≡ none) × (lookup a c ≡ none))
      ⊎ ((u : List Entry) × (e : Entry) × (v : List Entry) × (c ≡ u ++ (e ∷ v))
          × (find a c ≡ some (length u, e))
          × (e.dst ≡ a)
          × All (IsBelow a) u
          × All (IsAbove a) v)
find-split a c s = elim (find-Found a c s) [
  | inl (n, h) ↦ inl (n, lookup-Absent a c h)
  | inr (p, e, f, g, q) ↦
      let (u, v, eq, len) = split_place c p e g in
      let (b, k) = Sorted-split u e v (subst Sorted eq s) in
      inr (u, e, v, eq, rw len f, q, rw (← q) b, rw (← q) k)
]

remove_at :
    (a b : ℕ) (u : List Entry) (e : Entry) (v : List Entry)
    → Sorted (u ++ (e ∷ v))
    → e.dst ≡ a
    → All (IsBelow a) u
    → All (IsAbove a) v
    → Sorted (u ++ v) × (lookup b (u ++ v) ≡ (if b == a then none else lookup b (u ++ (e ∷ v))))
remove_at a b u e v s q h k =
    (Sorted-without u e v s, ground (arith, lookup-around a b u e v q h, lookup-gone a b u v h k))

replace_at :
    (a b : ℕ) (u : List Entry) (e e' : Entry) (v : List Entry)
    → Sorted (u ++ (e ∷ v))
    → e'.dst ≡ a
    → e.dst ≡ a
    → All (IsBelow a) u
    → All (IsAbove a) v
    → Sorted (u ++ (e' ∷ v))
      × (lookup b (u ++ (e' ∷ v)) ≡ (if b == a then some e' else lookup b (u ++ (e ∷ v))))
replace_at a b u e e' v s q' q h k = (
  Sorted-with u e' v (Sorted-without u e v s) (rw q' h) (rw q' k),
  ground (arith, lookup-around a b u e v q h, lookup-around a b u e' v q' h),
)

put_next :
    (n : ℕ) (ys : List Entry) (z junk x : Entry) (v : List Entry)
    → n ≡ length ys
    → Array.put (ys ++ (z ∷ (junk ∷ v))) (suc n) x ≡ ys ++ (z ∷ (x ∷ v))
put_next zero [] z junk x v e = refl
put_next (suc n) [] z junk x v e = absurd (omega arith)
put_next zero (y ∷ ys) z junk x v e = absurd (omega arith)
put_next (suc n) (y ∷ ys) z junk x v e = ap (λ l. y ∷ l) (put_next n ys z junk x v (omega arith))

-- One round of the loop of `add`, in front of which the last entry is `z`.
shift_on :
    (n : ℕ) (x : Entry) (ys : List Entry) (z junk : Entry) (v : List Entry)
    → n ≡ length ys
    → x.dst < z.dst
    → shift_up (suc n) x (ys ++ (z ∷ (junk ∷ v))) ≡ shift_up n x (ys ++ (z ∷ (z ∷ v)))
unfolding shift_up
shift_on n x ys z junk v e k =
    let above : ltb x.dst z.dst ≡ true = ground (arith, k) in
    rw (get_middle ys z (junk ∷ v) n e, above, shift_up) (rw (put_next n ys z junk z v e))

shift_ends :
    (n : ℕ) (x : Entry) (ys : List Entry) (z junk : Entry) (v : List Entry)
    → n ≡ length ys
    → z.dst < x.dst
    → shift_up (suc n) x (ys ++ (z ∷ (junk ∷ v))) ≡ ys ++ (z ∷ (x ∷ v))
unfolding shift_up
shift_ends n x ys z junk v e k =
    let above : ltb x.dst z.dst ≡ false = ground (arith, k) in
    rw (get_middle ys z (junk ∷ v) n e, above, shift_up) (put_next n ys z junk x v e)

-- The loop of `add`: it puts the entry between those below and those above it.
shift_up_lem :
    (n : ℕ) (x : Entry) (u : List Entry) (junk : Entry) (v : List Entry)
    → n ≡ length u
    → Sorted u
    → lookup x.dst u ≡ none
    → (w : List Entry) × (t : List Entry) × (u ≡ w ++ t)
      × (shift_up n x (u ++ (junk ∷ v)) ≡ w ++ (x ∷ (t ++ v)))
      × All (IsBelow x.dst) w
      × All (IsAbove x.dst) t
shift_up_lem zero x [] junk v e s h = ([], [], refl, unfold shift_up in refl, tt, tt)
shift_up_lem zero x (y ∷ u) junk v e s h = absurd (omega arith)
shift_up_lem (suc n) x u junk v e s h = elim (last_cases u) [
  | inl q ↦ absurd (ground (arith, q, e))
  | inr (ys, z, q) ↦
      let len : n ≡ length ys = omega (arith, length-append ys (z ∷ []), ap length q) in
      let flat : u ++ (junk ∷ v) ≡ ys ++ (z ∷ (junk ∷ v)) =
        ap (λ l. l ++ (junk ∷ v)) q ∙ append_assoc ys (z ∷ []) (junk ∷ v) in
      let s' = subst Sorted q s in
      let (b, k) = Sorted-split ys z [] s' in
      let there : lookup x.dst (ys ++ (z ∷ [])) ≡ none = rw (← q) h in
      elim (Bool-cases (ltb x.dst z.dst)) [
        | inl t ↦
            let above : x.dst < z.dst = ground (arith, t) in
            let (w, t', eq, r, below, behind) =
              shift_up_lem n x ys z (z ∷ v) len (Sorted-left ys (z ∷ []) s')
                (ground (arith, lookup-append x.dst ys (z ∷ []), there)) in
            (
              w,
              t' ++ (z ∷ []),
              q ∙ ap (λ l. l ++ (z ∷ [])) eq ∙ append_assoc w t' (z ∷ []),
              ap (shift_up (suc n) x) flat
                  ∙ shift_on n x ys z junk v len above
                  ∙ r
                  ∙ ap (λ l. w ++ (x ∷ l)) (sym (append_assoc t' (z ∷ []) v)),
              below,
              All-append (IsAbove x.dst) t' (z ∷ []) behind (above, tt),
            )
        | inr t ↦
            let under : z.dst < x.dst =
              ground (arith, t, lookup-append x.dst ys (z ∷ []), lookup-below x.dst ys, there) in
            (
              u,
              [],
              sym (append-nil u),
              ap (shift_up (suc n) x) flat
                  ∙ shift_ends n x ys z junk v len under
                  ∙ sym (ap (λ l. l ++ (x ∷ v)) q ∙ append_assoc ys (z ∷ []) (x ∷ v)),
              rw (q) (
                  All-append (IsBelow x.dst) ys (z ∷ [])
                    (IsBelow-above z.dst x.dst ys (omega (arith, under)) b) (under, tt)),
              tt,
            )
      ]
]

pub add_lem :
    (fresh x : Entry) (c : List Entry)
    → Sorted c
    → lookup x.dst c ≡ none
    → Sorted (add fresh x c)
      × ((b : ℕ) → lookup b (add fresh x c) ≡ (if b == x.dst then some x else lookup b c))
unfolding add Array.resize
add_lem fresh x c s h =
    let (w, t, eq, r, below, behind) = shift_up_lem (length c) x c fresh [] refl s h in
    let one : length c + 1 - length c ≡ 1 = omega arith in
    let grown : add fresh x c ≡ w ++ (x ∷ t) =
      ap (shift_up (length c) x) (rw (take_all (length c + 1) c (omega arith), one) refl)
      ∙ r
      ∙ ap (λ l. w ++ (x ∷ l)) (append-nil t) in
    (
      subst Sorted (sym grown) (Sorted-with w x t (subst Sorted eq s) below behind),
      λ b.
          ap (lookup b) grown
          ∙ lookup-around x.dst b w x t refl below
          ∙ ap (λ l. if b == x.dst then some x else lookup b l) (sym eq),
    )

pub remove_lem :
    (a : ℕ) (u : List Entry) (e : Entry) (v : List Entry)
    → Sorted (u ++ (e ∷ v))
    → e.dst ≡ a
    → All (IsBelow a) u
    → All (IsAbove a) v
    → Sorted (Array.deletepart (length u) 1 (u ++ (e ∷ v)))
      × ((b : ℕ)
          → lookup b (Array.deletepart (length u) 1 (u ++ (e ∷ v)))
            ≡ (if b == a then none else lookup b (u ++ (e ∷ v))))
remove_lem a u e v s q h k =
    let eq = deletepart_middle u e v (length u) refl in
    (
      subst Sorted (sym eq) (remove_at a 0 u e v s q h k).0,
      λ b. ap (lookup b) eq ∙ (remove_at a b u e v s q h k).1,
    )

pub put_lem :
    (a : ℕ) (u : List Entry) (e e' : Entry) (v : List Entry)
    → Sorted (u ++ (e ∷ v))
    → e'.dst ≡ a
    → e.dst ≡ a
    → All (IsBelow a) u
    → All (IsAbove a) v
    → Sorted (Array.put (u ++ (e ∷ v)) (length u) e')
      × ((b : ℕ)
          → lookup b (Array.put (u ++ (e ∷ v)) (length u) e')
            ≡ (if b == a then some e' else lookup b (u ++ (e ∷ v))))
put_lem a u e e' v s q' q h k =
    let eq = put_front u e e' v (length u) refl in
    (
      subst Sorted (sym eq) (replace_at a 0 u e e' v s q' q h k).0,
      λ b. ap (lookup b) eq ∙ (replace_at a b u e e' v s q' q h k).1,
    )
