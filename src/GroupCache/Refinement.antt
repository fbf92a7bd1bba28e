-- ===== src/GroupCache/Refinement.antt =====
-- The sorted array of the group cache against the map of GroupCache.Map.
use bcusdk.Base.{
  ℕ, ◌≡◌, ◌⊎◌, inl, inr, refl, sym, ◌∙◌, ap, Bool, true, false, not, ◌&&◌, Option, none, some,
  Option-cases, Bool-cases, List, [], ◌∷◌, ◌++◌, length, arith, ◌==◌, ==_refl, if◌then◌else◌,
}
use mathlib.Core.Path.{subst}
use bcusdk.Array
use bcusdk.Lpdu.{LData}
use bcusdk.Tpdu
use bcusdk.GroupCache.{
  Entry, GroupCache, Answer, new, find, add, store, get_l_data, remove, start, clear, stop,
  read_round, fresh_entry, entry_of, empty_entry, is_value, is_old, data_of,
}
use bcusdk.GroupCache.Order.{Sorted, lookup}
use bcusdk.GroupCache.Update.{find-split, lookup-around, add_lem, remove_lem, put_lem}
use bcusdk.GroupCache.Map.{Map, empty, write, recent, Op, perform, step, perform_all, step_all}

-- The array is in order, and agrees with the map at every address.
pub record Refines (g : GroupCache) (m : Map) : Type 0 where
  pub on : g.enable ≡ m.on
  pub sorted : Sorted g.cache
  pub values : (a : ℕ) → lookup a g.cache ≡ m.value a

-- The array after a change at the address `a`.
abbrev Changed : ℕ → Option Entry → List Entry → List Entry → Type 0
Changed a v c d = Sorted d × ((b : ℕ) → lookup b d ≡ (if b == a then v else lookup b c))

abbrev stored : Entry → Entry → List Entry → List Entry
stored fresh x c = elim (find x.dst c) [ some (p, e) ↦ Array.put c p x | none ↦ add fresh x c ]

stored-Changed :
    (fresh x : Entry) (c : List Entry) → Sorted c → Changed x.dst (some x) c (stored fresh x c)
stored-Changed fresh x c s = elim (find-split x.dst c s) [
  | inl (n, h) ↦ rw (n, stored) (add_lem fresh x c s h)
  | inr (u, e, v, eq, f, q, b, k) ↦
      rw (f, stored) (rw (eq) (put_lem x.dst u e x v (subst Sorted eq s) refl q b k))
]

abbrev removed : ℕ → List Entry → List Entry
removed a c = elim (find a c) [ none ↦ c | some (p, e) ↦ Array.deletepart p 1 c ]

absent_here :
    (a b : ℕ) (c : List Entry)
    → lookup a c ≡ none
    → lookup b c ≡ (if b == a then none else lookup b c)
absent_here a b c h = elim (Bool-cases (b == a)) [
  | inl t ↦ let eq : b ≡ a = ground (arith, t) in rw (t) (ap (λ x. lookup x c) eq ∙ h)
  | inr t ↦ rw (t) refl
]

removed-Changed : (a : ℕ) (c : List Entry) → Sorted c → Changed a none c (removed a c)
removed-Changed a c s = elim (find-split a c s) [
  | inl (n, h) ↦ rw (n, removed) (s, λ b. absent_here a b c h)
  | inr (u, e, v, eq, f, q, b, k) ↦
      rw (f, removed) (rw (eq) (remove_lem a u e v (subst Sorted eq s) q b k))
]

Changed-Refines :
    (a : ℕ) (v : Option Entry) (g : GroupCache) (m : Map) (d : List Entry)
    → Refines g m
    → Changed a v g.cache d
    → Refines (record g { cache = d }) (write a v m)
Changed-Refines a v g m d r c = record {
  on = r.on;
  sorted = c.0;
  values = λ b. c.1 b ∙ ap (λ x. if b == a then v else x) (r.values b);
}

-- What `find` answers, and what the map holds.
pub found_value :
    (a : ℕ) (c : List Entry)
    → Sorted c
    → ((find a c ≡ none) × (lookup a c ≡ none))
      ⊎ ((p : ℕ) × (e : Entry) × (find a c ≡ some (p, e)) × (lookup a c ≡ some e))
found_value a c s = elim (find-split a c s) [
  | inl r ↦ inl r
  | inr (u, e, v, eq, f, q, b, k) ↦ inr (
    length u,
    e,
    f,
    ap (lookup a) eq
        ∙ lookup-around a a u e v q b
        ∙ ap (λ t. if t then some e else lookup a (u ++ v)) (==_refl a),
  )
]

-- The entry that Read looks for is the recent value of the map.
pub fresh_entry-recent :
    (now a age : ℕ) (g : GroupCache) (m : Map)
    → Refines g m
    → fresh_entry now a age g.cache ≡ recent now a age m
unfolding fresh_entry
fresh_entry-recent now a age g m r = elim (found_value a g.cache r.sorted) [
  | inl (f, n) ↦
      let v : m.value a ≡ none = sym (r.values a) ∙ n in rw (f, v, fresh_entry, recent) refl
  | inr (p, e, f, n) ↦
      let v : m.value a ≡ some e = sym (r.values a) ∙ n in rw (f, v, fresh_entry, recent) refl
]

frame-Refines :
    (fresh : Entry) (now : ℕ) (l : LData) (g : GroupCache) (m : Map)
    → Refines g m
    → Refines (get_l_data fresh now l g) (step (Op.frame fresh now l) m)
unfolding get_l_data store
frame-Refines fresh now l g m r = elim (Option-cases (data_of (Tpdu.from_packet l.payload))) [
  | inl n ↦ rw (n, step, get_l_data) r
  | inr (d, n) ↦
      let same : (g.enable && is_value d) ≡ (m.on && is_value d) = ap (λ x. x && is_value d) r.on in
      elim (Bool-cases (m.on && is_value d)) [
        | inl t ↦
            let t' = same ∙ t in
            let x = entry_of now l d in
            let q =
              Changed-Refines l.dest (some x) g m (stored fresh x g.cache) r
                (stored-Changed fresh x g.cache r.sorted) in
            rw (n, step, get_l_data)
              (rw (t', t) (record { on = q.on; sorted = q.sorted; values = q.values }))
        | inr t ↦ let t' = same ∙ t in rw (n, step, get_l_data) (rw (t', t) r)
      ]
]

kept :
    (expired : Bool) (unset a : ℕ) (g : GroupCache) (m : Map)
    → Refines g m
    → Refines
        (if◌then◌else◌ {A = Answer × GroupCache}
          (not expired)
          (Answer.waits, g)
          (Answer.answered (empty_entry unset a), g)).1
        m
kept true unset a g m r = r
kept false unset a g m r = r

awaited :
    (expired : Bool) (fresh x : Entry) (unset : ℕ) (g : GroupCache) (m : Map)
    → Refines g m
    → lookup x.dst g.cache ≡ none
    → Refines
        (if◌then◌else◌ {A = Answer × GroupCache}
          (not expired)
          (Answer.waits, g)
          (Answer.answered x, record g { cache = add fresh x g.cache })).1
        (if expired then write x.dst (some x) m else m)
awaited true fresh x unset g m r n =
    Changed-Refines x.dst (some x) g m (add fresh x g.cache) r (add_lem fresh x g.cache r.sorted n)
awaited false fresh x unset g m r n = r

await-Refines :
    (fresh : Entry) (unset now a age : ℕ) (expired : Bool) (g : GroupCache) (m : Map)
    → Refines g m
    → Refines
        (read_round fresh unset now a age expired g).1
        (step (Op.await fresh unset now a age expired) m)
unfolding read_round fresh_entry
await-Refines fresh unset now a age expired g m r = elim (found_value a g.cache r.sorted) [
  | inl (f, n) ↦
      let v : m.value a ≡ none = sym (r.values a) ∙ n in
      rw (f, v, fresh_entry, step, read_round)
        (rw f (awaited expired fresh (empty_entry now a) unset g m r n))
  | inr (p, e, f, n) ↦
      let v : m.value a ≡ some e = sym (r.values a) ∙ n in
      elim (Bool-cases (is_old now age e)) [
        | inl t ↦
            rw (f, v, fresh_entry, step, read_round) (rw (t) (rw f (kept expired unset a g m r)))
        | inr t ↦ rw (f, v, fresh_entry, step, read_round) (rw (t) r)
      ]
]

remove_step : (a : ℕ) (g : GroupCache) → remove a g ≡ record g { cache = removed a g.cache }
unfolding remove
remove_step a g = elim (Option-cases (find a g.cache)) [
  | inl n ↦ rw (n, remove, removed) refl
  | inr (f, n) ↦ rw (n, remove, removed) refl
]

forget-Refines :
    (a : ℕ) (g : GroupCache) (m : Map) → Refines g m → Refines (remove a g) (write a none m)
forget-Refines a g m r =
    subst (λ h. Refines h (write a none m)) (sym (remove_step a g))
      (Changed-Refines a none g m (removed a g.cache) r (removed-Changed a g.cache r.sorted))

perform-Refines :
    (o : Op) (g : GroupCache) (m : Map) → Refines g m → Refines (perform o g) (step o m)
unfolding remove start clear stop
perform-Refines (Op.frame fresh now l) g m r = frame-Refines fresh now l g m r
perform-Refines (Op.forget a) g m r = forget-Refines a g m r
perform-Refines (Op.switch_on registered) g m r = ground (arith, r)
perform-Refines Op.empty_all g m r = record { on = r.on; sorted = tt; values = λ a. refl }
perform-Refines Op.switch_off g m r = record { on = refl; sorted = tt; values = λ a. refl }
perform-Refines (Op.await fresh unset now addr age expired) g m r =
    await-Refines fresh unset now addr age expired g m r

pub perform_all-Refines :
    (os : List Op) (g : GroupCache) (m : Map)
    → Refines g m
    → Refines (perform_all os g) (step_all os m)
perform_all-Refines [] g m r = r
perform_all-Refines (o ∷ os) g m r =
    perform_all-Refines os (perform o g) (step o m) (perform-Refines o g m r)

pub new-Refines : Refines new empty
unfolding new
new-Refines = record { on = refl; sorted = tt; values = λ a. refl }
