-- ===== src/GroupCache/History.antt =====
-- GroupCache::LastUpdates over the history of a cache.
use bcusdk.Base.{
  ℕ, zero, suc, ◌+◌, ◌-◌, ◌%◌, ◌^◌, ◌<◌, ◌≤◌, ◌≡◌, inl, inr, refl, sym, ◌∙◌, ap, Bool, false, not,
  ◌&&◌, none, some, Option-cases, Bool-cases, List, [], ◌∷◌, ◌++◌, length, length-append, get_or,
  replicate, arith, ◌==◌, ==_refl, if◌then◌else◌, bit_and, at, set, is_empty,
}
use Prim.Native.Nat.{min}
use bcusdk.Base.Bits.{bit_and_255}
use mathlib.Core.List.{append_assoc}
use bcusdk.Tpdu
use bcusdk.GroupCache.{
  Entry, GroupCache, new, store, get_l_data, remove, start, clear, stop, read_round, is_value,
  data_of, find,
}
use bcusdk.GroupCache.Map.{Op, perform, perform_all}
use bcusdk.GroupCache.Ring.{adjust, last_updates}
use bcusdk.GroupCache.Recent.{
  Holds, distance, oldest_first, adjust_recent, adjust-min, last_updates-oldest_first,
}

-- The addresses that a call adds to the history of the updates, the newest first.
abbrev pub recorded : Op → GroupCache → List ℕ → List ℕ
recorded (Op.frame fresh now l) g hist = elim (data_of (Tpdu.from_packet l.payload)) [
  | none ↦ hist
  | some d ↦ if g.enable && is_value d then l.dest ∷ hist else hist
]
recorded _ g hist = hist

abbrev pub recorded_all : List Op → GroupCache → List ℕ → List ℕ
recorded_all [] g hist = hist
recorded_all (o ∷ os) g hist = recorded_all os (perform o g) (recorded o g hist)

at-set : (u : List ℕ) (i j v : ℕ) → i < length u → at (set u i v) j ≡ (if j == i then v else at u j)
at-set [] i j v h = absurd (omega arith)
at-set (x ∷ u) zero zero v h = refl
at-set (x ∷ u) zero (suc j) v h = ground arith
at-set (x ∷ u) (suc i) zero v h = ground arith
at-set (x ∷ u) (suc i) (suc j) v h = ground (arith, at-set u i j v (omega arith))

length-set : (u : List ℕ) (i v : ℕ) → length (set u i v) ≡ length u
length-set [] i v = refl
length-set (x ∷ u) zero v = refl
length-set (x ∷ u) (suc i) v = ap suc (length-set u i v)

write_place :
    (hist : List ℕ) (pos : ℕ) (u : List ℕ) (a : ℕ)
    → Holds hist pos u
    → (k : ℕ) → k < 256
    → at (set u (bit_and pos 0xff) a) ((length (a ∷ hist) + 255 - k) % 256) ≡ get_or (a ∷ hist) k 0
write_place hist pos u a r zero h =
    let same : (length (a ∷ hist) + 255 - 0) % 256 ≡ bit_and pos 0xff =
      omega (arith, bit_and_255 pos, r.counted) in
    let i = bit_and pos 0xff in
    ap (at (set u i a)) same
    ∙ at-set u i i a (omega (arith, bit_and_255 pos, r.size))
    ∙ ap (λ t. if t then a else at u i) (==_refl i)
write_place hist pos u a r (suc k) h =
    let other : ((length (a ∷ hist) + 255 - suc k) % 256 == bit_and pos 0xff) ≡ false =
      ground (arith, bit_and_255 pos, r.counted, h) in
    let place : (length (a ∷ hist) + 255 - suc k) % 256 ≡ (length hist + 255 - k) % 256 =
      omega arith in
    let i = bit_and pos 0xff in
    let j = (length (a ∷ hist) + 255 - suc k) % 256 in
    at-set u i j a (omega (arith, bit_and_255 pos, r.size))
    ∙ ap (λ t. if t then a else at u j) other
    ∙ ap (at u) place
    ∙ r.places k (omega arith)

write-Holds :
    (hist : List ℕ) (pos : ℕ) (u : List ℕ) (a : ℕ)
    → Holds hist pos u
    → Holds (a ∷ hist) ((pos + 1) % 2 ^ 16) (set u (bit_and pos 0xff) a)
write-Holds hist pos u a r = record {
  size = length-set u (bit_and pos 0xff) a ∙ r.size;
  counted = omega (arith, r.counted);
  places = write_place hist pos u a r;
}

get_or-replicate : (n k : ℕ) → get_or {A = ℕ} (replicate n 0) k 0 ≡ 0
get_or-replicate zero k = refl
get_or-replicate (suc n) zero = refl
get_or-replicate (suc n) (suc k) = get_or-replicate n k

new-Holds : Holds [] new.pos new.updates
unfolding new
new-Holds = record {
  size = refl;
  counted = refl;
  places = λ k h. get_or-replicate 256 ((0 + 255 - k) % 256);
}

start_ring :
    (registered : Bool) (g : GroupCache)
    → ((start registered g).0.pos ≡ g.pos) × ((start registered g).0.updates ≡ g.updates)
unfolding start
start_ring registered g = ground arith

read_round_ring :
    (fresh : Entry) (unset now a age : ℕ) (expired : Bool) (g : GroupCache)
    → ((read_round fresh unset now a age expired g).1.pos ≡ g.pos)
      × ((read_round fresh unset now a age expired g).1.updates ≡ g.updates)
unfolding read_round
read_round_ring fresh unset now a age expired g = ground arith

kept-Holds :
    (hist : List ℕ) (g h : GroupCache)
    → (h.pos ≡ g.pos) × (h.updates ≡ g.updates)
    → Holds hist g.pos g.updates
    → Holds hist h.pos h.updates
kept-Holds hist g h e r = rw (e.0, e.1) r

perform-Holds :
    (o : Op) (g : GroupCache) (hist : List ℕ)
    → Holds hist g.pos g.updates
    → Holds (recorded o g hist) (perform o g).pos (perform o g).updates
unfolding get_l_data store remove start clear stop read_round
perform-Holds (Op.frame fresh now l) g hist r =
    elim (Option-cases (data_of (Tpdu.from_packet l.payload))) [
      | inl n ↦ rw (n, get_l_data, recorded) r
      | inr (d, n) ↦ elim (Bool-cases (g.enable && is_value d)) [
        | inl t ↦ rw (n, get_l_data, recorded) (rw t (write-Holds hist g.pos g.updates l.dest r))
        | inr t ↦ rw (n, get_l_data, recorded) (rw t r)
      ]
    ]
perform-Holds (Op.forget a) g hist r = elim (Option-cases (find a g.cache)) [
  | inl n ↦ rw (n, remove) r
  | inr (x, n) ↦ rw (n, remove) r
]
perform-Holds (Op.switch_on registered) g hist r =
    kept-Holds hist g (start registered g).0 (start_ring registered g) r
perform-Holds Op.empty_all g hist r = r
perform-Holds Op.switch_off g hist r = r
perform-Holds (Op.await fresh unset now addr age expired) g hist r =
    kept-Holds hist g (read_round fresh unset now addr age expired g).1
      (read_round_ring fresh unset now addr age expired g) r

perform_all-Holds :
    (os : List Op) (g : GroupCache) (hist : List ℕ)
    → Holds hist g.pos g.updates
    → Holds (recorded_all os g hist) (perform_all os g).pos (perform_all os g).updates
perform_all-Holds [] g hist r = r
perform_all-Holds (o ∷ os) g hist r =
    perform_all-Holds os (perform o g) (recorded o g hist) (perform-Holds o g hist r)

-- The address part of a history is a list on top of the older one.
recorded-append :
    (o : Op) (g : GroupCache) (hist : List ℕ) → recorded o g hist ≡ recorded o g [] ++ hist
recorded-append (Op.frame fresh now l) g hist =
    elim (Option-cases (data_of (Tpdu.from_packet l.payload))) [
      | inl n ↦ rw (n, recorded) refl
      | inr (d, n) ↦ elim (Bool-cases (g.enable && is_value d)) [
        | inl t ↦ rw (n, recorded) (rw t refl)
        | inr t ↦ rw (n, recorded) (rw t refl)
      ]
    ]
recorded-append (Op.forget a) g hist = refl
recorded-append (Op.switch_on registered) g hist = refl
recorded-append Op.empty_all g hist = refl
recorded-append Op.switch_off g hist = refl
recorded-append (Op.await fresh unset now addr age expired) g hist = refl

recorded_all-append :
    (os : List Op) (g : GroupCache) (hist : List ℕ)
    → recorded_all os g hist ≡ recorded_all os g [] ++ hist
recorded_all-append [] g hist = refl
recorded_all-append (o ∷ os) g hist =
    recorded_all-append os (perform o g) (recorded o g hist)
    ∙ ap (λ h. recorded_all os (perform o g) [] ++ h) (recorded-append o g hist)
    ∙ sym (append_assoc (recorded_all os (perform o g) []) (recorded o g []) hist)
    ∙ ap (λ h. h ++ hist) (sym (recorded_all-append os (perform o g) (recorded o g [])))

get_or-append : (xs ys : List ℕ) (k : ℕ) → k < length xs → get_or (xs ++ ys) k 0 ≡ get_or xs k 0
get_or-append [] ys k h = absurd (omega arith)
get_or-append (x ∷ xs) ys zero h = refl
get_or-append (x ∷ xs) ys (suc k) h = get_or-append xs ys k (omega arith)

oldest_first-append :
    (k : ℕ) (xs ys : List ℕ) → k ≤ length xs → oldest_first k (xs ++ ys) ≡ oldest_first k xs
oldest_first-append zero xs ys h = refl
oldest_first-append (suc k) xs ys h =
    rw (get_or-append xs ys k h, oldest_first-append k xs ys (omega arith)) refl

-- After any calls, a reader that waits from any `start`: it gets the updates from the number `start`
-- on, counted modulo 2 ^ 16 and the last 256 at most, oldest first and without the address 0; and
-- it waits exactly if there is none and its timer still runs.
pub perform_all-last_updates :
    (os : List Op) (expired : Bool) (start : ℕ)
    → start < 2 ^ 16
    → (last_updates expired start (perform_all os new)).0 ≡ (
        let g = perform_all os new in
        let seen = oldest_first (min (distance g.pos start) 256) (recorded_all os new []) in
        if is_empty seen && not expired then none else some (seen, g.pos))
perform_all-last_updates os expired start h =
    let g = perform_all os new in
    let r = perform_all-Holds os new [] new-Holds in
    let p : g.pos < 2 ^ 16 = omega (arith, r.counted) in
    last_updates-oldest_first expired start (recorded_all os new []) g r h
    ∙ ap
        (λ k.
          let seen = oldest_first k (recorded_all os new []) in
          if is_empty seen && not expired then none else some (seen, g.pos))
        (adjust-min g.pos start p h)

-- A reader that asks from the position it was given last gets each update since then, in order and
-- without the address 0, if there were at most 256 of them.
pub perform_all-missed :
    (before after : List Op) (expired : Bool)
    → length (recorded_all after (perform_all before new) []) ≤ 256
    → (last_updates expired
        (perform_all before new).pos
        (perform_all after (perform_all before new))).0
      ≡ (let g = perform_all before new in
          let since = recorded_all after g [] in
          let seen = oldest_first (length since) since in
          if is_empty seen && not expired then none else some (seen, (perform_all after g).pos))
perform_all-missed before after expired few =
    let g = perform_all before new in
    let g' = perform_all after g in
    let old = recorded_all before new [] in
    let since = recorded_all after g [] in
    let r = perform_all-Holds before new [] new-Holds in
    let r' = perform_all-Holds after g old r in
    let joined = recorded_all-append after g old in
    let size : length (recorded_all after g old) ≡ length since + length old =
      ap length joined ∙ length-append since old in
    let apart : distance g'.pos g.pos ≡ length since =
      omega (arith, r.counted, r'.counted, size, few) in
    let p : g.pos < 2 ^ 16 = omega (arith, r.counted) in
    let p' : g'.pos < 2 ^ 16 = omega (arith, r'.counted) in
    let same : adjust g'.pos g.pos ≡ g.pos =
      adjust_recent g'.pos g.pos p' p (omega (arith, apart, few)) in
    let seen_eq : oldest_first (distance g'.pos (adjust g'.pos g.pos)) (recorded_all after g old)
        ≡ oldest_first (length since) since =
      ap (λ s. oldest_first (distance g'.pos s) (recorded_all after g old)) same
      ∙ ap (λ k. oldest_first k (recorded_all after g old)) apart
      ∙ ap (oldest_first (length since)) joined
      ∙ oldest_first-append (length since) since old (omega arith) in
    last_updates-oldest_first expired g.pos (recorded_all after g old) g' r' p
    ∙ ap (λ s. if is_empty s && not expired then none else some (s, g'.pos)) seen_eq
