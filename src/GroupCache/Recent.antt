-- ===== src/GroupCache/Recent.antt =====
-- What LastUpdates answers, by the history of the updates.
use bcusdk.Base.{
  ℕ, zero, suc, ◌+◌, ◌-◌, ◌%◌, ◌^◌, ◌<◌, ◌≤◌, ◌≡◌, ◌≢◌, ◌⊎◌, inl, inr, refl, sym, ◌∙◌, ap, Bool,
  true, false, not, ◌&&◌, Option, none, some, Bool-cases, List, [], ◌∷◌, length, get_or, arith,
  ◌==◌, if◌then◌else◌, bit_and, at, is_empty,
}
use Prim.Native.Nat.{min}
use bcusdk.Base.Bits.{bit_and_255}
use mathlib.Core.Path.{subst}
use bcusdk.GroupCache.{GroupCache}
use bcusdk.GroupCache.Ring.{adjust, next_start, skip, collect, last_updates}

-- How many updates lie between `start` and `pos`.
abbrev pub distance : ℕ → ℕ → ℕ
distance pos start = (pos + 2 ^ 16 - start) % 2 ^ 16

-- The ring after the updates `hist`, the newest first: it holds the last 256 of them.
pub record Holds (hist : List ℕ) (pos : ℕ) (u : List ℕ) : Type 0 where
  pub size : length u ≡ 256
  pub counted : pos ≡ length hist % 2 ^ 16
  pub places : (k : ℕ) → k < 256 → at u ((length hist + 255 - k) % 256) ≡ get_or hist k 0

-- The last `k` updates, the oldest first, without the address 0.
abbrev pub oldest_first : ℕ → List ℕ → List ℕ
oldest_first zero hist = []
oldest_first (suc k) hist =
    let rest = oldest_first k hist in let a = get_or hist k 0 in if a == 0 then rest else a ∷ rest

pub adjust-distance :
    (pos start : ℕ) → pos < 2 ^ 16 → start < 2 ^ 16 → distance pos (adjust pos start) ≤ 256
adjust-distance pos start h k = ground arith

adjust-lt : (pos start : ℕ) → pos < 2 ^ 16 → start < 2 ^ 16 → adjust pos start < 2 ^ 16
adjust-lt pos start h k = ground arith

pub adjust-min :
    (pos start : ℕ)
    → pos < 2 ^ 16
    → start < 2 ^ 16
    → distance pos (adjust pos start) ≡ min (distance pos start) 256
adjust-min pos start h k = ground arith

pub adjust_recent :
    (pos start : ℕ)
    → pos < 2 ^ 16
    → start < 2 ^ 16
    → distance pos start ≤ 256
    → adjust pos start ≡ start
adjust_recent pos start h k d = ground arith

next-distance :
    (pos start k : ℕ)
    → pos < 2 ^ 16
    → start < 2 ^ 16
    → distance pos start ≡ suc k
    → (next_start start < 2 ^ 16) × (distance pos (next_start start) ≡ k)
next-distance pos start k h s d = (omega arith, omega (arith, d))

distance_zero :
    (pos start : ℕ) → pos < 2 ^ 16 → start < 2 ^ 16 → distance pos start ≡ 0 → start ≡ pos
distance_zero pos start h s d = omega (arith, d)

distance-suc :
    (pos start k : ℕ)
    → pos < 2 ^ 16
    → start < 2 ^ 16
    → distance pos start ≡ suc k
    → (start == pos) ≡ false
distance-suc pos start k h s d = ground (arith, d)

-- The place of an update in the ring.
place_at :
    (hist : List ℕ) (pos : ℕ) (u : List ℕ) (start k : ℕ)
    → Holds hist pos u
    → start < 2 ^ 16
    → k < 256
    → distance pos start ≡ suc k
    → at u (bit_and start 0xff) ≡ get_or hist k 0
place_at hist pos u start k r s h d =
    let same : bit_and start 0xff ≡ (length hist + 255 - k) % 256 =
      omega (arith, bit_and_255 start, r.counted, d) in
    ap (at u) same ∙ r.places k h

module _ (hist : List ℕ) (pos : ℕ) (u : List ℕ) (r : Holds hist pos u) (p : pos < 2 ^ 16) where
  collect-oldest_first :
      (fuel k start : ℕ)
      → start < 2 ^ 16
      → distance pos start ≡ k
      → k ≤ fuel
      → k ≤ 256
      → collect fuel pos u start ≡ oldest_first k hist
  unfolding collect
  collect-oldest_first zero zero start s d h l = refl
  collect-oldest_first zero (suc k) start s d h l = absurd (omega arith)
  collect-oldest_first (suc fuel) zero start s d h l = ground (arith, distance_zero pos start p s d)
  collect-oldest_first (suc fuel) (suc k) start s d h l =
      let (s', d') = next-distance pos start k p s d in
      rw
        (
          distance-suc pos start k p s d,
          place_at hist pos u start k r s (omega arith) d,
          collect-oldest_first fuel k (next_start start) s' d' (omega arith) (omega arith),
          collect,
        )
        refl

  -- Where passing over the places that hold 0 may stop: nothing of what is collected is lost, and
  -- there is an address to collect unless it is the end.
  abbrev Stopped : ℕ → ℕ → Type 0
  Stopped k σ =
      (j : ℕ) × (j ≤ k)
      × (σ < 2 ^ 16)
      × (distance pos σ ≡ j)
      × (oldest_first j hist ≡ oldest_first k hist)
      × ((j ≡ 0) ⊎ ((0 < j) × (is_empty (oldest_first j hist) ≡ false)))

  skip_end :
      (fuel start : ℕ)
      → start < 2 ^ 16
      → distance pos start ≡ 0
      → skip (suc fuel) pos u start ≡ start
  unfolding skip
  skip_end fuel start s d = ground (arith, distance_zero pos start p s d)

  skip_on :
      (fuel k start : ℕ)
      → start < 2 ^ 16
      → k < 256
      → distance pos start ≡ suc k
      → get_or hist k 0 ≡ 0
      → skip (suc fuel) pos u start ≡ skip fuel pos u (next_start start)
  unfolding skip
  skip_on fuel k start s h d z =
      ground (arith, distance-suc pos start k p s d, place_at hist pos u start k r s h d, z)

  skip_stop :
      (fuel k start : ℕ)
      → start < 2 ^ 16
      → k < 256
      → distance pos start ≡ suc k
      → get_or hist k 0 ≢ 0
      → skip (suc fuel) pos u start ≡ start
  unfolding skip
  skip_stop fuel k start s h d z =
      ground (arith, distance-suc pos start k p s d, place_at hist pos u start k r s h d, z)

  skip-Stopped :
      (fuel k start : ℕ)
      → start < 2 ^ 16
      → distance pos start ≡ k
      → k ≤ fuel
      → k ≤ 256
      → Stopped k (skip fuel pos u start)
  skip-Stopped zero zero start s d h l =
      (0, omega arith, unfold skip in s, unfold skip in d, refl, inl refl)
  skip-Stopped zero (suc k) start s d h l = absurd (omega arith)
  skip-Stopped (suc fuel) zero start s d h l =
      subst (Stopped 0) (sym (skip_end fuel start s d)) (0, omega arith, s, d, refl, inl refl)
  skip-Stopped (suc fuel) (suc k) start s d h l =
      let (s', d') = next-distance pos start k p s d in
      elim (Bool-cases (get_or hist k 0 == 0)) [
        | inl t ↦
            let z : get_or hist k 0 ≡ 0 = ground (arith, t) in
            let (j, le, lt, dj, same, more) =
              skip-Stopped fuel k (next_start start) s' d' (omega arith) (omega arith) in
            subst (Stopped (suc k)) (sym (skip_on fuel k start s (omega arith) d z))
              (j, omega (arith, le), lt, dj, rw (t) same, more)
        | inr t ↦
            let z : get_or hist k 0 ≢ 0 = (λ e. ground (arith, t, e)) in
            subst (Stopped (suc k)) (sym (skip_stop fuel k start s (omega arith) d z))
              (suc k, omega arith, s, d, refl, inr (omega arith, rw (t) refl))
      ]

given_or_wait :
    (expired : Bool) (pos : ℕ)
    → (if◌then◌else◌ {A = Option (List ℕ × ℕ)} expired (some ([], pos)) none)
      ≡ (if not expired then none else some ([], pos))
given_or_wait true pos = refl
given_or_wait false pos = refl

-- The answer of a round: the last updates, from `start` on if it is not older than 256 updates.
pub last_updates-oldest_first :
    (expired : Bool) (start : ℕ) (hist : List ℕ) (g : GroupCache)
    → Holds hist g.pos g.updates
    → start < 2 ^ 16
    → (last_updates expired start g).0 ≡ (
        let recent = oldest_first (distance g.pos (adjust g.pos start)) hist in
        if is_empty recent && not expired then none else some (recent, g.pos))
unfolding last_updates
last_updates-oldest_first expired start hist g r h =
    let p : g.pos < 2 ^ 16 = omega (arith, r.counted) in
    let from = adjust g.pos start in
    let k = distance g.pos from in
    let near = adjust-distance g.pos start p h in
    let (j, le, lt, d, same, more) =
      skip-Stopped hist g.pos g.updates r p 256 k from (adjust-lt g.pos start p h) refl near near in
    let s = skip 256 g.pos g.updates from in
    elim more [
      | inl z ↦
          let end : (s == g.pos) ≡ true = ground (arith, distance_zero g.pos s p lt (d ∙ z)) in
          let none_left : oldest_first k hist ≡ [] = sym same ∙ ap (λ i. oldest_first i hist) z in
          rw (end, none_left, last_updates) (given_or_wait expired g.pos)
      | inr (pos_j, some_left) ↦
          let off : (s == g.pos) ≡ false = ground (arith, d, pos_j) in
          let all =
            collect-oldest_first hist g.pos g.updates r p 256 j s lt d (omega (arith, le, near))
              (omega (arith, le, near))
            ∙ same in
          let left : is_empty (oldest_first k hist) ≡ false = ap is_empty (sym same) ∙ some_left in
          rw (off, all, left, last_updates) refl
    ]
