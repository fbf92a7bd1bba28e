-- ===== src/GroupCache/Ring.antt =====
-- GroupCache::LastUpdates: which addresses were updated since a reader asked last. `start` and `pos`
-- are uint16_t; a place of the ring that was never written holds 0.
use bcusdk.Base.{
  ℕ, zero, suc, ◌+◌, ◌-◌, ◌%◌, ◌^◌, Bool, not, ◌&&◌, ◌||◌, Option, none, some, List, [], ◌∷◌, ltb,
  ◌==◌, if◌then◌else◌, bit_and, at,
}
use bcusdk.GroupCache.{GroupCache}

-- `(pos - 0x100) & 0xffff`, where the int is negative for a small `pos`.
abbrev pub ring_start : ℕ → ℕ
ring_start pos = (pos + 2 ^ 16 - 0x100) % 2 ^ 16

-- The two tests by which a `start` outside the last 256 updates is moved.
abbrev pub adjust : ℕ → ℕ → ℕ
adjust pos start =
    if ltb pos 0x100
    then (if ltb pos start && ltb start (ring_start pos) then ring_start pos else start)
    else (if ltb start (ring_start pos) || ltb pos start then ring_start pos else start)

-- `start++`
abbrev pub next_start : ℕ → ℕ
next_start start = (start + 1) % 2 ^ 16

-- `while (start != pos && !updates[start & 0xff]) start++`
unfoldable pub skip : ℕ → ℕ → List ℕ → ℕ → ℕ
skip zero pos u start = start
skip (suc fuel) pos u start =
    let rest = skip fuel pos u (next_start start) in
    if not (start == pos) && (at u (bit_and start 0xff) == 0) then rest else start

-- The loop that collects the addresses.
unfoldable pub collect : ℕ → ℕ → List ℕ → ℕ → List ℕ
collect zero pos u start = []
collect (suc fuel) pos u start =
    let rest = collect fuel pos u (next_start start) in
    let a = at u (bit_and start 0xff) in
    if start == pos then [] else (if a == 0 then rest else a ∷ rest)

-- One round of the outer loop, `expired` the state of its timer: the answer with `end`, or `none` for
-- a wait, and the new `start`. After `adjust`, 256 steps reach `pos`.
unfoldable pub last_updates : Bool → ℕ → GroupCache → Option (List ℕ × ℕ) × ℕ
last_updates expired start g =
    let s = skip 256 g.pos g.updates (adjust g.pos start) in
    if not (s == g.pos)
    then (some (collect 256 g.pos g.updates s, g.pos), g.pos)
    else (if expired then some ([], g.pos) else none, s)
