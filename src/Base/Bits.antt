-- ===== src/Base/Bits.antt =====
-- `&` with a low mask and `|` of disjoint fields, as arithmetic at every width.
use Prim.Native.Nat.{ℕ, zero, suc, ◌+◌, ◌*◌, ◌/◌, ◌%◌, ◌^◌, ◌≤◌, ◌<◌, min, max}
use Prim.Native.Nat.{bit_and, bit_or, digits, bitwise, bit_and-bitwise, bit_or-bitwise}
use bcusdk.Base.Tests.{◌==◌, if◌then◌else◌}
use mathlib.Core.Path.{◌≡◌, refl, ap, ◌∙◌}
use mathlib.Core.Bool.{Bool, true, false}
use native.Mathlib.Nat.{pow-suc, div-div-eq-div-mul}
use native.Mathlib.Decide.{ℕ_discrete}
use native.Mathlib.Omega.{arith}

abbrev pub shl : ℕ → ℕ → ℕ
shl x k = x * 2 ^ k

abbrev pub shr : ℕ → ℕ → ℕ
shr x k = x / 2 ^ k

-- Two functions with the same values below a bound, by evaluation.
unfoldable pub same_below : ℕ → (ℕ → ℕ) → (ℕ → ℕ) → Bool
same_below zero f g = true
same_below (suc top) f g = if f top == g top then same_below top f g else false

pub table :
    (bound : ℕ) (f g : ℕ → ℕ)
    → same_below bound f g ≡ true
    → (value : ℕ) → value < bound
    → f value ≡ g value
unfolding same_below
table zero f g same value small = absurd (omega arith)
table (suc top) f g same value small = ground (arith, table top f g (ground arith) value)

-- The recursion on binary digits, with its fuel dropped.
module _ (z : ℕ → ℕ) (f : ℕ → ℕ → ℕ) where
  one_more : (n a b : ℕ) → a ≤ n → digits z f (suc n) a b ≡ digits z f n a b
  one_more zero zero b h = refl
  one_more zero (suc a) b h = absurd (omega arith)
  one_more (suc n) zero b h = refl
  one_more (suc n) (suc a) b h = rw (one_more n (suc a / 2) (b / 2) (omega arith))

  enough : (n a b : ℕ) → a ≤ n → digits z f n a b ≡ bitwise z f a b
  enough zero zero b h = refl
  enough zero (suc a) b h = absurd (omega arith)
  enough (suc n) a b h = elim (ℕ_discrete a (suc n)) [
    | yes e ↦ rw e
    | no ne ↦ one_more n a b (omega arith) ∙ enough n a b (omega arith)
  ]

  pub low_digit :
      (a b : ℕ)
      → bitwise z f (suc a) b ≡ bitwise z f (suc a / 2) (b / 2) * 2 + f (suc a % 2) (b % 2)
  low_digit a b = omega (arith, enough a (suc a / 2) (b / 2) (omega arith))

pub bit_and_digit : (a b : ℕ) → bit_and a b ≡ min (a % 2) (b % 2) + 2 * bit_and (a / 2) (b / 2)
bit_and_digit (suc a) b = omega (
  arith,
  bit_and-bitwise (suc a) b,
  bit_and-bitwise (suc a / 2) (b / 2),
  low_digit (λ _. 0) min a b,
)
bit_and_digit zero b = omega (arith, bit_and-bitwise 0 b, bit_and-bitwise 0 (b / 2))

pub bit_or_digit : (a b : ℕ) → bit_or a b ≡ max (a % 2) (b % 2) + 2 * bit_or (a / 2) (b / 2)
bit_or_digit (suc a) b = omega (
  arith,
  bit_or-bitwise (suc a) b,
  bit_or-bitwise (suc a / 2) (b / 2),
  low_digit (λ y. y) max a b,
)
bit_or_digit zero b = omega (arith, bit_or-bitwise 0 b, bit_or-bitwise 0 (b / 2))

bit_and-zero : (n a : ℕ) → a ≤ n → bit_and a 0 ≡ 0
bit_and-zero n zero h = refl
bit_and-zero zero (suc a) h = absurd (omega arith)
bit_and-zero (suc n) (suc a) h =
    omega (arith, bit_and_digit (suc a) 0, bit_and-zero n (suc a / 2) (omega arith))

bit_or-zero_upto : (n a : ℕ) → a ≤ n → bit_or a 0 ≡ a
bit_or-zero_upto n zero h = refl
bit_or-zero_upto zero (suc a) h = absurd (omega arith)
bit_or-zero_upto (suc n) (suc a) h =
    omega (arith, bit_or_digit (suc a) 0, bit_or-zero_upto n (suc a / 2) (omega arith))

scale : (q k : ℕ) → q * 2 ^ suc k ≡ 2 * (q * 2 ^ k)
scale q k = omega (arith, ap (λ (t : ℕ). q * t) (pow-suc 2 k))

-- `(q << k) | r` is the sum where `r` has `k` bits.
pub bit_or_fields : (k q r : ℕ) → r < 2 ^ k → bit_or (q * 2 ^ k) r ≡ q * 2 ^ k + r
bit_or_fields zero q r h = ground (arith, bit_or-zero_upto q q)
bit_or_fields (suc k) q r h =
    ground
      (arith, bit_or_digit (q * 2 ^ suc k) r, scale q k, bit_or_fields k q (r / 2) (omega arith))

-- `a & 0x03` to `a & 0xff`, whatever the width of `a`.
pub bit_and_1 : (a : ℕ) → bit_and a 1 ≡ a % 2
bit_and_1 a = omega (arith, bit_and_digit a 1, bit_and-zero (a / 2) (a / 2))

pub bit_and_3 : (a : ℕ) → bit_and a 3 ≡ a % 4
bit_and_3 a = omega (arith, bit_and_digit a 3, bit_and_1 (a / 2))

pub bit_and_7 : (a : ℕ) → bit_and a 7 ≡ a % 8
bit_and_7 a = omega (arith, bit_and_digit a 7, bit_and_3 (a / 2))

pub bit_and_15 : (a : ℕ) → bit_and a 0x0f ≡ a % 16
bit_and_15 a = omega (arith, bit_and_digit a 15, bit_and_7 (a / 2))

bit_and_31 : (a : ℕ) → bit_and a 0x1f ≡ a % 32
bit_and_31 a = omega (arith, bit_and_digit a 31, bit_and_15 (a / 2))

pub bit_and_63 : (a : ℕ) → bit_and a 0x3f ≡ a % 64
bit_and_63 a = omega (arith, bit_and_digit a 63, bit_and_31 (a / 2))

bit_and_127 : (a : ℕ) → bit_and a 0x7f ≡ a % 128
bit_and_127 a = omega (arith, bit_and_digit a 127, bit_and_63 (a / 2))

pub bit_and_255 : (a : ℕ) → bit_and a 0xff ≡ a % 256
bit_and_255 a = omega (arith, bit_and_digit a 255, bit_and_127 (a / 2))

pub bit_or-zero : (a : ℕ) → bit_or a 0 ≡ a
bit_or-zero a = bit_or-zero_upto a a (omega arith)

-- The top bit of a byte.
pub bit_and_top : (x : ℕ) → x < 256 → bit_and x 0x80 ≡ x / 128 * 128
unfolding same_below
bit_and_top = table 256 _ _ refl

pub bit_or_top : (x : ℕ) → x < 128 → bit_or x 0x80 ≡ x + 128
unfolding same_below
bit_or_top = table 128 _ _ refl

-- The mask that leaves out the three low bits of a byte.
pub bit_and_high : (x : ℕ) → x < 256 → bit_and x 0xf8 ≡ x / 8 * 8
unfolding same_below
bit_and_high = table 256 _ _ refl

halve : (a k : ℕ) → a / 2 / 2 ^ k ≡ a / 2 ^ suc k
halve a k = div-div-eq-div-mul a 2 (2 ^ k) ∙ ap (λ t. a / t) (omega (arith, pow-suc 2 k))

-- `a & (m << k)`
pub bit_and_shl : (k a m : ℕ) → bit_and a (m * 2 ^ k) ≡ bit_and (a / 2 ^ k) m * 2 ^ k
bit_and_shl zero a m = ground arith
bit_and_shl (suc k) a m = ground (
  arith,
  bit_and_digit a (m * 2 ^ suc k),
  scale m k,
  scale (bit_and (a / 2 ^ suc k) m) k,
  halve a k,
  bit_and_shl k (a / 2) m,
)
