-- ===== src/Base/Xor.antt =====
-- `^` as the sum of digits without carry.
use Prim.Native.Nat.{
  ℕ, zero, suc, ◌+◌, ◌*◌, ◌/◌, ◌%◌, ◌^◌, ◌≤◌, ◌<◌, bit_xor, differ, bit_xor-bitwise,
}
use bcusdk.Base.Bits.{low_digit}
use mathlib.Core.Path.{◌≡◌, refl, ◌∙◌}
use mathlib.Core.List.{List, [], ◌∷◌, ◌++◌, foldl}
use bcusdk.Base.Bytes.{IsBytes}
use native.Mathlib.Nat.{pow-suc}
use native.Mathlib.Omega.{arith}

differ_digits : (x y : ℕ) → x < 2 → y < 2 → differ x y ≡ (x + y) % 2
differ_digits zero zero h k = refl
differ_digits zero (suc zero) h k = refl
differ_digits (suc zero) zero h k = refl
differ_digits (suc zero) (suc zero) h k = refl
differ_digits (suc (suc x)) y h k = absurd (omega arith)
differ_digits zero (suc (suc y)) h k = absurd (omega arith)
differ_digits (suc zero) (suc (suc y)) h k = absurd (omega arith)

zero-bit_xor : (b : ℕ) → bit_xor 0 b ≡ b
zero-bit_xor b = bit_xor-bitwise 0 b

-- The lowest digit of a sum without carry.
bit_xor_digit : (a b : ℕ) → bit_xor a b ≡ bit_xor (a / 2) (b / 2) * 2 + (a + b) % 2
bit_xor_digit zero b = omega (arith, zero-bit_xor b, zero-bit_xor (b / 2))
bit_xor_digit (suc a) b = omega (
  arith,
  bit_xor-bitwise (suc a) b,
  bit_xor-bitwise (suc a / 2) (b / 2),
  low_digit (λ y. y) differ a b,
  differ_digits (suc a % 2) (b % 2) (omega arith) (omega arith),
)

bit_xor-lt : (k a b : ℕ) → a < 2 ^ k → b < 2 ^ k → bit_xor a b < 2 ^ k
bit_xor-lt zero zero b h g = omega (arith, zero-bit_xor b)
bit_xor-lt zero (suc a) b h g = absurd (omega arith)
bit_xor-lt (suc k) a b h g = omega (
  arith,
  bit_xor_digit a b,
  pow-suc 2 k,
  bit_xor-lt k (a / 2) (b / 2) (omega (arith, pow-suc 2 k)) (omega (arith, pow-suc 2 k)),
)

bit_xor-comm_upto : (n a b : ℕ) → a ≤ n → b ≤ n → bit_xor a b ≡ bit_xor b a
bit_xor-comm_upto zero zero zero h k = refl
bit_xor-comm_upto zero zero (suc b) h k = absurd (omega arith)
bit_xor-comm_upto zero (suc a) b h k = absurd (omega arith)
bit_xor-comm_upto (suc n) a b h k = omega (
  arith,
  bit_xor_digit a b,
  bit_xor_digit b a,
  bit_xor-comm_upto n (a / 2) (b / 2) (omega arith) (omega arith),
)

cancel_upto : (n a b c : ℕ) → b ≤ n → c ≤ n → bit_xor a b ≡ bit_xor a c → b ≡ c
cancel_upto zero a b c h k e = omega arith
cancel_upto (suc n) a b c h k e =
    let p = bit_xor_digit a b in
    let q = bit_xor_digit a c in
    omega (
      arith,
      p,
      q,
      cancel_upto n (a / 2) (b / 2) (c / 2) (omega arith) (omega arith) (omega (arith, p, q)),
    )

-- Two numbers that give the same with a third are the same.
pub bit_xor-cancel_left : (a b c : ℕ) → bit_xor a b ≡ bit_xor a c → b ≡ c
bit_xor-cancel_left a b c = cancel_upto (b + c) a b c (omega arith) (omega arith)

pub bit_xor-cancel_right : (a b c : ℕ) → bit_xor a c ≡ bit_xor b c → a ≡ b
bit_xor-cancel_right a b c e = bit_xor-cancel_left c a b (
    bit_xor-comm_upto (c + a) c a (omega arith) (omega arith)
    ∙ e
    ∙ bit_xor-comm_upto (b + c) b c (omega arith) (omega arith))

-- A running xor keeps to a byte, and its start can be told from its end.
pub foldl-bit_xor-IsByte : (c : List ℕ) (a : ℕ) → a < 256 → IsBytes c → foldl bit_xor a c < 256
foldl-bit_xor-IsByte [] a h b = h
foldl-bit_xor-IsByte (x ∷ c) a h b =
    foldl-bit_xor-IsByte c (bit_xor a x) (bit_xor-lt 8 a x h b.0) b.1

pub foldl-bit_xor-injective : (c : List ℕ) (a b : ℕ) → foldl bit_xor a c ≡ foldl bit_xor b c → a ≡ b
foldl-bit_xor-injective [] a b e = e
foldl-bit_xor-injective (x ∷ c) a b e =
    bit_xor-cancel_right a b x (foldl-bit_xor-injective c (bit_xor a x) (bit_xor b x) e)

-- One changed element changes the running xor.
pub foldl-bit_xor-change :
    (u v : List ℕ) (x y a : ℕ)
    → foldl bit_xor a (u ++ (x ∷ v)) ≡ foldl bit_xor a (u ++ (y ∷ v))
    → x ≡ y
foldl-bit_xor-change [] v x y a e =
    bit_xor-cancel_left a x y (foldl-bit_xor-injective v (bit_xor a x) (bit_xor a y) e)
foldl-bit_xor-change (z ∷ u) v x y a e = foldl-bit_xor-change u v x y (bit_xor a z) e
