-- ===== src/Apdu/Bounds/Parts.antt =====
-- What the tests of `init` in apdu.cpp grant, and the ranges of its fields.
use bcusdk.Base.{
  All-drop, All-take, Bool, IsByte, IsBytes, List, Option, [], arith, at, at-IsByte, bit_and, drop,
  false, if◌then◌else◌, length, length-drop, length-take, none, refl, some, take, true, ℕ, ◌%◌, ◌+◌,
  ◌<◌, ◌∷◌, ◌≡◌, ◌≤◌,
}
use bcusdk.Apdu.{Apdu}
use bcusdk.Apdu.Access.{read_key}
use bcusdk.Apdu.Fields.{key_of, taken_if}
use bcusdk.Apdu.Group.{read_serial}
use bcusdk.Apdu.Property.{read_start}
use bcusdk.Apdu.Ranges.{IsBlock, IsGroupValue, IsKey, IsReadApdu, IsSerial}
use bcusdk.Base.Bits.{bit_and_15, bit_and_63, bit_or_fields}
use mathlib.Core.Path.{subst}
use mathlib.Core.Option.{some-injective}

-- What a message satisfies that was taken.
pub taken :
    (test : Bool) (a : Apdu) {m : Apdu}
    → taken_if test a ≡ some m
    → (test ≡ true → IsReadApdu a)
    → IsReadApdu m
taken true a e h = subst IsReadApdu (some-injective _ _ e) (h refl)
taken false a e h = ground arith

pub unless :
    (test : Bool) (o : Option Apdu) {m : Apdu}
    → (if test then none else o) ≡ some m
    → (test ≡ false → o ≡ some m → IsReadApdu m)
    → IsReadApdu m
unless false o e h = h refl e
unless true o e h = ground arith

pub either :
    (test : Bool) (a b : Apdu) {m : Apdu}
    → (if test then some a else some b) ≡ some m
    → IsReadApdu a
    → (test ≡ false → IsReadApdu b)
    → IsReadApdu m
either true a b e h k = taken true a e (λ _. h)
either false a b e h k = taken true b e (λ _. k refl)

pub six_bits : (x : ℕ) → bit_and x 0x3f < 64
six_bits x = omega (arith, bit_and_63 x)

pub four_bits : (x : ℕ) → bit_and x 0x0f < 16
four_bits x = omega (arith, bit_and_15 x)

pub start_range : (c : List ℕ) → IsBytes c → read_start c < 4096
start_range c b =
    rw (bit_and_15 (at c 4))
      (omega (arith, bit_or_fields 8 (at c 4 % 16) (at c 5) (at-IsByte c 5 b), at-IsByte c 5 b))

pub read_key-IsKey : (c : List ℕ) → IsKey (read_key c)
unfolding key_of
read_key-IsKey c = omega arith

pub read_serial-IsSerial : (c : List ℕ) → IsBytes c → 8 ≤ length c → IsSerial (read_serial c)
read_serial-IsSerial c b h = (
  ground (arith, length-take 6 (drop 2 c), length-drop 2 c),
  All-take IsByte 6 (drop 2 c) (All-drop IsByte 2 c b),
)

pub mask_range :
    (c : List ℕ) (from n : ℕ) → IsBytes c → from + n ≤ length c → IsBlock n (take n (drop from c))
mask_range c from n b h = (
  ground (arith, length-take n (drop from c), length-drop from c),
  All-take IsByte n (drop from c) (All-drop IsByte from c b),
)

pub small_range : (c : List ℕ) → IsGroupValue true (bit_and (at c 1) 0x3f ∷ [])
small_range c = (refl, six_bits (at c 1), (omega (arith, six_bits (at c 1)), tt))

pub bytes_range : (c : List ℕ) → IsBytes c → 2 < length c → IsGroupValue false (drop 2 c)
bytes_range c b h = (ground (arith, length-drop 2 c), All-drop IsByte 2 c b)
