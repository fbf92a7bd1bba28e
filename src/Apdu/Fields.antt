-- ===== src/Apdu/Fields.antt =====
-- The fields that the messages of apdu.cpp are made of: bytes, words, keys and half bytes.
use bcusdk.Base.{
  ℕ, ◌+◌, ◌*◌, ◌%◌, ◌^◌, ◌<◌, ◌≡◌, Bool, true, Option, none, some, List, if◌then◌else◌, bit_and,
  bit_or, arith,
}
use bcusdk.Base.Bits.{shl, shr, bit_or_fields}

-- `(x >> 8) & 0xff` and `x & 0xff`
abbrev pub high_byte : ℕ → ℕ
high_byte x = bit_and (shr x 8) 0xff

abbrev pub low_byte : ℕ → ℕ
low_byte x = bit_and x 0xff

-- `(a << 24) | (b << 16) | (c << 8) | d`, stored in 32 bits
unfoldable pub key_of : ℕ → ℕ → ℕ → ℕ → ℕ
key_of a b c d = bit_or (bit_or (bit_or (shl a 24) (shl b 16)) (shl c 8)) d % 2 ^ 32

-- `assert (test)` before the packet is made: `none` where it stops the program.
abbrev pub asserting : Bool → List ℕ → Option (List ℕ)
asserting test c = if test then some c else none

pub asserting_holds :
    (test : Bool) (c d : List ℕ) → asserting test c ≡ some d → (test ≡ true) × (c ≡ d)
asserting_holds test c d e = ground arith

-- `return false` unless `test`.
abbrev pub taken_if {ℓ} : {A : Type ℓ} → Bool → A → Option A
taken_if test a = if test then some a else none

join_16 : (a b : ℕ) → b < 256 → bit_or (shl a 24) (shl b 16) ≡ shl (a * 256 + b) 16
join_16 a b h = omega (arith, bit_or_fields 24 a (b * 2 ^ 16) (omega arith))

join_8 : (q c : ℕ) → c < 256 → bit_or (shl q 16) (shl c 8) ≡ shl (q * 256 + c) 8
join_8 q c h = omega (arith, bit_or_fields 16 q (c * 2 ^ 8) (omega arith))

pub key_sum :
    (a b c d : ℕ)
    → a < 256
    → b < 256
    → c < 256
    → d < 256
    → key_of a b c d ≡ ((a * 256 + b) * 256 + c) * 256 + d
unfolding key_of
key_sum a b c d ha hb hc hd =
    rw (join_16 a b hb, join_8 (a * 256 + b) c hc)
      (omega (arith, bit_or_fields 8 ((a * 256 + b) * 256 + c) d (omega arith)))
