-- ===== src/Apdu/Values.antt =====
-- What the fields of the messages in apdu.cpp are read back as, and the second bytes that hold a
-- field of the message.
use bcusdk.Base.{ℕ, ◌+◌, ◌*◌, ◌/◌, ◌%◌, ◌^◌, ◌<◌, ◌≡◌, refl, bit_and, bit_or, word, arith}
use bcusdk.Base.Bits.{
  shl, shr, table, same_below, bit_and_3, bit_and_15, bit_and_255, bit_and_shl, bit_or_fields,
}
use bcusdk.Lpdu.Header.{address_bytes}
use bcusdk.Apdu.Fields.{high_byte, low_byte, key_of, key_sum}
use bcusdk.Apdu.Property.{count_start}
use bcusdk.Apdu.Memory.{extension_count}

pub word_back : (w : ℕ) → w < 65536 → word (high_byte w) (low_byte w) ≡ w
word_back = address_bytes

pub key_back :
    (k : ℕ)
    → k < 2 ^ 32
    → key_of (bit_and (shr k 24) 0xff) (bit_and (shr k 16) 0xff) (high_byte k) (low_byte k) ≡ k
key_back k h =
    rw (bit_and_255 (k / 2 ^ 24), bit_and_255 (k / 2 ^ 16), bit_and_255 (k / 2 ^ 8), bit_and_255 k)
      (omega (
        arith,
        key_sum (k / 2 ^ 24 % 256) (k / 2 ^ 16 % 256) (k / 2 ^ 8 % 256) (k % 256) (omega arith)
            (omega arith) (omega arith) (omega arith),
      ))

-- A byte without its four high bits, and without its two high bits.
pub half_byte : (n : ℕ) → n < 256 → bit_and n 0xf0 ≡ 0 → n < 16
half_byte n h e = omega (arith, bit_and_shl 4 n 15, bit_and_15 (n / 2 ^ 4))

pub half_byte_fits : (n : ℕ) → n < 16 → bit_and n 0xf0 ≡ 0
unfolding same_below
half_byte_fits = table 16 (λ n. bit_and n 0xf0) (λ n. 0) refl

pub half_byte_back : (n : ℕ) → n < 16 → bit_and n 0x0f ≡ n
unfolding same_below
half_byte_back = table 16 (λ n. bit_and n 0x0f) (λ n. n) refl

pub small_fits : (n : ℕ) → n < 64 → bit_and n 0xc0 ≡ 0
unfolding same_below
small_fits = table 64 (λ n. bit_and n 0xc0) (λ n. 0) refl

pub small : (n : ℕ) → n < 256 → bit_and n 0xc0 ≡ 0 → n < 64
small n h e = omega (arith, bit_and_shl 6 n 3, bit_and_3 (n / 2 ^ 6))

pub small_back : (n : ℕ) → n < 64 → bit_and n 0x3f ≡ n
unfolding same_below
small_back = table 64 (λ n. bit_and n 0x3f) (λ n. n) refl

pub start_bound : (n : ℕ) → n < 65536 → bit_and n 0xf000 ≡ 0 → n < 4096
start_bound n h e = omega (arith, bit_and_shl 12 n 15, bit_and_15 (n / 2 ^ 12))

pub start_fits : (n : ℕ) → n < 4096 → bit_and n 0xf000 ≡ 0
start_fits n h = omega (arith, bit_and_shl 12 n 15, bit_and_15 (n / 2 ^ 12))

-- Two half bytes, and what is read of them.
halves_sum : (a b : ℕ) → a < 16 → bit_or (shl (bit_and a 0x0f) 4) (bit_and b 0x0f) ≡ a * 16 + b % 16
halves_sum a b h = rw (half_byte_back a h, bit_and_15 b) (bit_or_fields 4 a (b % 16) (omega arith))

high_half :
    (a b : ℕ) → a < 16 → bit_and (shr (bit_or (shl (bit_and a 0x0f) 4) (bit_and b 0x0f)) 4) 0x0f ≡ a
high_half a b h = rw (halves_sum a b h, bit_and_15 ((a * 16 + b % 16) / 2 ^ 4)) (omega arith)

low_half :
    (a b : ℕ) → a < 16 → bit_and (bit_or (shl (bit_and a 0x0f) 4) (bit_and b 0x0f)) 0x0f ≡ b % 16
low_half a b h = rw (halves_sum a b h, bit_and_15 (a * 16 + b % 16)) (omega arith)

pub count_back : (n start : ℕ) → n < 16 → bit_and (shr (count_start n start) 4) 0x0f ≡ n
count_back n start h = high_half n (shr start 8) h

pub start_back :
    (n start : ℕ)
    → n < 16
    → start < 4096
    → bit_or (shl (bit_and (count_start n start) 0x0f) 8) (low_byte start) ≡ start
start_back n start h k =
    rw (low_half n (shr start 8) h, bit_and_255 start)
      (omega (arith, bit_or_fields 8 (start / 2 ^ 8 % 16) (start % 256) (omega arith)))

pub extension_back : (e n : ℕ) → e < 16 → bit_and (shr (extension_count e n) 4) 0x0f ≡ e
extension_back e n h = high_half e n h

pub extended_count_back : (e n : ℕ) → e < 16 → n < 16 → bit_and (extension_count e n) 0x0f ≡ n
extended_count_back e n h k = omega (arith, low_half e n h)
