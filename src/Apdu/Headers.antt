-- ===== src/Apdu/Headers.antt =====
-- The second bytes that ToPacket in apdu.cpp makes of a message code, which is `q << 6`, and a small
-- field.
use bcusdk.Base.{arith, bit_and, bit_or, refl, some, ℕ, ◌*◌, ◌+◌, ◌/◌, ◌<◌, ◌^◌, ◌≡◌}
use bcusdk.Apdu.{
  a_adc_read, a_adc_response, a_device_descriptor_read, a_group_value_response, a_group_value_write,
  a_memory_read, a_memory_response, a_memory_write,
}
use bcusdk.Apdu.Service.{class_of}
use bcusdk.Base.Bits.{
  bit_and_15, bit_and_3, bit_and_63, bit_and_shl, bit_or_fields, same_below, table,
}

top_of : (q n : ℕ) → q < 4 → n < 64 → bit_and (bit_or (q * 2 ^ 6) n) 0xc0 ≡ q * 2 ^ 6
top_of q n h k =
    rw (bit_or_fields 6 q n k)
      (omega (arith, bit_and_shl 6 (q * 2 ^ 6 + n) 3, bit_and_3 ((q * 2 ^ 6 + n) / 2 ^ 6)))

pub field_of : (q n : ℕ) → n < 64 → bit_and (bit_or (q * 2 ^ 6) n) 0x3f ≡ n
field_of q n k = rw (bit_or_fields 6 q n k, bit_and_63 (q * 2 ^ 6 + n)) (omega arith)

pub count_of : (q n : ℕ) → n < 16 → bit_and (bit_or (q * 2 ^ 6) n) 0x0f ≡ n
count_of q n k = rw (bit_or_fields 6 q n (omega arith), bit_and_15 (q * 2 ^ 6 + n)) (omega arith)

pub class_of_group_value_response :
    (n : ℕ) → n < 64 → class_of 0x00 (bit_or 0x40 n) ≡ some a_group_value_response
unfolding class_of
class_of_group_value_response n h = rw (top_of 1 n (omega arith) h) refl

pub class_of_group_value_write :
    (n : ℕ) → n < 64 → class_of 0x00 (bit_or 0x80 n) ≡ some a_group_value_write
unfolding class_of
class_of_group_value_write n h = rw (top_of 2 n (omega arith) h) refl

pub class_of_adc_read : (n : ℕ) → n < 64 → class_of 0x01 (bit_or 0x80 n) ≡ some a_adc_read
unfolding class_of
class_of_adc_read n h = rw (top_of 2 n (omega arith) h) refl

pub class_of_adc_response : (n : ℕ) → n < 64 → class_of 0x01 (bit_or 0xc0 n) ≡ some a_adc_response
unfolding class_of
class_of_adc_response n h = rw (top_of 3 n (omega arith) h) refl

pub class_of_memory_read : (n : ℕ) → n < 64 → class_of 0x02 (bit_or 0x00 n) ≡ some a_memory_read
unfolding class_of
class_of_memory_read n h = rw (top_of 0 n (omega arith) h) refl

pub class_of_memory_response :
    (n : ℕ) → n < 64 → class_of 0x02 (bit_or 0x40 n) ≡ some a_memory_response
unfolding class_of
class_of_memory_response n h = rw (top_of 1 n (omega arith) h) refl

pub class_of_memory_write : (n : ℕ) → n < 64 → class_of 0x02 (bit_or 0x80 n) ≡ some a_memory_write
unfolding class_of
class_of_memory_write n h = rw (top_of 2 n (omega arith) h) refl

pub class_of_device_descriptor_read :
    (n : ℕ) → n < 64 → class_of 0x03 (bit_or 0x00 n) ≡ some a_device_descriptor_read
unfolding class_of
class_of_device_descriptor_read n h = rw (top_of 0 n (omega arith) h) refl

-- `0x01 | type`, which stays below the code of the response.
one_more : (n : ℕ) → n < 64 → bit_or 0x01 n ≡ n / 2 * 2 + 1
unfolding same_below
one_more = table 64 (λ n. bit_or 0x01 n) (λ n. n / 2 * 2 + 1) refl

pub with_one : (n : ℕ) → n < 64 → bit_or 0x01 n < 64 × (bit_or 0x00 (bit_or 0x01 n) ≡ bit_or 0x01 n)
with_one n h = (
  omega (arith, one_more n h),
  omega (arith, bit_or_fields 6 0 (bit_or 0x01 n) (omega (arith, one_more n h))),
)
