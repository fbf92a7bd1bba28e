-- ===== src/Tpdu/Header.antt =====
-- The first bytes of the messages: what ToPacket writes and how fromPacket takes it.
use bcusdk.Base.{ℕ, ◌+◌, ◌*◌, ◌/◌, ◌%◌, ◌<◌, ◌≡◌, refl, ◌∙◌, true, bit_and, bit_or, arith}
use mathlib.Core.Path.{ap₂}
use bcusdk.Base.Bits.{shl, table, same_below, bit_and_3}
use bcusdk.Tpdu.{
  candidate, Candidate, none_yet, new_data_xxx, new_connect, new_disconnect, new_ack, new_nack,
  new_data_connected, read_serno,
}

-- The first byte that ToPacket writes for a candidate read from the byte `x`, and the serial number.
unfoldable pub rewrite_by : Candidate → ℕ → ℕ
rewrite_by new_data_xxx x = bit_and x 0x3
rewrite_by new_connect x = 0x80
rewrite_by new_disconnect x = 0x81
rewrite_by new_ack x = bit_or 0xc2 (shl (bit_and (read_serno x) 0x0f) 2)
rewrite_by new_nack x = bit_or 0xc3 (shl (bit_and (read_serno x) 0x0f) 2)
rewrite_by new_data_connected x =
    bit_or (bit_or (bit_and x 0x3) 0x40) (shl (bit_and (read_serno x) 0x0f) 2)
rewrite_by none_yet x = x

pub rewrite_by_lem : (x : ℕ) → x < 256 → rewrite_by (candidate x) x ≡ x
rewrite_by_lem =
    table 256 (λ x. rewrite_by (candidate x) x) (λ x. x)
      (unfold same_below rewrite_by candidate in refl)

pub serno_fits : (x : ℕ) → x < 256 → bit_and (read_serno x) 0xf0 ≡ 0
serno_fits = table 256 (λ x. bit_and (read_serno x) 0xf0) (λ x. 0) (unfold same_below in refl)

abbrev code : Candidate → ℕ
code none_yet = 0
code new_data_xxx = 1
code new_connect = 2
code new_disconnect = 3
code new_ack = 4
code new_nack = 5
code new_data_connected = 6

code-injective : (k l : Candidate) → code k ≡ code l → k ≡ l
code-injective k l e = ground arith

-- All bytes that `f` makes are taken for the class `k`, by evaluation.
kinds :
    (n : ℕ) (f : ℕ → ℕ) (k : Candidate)
    → same_below n (λ y. code (candidate (f y))) (λ y. code k) ≡ true
    → (x : ℕ) → x < n
    → candidate (f x) ≡ k
kinds n f k e x h = code-injective _ k (table n (λ y. code (candidate (f y))) (λ y. code k) e x h)

abbrev pub data_byte : ℕ → ℕ
data_byte x = bit_and x 0x3

abbrev pub ack_byte : ℕ → ℕ
ack_byte n = bit_or 0xc2 (shl (bit_and n 0x0f) 2)

abbrev pub nack_byte : ℕ → ℕ
nack_byte n = bit_or 0xc3 (shl (bit_and n 0x0f) 2)

pub data_byte_kind : (x : ℕ) → candidate (data_byte x) ≡ new_data_xxx
data_byte_kind x =
    rw (bit_and_3 x)
      (kinds 4 (λ y. y) new_data_xxx (unfold same_below candidate in refl) (x % 4) (omega arith))

pub ack_byte_kind :
    (n : ℕ) → n < 16 → (candidate (ack_byte n) ≡ new_ack) × (read_serno (ack_byte n) ≡ n)
ack_byte_kind n h = (
  kinds 16 ack_byte new_ack (unfold same_below candidate in refl) n h,
  table 16 (λ y. read_serno (ack_byte y)) (λ y. y) (unfold same_below in refl) n h,
)

pub nack_byte_kind :
    (n : ℕ) → n < 16 → (candidate (nack_byte n) ≡ new_nack) × (read_serno (nack_byte n) ≡ n)
nack_byte_kind n h = (
  kinds 16 nack_byte new_nack (unfold same_below candidate in refl) n h,
  table 16 (λ y. read_serno (nack_byte y)) (λ y. y) (unfold same_below in refl) n h,
)

-- A header of connected data is one of 64 values: a serial number above two data bits.
abbrev pub connected_byte : ℕ → ℕ → ℕ
connected_byte n x = bit_or (bit_or (bit_and x 0x3) 0x40) (shl (bit_and n 0x0f) 2)

abbrev header : ℕ → ℕ
header m = connected_byte (m / 4) (m % 4)

same_header : (n x : ℕ) → n < 16 → connected_byte n x ≡ header (n * 4 + x % 4)
same_header n x h =
    let m = n * 4 + x % 4 in
    let p : bit_and x 0x3 ≡ bit_and (m % 4) 0x3 = omega (arith, bit_and_3 x, bit_and_3 (m % 4)) in
    let q : n ≡ m / 4 = omega arith in
    ap₂ (λ (a b : ℕ). bit_or (bit_or a 0x40) (shl (bit_and b 0x0f) 2)) p q

pub connected_byte_kind :
    (n x : ℕ)
    → n < 16
    → (candidate (connected_byte n x) ≡ new_data_connected) × (read_serno (connected_byte n x) ≡ n)
connected_byte_kind n x h =
    let m = n * 4 + x % 4 in
    let number : m / 4 ≡ n = omega arith in
    rw (same_header n x h) (
      kinds 64 header new_data_connected (unfold same_below candidate in refl) m (omega arith),
      table 64 (λ y. read_serno (header y)) (λ y. y / 4) (unfold same_below in refl) m (omega arith)
          ∙ number,
    )

pub low_nibble : (n : ℕ) → n < 256 → bit_and n 0xf0 ≡ n / 16 * 16
low_nibble = table 256 (λ n. bit_and n 0xf0) (λ n. n / 16 * 16) (unfold same_below in refl)
