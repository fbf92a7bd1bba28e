-- ===== src/Base/Bytes.antt =====
-- Byte arrays. A CArray is a list of numbers; `c[i]` is read within bounds only, which each
-- reader's length test grants, so the value at a missing position does not matter.
use bcusdk.Base.Lists.{get_or, All, length, take, drop}
use bcusdk.Base.Bits.{shl, bit_or_fields}
use Prim.Native.Nat.{ℕ, zero, suc, ◌+◌, ◌*◌, ◌/◌, ◌%◌, ◌<◌, bit_or}
use mathlib.Core.Path.{◌≡◌, refl, ap}
use mathlib.Core.List.{List, [], ◌∷◌, ◌++◌}
use native.Mathlib.Omega.{arith}

abbrev pub IsByte : ℕ → Type 0
IsByte b = b < 256

abbrev pub IsBytes : List ℕ → Type 0
IsBytes = All IsByte

abbrev pub IsWord : ℕ → Type 0
IsWord w = w < 65536

-- `c[i]`
abbrev pub at : List ℕ → ℕ → ℕ
at c i = get_or c i 0

-- `(hi << 8) | lo`, stored in 16 bits
abbrev pub word : ℕ → ℕ → ℕ
word hi lo = bit_or (shl hi 8) lo % 65536

pub at-IsByte : (c : List ℕ) (i : ℕ) → IsBytes c → at c i < 256
at-IsByte [] i h = omega arith
at-IsByte (x ∷ c) zero h = h.0
at-IsByte (x ∷ c) (suc i) h = at-IsByte c i h.1

pub word_sum : (hi lo : ℕ) → hi < 256 → lo < 256 → word hi lo ≡ hi * 256 + lo
word_sum hi lo h k = omega (arith, bit_or_fields 8 hi lo (omega arith))

-- The two bytes of a 16 bit number give it back.
pub word_bytes : (w : ℕ) → w < 65536 → word (w / 256 % 256) (w % 256) ≡ w
word_bytes w h = omega (arith, word_sum (w / 256 % 256) (w % 256) (omega arith) (omega arith))

-- The list from position `k` on, its last element, at position `m`, apart.
pub drop_last :
    (k n m : ℕ) (c : List ℕ)
    → m ≡ k + n
    → length c ≡ suc m
    → drop k c ≡ take n (drop k c) ++ (at c m ∷ [])
drop_last k n m [] e h = absurd (omega arith)
drop_last zero zero zero (x ∷ []) e h = refl
drop_last zero zero zero (x ∷ y ∷ c) e h = absurd (omega arith)
drop_last zero (suc n) (suc m) (x ∷ c) e h =
    ap (λ l. x ∷ l) (drop_last zero n m c (omega arith) (omega arith))
drop_last (suc k) n (suc m) (x ∷ c) e h = drop_last k n m c (omega arith) (omega arith)
drop_last zero zero (suc m) (x ∷ c) e h = absurd (omega arith)
drop_last zero (suc n) zero (x ∷ c) e h = absurd (omega arith)
drop_last (suc k) n zero (x ∷ c) e h = absurd (omega arith)

pub drop-at : (k : ℕ) (c : List ℕ) → k < length c → drop k c ≡ at c k ∷ drop (suc k) c
drop-at k [] h = absurd (omega arith)
drop-at zero (x ∷ c) h = refl
drop-at (suc k) (x ∷ c) h = drop-at k c (omega arith)
