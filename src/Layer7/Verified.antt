-- ===== src/Layer7/Verified.antt =====
-- layer7.cpp: X_Memory_Write, X_Memory_Read_Block and X_Memory_Write_Block with a device that answers.
use bcusdk.Base.{
  Bool-cases, IsBytes, List, [], arith, inl, inr, length, refl, suc, true, zero, ℕ, ◌%◌, ◌+◌, ◌<◌,
  ◌==◌, ◌∙◌, ◌∷◌, ◌≡◌, ◌≤◌,
}
use bcusdk.Array.Equal.{equal_refl}
use bcusdk.Layer7.{ok, write_memory_verified}
use bcusdk.Layer7.Device.{
  IsMemory, bytes_at, device, quiet, read_memory-device, stored, write_memory-device,
}
use mathlib.Core.Path.{ap₂}

pub stored-below : (a k : ℕ) (c : List ℕ) (m : ℕ → ℕ) → k < a → stored a c m k ≡ m k
stored-below a k [] m h = refl
stored-below a k (x ∷ c) m h = ground (arith, stored-below (a + 1) k c m (omega arith))

pub bytes_at-same :
    (m l : ℕ → ℕ) (a n : ℕ) → ((k : ℕ) → a ≤ k → m k ≡ l k) → bytes_at m a n ≡ bytes_at l a n
bytes_at-same m l a zero h = refl
bytes_at-same m l a (suc n) h =
    ap₂ ◌∷◌ (h a (omega arith)) (bytes_at-same m l (a + 1) n (λ k le. h k (omega arith)))

stored-head : (a x : ℕ) (c : List ℕ) (m : ℕ → ℕ) → stored a (x ∷ c) m a ≡ x
stored-head a x c m = ground arith

-- What was stored is read.
pub bytes_at-stored : (m : ℕ → ℕ) (a : ℕ) (c : List ℕ) → bytes_at (stored a c m) a (length c) ≡ c
bytes_at-stored m a [] = refl
bytes_at-stored m a (x ∷ c) = ap₂ ◌∷◌ (stored-head a x c m) (
    bytes_at-same (stored a (x ∷ c) m) (stored (a + 1) c m) (a + 1) (length c)
      (λ k le. ground arith)
    ∙ bytes_at-stored m (a + 1) c)

pub stored-IsMemory :
    (m : ℕ → ℕ) (a : ℕ) (c : List ℕ) → IsMemory m → IsBytes c → IsMemory (stored a c m)
stored-IsMemory m a [] h b k = h k
stored-IsMemory m a (x ∷ c) h b k = elim (Bool-cases (k == a)) [
  | inl e ↦ rw e b.0
  | inr e ↦ rw e (stored-IsMemory m (a + 1) c h b.1 k)
]

module _ (fresh : ℕ → ℕ) where
  pub write_memory_verified-device :
      (m : ℕ → ℕ) (a : ℕ) (c : List ℕ)
      → IsMemory m
      → IsBytes c
      → a < 65536
      → length c < 16
      → write_memory_verified (device fresh) fresh a c (quiet m) ≡ ok true (quiet (stored a c m))
  unfolding write_memory_verified
  write_memory_verified-device m a c h b k l =
      let short : length c % 256 ≡ length c = omega arith in
      rw
        (
          write_memory-device fresh m a c b k l,
          short,
          read_memory-device fresh (stored a c m) a (length c) (stored-IsMemory m a c h b) k l,
          bytes_at-stored m a c,
          equal_refl c,
        )
        refl
