-- ===== src/Layer7/Management.antt =====
-- management.cpp: the programming mode and the interface type of a device.
use bcusdk.Base.{Bool, List, at, bit_and, bit_xor, if◌then◌else◌, not, set, ℕ, ◌==◌}
use bcusdk.Layer7.{Link, Result, failed, ok, read_memory, write_memory_verified, ◌>>=◌}

-- `d[0]`
abbrev first_byte : List ℕ → ℕ
first_byte d = at d 0

module _ {S : Type 0} (link : Link S) (fresh : ℕ → ℕ) where
  -- `if (X_Memory_Write (0x60, d) != 0) return -1; return 0`
  abbrev store_mode : List ℕ → S → Result S Unit
  unfolding write_memory_verified
  store_mode d s =
      write_memory_verified link fresh 0x60 d s >>= λ same s'. if same then ok tt s' else failed s'

  -- X_Progmode_On
  unfoldable pub progmode_on : S → Result S Unit
  unfolding read_memory store_mode
  progmode_on s = read_memory link fresh 0x60 1 s >>= λ d s1.
      store_mode
        (if bit_and (first_byte d) 0x01 == 0 then set d 0 (bit_xor (first_byte d) 0x81) else d) s1

  -- X_Progmode_Off
  unfoldable pub progmode_off : S → Result S Unit
  unfolding read_memory store_mode
  progmode_off s = read_memory link fresh 0x60 1 s >>= λ d s1.
      store_mode
        (if bit_and (first_byte d) 0x01 == 0 then d else set d 0 (bit_xor (first_byte d) 0x81)) s1

  -- X_Progmode_Toggle
  unfoldable pub progmode_toggle : S → Result S Unit
  unfolding read_memory store_mode
  progmode_toggle s = read_memory link fresh 0x60 1 s >>= λ d s1.
      store_mode (set d 0 (bit_xor (first_byte d) 0x81)) s1

  -- X_Progmode_Status
  unfoldable pub progmode_status : S → Result S Bool
  unfolding read_memory
  progmode_status s =
      read_memory link fresh 0x60 1 s >>= λ d s1. ok (not (bit_and (first_byte d) 0x01 == 0)) s1
