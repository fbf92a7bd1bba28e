-- ===== src/Lpdu/Classes.antt =====
-- Which class LPDU::fromPacket picks.
use bcusdk.Base.{
  ℕ, ◌≡◌, ◌↔◌, ◌≢◌, List, [], ◌∷◌, ◌+◌, ◌/◌, ◌%◌, ◌<◌, ◌≤◌, ◌⊎◌, at, length, if◌then◌else◌, ◌==◌,
  ◌&&◌,
}
use bcusdk.Lpdu.{LData, Busmonitor, unknown, busmonitor, l_data_ind, ack, nack, busy, from_packet}

-- A data frame by its control byte, its format bit and its length: a short one has the length that the
-- low half of its sixth byte says; a long one has an empty low half of the second byte, and the length
-- that its seventh byte says, or 23 bytes.
abbrev pub IsDataFrame : List ℕ → Type 0
IsDataFrame c =
    (at c 0 / 64 % 2 ≡ 0)
    × (at c 0 / 16 % 2 ≡ 1)
    × (at c 0 % 4 ≡ 0)
    × (((128 ≤ at c 0) × (length c ≡ at c 5 % 16 + 8))
        ⊎ ((at c 0 < 128) × (at c 1 % 16 ≡ 0) × ((length c ≡ at c 6 + 9) ⊎ (length c ≡ 23))))

abbrev is_control : ℕ → ℕ
is_control x = if (x / 64 % 2 == 0) && ((x / 16 % 2 == 1) && (x % 4 == 0)) then 1 else 0

-- What fromPacket answers apart from data frames, class by class.
abbrev pub Classified : List ℕ → Type 0
Classified c =
    ((from_packet c ≡ ack) ↔ (c ≡ 0xcc ∷ []))
    × ((from_packet c ≡ busy) ↔ (c ≡ 0xc0 ∷ []))
    × ((from_packet c ≡ nack) ↔ (c ≡ 0x0c ∷ []))
    × ((d : List ℕ) → from_packet c ≡ unknown d → d ≡ c)
    × ((f : LData) → from_packet c ≢ l_data_ind f)
    × ((m : Busmonitor) → from_packet c ≢ busmonitor m)
