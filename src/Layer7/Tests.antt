-- ===== src/Layer7/Tests.antt =====
-- A device with sixteen bytes of memory in use, and the theorem on blocks at it.
use bcusdk.Base.{List, [], arith, if◌then◌else◌, some, true, ℕ, ◌==◌, ◌∷◌, ◌≡◌}
use bcusdk.Layer7.{ok}
use bcusdk.Layer7.Blocks.{write_block}
use bcusdk.Layer7.Catalogue.{Row, catalogue, row_at, rows_at}
use bcusdk.Layer7.Device.{IsMemory, device, quiet, stored}
use bcusdk.Layer7.Objects.{property_scan-found}
use bcusdk.Layer7.Scan.{property_scan}
use bcusdk.Layer7.Writing.{write_block-stored}

abbrev unset : ℕ → ℕ
unset i = 0xaa

-- Every byte is 7.
abbrev sevens : ℕ → ℕ
sevens k = 7

sevens-IsMemory : IsMemory sevens
sevens-IsMemory k = omega arith

-- Two bytes are right already.
abbrev image : List ℕ
image = 7 ∷ 1 ∷ 2 ∷ 7 ∷ 3 ∷ []

write_block-stored_example :
    (l : ℕ → ℕ) × ((write_block (device unset) unset 0x0116 image (quiet sevens)
        ≡ ok true (quiet l))
      × ((k : ℕ) → l k ≡ stored 0x0116 image sevens k))
write_block-stored_example =
    write_block-stored unset sevens 0x0116 image sevens-IsMemory (ground arith) (omega arith)

-- A device with two objects, of the types 0 and 11.
abbrev properties : List (List Row)
properties = ((1, 4, 1, 48) ∷ (5, 2, 3, 0) ∷ []) ∷ ((1, 4, 1, 48) ∷ []) ∷ []

abbrev kinds : ℕ → ℕ
kinds k = if k == 0 then 0 else 11

property_scan-found_example :
    property_scan (catalogue unset (λ k i. row_at (rows_at properties k) i) kinds) unset 3 3 []
    ≡ ok
        (some (
          record { obj = 0; property = 1; type = 4; count = 0; access = 48 }
          ∷ record { obj = 0; property = 5; type = 2; count = 3; access = 0 }
          ∷ record { obj = 1; property = 1; type = 4; count = 11; access = 48 }
          ∷ []))
        []
property_scan-found_example =
    property_scan-found unset properties kinds 3 3 (ground arith) (λ k. ground arith) (ground arith)
      (omega arith) (omega arith) (omega arith)
