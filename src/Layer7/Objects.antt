-- ===== src/Layer7/Objects.antt =====
-- The loops of X_PropertyScan of management.cpp with a device that has objects with properties.
use bcusdk.Base.{
  All, List, [], ap, arith, false, length, map, refl, some, suc, zero, ℕ, ◌%◌, ◌++◌, ◌+◌, ◌<◌, ◌==◌,
  ◌∙◌, ◌∷◌, ◌≡◌,
}
use bcusdk.Layer7.{Link, ok}
use bcusdk.Layer7.Catalogue.{
  Answering, IsObject, IsRow, Row, all_found, catalogue, found, row_at, rows_at, scan_one-found,
}
use bcusdk.Layer7.Scan.{PropertyInfo, property_scan, scan_object, scan_objects, scan_one}
use mathlib.Core.Path.{ap₂}
use mathlib.Core.List.{append_assoc, append-nil}

-- The device answers with rows that fit and types that fit.
module _ (fresh : ℕ → ℕ) (describe : ℕ → ℕ → Row) (kind : ℕ → ℕ)
    (rows : (k i : ℕ) → IsRow (describe k i)) (kinds : (k : ℕ) → kind k < 65536) where
  abbrev device : Link Answering
  device = catalogue fresh describe kind

  -- The inner loop finds the properties that are left, and stops behind the last one.
  scan_object-found :
      (v : List Row) (n k i : ℕ) (p : List PropertyInfo)
      → ((j : ℕ) → describe k (i + j) ≡ row_at v j)
      → All (λ q. 0 < q.0) v
      → k < 256
      → i + length v < 256
      → length v < n
      → scan_object device fresh n k i p []
        ≡ ok (some ((i + length v + 1) % 256, p ++ map (found kind k) v)) []
  unfolding scan_object
  scan_object-found v zero k i p d a h j f = absurd (omega arith)
  scan_object-found [] (suc n) k i p d a h j f =
      let here : describe k i ≡ (0, 0, 0, 0) = ap (describe k) (omega arith) ∙ d 0 in
      let one : scan_one device fresh k i [] ≡ ok (found kind k (0, 0, 0, 0)) [] =
        scan_one-found fresh describe kind rows kinds k i h (omega arith)
        ∙ ap (λ q. ok (found kind k q) []) here in
      let size : i + 1 ≡ i + 0 + 1 = omega arith in rw (one, append-nil p, size) refl
  scan_object-found (q ∷ v) (suc n) k i p d a h j f =
      let here : describe k i ≡ q = ap (describe k) (omega arith) ∙ d 0 in
      let one : scan_one device fresh k i [] ≡ ok (found kind k q) [] =
        scan_one-found fresh describe kind rows kinds k i h (omega arith)
        ∙ ap (λ r. ok (found kind k r) []) here in
      let more : (q.0 == 0) ≡ false = ground (arith, a.0) in
      let next : (i + 1) % 256 ≡ i + 1 = omega arith in
      let rest =
        scan_object-found v n k (i + 1) (p ++ (found kind k q ∷ []))
          (λ b. ap (describe k) (omega arith) ∙ d (suc b)) a.1 h (omega arith) (omega arith) in
      let size : i + 1 + length v ≡ i + suc (length v) = omega arith in
      rw (one, more, next, rest, append_assoc p (found kind k q ∷ []) (map (found kind k) v), size)
        refl

  scan_objects-found :
      (l : List (List Row)) (m n k : ℕ) (p : List PropertyInfo)
      → ((a i : ℕ) → describe (k + a) i ≡ row_at (rows_at l a) i)
      → All (IsObject m) l
      → 0 < m
      → k + length l < 256
      → length l < n
      → scan_objects device fresh m n k p [] ≡ ok (some (p ++ all_found kind k l)) []
  unfolding scan_objects
  scan_objects-found l m zero k p d a z h f = absurd (omega arith)
  scan_objects-found [] m (suc n) k p d a z h f =
      let none_left =
        scan_object-found [] m k 0 p (λ i. ap₂ describe (omega arith) (omega arith) ∙ d 0 i) tt
          (omega arith) (omega arith) z in
      rw none_left refl
  scan_objects-found (v ∷ l) m (suc n) k p d a z h f =
      let o = a.0 in
      let all =
        scan_object-found v m k 0 p (λ i. ap₂ describe (omega arith) (omega arith) ∙ d 0 i) o.0
          (omega arith) (omega (arith, o.2)) o.3 in
      let more : ((0 + length v + 1) % 256 == 1) ≡ false = ground (arith, o.1, o.2) in
      let next : (k + 1) % 256 ≡ k + 1 = omega arith in
      let rest =
        scan_objects-found l m n (k + 1) (p ++ map (found kind k) v)
          (λ b i. ap (λ c. describe c i) (omega arith) ∙ d (suc b) i) a.1 z (omega arith)
          (omega arith) in
      rw (all, more, next, rest, append_assoc p (map (found kind k) v) (all_found kind (k + 1) l))
        refl

row_at-All : (l : List Row) → All IsRow l → (i : ℕ) → IsRow (row_at l i)
row_at-All [] a i = (omega arith, omega arith, omega arith, omega arith)
row_at-All (q ∷ l) a zero = a.0
row_at-All (q ∷ l) a (suc i) = row_at-All l a.1 i

rows_at-All : (l : List (List Row)) → All (All IsRow) l → (k i : ℕ) → IsRow (row_at (rows_at l k) i)
rows_at-All [] a k i = (omega arith, omega arith, omega arith, omega arith)
rows_at-All (v ∷ l) a zero i = row_at-All v a.0 i
rows_at-All (v ∷ l) a (suc k) i = rows_at-All l a.1 k i

-- X_PropertyScan with a device that answers for objects with properties: the scan ends, with more fuel
-- than there are objects and than an object has properties, and finds every property of every object, in
-- order and once, with its type, count and access, where the type of the object takes the place of the
-- count of a property 1 of type 4. Every object has 1 to 254 properties, none with the number 0, all
-- fields fit their widths, and there are fewer than 256 objects.
pub property_scan-found :
    (fresh : ℕ → ℕ) (objects : List (List Row)) (kind : ℕ → ℕ) (m n : ℕ)
    → All (All IsRow) objects
    → ((k : ℕ) → kind k < 65536)
    → All (IsObject m) objects
    → 0 < m
    → length objects < 256
    → length objects < n
    → property_scan (catalogue fresh (λ k i. row_at (rows_at objects k) i) kind) fresh m n []
      ≡ ok (some (all_found kind 0 objects)) []
unfolding property_scan
property_scan-found fresh objects kind m n rows kinds o z h f =
    scan_objects-found fresh (λ k i. row_at (rows_at objects k) i) kind (rows_at-All objects rows)
      kinds objects m n 0 [] (λ a i. ap (λ b. row_at (rows_at objects b) i) (omega arith)) o z
      (omega arith) f
