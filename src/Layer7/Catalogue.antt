-- ===== src/Layer7/Catalogue.antt =====
-- A device with objects that have properties, and what X_PropertyScan of management.cpp finds for one of
-- them.
use bcusdk.Base.{
  All, Bool-cases, IsBytes, List, Option, [], arith, if◌then◌else◌, inl, inr, length, map, none,
  refl, some, suc, zero, ℕ, ◌&&◌, ◌++◌, ◌+◌, ◌/◌, ◌<◌, ◌==◌, ◌^◌, ◌∷◌, ◌≡◌,
}
use bcusdk.Apdu.{
  Apdu, property_description_read, property_description_response, property_value_read,
  property_value_response,
}
use bcusdk.Apdu.Answers.{property_description, property_value}
use bcusdk.Apdu.Answers.Equivalence.{is_response_iff}
use bcusdk.Apdu.Codec.{from_packet, to_packet}
use bcusdk.Apdu.Fields.{high_byte, low_byte}
use bcusdk.Apdu.Property.{
  to_packet_property_description_read, to_packet_property_description_response,
  to_packet_property_value_read, to_packet_property_value_response,
}
use bcusdk.Apdu.RoundTrip.{from_packet-to_packet_apdu}
use bcusdk.Apdu.Values.{word_back}
use bcusdk.Base.Bits.{bit_and_255}
use bcusdk.Layer7.{Link, ok, property_desc, property_read, request_response}
use bcusdk.Layer7.Scan.{PropertyInfo, object_type, scan_one}

-- A property: its number, its type, its count and its access.
abbrev pub Row : Type 0
Row = ℕ × ℕ × ℕ × ℕ

abbrev pub row_at : List Row → ℕ → Row
row_at [] i = (0, 0, 0, 0)
row_at (q ∷ l) zero = q
row_at (q ∷ l) (suc i) = row_at l i

abbrev pub rows_at : List (List Row) → ℕ → List Row
rows_at [] k = []
rows_at (v ∷ l) zero = v
rows_at (v ∷ l) (suc k) = rows_at l k

-- The answers on their way to the host.
abbrev pub Answering : Type 0
Answering = List (List ℕ)

abbrev pub add_answer : Option (List ℕ) → Answering → Answering
add_answer none d = d
add_answer (some r) d = d ++ (r ∷ [])

abbrev pub IsRow : Row → Type 0
IsRow q = (q.0 < 256) × (q.1 < 256) × (q.2 < 65536) × (q.3 < 256)

-- What is found for a property, by the types of the objects: the type of an object takes the place of
-- its count.
abbrev pub found : (ℕ → ℕ) → ℕ → Row → PropertyInfo
found kind k q = record {
  obj = k;
  property = q.0;
  type = q.1;
  count = if (q.0 == 1) && (q.1 == 4) then kind k else q.2;
  access = q.3;
}

abbrev pub all_found : (ℕ → ℕ) → ℕ → List (List Row) → List PropertyInfo
all_found kind k [] = []
all_found kind k (v ∷ l) = map (found kind k) v ++ all_found kind (k + 1) l

-- Every object has a property at least, and no more than the index of eight bits can count; `m` is the
-- fuel of the inner loop.
abbrev pub IsObject : ℕ → List Row → Type 0
IsObject m v = All (λ q. 0 < q.0) v × (0 < length v) × (length v < 255) × (length v < m)

-- `describe k i` is the property with the index `i` of object `k`, 0 past the last one; `kind k` the type
-- of the object.
module _ (fresh : ℕ → ℕ) (describe : ℕ → ℕ → Row) (kind : ℕ → ℕ) where
  abbrev pub answer_of : Apdu → Option (List ℕ)
  answer_of (property_description_read obj p i) =
      let q = describe obj i in
      to_packet fresh (property_description_response obj q.0 i q.1 q.2 q.3)
  answer_of (property_value_read obj p n s) =
      to_packet fresh
        (property_value_response obj p n s (high_byte (kind obj) ∷ low_byte (kind obj) ∷ []))
  answer_of _ = none

  abbrev pub next_of : Answering → Option (List ℕ) × Answering
  next_of [] = (none, [])
  next_of (r ∷ rest) = (some r, rest)

  abbrev pub catalogue : Link Answering
  catalogue = record { send = λ c d. add_answer (answer_of (from_packet c)) d; get = next_of }

  module _ (rows : (k i : ℕ) → IsRow (describe k i)) (kinds : (k : ℕ) → kind k < 65536) where
    desc_answered :
        (k i : ℕ)
        → k < 256
        → i < 256
        → property_desc catalogue fresh k 0 i [] ≡ ok (describe k i) []
    unfolding property_desc to_packet to_packet_property_description_read
        to_packet_property_description_response
    desc_answered k i h j =
        let q = describe k i in
        let r = rows k i in
        let ask = property_description_read k 0 i in
        let reply = property_description_response k q.0 i q.1 q.2 q.3 in
        let sent_back = from_packet-to_packet_apdu fresh ask _ (h, omega arith, j) refl in
        let read_back = from_packet-to_packet_apdu fresh reply _ (h, r.0, j, r.1, r.2, r.3) refl in
        let answer = (is_response_iff reply ask).1 (property_description k q.0 i q.1 q.2 q.3 0 i) in
        rw (request_response, sent_back, read_back, answer) refl

    value_answered :
        (k : ℕ)
        → k < 256
        → property_read catalogue fresh k 1 1 1 []
          ≡ ok (high_byte (kind k) ∷ low_byte (kind k) ∷ []) []
    unfolding property_read to_packet to_packet_property_value_read
        to_packet_property_value_response
    value_answered k h =
        let c = high_byte (kind k) ∷ low_byte (kind k) ∷ [] in
        let ask = property_value_read k 1 1 1 in
        let reply = property_value_response k 1 1 1 c in
        let b : IsBytes c = (
          omega (arith, bit_and_255 (kind k / 2 ^ 8)),
          (omega (arith, bit_and_255 (kind k)), tt),
        ) in
        let sent_back =
          from_packet-to_packet_apdu fresh ask _ (h, omega arith, omega arith, omega arith) refl in
        let read_back =
          from_packet-to_packet_apdu fresh reply _ (h, omega arith, omega arith, omega arith, b)
            refl in
        let answer = (is_response_iff reply ask).1 (property_value k 1 1 1 c) in
        rw (request_response, sent_back, read_back, answer) refl

    pub scan_one-found :
        (k i : ℕ)
        → k < 256
        → i < 256
        → scan_one catalogue fresh k i [] ≡ ok (found kind k (describe k i)) []
    unfolding scan_one object_type
    scan_one-found k i h j =
        elim (Bool-cases (((describe k i).0 == 1) && ((describe k i).1 == 4))) [
          | inl t ↦
              rw
                (
                  desc_answered k i h j,
                  object_type,
                  t,
                  value_answered k h,
                  word_back (kind k) (kinds k),
                )
                refl
          | inr f ↦ rw (desc_answered k i h j, object_type, f) refl
        ]
