-- ===== src/EibNetIp/RoundTrip/Fields.antt =====
-- The fields of a device description in eibnetip.cpp, as they are written and read.
use bcusdk.Base.{
  ==_iff, IsWord, List, [], ap, arith, at, drop, drop-append_length, drop-append_past,
  if◌then◌else◌, length, length-append, length-take, ltb, not, refl, suc, sym, take,
  take-append_length, true, zero, ℕ, ◌%◌, ◌*◌, ◌++◌, ◌+◌, ◌-◌, ◌/◌, ◌<◌, ◌==◌, ◌∙◌, ◌∷◌, ◌≡◌, ◌≤◌,
}
use bcusdk.Apdu.Fields.{high_byte, low_byte}
use bcusdk.Apdu.Values.{word_back}
use bcusdk.EibNetIp.{Description, Parsed, ServiceEntry, oversized, refused}
use bcusdk.EibNetIp.Blocks.{Found, found}
use bcusdk.EibNetIp.Discovery.{
  closed_name, loop_rounds, read_description, read_services, resize_argument, service_block,
  service_bytes,
}
use mathlib.Core.Path.{ap₂}
use mathlib.Core.List.{append_assoc}

-- The sizes and ranges of a description; more services than these do not fit the length byte.
pub record IsDescription (d : Description) : Type 0 where
  pub individual : IsWord d.individual_addr
  pub install : IsWord d.installid
  pub serials : length d.serial ≡ 6
  pub multicast : length d.multicastaddr ≡ 4
  pub macs : length d.mac ≡ 6
  pub names : length d.name ≡ 30
  pub few : length d.services < 127

-- A description as it is read: the last byte of the name is 0, and `serial` stands where the serial
-- number belongs.
abbrev pub description_read : Description → List ℕ → Description
description_read d serial = record d { serial = serial; name = closed_name d.name }

pub services_back :
    (s : List ServiceEntry) (r : List ℕ) → read_services (length s) (service_bytes s ++ r) ≡ s
services_back [] r = refl
services_back (x ∷ s) r = ap (λ l. x ∷ l) (services_back s r)

pub services-length : (s : List ServiceEntry) → length (service_bytes s) ≡ length s * 2
services-length [] = refl
services-length (x ∷ s) = omega (arith, services-length s)

pub services-drop :
    (s : List ServiceEntry) (r : List ℕ) → drop (length s * 2) (service_bytes s ++ r) ≡ r
services-drop s r = drop-append_length (service_bytes s) r (length s * 2) (sym (services-length s))

pub drop-none : (n : ℕ) → drop {A = ℕ} n [] ≡ []
drop-none zero = refl
drop-none (suc n) = refl

-- The services of a block and what follows them, found by the length byte.
pub services_found :
    (s : List ServiceEntry) (optional : List ℕ)
    → length s < 127
    → (length (service_bytes s ++ optional) ≡ length s * 2 + length optional)
      × (read_services ((length s * 2 + 2) % 256 / 2 - 1) (service_bytes s ++ optional) ≡ s)
      × (drop ((length s * 2 + 2) % 256 - 2) (service_bytes s ++ optional) ≡ optional)
services_found s optional h =
    let count : (length s * 2 + 2) % 256 / 2 - 1 ≡ length s = omega arith in
    let bytes : (length s * 2 + 2) % 256 - 2 ≡ length s * 2 = omega arith in
    (
      omega (arith, length-append (service_bytes s) optional, services-length s),
      ap (λ k. read_services k (service_bytes s ++ optional)) count ∙ services_back s optional,
      ap (λ k. drop k (service_bytes s ++ optional)) bytes ∙ services-drop s optional,
    )

pub closed_twice :
    (name : List ℕ) → length name ≡ 30 → closed_name (closed_name name) ≡ closed_name name
closed_twice name e =
    ap (λ l. l ++ (0 ∷ []))
      (take-append_length (take 29 name) (0 ∷ []) 29 (omega (arith, length-take 29 name)))

pub at_of_drop :
    (k : ℕ) (t : List ℕ) (x : ℕ) (r : List ℕ)
    → drop k t ≡ x ∷ r
    → (at t k ≡ x) × (drop (suc k) t ≡ r)
at_of_drop zero [] x r e = ground arith
at_of_drop (suc k) [] x r e = ground arith
at_of_drop zero (y ∷ t) x r e = ground arith
at_of_drop (suc k) (y ∷ t) x r e = at_of_drop k t x r e

pub drop-drop : (m n : ℕ) (t : List ℕ) → drop m (drop n t) ≡ drop (n + m) t
drop-drop m zero t = ap (λ k. drop k t) (omega arith)
drop-drop m (suc n) [] = drop-none m ∙ sym (drop-none (suc n + m))
drop-drop m (suc n) (y ∷ t) =
    let count : suc (n + m) ≡ suc n + m = omega arith in
    drop-drop m n t ∙ ap (λ k. drop k (y ∷ t)) count

-- The tests of the two parsers behind the head of the description.
pub block_tests :
    (least shift size mark block : ℕ) (m : Parsed)
    → least ≤ size
    → mark ≡ 2
    → block % 2 ≡ 0
    → block + shift ≤ size
    → 0 < block
    → block < 256
    → (if ltb size least
        then refused
        else if not (mark == 2)
        then refused
        else if not (block % 2 == 0)
        then refused
        else if ltb size (block + shift)
        then refused
        else if resize_argument block == loop_rounds block
        then m
        else oversized (resize_argument block))
      ≡ m
block_tests least shift size mark block m h k e l p q =
    let places : (resize_argument block == loop_rounds block) ≡ true =
      (==_iff (resize_argument block) (loop_rounds block)).1 (omega arith) in
    ground (arith, places)

-- The bytes of a description whose four fields of fixed size and services are `t`.
abbrev pub described : Description → List ℕ → List ℕ
described d t =
    54
    ∷ 1
    ∷ d.knxmedium
    ∷ d.devicestatus
    ∷ high_byte d.individual_addr
    ∷ low_byte d.individual_addr
    ∷ high_byte d.installid
    ∷ low_byte d.installid
    ∷ t

-- The fields from position 8 on of a description.
abbrev pub IsFound : Description → List ℕ → List ℕ → List ℕ → Type 0
IsFound d serial t optional =
    Found t serial d.multicastaddr d.mac (closed_name d.name) ((length d.services * 2 + 2) % 256) 2
      (service_bytes d.services ++ optional)

pub fields_read :
    (d : Description) (serial t optional : List ℕ)
    → IsDescription d
    → IsFound d serial t optional
    → read_description (described d t) (read_services (at t 46 / 2 - 1) (drop 48 t))
      ≡ description_read d serial
fields_read d serial t optional w f =
    let block = at_of_drop 46 t _ _ f.rest in
    let mark = at_of_drop 47 t _ _ block.1 in
    let services = services_found d.services optional w.few in
    rw
      (
        block.0,
        mark.1,
        services.1,
        word_back d.individual_addr w.individual,
        word_back d.installid w.install,
        f.serials,
        f.multicasts,
        f.macs,
        f.names,
        closed_twice d.name w.names,
      )
      refl

pub optional_read :
    (d : Description) (serial t optional : List ℕ)
    → IsDescription d
    → IsFound d serial t optional
    → drop (at t 46 + 54) (described d t) ≡ optional
optional_read d serial t optional w f =
    let block = at_of_drop 46 t _ _ f.rest in
    let mark = at_of_drop 47 t _ _ block.1 in
    let few = w.few in
    let past : drop (at t 46 + 54) (described d t) ≡ drop (at t 46 + 46) t =
      drop-append_past (described d []) t (at t 46 + 54) (at t 46 + 46) (omega arith) in
    let split : at t 46 + 46 ≡ 48 + (at t 46 - 2) = omega (arith, block.0) in
    past
    ∙ ap (λ k. drop k t) split
    ∙ sym (drop-drop (at t 46 - 2) 48 t)
    ∙ ap₂ (λ k l. drop (k - 2) l) block.0 mark.1
    ∙ (services_found d.services optional w.few).2

pub assembled :
    (serial m a n r : List ℕ) → (serial ++ (m ++ (a ++ n))) ++ r ≡ serial ++ (m ++ (a ++ (n ++ r)))
assembled serial m a n r =
    append_assoc serial (m ++ (a ++ n)) r
    ∙ ap (λ l. serial ++ l) (append_assoc m (a ++ n) r)
    ∙ ap (λ l. serial ++ (m ++ l)) (append_assoc a n r)

pub closed_name-length : (name : List ℕ) → length name ≡ 30 → length (closed_name name) ≡ 30
closed_name-length name e =
    omega (arith, length-append (take 29 name) (0 ∷ []), length-take 29 name)

-- The fields of a description that was written are found.
pub written-IsFound :
    (d : Description) (serial optional : List ℕ)
    → IsDescription d
    → length serial ≡ 6
    → IsFound d serial
        (serial
          ++ (d.multicastaddr
              ++ (d.mac ++ (closed_name d.name ++ (service_block d.services ++ optional)))))
        optional
written-IsFound d serial optional w h =
    found serial d.multicastaddr d.mac (closed_name d.name) _ _ _ h w.multicast w.macs
      (closed_name-length d.name w.names)
