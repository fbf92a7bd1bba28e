-- ===== src/Layer7/Device.antt =====
-- A device that answers to the memory requests of layer7.cpp as the protocol says, and the operations of
-- Layer7_Connection with it.
use bcusdk.Base.{
  IsBytes, List, Option, [], ap, arith, bit_and, bit_or, false, if◌then◌else◌, length, none, refl,
  some, suc, take_all, zero, ℕ, ◌++◌, ◌+◌, ◌<◌, ◌==◌, ◌∷◌, ◌≡◌,
}
use bcusdk.Apdu.{Apdu, memory_read, memory_response, memory_write}
use bcusdk.Apdu.Answers.{memory}
use bcusdk.Apdu.Answers.Equivalence.{is_response_iff}
use bcusdk.Apdu.Codec.{from_packet, to_packet}
use bcusdk.Apdu.Fields.{high_byte, low_byte}
use bcusdk.Apdu.Memory.{to_packet_memory_read, to_packet_memory_response, to_packet_memory_write}
use bcusdk.Apdu.RoundTrip.{from_packet-to_packet_apdu}
use bcusdk.Apdu.Values.{half_byte_back, half_byte_fits}
use bcusdk.Layer7.{Link, ok, read_memory, request_response, send_only, write_memory}

-- Its memory, and the answers on their way to the host.
pub record Device : Type 0 where
  pub cells : ℕ → ℕ
  pub answers : List (List ℕ)

abbrev pub bytes_at : (ℕ → ℕ) → ℕ → ℕ → List ℕ
bytes_at m a zero = []
bytes_at m a (suc n) = m a ∷ bytes_at m (a + 1) n

abbrev pub stored : ℕ → List ℕ → (ℕ → ℕ) → ℕ → ℕ
stored a [] m k = m k
stored a (x ∷ c) m k = if k == a then x else stored (a + 1) c m k

abbrev pub answered : Option (List ℕ) → Device → Device
answered none d = d
answered (some r) d = record d { answers = d.answers ++ (r ∷ []) }

abbrev pub on_request : (ℕ → ℕ) → Apdu → Device → Device
on_request fresh (memory_read n a) d =
    answered (to_packet fresh (memory_response n a (bytes_at d.cells a n))) d
on_request fresh (memory_write n a c) d = record d { cells = stored a c d.cells }
on_request fresh _ d = d

abbrev pub next_answer : List (List ℕ) → Device → Option (List ℕ) × Device
next_answer [] d = (none, d)
next_answer (r ∷ rest) d = (some r, record d { answers = rest })

abbrev pub device : (ℕ → ℕ) → Link Device
device fresh = record {
  send = λ c d. on_request fresh (from_packet c) d;
  get = λ d. next_answer d.answers d;
}

-- No answer is on its way.
abbrev pub quiet : (ℕ → ℕ) → Device
quiet m = record { cells = m; answers = [] }

abbrev pub IsMemory : (ℕ → ℕ) → Type 0
IsMemory m = (k : ℕ) → m k < 256

pub bytes_at-length : (m : ℕ → ℕ) (a n : ℕ) → length (bytes_at m a n) ≡ n
bytes_at-length m a zero = refl
bytes_at-length m a (suc n) = ap suc (bytes_at-length m (a + 1) n)

bytes_at-IsBytes : (m : ℕ → ℕ) (a n : ℕ) → IsMemory m → IsBytes (bytes_at m a n)
bytes_at-IsBytes m a zero h = tt
bytes_at-IsBytes m a (suc n) h = (h a, bytes_at-IsBytes m (a + 1) n h)

-- The bytes of a request and of the answer to it.
abbrev read_bytes : ℕ → ℕ → List ℕ
read_bytes n a = 0x02 ∷ bit_or 0x00 (bit_and n 0x0f) ∷ high_byte a ∷ low_byte a ∷ []

abbrev response_bytes : ℕ → ℕ → List ℕ → List ℕ
response_bytes n a c = 0x02 ∷ bit_or 0x40 (bit_and n 0x0f) ∷ high_byte a ∷ low_byte a ∷ c

abbrev write_bytes : ℕ → ℕ → List ℕ → List ℕ
write_bytes n a c = 0x02 ∷ bit_or 0x80 (bit_and n 0x0f) ∷ high_byte a ∷ low_byte a ∷ c

module _ (fresh : ℕ → ℕ) where
  read_written : (n a : ℕ) → n < 16 → to_packet fresh (memory_read n a) ≡ some (read_bytes n a)
  unfolding to_packet to_packet_memory_read
  read_written n a h = rw (half_byte_fits n h) refl

  response_written :
      (n a : ℕ) (c : List ℕ)
      → n < 16
      → length c ≡ n
      → to_packet fresh (memory_response n a c) ≡ some (response_bytes n a c)
  unfolding to_packet to_packet_memory_response
  response_written n a c h e = ground (arith, half_byte_fits n h)

  write_written :
      (n a : ℕ) (c : List ℕ)
      → n < 16
      → length c ≡ n
      → to_packet fresh (memory_write n a c) ≡ some (write_bytes n a c)
  unfolding to_packet to_packet_memory_write
  write_written n a c h e = ground (arith, half_byte_fits n h)

  memory_read_answered :
      (m : ℕ → ℕ) (a n : ℕ)
      → IsMemory m
      → a < 65536
      → n < 16
      → request_response (device fresh) fresh (memory_read n a) (quiet m)
        ≡ ok (memory_response n a (bytes_at m a n)) (quiet m)
  unfolding request_response
  memory_read_answered m a n b h k =
      let c = bytes_at m a n in
      let sent_back =
        from_packet-to_packet_apdu fresh (memory_read n a) (read_bytes n a) (omega arith, h)
          (read_written n a k) in
      let written = response_written n a c k (bytes_at-length m a n) in
      let read_back =
        from_packet-to_packet_apdu fresh (memory_response n a c) (response_bytes n a c)
          (omega arith, h, bytes_at-IsBytes m a n b) written in
      let there : (length (response_bytes n a c) == 0) ≡ false = ground arith in
      let answer = (is_response_iff (memory_response n a c) (memory_read n a)).1 (memory n a c) in
      rw (request_response, read_written n a k, sent_back, written, there, read_back, answer) refl

  pub read_memory-device :
      (m : ℕ → ℕ) (a n : ℕ)
      → IsMemory m
      → a < 65536
      → n < 16
      → read_memory (device fresh) fresh a n (quiet m) ≡ ok (bytes_at m a n) (quiet m)
  unfolding read_memory
  read_memory-device m a n b h k = rw (half_byte_back n k, memory_read_answered m a n b h k) refl

  pub write_memory-device :
      (m : ℕ → ℕ) (a : ℕ) (c : List ℕ)
      → IsBytes c
      → a < 65536
      → length c < 16
      → write_memory (device fresh) fresh a c (quiet m) ≡ ok tt (quiet (stored a c m))
  unfolding write_memory
  write_memory-device m a c b h k =
      let n = length c in
      let written = write_written n a c k refl in
      let back =
        from_packet-to_packet_apdu fresh (memory_write n a c) (write_bytes n a c)
          (omega arith, h, b) written in
      rw (half_byte_back n k, take_all n c (omega arith), send_only, written, back) refl
