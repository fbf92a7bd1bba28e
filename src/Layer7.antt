-- ===== src/Layer7.antt =====
-- eibd/libserver/layer7.h, layer7.cpp, management.h and management.cpp: requests to a device over a
-- connection of layer 4. Opening and closing the connection is left out.
pub mod Blocks
pub mod Management
pub mod Device
pub mod Verified
pub mod Catalogue
pub mod Objects
pub mod Reading
pub mod Scan
pub mod Writing
mod Tests
use bcusdk.Base.{
  Bool, List, Option, [], bit_and, if◌then◌else◌, length, none, not, some, take, ℕ, ◌%◌, ◌==◌,
}
use bcusdk.Apdu.{
  Apdu, adc_read, adc_response, authorize_request, authorize_response, device_descriptor_read,
  device_descriptor_response, key_response, key_write, memory_read, memory_response, memory_write,
  property_description_read, property_description_response, property_value_read,
  property_value_response, property_value_write, restart,
}
use bcusdk.Apdu.Answers.{is_response}
use bcusdk.Apdu.Codec.{from_packet, to_packet}
use bcusdk.Array.{equal}

-- Send and Get of the connection: Get gives nothing where the time is up.
pub record Link (S : Type 0) : Type 0 where
  pub send : List ℕ → S → S
  pub get : S → Option (List ℕ) × S

-- What an operation comes to: an assert of ToPacket stops the program, the answer is -1 (or NULL), or
-- there is a value.
pub data Result (S A : Type 0) : Type 0 where
  stopped : Result S A
  failed : S → Result S A
  ok : A → S → Result S A

infixl 5 ◌>>=◌
abbrev pub ◌>>=◌ : {S A B : Type 0} → Result S A → (A → S → Result S B) → Result S B
stopped >>= f = stopped
failed s >>= f = failed s
ok a s >>= f = f a s

-- `fresh` is what `resize` leaves in a new byte.
module _ {S : Type 0} (link : Link S) (fresh : ℕ → ℕ) where
  -- What Request_Response makes of the answer of Get.
  abbrev judged : Apdu → Option (List ℕ) × S → Result S Apdu
  judged r (none, s) = failed s
  judged r (some d, s) =
      if length d == 0
      then failed s
      else let a = from_packet d in if is_response a r then ok a s else failed s

  -- Request_Response of Layer7_Connection and of Layer7_Individual. The loop ends with the first
  -- answer; Get gives none only when the time is up.
  unfoldable pub request_response : Apdu → S → Result S Apdu
  request_response r s = elim (to_packet fresh r) [
    | none ↦ stopped
    | some c ↦ judged r (link.get (link.send c s))
  ]

  -- The bytes of the casts to A_PropertyValue_Response_PDU and A_Memory_Response_PDU.
  abbrev pub content_of : Apdu → List ℕ
  content_of (property_value_response _ _ _ _ d) = d
  content_of (memory_response _ _ d) = d
  content_of _ = []

  -- A_Property_Read of both classes
  unfoldable pub property_read : ℕ → ℕ → ℕ → ℕ → S → Result S (List ℕ)
  unfolding request_response
  property_read obj propertyid start count s =
      request_response
        (property_value_read obj propertyid (bit_and count 0x0f) (bit_and start 0x0fff)) s
      >>= λ a s'. ok (content_of a) s'

  -- A_Property_Write of both classes
  unfoldable pub property_write : ℕ → ℕ → ℕ → ℕ → List ℕ → S → Result S (List ℕ)
  unfolding request_response
  property_write obj propertyid start count content s =
      request_response
        (property_value_write obj propertyid (bit_and count 0x0f) (bit_and start 0x0fff) content) s
      >>= λ a s'. ok (content_of a) s'

  -- A_Property_Desc: the property, its type, its count and its access.
  abbrev pub described_property : Apdu → ℕ × ℕ × ℕ × ℕ
  described_property (property_description_response _ p _ t n x) = (p, t, n, x)
  described_property _ = (0, 0, 0, 0)

  unfoldable pub property_desc : ℕ → ℕ → ℕ → S → Result S (ℕ × ℕ × ℕ × ℕ)
  unfolding request_response
  property_desc obj property property_index s =
      request_response (property_description_read obj property property_index) s >>= λ a s'.
      ok (described_property a) s'

  -- A_Device_Descriptor_Read
  abbrev pub descriptor_of : Apdu → ℕ
  descriptor_of (device_descriptor_response _ d) = d
  descriptor_of _ = 0

  unfoldable pub descriptor_read : ℕ → S → Result S ℕ
  unfolding request_response
  descriptor_read type s =
      request_response (device_descriptor_read (bit_and type 0x3f)) s >>= λ a s'.
      ok (descriptor_of a) s'

  -- A_ADC_Read: the bit pattern of the value.
  abbrev pub value_of : Apdu → ℕ
  value_of (adc_response _ _ v) = v
  value_of _ = 0

  unfoldable pub converter_read : ℕ → ℕ → S → Result S ℕ
  unfolding request_response
  converter_read channel readcount s =
      request_response (adc_read (bit_and channel 0x3f) readcount) s >>= λ a s'. ok (value_of a) s'

  -- A_Memory_Read
  unfoldable pub read_memory : ℕ → ℕ → S → Result S (List ℕ)
  unfolding request_response
  read_memory addr len s =
      request_response (memory_read (bit_and len 0x0f) addr) s >>= λ a s'. ok (content_of a) s'

  -- `l4->Send (r.ToPacket ())` without waiting for an answer.
  abbrev pub send_only : Apdu → S → Result S Unit
  send_only r s = elim (to_packet fresh r) [ none ↦ stopped | some c ↦ ok tt (link.send c s) ]

  -- A_Memory_Write: at most fifteen bytes are sent.
  unfoldable pub write_memory : ℕ → List ℕ → S → Result S Unit
  write_memory addr content s =
      let count = bit_and (length content) 0x0f in
      send_only (memory_write count addr (take count content)) s

  -- A_Restart
  unfoldable pub restart_device : S → Result S Unit
  restart_device s = send_only restart s

  -- A_Authorize and A_KeyWrite
  abbrev pub level_of : Apdu → ℕ
  level_of (authorize_response l) = l
  level_of (key_response l) = l
  level_of _ = 0

  unfoldable pub authorize : ℕ → S → Result S ℕ
  unfolding request_response
  authorize k s = request_response (authorize_request k) s >>= λ a s'. ok (level_of a) s'

  unfoldable pub write_key : ℕ → ℕ → S → Result S ℕ
  unfolding request_response
  write_key k level s = request_response (key_write level k) s >>= λ a s'. ok (level_of a) s'

  -- X_Property_Write: -1 also where the bytes that are read are others.
  unfoldable pub write_property_verified : ℕ → ℕ → ℕ → ℕ → List ℕ → S → Result S Unit
  unfolding property_write property_read
  write_property_verified obj propertyid start count content s =
      property_write obj propertyid start count content s >>= λ d s1.
      property_read obj propertyid start count s1 >>= λ e s2.
      if not (equal e content) then failed s2 else ok tt s2

  -- X_Memory_Write: true is the answer 0, false the answer -2.
  unfoldable pub write_memory_verified : ℕ → List ℕ → S → Result S Bool
  unfolding write_memory read_memory
  write_memory_verified addr content s = write_memory addr content s >>= λ u s1.
      read_memory addr (length content % 256) s1 >>= λ d s2. ok (equal d content) s2
