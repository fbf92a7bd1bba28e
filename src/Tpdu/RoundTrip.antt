-- ===== src/Tpdu/RoundTrip.antt =====
-- TPDU::fromPacket after ToPacket, and ToPacket after TPDU::fromPacket.
use mathlib.Core.Option.{some-injective}
use bcusdk.Base.{
  ap, sym, ℕ, ◌<◌, ◌≡◌, refl, some, List, [], ◌∷◌, arith, IsByte, IsBytes, Option-cases, inl, inr,
}
use bcusdk.Tpdu.Header.{
  rewrite_by, rewrite_by_lem, serno_fits, data_byte, ack_byte, nack_byte, connected_byte,
  data_byte_kind, ack_byte_kind, nack_byte_kind, connected_byte_kind, low_nibble,
}
use bcusdk.Tpdu.{
  Tpdu, unknown, data_xxx, data_connected, connect, disconnect, ack, nack, candidate, Candidate,
  new_data_xxx, init_candidate, from_packet, to_packet, or_unknown,
}

reprint_by :
    (k : Candidate) (x : ℕ) (c : List ℕ) {t : Tpdu}
    → x < 256
    → rewrite_by k x ≡ x
    → init_candidate k (x ∷ c) ≡ some t
    → to_packet t ≡ some (x ∷ c)
unfolding rewrite_by init_candidate to_packet
reprint_by new_data_xxx x [] h e i = ground (arith, serno_fits x)
reprint_by new_data_xxx x (y ∷ c) h e i = ground (arith, serno_fits x)
reprint_by _ x [] h e i = ground (arith, serno_fits x)
reprint_by _ x (y ∷ c) h e i = ground (arith, serno_fits x)

from_packet-cons :
    (x : ℕ) (c : List ℕ)
    → from_packet (x ∷ c) ≡ or_unknown (x ∷ c) (init_candidate (candidate x) (x ∷ c))
unfolding from_packet
from_packet-cons x c = ground arith

-- Whatever bytes fromPacket is given, ToPacket writes the same bytes, and no assert stops it.
pub to_packet-from_packet : (c : List ℕ) → IsBytes c → to_packet (from_packet c) ≡ some c
to_packet-from_packet [] b = unfold from_packet to_packet in refl
to_packet-from_packet (x ∷ c) b = elim (Option-cases (init_candidate (candidate x) (x ∷ c))) [
  | inl e ↦ rw (from_packet-cons x c) (rw e (unfold to_packet in refl))
  | inr (t, e) ↦
      rw (from_packet-cons x c) (rw e (reprint_by (candidate x) x c b.0 (rewrite_by_lem x b.0) e))
]

connect_read : from_packet (0x80 ∷ []) ≡ connect
unfolding from_packet
connect_read = refl

disconnect_read : from_packet (0x81 ∷ []) ≡ disconnect
unfolding from_packet
disconnect_read = refl

-- The message that fromPacket makes of what ToPacket wrote: a payload comes with the transport bits
-- in its first byte, and the bytes of an unknown message are read as whatever they are.
abbrev pub as_read : Tpdu → List ℕ → Tpdu
as_read (unknown d) c = from_packet d
as_read (data_xxx d) c = data_xxx c
as_read (data_connected n d) c = data_connected n c
as_read connect c = connect
as_read disconnect c = disconnect
as_read (ack n) c = ack n
as_read (nack n) c = nack n

-- Serial numbers are uchars and payloads are bytes.
abbrev pub IsTpdu : Tpdu → Type 0
IsTpdu (unknown d) = IsBytes d
IsTpdu (data_xxx d) = IsBytes d
IsTpdu (data_connected n d) = IsByte n × IsBytes d
IsTpdu connect = Unit
IsTpdu disconnect = Unit
IsTpdu (ack n) = IsByte n
IsTpdu (nack n) = IsByte n

-- What ToPacket writes of a message of a known class is read back as the same class with the same serial
-- number, where the payload that is read is the packet itself; what it writes of an unknown message
-- are the bytes that this holds, which are read as what fromPacket makes of them, so that 0x80 alone
-- comes back as a connect message.
pub from_packet-to_packet :
    (t : Tpdu) (c : List ℕ) → IsTpdu t → to_packet t ≡ some c → from_packet c ≡ as_read t c
unfolding to_packet init_candidate
from_packet-to_packet (unknown d) c w e = ap from_packet (sym (some-injective d c e))
from_packet-to_packet (data_xxx []) c w e = ground arith
from_packet-to_packet (data_xxx (x ∷ d)) c w e =
    ground (arith, from_packet-cons (data_byte x) d, data_byte_kind x)
from_packet-to_packet (data_connected n []) c w e = ground arith
from_packet-to_packet (data_connected n (x ∷ d)) c w e =
    ground
      (arith, low_nibble n w.0, from_packet-cons (connected_byte n x) d, connected_byte_kind n x)
from_packet-to_packet connect c w e = cc connect_read
from_packet-to_packet disconnect c w e = cc disconnect_read
from_packet-to_packet (ack n) c w e =
    ground (arith, low_nibble n w, from_packet-cons (ack_byte n) [], ack_byte_kind n)
from_packet-to_packet (nack n) c w e =
    ground (arith, low_nibble n w, from_packet-cons (nack_byte n) [], nack_byte_kind n)
