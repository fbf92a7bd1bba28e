-- ===== src/Tpdu.antt =====
-- eibd/libserver/tpdu.h and tpdu.cpp: the messages of the transport layer. Text output (Decode) is
-- left out.
pub mod Header
pub mod RoundTrip
mod Tests
use bcusdk.Base.{
  ℕ, Bool, Option, none, some, List, [], ◌∷◌, length, ltb, leb, ◌==◌, if◌then◌else◌, bit_and,
  bit_or, at, set, ◌&&◌,
}
use bcusdk.Base.Bits.{shl, shr}

-- One constructor for each subclass of TPDU. The payloads are the whole packet: their first byte
-- holds the transport bits and two bits of the application layer.
pub data Tpdu : Type 0 where
  unknown : List ℕ → Tpdu
  data_xxx : List ℕ → Tpdu
  data_connected : ℕ → List ℕ → Tpdu
  connect disconnect : Tpdu
  ack nack : ℕ → Tpdu

pub data TpduType : Type 0 where
  t_unknown t_data_xxx_req t_data_connected_req t_connect_req t_disconnect_req t_ack t_nack :
      TpduType

unfoldable pub get_type : Tpdu → TpduType
get_type (unknown _) = TpduType.t_unknown
get_type (data_xxx _) = TpduType.t_data_xxx_req
get_type (data_connected _ _) = TpduType.t_data_connected_req
get_type connect = TpduType.t_connect_req
get_type disconnect = TpduType.t_disconnect_req
get_type (ack _) = TpduType.t_ack
get_type (nack _) = TpduType.t_nack

-- The object that fromPacket creates before it calls `init`; each `if` overrides the ones above it.
pub data Candidate : Type 0 where
  none_yet new_data_xxx new_connect new_disconnect new_ack new_nack new_data_connected : Candidate

unfoldable pub candidate : ℕ → Candidate
candidate c0 =
    let a = if bit_and c0 0xfc == 0 then new_data_xxx else none_yet in
    let b = if c0 == 0x80 then new_connect else a in
    let c = if c0 == 0x81 then new_disconnect else b in
    let d = if bit_and c0 0xc3 == 0xc2 then new_ack else c in
    let e = if bit_and c0 0xc3 == 0xc3 then new_nack else d in
    if bit_and c0 0xc0 == 0x40 then new_data_connected else e

-- `(c[0] >> 2) & 0x0f`
abbrev pub read_serno : ℕ → ℕ
read_serno c0 = bit_and (shr c0 2) 0x0f

-- `init` of the candidate, by its class; `none` is the answer false.
unfoldable pub init_candidate : Candidate → List ℕ → Option Tpdu
init_candidate none_yet c = none
init_candidate new_data_xxx c = if ltb (length c) 1 then none else some (data_xxx c)
init_candidate new_connect c = if length c == 1 then some connect else none
init_candidate new_disconnect c = if length c == 1 then some disconnect else none
init_candidate new_ack c = if length c == 1 then some (ack (read_serno (at c 0))) else none
init_candidate new_nack c = if length c == 1 then some (nack (read_serno (at c 0))) else none
init_candidate new_data_connected c =
    if ltb (length c) 1 then none else some (data_connected (read_serno (at c 0)) c)

abbrev pub or_unknown : List ℕ → Option Tpdu → Tpdu
or_unknown c none = unknown c
or_unknown c (some t) = t

-- TPDU::fromPacket
unfoldable pub from_packet : List ℕ → Tpdu
unfolding candidate init_candidate
from_packet c =
    or_unknown c (if leb 1 (length c) then init_candidate (candidate (at c 0)) c else none)

-- ToPacket of each class: `none` where an assert stops the program.
unfoldable pub to_packet : Tpdu → Option (List ℕ)
to_packet (unknown c) = some c
to_packet (data_xxx d) = if ltb 0 (length d) then some (set d 0 (bit_and (at d 0) 0x3)) else none
to_packet (data_connected serno d) =
    if ltb 0 (length d) && bit_and serno 0xf0 == 0
    then some (set d 0 (bit_or (bit_or (bit_and (at d 0) 0x3) 0x40) (shl (bit_and serno 0x0f) 2)))
    else none
to_packet connect = some (0x80 ∷ [])
to_packet disconnect = some (0x81 ∷ [])
to_packet (ack serno) =
    if bit_and serno 0xf0 == 0 then some (bit_or 0xc2 (shl (bit_and serno 0x0f) 2) ∷ []) else none
to_packet (nack serno) =
    if bit_and serno 0xf0 == 0 then some (bit_or 0xc3 (shl (bit_and serno 0x0f) 2) ∷ []) else none
