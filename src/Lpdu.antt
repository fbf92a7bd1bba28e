-- ===== src/Lpdu.antt =====
-- eibd/libserver/lpdu.h and lpdu.cpp: the frames of layer 2, and the types of common.h that
-- they are made of. Text output (Decode) is left out.
pub mod Checksum
pub mod Classes
pub mod Header
pub mod Inversion
pub mod Parse
pub mod Reprint
pub mod RoundTrip
mod Tests
use bcusdk.Base.{
  ℕ, ◌+◌, ◌-◌, ◌≡◌, Bool, true, false, not, ◌&&◌, Option, none, some, List, [], ◌∷◌, ◌++◌, length,
  take, drop, ltb, leb, ◌==◌, if◌then◌else◌, bit_and, bit_or, bit_xor, at, word,
}
use bcusdk.Base.Bits.{shl, shr}
use mathlib.Core.List.{foldl}

-- EIB_Priority
pub data Priority : Type 0 where
  low normal urgent system : Priority

-- EIB_AddrType
pub data AddrType : Type 0 where
  group individual : AddrType

-- The fields of L_Data_PDU; `payload` is its `data`.
pub record LData : Type 0 where
  pub prio : Priority
  pub repeated : Bool
  pub valid_checksum : Bool
  pub valid_length : Bool
  pub addr_type : AddrType
  pub source : ℕ
  pub dest : ℕ
  pub hopcount : ℕ
  pub payload : List ℕ

-- L_Busmonitor_PDU
pub record Busmonitor : Type 0 where
  pub pdu : List ℕ
  pub status : ℕ
  pub timestamp : ℕ

-- One constructor for each subclass of LPDU.
pub data Lpdu : Type 0 where
  unknown : List ℕ → Lpdu
  l_data : LData → Lpdu
  busmonitor : Busmonitor → Lpdu
  l_data_ind : LData → Lpdu
  ack nack busy : Lpdu

pub data LpduType : Type 0 where
  t_unknown t_data t_data_ind t_data_part t_ack t_nack t_busy t_busmonitor : LpduType

-- The constructor of L_Data_PDU.
unfoldable pub new_l_data : LData
new_l_data = record {
  prio = low;
  repeated = false;
  valid_checksum = true;
  valid_length = true;
  addr_type = individual;
  source = 0;
  dest = 0;
  hopcount = 7;
  payload = [];
}

abbrev pub data_type : Bool → LpduType
data_type true = LpduType.t_data
data_type false = LpduType.t_data_part

unfoldable pub get_type : Lpdu → LpduType
get_type (unknown _) = LpduType.t_unknown
get_type (l_data f) = data_type f.valid_length
get_type (busmonitor _) = LpduType.t_busmonitor
get_type (l_data_ind _) = LpduType.t_data_ind
get_type ack = LpduType.t_ack
get_type nack = LpduType.t_nack
get_type busy = LpduType.t_busy

-- The loop `c1 = 0; for (i = 0; i < n - 1; i++) c1 ^= c[i]; c1 = ~c1` over the first n - 1 bytes:
-- `~` on a uchar is 255 - x.
unfoldable pub checksum : List ℕ → ℕ
checksum c = 255 - foldl bit_xor 0 c

-- `switch ((c[0] >> 2) & 0x3)`, whose four cases are all that there are.
unfoldable pub read_prio : ℕ → Priority
read_prio c0 =
    let p = bit_and (shr c0 2) 0x3 in
    if p == 0 then system else if p == 1 then urgent else if p == 2 then normal else low

-- `c & mask ? GroupAddress : IndividualAddress` with mask 0x80
unfoldable pub read_addr_type : ℕ → AddrType
read_addr_type b = if bit_and b 0x80 == 0 then individual else group

-- `valid_checksum = (c[c () - 1] == c1 ? 1 : 0)`
unfoldable pub checksum_ok : List ℕ → Bool
checksum_ok c = at c (length c - 1) == checksum (take (length c - 1) c)

unfoldable pub init_standard : List ℕ → Option LData
init_standard c =
    let len = bit_and (at c 5) 0x0f + 1 in
    if len + 7 == length c
    then some (record {
      prio = read_prio (at c 0);
      repeated = bit_and (at c 0) 0x20 == 0;
      valid_checksum = checksum_ok c;
      valid_length = true;
      addr_type = read_addr_type (at c 5);
      source = word (at c 1) (at c 2);
      dest = word (at c 3) (at c 4);
      hopcount = bit_and (shr (at c 5) 4) 0x07;
      payload = take len (drop 6 c);
    })
    else none

-- What an extended frame of the given valid length and payload holds.
unfoldable pub extended : List ℕ → Bool → List ℕ → LData
extended c valid d = record {
  prio = read_prio (at c 0);
  repeated = bit_and (at c 0) 0x20 == 0;
  valid_checksum = checksum_ok c;
  valid_length = valid;
  addr_type = read_addr_type (at c 1);
  source = word (at c 2) (at c 3);
  dest = word (at c 4) (at c 5);
  hopcount = bit_and (shr (at c 1) 4) 0x07;
  payload = d;
}

unfoldable pub init_extended : List ℕ → Option LData
init_extended c =
    let len = at c 6 + 1 in
    if not (bit_and (at c 1) 0x0f == 0)
    then none
    else if ltb (length c) 7
    then none
    else if len + 8 == length c
    then some (extended c true (take len (drop 7 c)))
    else if length c == 23
    then some (extended c false (take 8 (drop 7 c)))
    else none

-- L_Data_PDU::init: `none` is the answer false, after which the object is thrown away.
unfoldable pub init_l_data : List ℕ → Option LData
init_l_data c =
    if ltb (length c) 6
    then none
    else if not (bit_and (at c 0) 0x53 == 0x10)
    then none
    else if bit_and (at c 0) 0x80 == 0
    then init_extended c
    else init_standard c

-- The object that fromPacket creates before it calls `init`.
pub data Candidate : Type 0 where
  none_yet new_ack new_busy new_nack new_data : Candidate

-- Each `if` overrides the ones above it.
unfoldable pub candidate : ℕ → Candidate
candidate c0 =
    let a = if c0 == 0xcc then new_ack else none_yet in
    let b = if c0 == 0xc0 then new_busy else a in
    let n = if c0 == 0x0c then new_nack else b in if bit_and c0 0x53 == 0x10 then new_data else n

-- `init` of the candidate, by its class.
unfoldable pub init_candidate : Candidate → List ℕ → Option Lpdu
init_candidate none_yet c = none
init_candidate new_ack c = if length c == 1 then some ack else none
init_candidate new_busy c = if length c == 1 then some busy else none
init_candidate new_nack c = if length c == 1 then some nack else none
init_candidate new_data c = elim (init_l_data c) [ none ↦ none | some f ↦ some (l_data f) ]

abbrev or_unknown : List ℕ → Option Lpdu → Lpdu
or_unknown c none = unknown c
or_unknown c (some l) = l

-- LPDU::fromPacket
unfoldable pub from_packet : List ℕ → Lpdu
from_packet c =
    or_unknown c (if leb 1 (length c) then init_candidate (candidate (at c 0)) c else none)

-- The first `switch` of L_Data_PDU::ToPacket.
unfoldable pub prio_code : Priority → ℕ
prio_code low = 0x3
prio_code normal = 0x1
prio_code urgent = 0x2
prio_code system = 0x0

abbrev pub addr_bit : AddrType → ℕ
addr_bit group = 0x80
addr_bit individual = 0x00

-- `(base) | (c << 2) | (repeated ? 0x00 : 0x20)`
unfoldable pub control_byte : ℕ → Priority → Bool → ℕ
control_byte base p repeated =
    bit_or (bit_or base (shl (prio_code p) 2)) (if repeated then 0x00 else 0x20)

-- The bytes before the checksum, short format and long format.
unfoldable pub standard_bytes : LData → List ℕ
standard_bytes f =
    control_byte 0x90 f.prio f.repeated
    ∷ bit_and (shr f.source 8) 0xff
    ∷ bit_and f.source 0xff
    ∷ bit_and (shr f.dest 8) 0xff
    ∷ bit_and f.dest 0xff
    ∷ bit_or (bit_or (shl (bit_and f.hopcount 0x07) 4) (bit_and (length f.payload - 1) 0x0f))
        (addr_bit f.addr_type)
    ∷ take (1 + bit_and (length f.payload - 1) 0x0f) f.payload

unfoldable pub extended_bytes : LData → List ℕ
extended_bytes f =
    control_byte 0x10 f.prio f.repeated
    ∷ bit_or (shl (bit_and f.hopcount 0x07) 4) (addr_bit f.addr_type)
    ∷ bit_and (shr f.source 8) 0xff
    ∷ bit_and f.source 0xff
    ∷ bit_and (shr f.dest 8) 0xff
    ∷ bit_and f.dest 0xff
    ∷ bit_and (length f.payload - 1) 0xff
    ∷ take (1 + bit_and (length f.payload - 1) 0xff) f.payload

-- The three asserts at the head of ToPacket.
unfoldable pub asserts : LData → Bool
asserts f =
    leb 1 (length f.payload) && (leb (length f.payload) 0xff && bit_and f.hopcount 0xf8 == 0)

-- L_Data_PDU::ToPacket: `none` where an assert stops the program.
unfoldable pub to_packet_data : LData → Option (List ℕ)
to_packet_data f =
    let body = if leb (length f.payload - 1) 0x0f then standard_bytes f else extended_bytes f in
    if asserts f then some (body ++ (checksum body ∷ [])) else none

-- ToPacket of each class.
unfoldable pub to_packet : Lpdu → Option (List ℕ)
to_packet (unknown c) = some c
to_packet (l_data f) = to_packet_data f
to_packet (busmonitor b) = some b.pdu
to_packet (l_data_ind f) = to_packet_data f
to_packet ack = some (0xcc ∷ [])
to_packet nack = some (0x0c ∷ [])
to_packet busy = some (0xc0 ∷ [])
