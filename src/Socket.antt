-- ===== src/Socket.antt =====
-- eibd/libserver/layer4.h and layer4.cpp: T_Broadcast, T_Group, T_TPDU, T_Individual and GroupSocket,
-- the connectionless endpoints, with what they ask of layer 3. Trace output is left out, with the Decode that makes
-- its text, and `get`
-- is the part of Get behind its wait.
pub mod Hearing
pub mod Transfer
mod Tests
use bcusdk.Base.{
  ℕ, ◌+◌, ◌-◌, Bool, true, false, Option, none, some, List, [], ◌∷◌, ◌==◌, if◌then◌else◌,
}
use bcusdk.Queue
use bcusdk.Lpdu.{LData, AddrType, group, individual, new_l_data}
use bcusdk.Tpdu
use bcusdk.Tpdu.{Tpdu, data_xxx}
use bcusdk.Layer3.{
  Layer3State, Callback, lock_none, register_broadcast, register_group, register_individual,
  deregister_broadcast, deregister_group, deregister_individual,
}

-- The classes, with the address that an object keeps.
pub data Kind : Type 0 where
  broadcast group_socket : Kind
  group_of individual_of tpdu_of : ℕ → Kind

-- BroadcastComm, GroupComm, TpduComm, the CArray of T_Individual, and GroupAPDU.
pub data Message : Type 0 where
  broadcast_comm group_comm : (payload : List ℕ) (src : ℕ) → Message
  tpdu_comm : (payload : List ℕ) (addr : ℕ) → Message
  plain : List ℕ → Message
  group_apdu : (payload : List ℕ) (src dst : ℕ) → Message

-- An object: its class, its queue, and the value of its semaphore.
pub record Socket : Type 0 where
  pub kind : Kind
  pub outqueue : List Message
  pub sem : ℕ

-- The registration of a class, with the answer of the driver where layer 3 asks it.
unfoldable pub register : Kind → Bool → Callback → Layer3State → Layer3State × Bool
register broadcast added c s = register_broadcast c s
register (group_of a) added c s = register_group added c a s
register (tpdu_of src) added c s = register_individual added c lock_none 0 src s
register (individual_of d) added c s = register_individual added c lock_none d 0 s
register group_socket added c s = register_group added c 0 s

-- Does the constructor register? T_TPDU has no write-only form.
unfoldable pub registers : Kind → Bool → Bool
registers (tpdu_of src) write_only = true
registers _ true = false
registers _ false = true

abbrev pub is_no_group : Kind → Bool
is_no_group (group_of a) = a == 0
is_no_group _ = false

-- The constructors: layer 3 after them, and `init_ok`.
unfoldable pub open_socket : Kind → Bool → Bool → Callback → Layer3State → Layer3State × Bool
open_socket k write_only added c s =
    if is_no_group k
    then (s, false)
    else if registers k write_only
    then register k added c s
    else (s, true)

-- The destructors.
unfoldable pub close_socket : Kind → Callback → Layer3State → Layer3State
close_socket broadcast c s = (deregister_broadcast c s).0
close_socket (group_of a) c s = (deregister_group c a s).0
close_socket (tpdu_of src) c s = (deregister_individual c 0 src s).0
close_socket (individual_of d) c s = (deregister_individual c d 0 s).0
close_socket group_socket c s = (deregister_group c 0 s).0

-- What a class keeps of a T_DATA_XXX_REQ message.
abbrev pub message_of : Kind → LData → List ℕ → Message
message_of broadcast l d = broadcast_comm d l.source
message_of (group_of a) l d = group_comm d l.source
message_of (individual_of a) l d = plain d
message_of group_socket l d = group_apdu d l.source l.dest
message_of (tpdu_of src) l d = tpdu_comm d l.source

abbrev pub queue_message : Message → Socket → Socket
queue_message m s = record s { outqueue = Queue.put m s.outqueue; sem = s.sem + 1 }

-- `if (t->getType () == T_DATA_XXX_REQ)`; every other message is dropped.
abbrev pub on_message : Tpdu → LData → Socket → Socket
on_message (data_xxx d) l s = queue_message (message_of s.kind l d) s
on_message _ l s = s

-- Get_L_Data of the classes: T_TPDU takes the bytes as they are.
unfoldable pub get_l_data : LData → Socket → Socket
get_l_data l s = elim s.kind [
  | tpdu_of src ↦ queue_message (tpdu_comm l.payload l.source) s
  | _ ↦ on_message (Tpdu.from_packet l.payload) l s
]

-- Get behind its wait.
unfoldable pub get : Socket → Option (Message × Socket)
get s = elim (Queue.get s.outqueue) [
  | none ↦ none
  | some (m, rest) ↦ some (m, record s { outqueue = rest; sem = s.sem - 1 })
]

abbrev pub addressed : AddrType → ℕ → ℕ → List ℕ → LData
unfolding new_l_data
addressed t source dest c = record new_l_data {
  source = source;
  dest = dest;
  addr_type = t;
  payload = c;
}

-- A T_DATA_XXX_REQ message as a frame; `none` is a failed assert of ToPacket.
abbrev pub data_frame : AddrType → ℕ → List ℕ → Option LData
data_frame t dest d = elim (Tpdu.to_packet (data_xxx d)) [
  | none ↦ none
  | some c ↦ some (addressed t 0 dest c)
]

-- Send of each class: what it gives to send_L_Data. T_TPDU sends the bytes as they are.
unfoldable pub send_broadcast : List ℕ → Option LData
send_broadcast d = data_frame group 0 d

unfoldable pub send_group : ℕ → List ℕ → Option LData
send_group groupaddr d = data_frame group groupaddr d

unfoldable pub send_individual : ℕ → List ℕ → Option LData
send_individual dest d = data_frame individual dest d

unfoldable pub send_group_socket : ℕ → List ℕ → Option LData
send_group_socket dst d = data_frame group dst d

unfoldable pub send_tpdu : ℕ → ℕ → List ℕ → LData
send_tpdu src addr c = addressed individual src addr c
