-- ===== src/Layer3.antt =====
-- eibd/libserver/layer3.h and layer3.cpp: who is registered for which frames. The layer 2 driver is
-- an interface (layer2.h): what layer 3 asks of it is logged with the answer, and the answers come
-- from outside. Callbacks are numbers.
pub mod Links
pub mod Purge
pub mod Reachable
pub mod Repeats
pub mod Run
pub mod Suppression
pub mod System
mod Tests
use bcusdk.Base.{
  ℕ, suc, ◌+◌, ◌-◌, Bool, true, false, not, ◌&&◌, ◌||◌, Option, none, some, List, [], ◌∷◌, ◌++◌,
  length, ltb, ◌==◌, if◌then◌else◌, find_index, any, is_empty,
}
use bcusdk.Array
use bcusdk.Lpdu.{LData}

-- Busmonitor_Info and Broadcast_Info hold the callback alone.
abbrev pub Callback : Type 0
Callback = ℕ

-- Group_Info
pub record GroupInfo : Type 0 where
  pub cb : Callback
  pub dest : ℕ

-- Individual_Lock
pub data Lock : Type 0 where
  lock_none lock_connection : Lock

-- Individual_Info
pub record IndividualInfo : Type 0 where
  pub cb : Callback
  pub src : ℕ
  pub dest : ℕ
  pub lock : Lock

-- IgnoreInfo: a frame that was seen, and until when its repetitions are dropped.
pub record IgnoreInfo : Type 0 where
  pub bytes : List ℕ
  pub expiry : ℕ

-- The calls of the layer 2 driver, with the answers that layer 3 looks at.
pub data Call : Type 0 where
  open_normal close_normal leave_busmonitor close_vbusmonitor : Call
  enter_busmonitor open_vbusmonitor : Bool → Call
  add_address add_group_address : ℕ → Bool → Call
  remove_address remove_group_address : ℕ → Call
  send : LData → Call

-- The object. `mode` is true in bus monitor mode; `calls` holds the newest call first.
pub record Layer3State : Type 0 where
  pub mode : Bool
  pub ignore : List IgnoreInfo
  pub busmonitor : List Callback
  pub vbusmonitor : List Callback
  pub broadcast : List Callback
  pub group : List GroupInfo
  pub individual : List IndividualInfo
  pub calls : List Call

abbrev pub log : Call → Layer3State → Layer3State
log c s = record s { calls = c ∷ s.calls }

-- The constructor.
unfoldable pub new : Layer3State
new = record {
  mode = false;
  ignore = [];
  busmonitor = [];
  vbusmonitor = [];
  broadcast = [];
  group = [];
  individual = [];
  calls = open_normal ∷ [];
}

-- `default_addr` is layer2->getDefaultAddr ().
unfoldable pub send_l_data : ℕ → LData → Layer3State → Layer3State
send_l_data default_addr f s =
    log (send (if f.source == 0 then record f { source = default_addr } else f)) s

abbrev pub group_dest : ℕ → GroupInfo → Bool
group_dest addr g = g.dest == addr

abbrev pub individual_dest : ℕ → IndividualInfo → Bool
individual_dest addr i = i.dest == addr

-- registerBusmonitor; `entered` is the answer of enterBusmonitor.
unfoldable pub register_busmonitor : Bool → Callback → Layer3State → Layer3State × Bool
register_busmonitor entered c s =
    let enroll =
      λ (t : Layer3State). (record t { mode = true; busmonitor = t.busmonitor ++ (c ∷ []) }) in
    if not (is_empty s.individual && (is_empty s.group && is_empty s.broadcast))
    then (s, false)
    else if s.mode
    then (enroll s, true)
    else if entered
    then (enroll (log (enter_busmonitor true) (log close_normal s)), true)
    else (log open_normal (log (enter_busmonitor false) (log close_normal s)), false)

-- registerVBusmonitor; `opened` is the answer of openVBusmonitor, which is asked for the first.
unfoldable pub register_vbusmonitor : Bool → Callback → Layer3State → Layer3State × Bool
register_vbusmonitor opened c s =
    let t = if is_empty s.vbusmonitor then log (open_vbusmonitor opened) s else s in
    if is_empty s.vbusmonitor && not opened
    then (t, false)
    else (record t { vbusmonitor = s.vbusmonitor ++ (c ∷ []) }, true)

-- registerBroadcastCallBack
unfoldable pub register_broadcast : Callback → Layer3State → Layer3State × Bool
register_broadcast c s =
    if s.mode then (s, false) else (record s { broadcast = s.broadcast ++ (c ∷ []) }, true)

-- registerGroupCallBack; `added` is the answer of addGroupAddress, which is asked for an address
-- other than 0 that is not registered yet.
unfoldable pub register_group : Bool → Callback → ℕ → Layer3State → Layer3State × Bool
register_group added c addr s =
    let asks = not (any (group_dest addr) s.group) && not (addr == 0) in
    let t = if asks then log (add_group_address addr added) s else s in
    if s.mode
    then (s, false)
    else if asks && not added
    then (t, false)
    else (record t { group = s.group ++ (record { cb = c; dest = addr } ∷ []) }, true)

abbrev pub is_connection : Lock → Bool
is_connection lock_none = false
is_connection lock_connection = true

abbrev pub locked_source : ℕ → IndividualInfo → Bool
locked_source src i = (i.src == src) && is_connection i.lock

-- registerIndividualCallBack; `added` is the answer of addAddress.
unfoldable pub register_individual :
    Bool → Callback → Lock → ℕ → ℕ → Layer3State → Layer3State × Bool
register_individual added c lock src dest s =
    let asks = not (any (individual_dest dest) s.individual) && not (dest == 0) in
    let t = if asks then log (add_address dest added) s else s in
    if s.mode
    then (s, false)
    else if is_connection lock && any (locked_source src) s.individual
    then (s, false)
    else if asks && not added
    then (t, false)
    else (
      record t {
        individual = s.individual ++ (record { cb = c; src = src; dest = dest; lock = lock } ∷ []);
      },
      true,
    )

-- The entries that the deregister functions look for.
abbrev pub same_callback : Callback → Callback → Bool
same_callback c b = b == c

abbrev pub group_entry : Callback → ℕ → GroupInfo → Bool
group_entry c addr g = (g.cb == c) && (g.dest == addr)

abbrev pub individual_entry : Callback → ℕ → ℕ → IndividualInfo → Bool
individual_entry c src dest i = (i.cb == c) && ((i.src == src) && (i.dest == dest))

-- deregisterBusmonitor
unfoldable pub deregister_busmonitor : Callback → Layer3State → Layer3State × Bool
deregister_busmonitor c s = elim (find_index (same_callback c) s.busmonitor) [
  | none ↦ (s, false)
  | some i ↦
      let rest = Array.take_out i s.busmonitor in
      let t = record s { busmonitor = rest } in
      (
        if is_empty rest
            then log open_normal (log leave_busmonitor (record t { mode = false }))
            else t,
        true,
      )
]

-- deregisterVBusmonitor
unfoldable pub deregister_vbusmonitor : Callback → Layer3State → Layer3State × Bool
deregister_vbusmonitor c s = elim (find_index (same_callback c) s.vbusmonitor) [
  | none ↦ (s, false)
  | some i ↦
      let rest = Array.take_out i s.vbusmonitor in
      let t = record s { vbusmonitor = rest } in
      (if is_empty rest then log close_vbusmonitor t else t, true)
]

-- deregisterBroadcastCallBack
unfoldable pub deregister_broadcast : Callback → Layer3State → Layer3State × Bool
deregister_broadcast c s = elim (find_index (same_callback c) s.broadcast) [
  | none ↦ (s, false)
  | some i ↦ (record s { broadcast = Array.take_out i s.broadcast }, true)
]

-- deregisterGroupCallBack: layer 2 forgets an address with its last registration.
unfoldable pub deregister_group : Callback → ℕ → Layer3State → Layer3State × Bool
deregister_group c addr s = elim (find_index (group_entry c addr) s.group) [
  | none ↦ (s, false)
  | some i ↦
      let rest = Array.take_out i s.group in
      let t = record s { group = rest } in
      (
        if any (group_dest addr) rest || (addr == 0) then t else log (remove_group_address addr) t,
        true,
      )
]

-- deregisterIndividualCallBack
unfoldable pub deregister_individual : Callback → ℕ → ℕ → Layer3State → Layer3State × Bool
deregister_individual c src dest s = elim (find_index (individual_entry c src dest) s.individual) [
  | none ↦ (s, false)
  | some i ↦
      let rest = Array.take_out i s.individual in
      let t = record s { individual = rest } in
      (
        if any (individual_dest dest) rest || (dest == 0) then t else log (remove_address dest) t,
        true,
      )
]
