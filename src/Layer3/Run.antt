-- ===== src/Layer3/Run.antt =====
-- Layer3::Run, one round of its loop: what a frame from the driver is delivered to, and which
-- repetitions are dropped. `getTime ()` is read several times in a round: `clock n` is its answer to
-- the n-th reading.
use bcusdk.Base.{
  ℕ, zero, suc, ◌+◌, Bool, true, false, ◌&&◌, ◌||◌, Option, none, some, List, [], ◌∷◌, ◌++◌, map,
  length, ltb, ◌==◌, if◌then◌else◌, any,
}
use bcusdk.Array
use bcusdk.Lpdu.{
  Lpdu, unknown, l_data, busmonitor, l_data_ind, ack, nack, busy, LData, Busmonitor, AddrType,
  group, individual, to_packet_data,
}
use bcusdk.Layer3.{Callback, GroupInfo, IndividualInfo, IgnoreInfo, Layer3State}

-- One call of a callback, with its copy of the frame.
pub data Delivery : Type 0 where
  monitor_frame : Callback → Busmonitor → Delivery
  data_frame : Callback → LData → Delivery

-- The loop over `ignore` from the label `redel`, with the number of readings taken before.
unfoldable pub first_expired : (ℕ → ℕ) → ℕ → List IgnoreInfo → Option ℕ × ℕ
first_expired clock n [] = (none, n)
first_expired clock n (e ∷ es) =
    let (found, n') = first_expired clock (n + 1) es in
    if ltb e.expiry (clock n)
    then (some 0, n + 1)
    else (elim found [ none ↦ none | some i ↦ some (suc i) ], n')

-- `redel:` Each deletion starts the loop again; there are at most as many as there are entries.
unfoldable pub redel : ℕ → (ℕ → ℕ) → ℕ → List IgnoreInfo → List IgnoreInfo
redel zero clock n es = es
redel (suc fuel) clock n es =
    let (found, n') = first_expired clock n es in
    elim found [ none ↦ es | some i ↦ redel fuel clock n' (Array.deletepart i 1 es) ]

abbrev pub purge : (ℕ → ℕ) → ℕ → Layer3State → Layer3State
purge clock n s = record s { ignore = redel (length s.ignore) clock n s.ignore }

-- `d1 == ignore[i].data`
abbrev pub same_bytes : List ℕ → IgnoreInfo → Bool
same_bytes d e = Array.equal d e.bytes

abbrev pub group_wants : ℕ → GroupInfo → Bool
group_wants dest g = (g.dest == dest) || (g.dest == 0)

abbrev pub individual_wants : ℕ → ℕ → IndividualInfo → Bool
individual_wants source dest i = (i.dest == dest) && ((i.src == source) || (i.src == 0))

-- The callbacks whose entries pass a test, in the order of registration.
abbrev pub callbacks {ℓ} : {A : Type ℓ} → (A → Bool) → (A → Callback) → List A → List Callback
callbacks p cb [] = []
callbacks p cb (x ∷ xs) = let rest = callbacks p cb xs in if p x then cb x ∷ rest else rest

-- The three loops that call Get_L_Data.
unfoldable pub receivers : LData → Layer3State → List Callback
receivers f s = elim f.addr_type [
  | group ↦ if f.dest == 0 then s.broadcast else callbacks (group_wants f.dest) (λ g. g.cb) s.group
  | individual ↦ callbacks (individual_wants f.source f.dest) (λ i. i.cb) s.individual
]

abbrev pub is_individual : AddrType → Bool
is_individual group = false
is_individual individual = true

-- The frame as it is delivered: not repeated, and with 0 for the driver's own address.
abbrev pub localized : ℕ → LData → LData
localized default_addr f = record f {
  repeated = false;
  dest = if is_individual f.addr_type && (f.dest == default_addr) then 0 else f.dest;
}

abbrev pub as_repeated : LData → LData
as_repeated f = record f { repeated = true }

-- How long repetitions of a frame are dropped, in microseconds.
abbrev pub ignore_time : ℕ
ignore_time = 1000000

-- A frame that is no known repetition: it is remembered and delivered.
unfoldable pub accept : ℕ → (ℕ → ℕ) → LData → List ℕ → Layer3State → Layer3State × List Delivery
accept default_addr clock f d s =
    let t = record s {
      ignore = s.ignore ++ (record { bytes = d; expiry = clock 0 + ignore_time } ∷ []);
    } in
    let f' = localized default_addr f in
    (purge clock 1 t, map (λ c. data_frame c f') (receivers f' s))

-- The branch of L_Data frames. `none` is a failed assert of ToPacket.
unfoldable pub receive_data :
    ℕ → (ℕ → ℕ) → LData → Layer3State → Option (Layer3State × List Delivery)
receive_data default_addr clock f s = elim (to_packet_data (as_repeated f)) [
  | none ↦ none
  | some d ↦ some (
      if f.repeated && any (same_bytes d) s.ignore
      then (s, [])
      else accept default_addr clock f d s)
]

-- A round of the loop, by the type of the frame.
unfoldable pub receive : ℕ → (ℕ → ℕ) → Lpdu → Layer3State → Option (Layer3State × List Delivery)
receive default_addr clock (busmonitor m) s =
    some (purge clock 0 s, map (λ c. monitor_frame c m) (s.busmonitor ++ s.vbusmonitor))
receive default_addr clock (l_data f) s =
    if f.valid_length then receive_data default_addr clock f s else some (purge clock 0 s, [])
receive default_addr clock (unknown _) s = some (purge clock 0 s, [])
receive default_addr clock (l_data_ind _) s = some (purge clock 0 s, [])
receive default_addr clock ack s = some (purge clock 0 s, [])
receive default_addr clock nack s = some (purge clock 0 s, [])
receive default_addr clock busy s = some (purge clock 0 s, [])
