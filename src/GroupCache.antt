-- ===== src/GroupCache.antt =====
-- eibd/libserver/groupcache.h and groupcache.cpp: the last value of each group, in an array sorted by
-- the group's address, and a ring of the last 256 updated addresses. `enable` and the registration
-- with layer 3 go together; trace output and the locks are left out. `time (0)` is the argument
-- `now`, and a wait of GNU Pth cuts a function in two.
pub mod Answers
pub mod History
pub mod Map
pub mod Order
pub mod Refinement
pub mod Ring
pub mod Recent
pub mod Find
pub mod Update
mod Tests
use bcusdk.Base.{
  ℕ, zero, suc, ◌+◌, ◌-◌, ◌/◌, ◌%◌, ◌^◌, Bool, true, false, not, ◌&&◌, ◌||◌, Option, none, some,
  List, [], ◌∷◌, ◌++◌, length, get_elem?, replicate, ltb, leb, ◌==◌, if◌then◌else◌, bit_and, at,
  set,
}
use bcusdk.Array
use bcusdk.Lpdu.{LData, group, new_l_data}
use bcusdk.Tpdu
use bcusdk.Tpdu.{Tpdu, data_xxx}

-- GroupCacheEntry
pub record Entry : Type 0 where
  pub payload : List ℕ
  pub src : ℕ
  pub dst : ℕ
  pub recvtime : ℕ

-- The object. `pos` is a uint16_t; `updates` has 256 places.
pub record GroupCache : Type 0 where
  pub enable : Bool
  pub cache : List Entry
  pub pos : ℕ
  pub updates : List ℕ

-- The constructor.
unfoldable pub new : GroupCache
new = record { enable = false; cache = []; pos = 0; updates = replicate 256 0 }

-- The binary search of `find` and `remove`, from the place `l` up to `r = h - 1`, where the code has
-- the int -1 for `h` = 0. Each round shortens the range, so that its length is fuel enough.
unfoldable pub search : ℕ → ℕ → ℕ → ℕ → List Entry → Option (ℕ × Entry)
search zero l h addr c = none
search (suc fuel) l h addr c =
    let p = (l + (h - 1)) / 2 in
    if ltb l h
    then (elim (get_elem? c p) [
      | none ↦ none
      | some e ↦
          let above = ltb e.dst addr in
          let rest = search fuel (if above then p + 1 else l) (if above then h else p) addr c in
          if e.dst == addr then some (p, e) else rest
    ])
    else none

unfoldable pub find : ℕ → List Entry → Option (ℕ × Entry)
find addr c = search (length c) 0 (length c) addr c

unfoldable pub remove : ℕ → GroupCache → GroupCache
remove addr g = elim (find addr g.cache) [
  | none ↦ g
  | some (p, e) ↦ record g { cache = Array.deletepart p 1 g.cache }
]

-- The loop of `add`, which moves the entries behind the new one up, from the place `p` down.
unfoldable pub shift_up : ℕ → Entry → List Entry → List Entry
shift_up zero entry c = Array.put c 0 entry
shift_up (suc p) entry c = elim (get_elem? c p) [
  | none ↦ c
  | some e ↦
      let rest = shift_up p entry (Array.put c (suc p) e) in
      if ltb entry.dst e.dst then rest else Array.put c (suc p) entry
]

-- `fresh` is the pointer that the new place of the array holds before it is set.
unfoldable pub add : Entry → Entry → List Entry → List Entry
add fresh entry c = shift_up (length c) entry (Array.resize fresh (length c + 1) c)

-- The test of an APDU in Get_L_Data: a group value response or write.
unfoldable pub is_value : List ℕ → Bool
is_value d =
    leb 2 (length d)
    && ((bit_and (at d 0) 0x3 == 0)
        && ((bit_and (at d 1) 0xc0 == 0x40) || (bit_and (at d 1) 0xc0 == 0x80)))

abbrev pub entry_of : ℕ → LData → List ℕ → Entry
entry_of now l d = record { payload = d; src = l.source; dst = l.dest; recvtime = now }

-- A value arrives: the ring first, then the entry, in place if there is one.
unfoldable pub store : Entry → ℕ → LData → List ℕ → GroupCache → GroupCache
store fresh now l d g = record g {
  updates = set g.updates (bit_and g.pos 0xff) l.dest;
  pos = (g.pos + 1) % 2 ^ 16;
  cache = elim (find l.dest g.cache) [
    | some (p, e) ↦ Array.put g.cache p (entry_of now l d)
    | none ↦ add fresh (entry_of now l d) g.cache
  ];
}

-- The data of a T_DATA_XXX_REQ message.
abbrev pub data_of : Tpdu → Option (List ℕ)
data_of (data_xxx d) = some d
data_of _ = none

-- Get_L_Data
unfoldable pub get_l_data : Entry → ℕ → LData → GroupCache → GroupCache
get_l_data fresh now l g = elim (data_of (Tpdu.from_packet l.payload)) [
  | none ↦ g
  | some d ↦ if g.enable && is_value d then store fresh now l d g else g
]

-- Start; `registered` is the answer of registerGroupCallBack, which is asked if the cache is off.
unfoldable pub start : Bool → GroupCache → GroupCache × Bool
start registered g =
    if not g.enable && not registered then (g, false) else (record g { enable = true }, true)

unfoldable pub clear : GroupCache → GroupCache
clear g = record g { cache = [] }

unfoldable pub stop : GroupCache → GroupCache
unfolding clear
stop g = record (clear g) { enable = false }

-- `c && age && c->recvtime + age < time (0)` is what makes an entry too old.
unfoldable pub is_old : ℕ → ℕ → Entry → Bool
is_old now age e = not (age == 0) && ltb (e.recvtime + age) now

abbrev pub empty_entry : ℕ → ℕ → Entry
empty_entry unset addr = record { payload = []; src = 0; dst = addr; recvtime = unset }

-- The entry for an address, unless it is too old.
unfoldable pub fresh_entry : ℕ → ℕ → ℕ → List Entry → Option Entry
fresh_entry now addr age c = elim (find addr c) [
  | none ↦ none
  | some (p, e) ↦ if is_old now age e then none else some e
]

-- What a part of Read ends with: the answer, or a wait for the condition.
pub data Answer : Type 0 where
  answered : Entry → Answer
  waits : Answer

-- Read up to its loop, with the frame that it sends: the bytes of A_GroupValue_Read. `unset` is the time of an entry that has none.
unfoldable pub read : ℕ → ℕ → ℕ → ℕ → ℕ → GroupCache → Answer × Option LData
read unset now addr timeout age g =
    if not g.enable
    then (Answer.answered (empty_entry unset 0), none)
    else elim (fresh_entry now addr age g.cache) [
      | some e ↦ (Answer.answered e, none)
      | none ↦ if timeout == 0 then (Answer.answered (empty_entry unset addr), none) else (
        Answer.waits,
        some (record new_l_data {
          source = 0;
          dest = addr;
          addr_type = group;
          payload = 0x00 ∷ 0x00 ∷ [];
        }),
      )
    ]

-- One round of the loop of Read; `expired` is the state of its timer. An address without an answer
-- is remembered as well.
unfoldable pub read_round : Entry → ℕ → ℕ → ℕ → ℕ → Bool → GroupCache → Answer × GroupCache
read_round fresh unset now addr age expired g = elim (fresh_entry now addr age g.cache) [
  | some e ↦ (Answer.answered e, g)
  | none ↦ if not expired then (Answer.waits, g) else elim (find addr g.cache) [
    | some (p, e) ↦ (Answer.answered (empty_entry unset addr), g)
    | none ↦ (
      Answer.answered (empty_entry now addr),
      record g { cache = add fresh (empty_entry now addr) g.cache },
    )
  ]
]
