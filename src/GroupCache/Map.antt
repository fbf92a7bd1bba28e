-- ===== src/GroupCache/Map.antt =====
-- What the group cache promises: a switch and a finite map from addresses to entries. Nothing is said
-- here of arrays, order or places.
use bcusdk.Base.{ℕ, Bool, false, ◌&&◌, ◌||◌, Option, none, some, List, [], ◌∷◌, ◌==◌, if◌then◌else◌}
use bcusdk.Lpdu.{LData}
use bcusdk.Tpdu
use bcusdk.GroupCache.{
  Entry, GroupCache, get_l_data, remove, start, clear, stop, read_round, entry_of, empty_entry,
  is_value, is_old, data_of,
}

pub record Map : Type 0 where
  pub on : Bool
  pub value : ℕ → Option Entry

abbrev pub empty : Map
empty = record { on = false; value = λ a. none }

abbrev pub write : ℕ → Option Entry → Map → Map
write a v m = record m { value = λ b. if b == a then v else m.value b }

-- The value of an address, unless it is too old.
abbrev pub recent : ℕ → ℕ → ℕ → Map → Option Entry
recent now a age m = elim (m.value a) [
  | none ↦ none
  | some e ↦ if is_old now age e then none else some e
]

-- The calls of a cache. `fresh` and `unset` are what the memory holds by chance.
pub data Op : Type 0 where
  frame : (fresh : Entry) (now : ℕ) (l : LData) → Op
  forget : ℕ → Op
  switch_on : Bool → Op
  empty_all switch_off : Op
  await : (fresh : Entry) (unset now addr age : ℕ) (expired : Bool) → Op

abbrev pub perform : Op → GroupCache → GroupCache
perform (frame fresh now l) g = get_l_data fresh now l g
perform (forget a) g = remove a g
perform (switch_on registered) g = (start registered g).0
perform empty_all g = clear g
perform switch_off g = stop g
perform (await fresh unset now addr age expired) g =
    (read_round fresh unset now addr age expired g).1

abbrev pub step : Op → Map → Map
step (frame fresh now l) m = elim (data_of (Tpdu.from_packet l.payload)) [
  | none ↦ m
  | some d ↦ if m.on && is_value d then write l.dest (some (entry_of now l d)) m else m
]
step (forget a) m = write a none m
step (switch_on registered) m = record m { on = m.on || registered }
step empty_all m = record m { value = λ a. none }
step switch_off m = empty
step (await fresh unset now addr age expired) m = elim (m.value addr) [
  | some e ↦ m
  | none ↦ if expired then write addr (some (empty_entry now addr)) m else m
]

abbrev pub perform_all : List Op → GroupCache → GroupCache
perform_all [] g = g
perform_all (o ∷ os) g = perform_all os (perform o g)

abbrev pub step_all : List Op → Map → Map
step_all [] m = m
step_all (o ∷ os) m = step_all os (step o m)
