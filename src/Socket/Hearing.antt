-- ===== src/Socket/Hearing.antt =====
-- Which frames layer 3 delivers to an endpoint that was opened.
use bcusdk.Base.{
  ℕ, ◌≡◌, refl, ap, inl, inr, Bool-cases, Bool, false, not, ◌&&◌, ◌||◌, List, [], ◌∷◌, ◌++◌, arith,
  ◌==◌, if◌then◌else◌,
}
use mathlib.Core.List.{append-nil}
use bcusdk.Lpdu.{LData, group, individual}
use bcusdk.Layer3.{
  Layer3State, Callback, lock_none, register_broadcast, register_group, register_individual,
}
use bcusdk.Layer3.Run.{receivers, callbacks, group_wants, individual_wants}
use bcusdk.Socket.{
  Kind, broadcast, group_socket, group_of, individual_of, tpdu_of, register, registers, open_socket,
}

-- The frames of a class, as layer 3 sees them: the driver's own address is 0 there.
abbrev pub hears : Kind → LData → Bool
hears broadcast f = elim f.addr_type [ group ↦ f.dest == 0 | individual ↦ false ]
hears group_socket f = elim f.addr_type [ group ↦ not (f.dest == 0) | individual ↦ false ]
hears (group_of a) f = elim f.addr_type [
  | group ↦ not (f.dest == 0) && (f.dest == a)
  | individual ↦ false
]
hears (tpdu_of src) f = elim f.addr_type [ group ↦ false | individual ↦ f.dest == src ]
hears (individual_of d) f = elim f.addr_type [
  | group ↦ false
  | individual ↦ (f.dest == 0) && ((f.source == d) || (d == 0))
]

-- What a registration for a group, or for a pair of addresses, lets through.
abbrev heard_group : ℕ → LData → Bool
heard_group a f = elim f.addr_type [
  | group ↦ not (f.dest == 0) && ((a == f.dest) || (a == 0))
  | individual ↦ false
]

abbrev heard_individual : ℕ → ℕ → LData → Bool
heard_individual src dest f = elim f.addr_type [
  | group ↦ false
  | individual ↦ (dest == f.dest) && ((src == f.source) || (src == 0))
]

callbacks-append {ℓ} :
    {A : Type ℓ} (p : A → Bool) (cb : A → Callback) (xs ys : List A)
    → callbacks p cb (xs ++ ys) ≡ callbacks p cb xs ++ callbacks p cb ys
callbacks-append p cb [] ys = refl
callbacks-append p cb (x ∷ xs) ys = elim (Bool-cases (p x)) [
  | inl t ↦ rw (t) (ap (λ l. cb x ∷ l) (callbacks-append p cb xs ys))
  | inr t ↦ rw (t) (callbacks-append p cb xs ys)
]

receivers-broadcast :
    (c : Callback) (s : Layer3State) (f : LData)
    → receivers f (register_broadcast c s).0
      ≡ receivers f s ++ (if (register_broadcast c s).1 && hears broadcast f then c ∷ [] else [])
unfolding receivers register_broadcast
receivers-broadcast c s f = ground (arith, append-nil (receivers f s), append-nil s.broadcast)

receivers-group :
    (a : ℕ) (added : Bool) (c : Callback) (s : Layer3State) (f : LData)
    → receivers f (register_group added c a s).0
      ≡ receivers f s ++ (if (register_group added c a s).1 && heard_group a f then c ∷ [] else [])
unfolding receivers register_group
receivers-group a added c s f = ground (
  arith,
  append-nil (receivers f s),
  append-nil s.broadcast,
  append-nil (callbacks (group_wants f.dest) (λ g. g.cb) s.group),
  callbacks-append (group_wants f.dest) (λ g. g.cb) s.group (record { cb = c; dest = a } ∷ []),
)

receivers-individual :
    (src dest : ℕ) (added : Bool) (c : Callback) (s : Layer3State) (f : LData)
    → receivers f (register_individual added c lock_none src dest s).0
      ≡ receivers f s
        ++ (if (register_individual added c lock_none src dest s).1 && heard_individual src dest f
            then c ∷ []
            else [])
unfolding receivers register_individual
receivers-individual src dest added c s f = ground (
  arith,
  append-nil (receivers f s),
  append-nil s.broadcast,
  append-nil (callbacks (group_wants f.dest) (λ g. g.cb) s.group),
  append-nil (callbacks (individual_wants f.source f.dest) (λ i. i.cb) s.individual),
  callbacks-append (individual_wants f.source f.dest) (λ i. i.cb) s.individual
      (record { cb = c; src = src; dest = dest; lock = lock_none } ∷ []),
)

-- An endpoint that is opened for reading hears exactly the frames of its class, once each and after
-- those that were there before, and takes none away from them; one that is opened for writing alone,
-- or that cannot be opened, changes nothing for anybody.
pub open_socket-receivers :
    (k : Kind) (write_only added : Bool) (c : Callback) (s : Layer3State) (f : LData)
    → receivers f (open_socket k write_only added c s).0
      ≡ receivers f s
        ++ (if (open_socket k write_only added c s).1 && registers k write_only && hears k f
            then c ∷ []
            else [])
unfolding open_socket registers register
open_socket-receivers broadcast w added c s f =
    ground (arith, append-nil (receivers f s), receivers-broadcast c s f)
open_socket-receivers group_socket w added c s f =
    ground (arith, append-nil (receivers f s), receivers-group 0 added c s f)
open_socket-receivers (group_of a) w added c s f =
    ground (arith, append-nil (receivers f s), receivers-group a added c s f)
open_socket-receivers (tpdu_of src) w added c s f =
    ground (arith, append-nil (receivers f s), receivers-individual 0 src added c s f)
open_socket-receivers (individual_of d) w added c s f =
    ground (arith, append-nil (receivers f s), receivers-individual d 0 added c s f)
