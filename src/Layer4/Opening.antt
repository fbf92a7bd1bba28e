-- ===== src/Layer4/Opening.antt =====
-- eibd/libserver/layer4.cpp: what the constructor, the end of Run and the destructor of T_Connection
-- ask of layer 3. `Stop` lets Run end if the thread still runs.
use bcusdk.Tpdu
use mathlib.Core.Option
use bcusdk.Base.{
  Bool, Bool-cases, List, Option, [], any, any-append_one, ap, arith, false, find_index,
  if◌then◌else◌, inl, inr, length, none, not, refl, some, true, ℕ, ◌&&◌, ◌++◌, ◌∷◌, ◌≡◌,
}
use bcusdk.Array.TakeOut.{take_out_last}
use bcusdk.Layer3.{
  Callback, IndividualInfo, Layer3State, deregister_individual, individual_entry, lock_connection,
  locked_source, register_individual,
}
use bcusdk.Layer4.{Connection, finish, send_disconnect}
use bcusdk.Layer4.Reachable.{created}

-- The constructor: layer 3 after it, the object, and `init_ok`. `added` is the answer of the driver.
unfoldable pub open_connection : Bool → Callback → ℕ → Layer3State → Layer3State × Connection × Bool
open_connection added c dest s =
    let r = register_individual added c lock_connection dest 0 s in (r.0, created dest, r.1)

-- The end of Run, with the registration.
unfoldable pub end_run : Callback → Connection → Layer3State → Option (Connection × Layer3State)
end_run c x s = elim (finish x) [
  | none ↦ none
  | some x1 ↦ some (x1, (deregister_individual c x1.dest 0 s).0)
]

abbrev pub stop_thread :
    Bool → Callback → Connection → Layer3State → Option (Connection × Layer3State)
stop_thread running c x s = if running then end_run c x s else some (x, s)

-- The destructor.
unfoldable pub close_connection :
    Bool → Callback → Connection → Layer3State → Option (Connection × Layer3State)
close_connection running c x s = elim (stop_thread running c x s) [
  | none ↦ none
  | some (x1, s1) ↦ some (record x1 { buf = [] }, (deregister_individual c x1.dest 0 s1).0)
]

-- The registration of a connection to `dest`.
abbrev entry : Callback → ℕ → IndividualInfo
entry c dest = record { cb = c; src = dest; dest = 0; lock = lock_connection }

abbrev may_open : ℕ → Layer3State → Bool
may_open dest s = not s.mode && not (any (locked_source dest) s.individual)

opened_state : Callback → ℕ → Layer3State → Layer3State
opened_state c dest s =
    if may_open dest s then record s { individual = s.individual ++ (entry c dest ∷ []) } else s

register_lem :
    (added : Bool) (c : Callback) (dest : ℕ) (s : Layer3State)
    → register_individual added c lock_connection dest 0 s
      ≡ (opened_state c dest s, may_open dest s)
unfolding register_individual opened_state
register_lem added c dest s = ground arith

find_index-none {ℓ} :
    {A : Type ℓ} (p : A → Bool) (xs : List A) → any p xs ≡ false → find_index p xs ≡ none
find_index-none p [] e = refl
find_index-none p (x ∷ xs) e = ground (arith, find_index-none p xs)

find_index_last {ℓ} :
    {A : Type ℓ} (p : A → Bool) (xs : List A) (x : A)
    → any p xs ≡ false
    → p x ≡ true
    → find_index p (xs ++ (x ∷ [])) ≡ some (length xs)
find_index_last p [] x e t = rw t refl
find_index_last p (y ∷ xs) x e t = ground (arith, find_index_last p xs x)

module _ (c : Callback) (dest : ℕ) (s : Layer3State)
    (fresh : any (individual_entry c dest 0) s.individual ≡ false) where
  nothing_removed : (deregister_individual c dest 0 s).0 ≡ s
  unfolding deregister_individual
  nothing_removed =
      rw (find_index-none (individual_entry c dest 0) s.individual fresh, deregister_individual)
        refl

  entry_removed :
      (deregister_individual c dest 0
        (record s { individual = s.individual ++ (entry c dest ∷ []) })).0
      ≡ s
  unfolding deregister_individual
  entry_removed =
      rw
        (
          find_index_last (individual_entry c dest 0) s.individual (entry c dest) fresh
              (ground arith),
          take_out_last s.individual (entry c dest),
          deregister_individual,
        )
        (ground arith)

  opened_removed : (deregister_individual c dest 0 (opened_state c dest s)).0 ≡ s
  unfolding opened_state
  opened_removed = elim (Bool-cases (may_open dest s)) [
    | inl t ↦ rw t entry_removed
    | inr f ↦ rw f nothing_removed
  ]

locked_again :
    (c : Callback) (dest : ℕ) (s : Layer3State) → may_open dest (opened_state c dest s) ≡ false
unfolding opened_state
locked_again c dest s =
    ground (arith, any-append_one (locked_source dest) s.individual (entry c dest))

finish-some : (x : Connection) → (x1 : Connection) × (finish x ≡ some x1) × (x1.dest ≡ x.dest)
unfolding finish send_disconnect Tpdu.to_packet
finish-some x = (_, refl, refl)

thread_stopped :
    (running : Bool) (c : Callback) (x : Connection) (s t : Layer3State)
    → (deregister_individual c x.dest 0 t).0 ≡ s
    → any (individual_entry c x.dest 0) s.individual ≡ false
    → Option.map (λ r. r.1) (close_connection running c x t) ≡ some s
unfolding close_connection end_run
thread_stopped false c x s t e fresh = ap some e
thread_stopped true c x s t e fresh =
    let (x1, done, same) = finish-some x in
    rw (close_connection, end_run, done, same, e) (ap some (nothing_removed c x.dest s fresh))

-- A connection opens exactly if layer 3 does not monitor the bus and no other connection to the device
-- is registered, whatever the driver answers. Right after the constructor a second one to the same
-- device is refused and changes nothing. The destructor, right after the constructor, brings layer 3
-- back to the state before it, in whatever state the object is, whether or not it could be opened and
-- whether or not its thread still runs, if the object was not registered for the device before.
pub open_connection-close_connection :
    (added running again : Bool) (c other : Callback) (x : Connection) (s : Layer3State)
    → any (individual_entry c x.dest 0) s.individual ≡ false
    → ((open_connection added c x.dest s).2
        ≡ (not s.mode && not (any (locked_source x.dest) s.individual)))
      × ((open_connection again other x.dest (open_connection added c x.dest s).0).0
          ≡ (open_connection added c x.dest s).0)
      × ((open_connection again other x.dest (open_connection added c x.dest s).0).2 ≡ false)
      × (Option.map (λ r. r.1) (close_connection running c x (open_connection added c x.dest s).0)
          ≡ some s)
unfolding open_connection opened_state
open_connection-close_connection added running again c other x s fresh =
    rw (register_lem added c x.dest s, register_lem again other x.dest (opened_state c x.dest s))
      (
        refl,
        rw (opened_state, locked_again c x.dest s) refl,
        locked_again c x.dest s,
        thread_stopped running c x s (opened_state c x.dest s) (opened_removed c x.dest s fresh)
            fresh,
      )
