-- ===== src/Layer3/Links.antt =====
-- What layer 3 keeps true of itself and of the layer 2 driver.
use bcusdk.Base.{
  ℕ, ◌≤◌, ◌≡◌, ◌≢◌, Bool, true, false, not, ◌&&◌, ◌||◌, List, [], ◌∷◌, arith, ◌==◌, if◌then◌else◌,
  any, any-tally, any-append_one, is_empty_of_found, is_empty-append_one, is_empty, tally,
  tally-append, find_index, Option-cases, inl, inr,
}
use bcusdk.Lpdu.{LData}
use bcusdk.Array.TakeOut.{take_out-tally}
use bcusdk.Array
use bcusdk.Layer3.{
  Callback, GroupInfo, group_entry, individual_entry, same_callback, Lock, IndividualInfo, Call,
  open_normal, close_normal, leave_busmonitor, close_vbusmonitor, enter_busmonitor,
  open_vbusmonitor, add_address, add_group_address, remove_address, remove_group_address,
  Layer3State, new, send_l_data, group_dest, individual_dest, register_busmonitor,
  register_vbusmonitor, register_broadcast, register_group, register_individual,
  deregister_busmonitor, deregister_vbusmonitor, deregister_broadcast, deregister_group,
  deregister_individual, locked_source,
}

-- The driver's side of the log: which state it is in, and which addresses it was given.
pub data Link : Type 0 where
  closed normal monitoring fault : Link

abbrev pub link_step : Call → Link → Link
link_step open_normal closed = normal
link_step open_normal _ = fault
link_step close_normal normal = closed
link_step close_normal _ = fault
link_step (enter_busmonitor true) closed = monitoring
link_step (enter_busmonitor false) closed = closed
link_step (enter_busmonitor _) _ = fault
link_step leave_busmonitor monitoring = closed
link_step leave_busmonitor _ = fault
link_step _ l = l

abbrev pub link : List Call → Link
link [] = closed
link (c ∷ cs) = link_step c (link cs)

abbrev pub holds_group : ℕ → List Call → Bool
holds_group a [] = false
holds_group a (add_group_address b ok ∷ cs) = if (a == b) && ok then true else holds_group a cs
holds_group a (remove_group_address b ∷ cs) = if a == b then false else holds_group a cs
holds_group a (_ ∷ cs) = holds_group a cs

abbrev pub holds_address : ℕ → List Call → Bool
holds_address a [] = false
holds_address a (add_address b ok ∷ cs) = if (a == b) && ok then true else holds_address a cs
holds_address a (remove_address b ∷ cs) = if a == b then false else holds_address a cs
holds_address a (_ ∷ cs) = holds_address a cs

abbrev pub vbusmonitor_open : List Call → Bool
vbusmonitor_open [] = false
vbusmonitor_open (open_vbusmonitor ok ∷ cs) = ok || vbusmonitor_open cs
vbusmonitor_open (close_vbusmonitor ∷ cs) = false
vbusmonitor_open (_ ∷ cs) = vbusmonitor_open cs

abbrev pub link_of_mode : Bool → Link
link_of_mode true = monitoring
link_of_mode false = normal

-- The driver never saw a call out of order and is in the mode that layer 3 thinks it is in; bus
-- monitor mode is on exactly while there is a bus monitor, and shuts out all other registrations;
-- the driver watches the virtual bus monitor exactly while someone is registered for it.
pub record IsModal (s : Layer3State) : Type 0 where
  pub linked : link s.calls ≡ link_of_mode s.mode
  pub monitors : is_empty s.busmonitor ≡ not s.mode
  pub alone : s.mode ≡ true → (s.group ≡ []) × (s.individual ≡ []) × (s.broadcast ≡ [])
  pub vmonitors : is_empty s.vbusmonitor ≡ not (vbusmonitor_open s.calls)

-- The driver holds the address `a`, other than 0, exactly while someone is registered for it, and at
-- most one connection has `a` for its source.
pub record IsHeld (s : Layer3State) (a : ℕ) : Type 0 where
  pub groups : a ≢ 0 → holds_group a s.calls ≡ any (group_dest a) s.group
  pub addresses : a ≢ 0 → holds_address a s.calls ≡ any (individual_dest a) s.individual
  pub locks : tally (locked_source a) s.individual ≤ 1

abbrev pub Inv : Layer3State → Type 0
Inv s = IsModal s × ((a : ℕ) → IsHeld s a)

pub new-Inv : Inv new
unfolding new
new-Inv = (ground arith, λ a. ground arith)

module _ (s : Layer3State) (v : Inv s) where
  pub register_busmonitor-Inv :
      (entered : Bool) (c : Callback) → Inv (register_busmonitor entered c s).0
  unfolding register_busmonitor
  register_busmonitor-Inv entered c =
      (ground (arith, v.0, is_empty-append_one s.busmonitor c), λ a. ground (arith, v.1 a))

  pub register_vbusmonitor-Inv :
      (opened : Bool) (c : Callback) → Inv (register_vbusmonitor opened c s).0
  unfolding register_vbusmonitor
  register_vbusmonitor-Inv opened c =
      (ground (arith, v.0, is_empty-append_one s.vbusmonitor c), λ a. ground (arith, v.1 a))

  pub register_broadcast-Inv : (c : Callback) → Inv (register_broadcast c s).0
  unfolding register_broadcast
  register_broadcast-Inv c = (ground (arith, v.0), λ a. ground (arith, v.1 a))

  pub register_group-Inv :
      (added : Bool) (c : Callback) (addr : ℕ) → Inv (register_group added c addr s).0
  unfolding register_group
  register_group-Inv added c addr =
      let new : GroupInfo = record { cb = c; dest = addr } in
      (ground (arith, v.0), λ a. ground (arith, v.1 a, any-append_one (group_dest a) s.group new))

  pub register_individual-Inv :
      (added : Bool) (c : Callback) (lock : Lock) (src dest : ℕ)
      → Inv (register_individual added c lock src dest s).0
  unfolding register_individual
  register_individual-Inv added c lock src dest =
      let new : IndividualInfo = record { cb = c; src = src; dest = dest; lock = lock } in
      (
        ground (arith, v.0),
        λ a. ground (
          arith,
          v.1 a,
          any-append_one (individual_dest a) s.individual new,
          any-tally (locked_source src) s.individual,
          tally-append (locked_source a) s.individual (new ∷ []),
        ),
      )

  pub send_l_data-Inv : (default_addr : ℕ) (f : LData) → Inv (send_l_data default_addr f s)
  unfolding send_l_data
  send_l_data-Inv default_addr f = (ground (arith, v.0), λ a. ground (arith, v.1 a))

  pub deregister_busmonitor-Inv : (c : Callback) → Inv (deregister_busmonitor c s).0
  unfolding deregister_busmonitor
  deregister_busmonitor-Inv c = elim (Option-cases (find_index (same_callback c) s.busmonitor)) [
    | inl e ↦ rw (e, deregister_busmonitor) v
    | inr (i, e) ↦
        rw (e, deregister_busmonitor)
          (
            ground (arith, v.0, is_empty_of_found (same_callback c) s.busmonitor i e),
            λ a. ground (arith, v.1 a),
          )
  ]

  pub deregister_vbusmonitor-Inv : (c : Callback) → Inv (deregister_vbusmonitor c s).0
  unfolding deregister_vbusmonitor
  deregister_vbusmonitor-Inv c = elim (Option-cases (find_index (same_callback c) s.vbusmonitor)) [
    | inl e ↦ rw (e, deregister_vbusmonitor) v
    | inr (i, e) ↦
        rw (e, deregister_vbusmonitor)
          (
            ground (arith, v.0, is_empty_of_found (same_callback c) s.vbusmonitor i e),
            λ a. ground (arith, v.1 a),
          )
  ]

  pub deregister_broadcast-Inv : (c : Callback) → Inv (deregister_broadcast c s).0
  unfolding deregister_broadcast
  deregister_broadcast-Inv c = elim (Option-cases (find_index (same_callback c) s.broadcast)) [
    | inl e ↦ rw (e, deregister_broadcast) v
    | inr (i, e) ↦
        rw (e, deregister_broadcast)
          (
            ground (arith, v.0, is_empty_of_found (same_callback c) s.broadcast i e),
            λ a. ground (arith, v.1 a),
          )
  ]

  pub deregister_group-Inv : (c : Callback) (addr : ℕ) → Inv (deregister_group c addr s).0
  unfolding deregister_group
  deregister_group-Inv c addr = elim (Option-cases (find_index (group_entry c addr) s.group)) [
    | inl e ↦ rw (e, deregister_group) v
    | inr (i, e) ↦
        let (x, t, count) = take_out-tally (group_entry c addr) s.group i e in
        let rest = Array.take_out i s.group in
        rw (e, deregister_group)
          (
            ground (arith, v.0, is_empty_of_found (group_entry c addr) s.group i e),
            λ a. ground (
              arith,
              v.1 a,
              t,
              count (group_dest a),
              any-tally (group_dest a) s.group,
              any-tally (group_dest a) rest,
            ),
          )
  ]

  pub deregister_individual-Inv :
      (c : Callback) (src dest : ℕ) → Inv (deregister_individual c src dest s).0
  unfolding deregister_individual
  deregister_individual-Inv c src dest =
      elim (Option-cases (find_index (individual_entry c src dest) s.individual)) [
        | inl e ↦ rw (e, deregister_individual) v
        | inr (i, e) ↦
            let (x, t, count) = take_out-tally (individual_entry c src dest) s.individual i e in
            let rest = Array.take_out i s.individual in
            rw (e, deregister_individual)
              (
                ground
                    (arith, v.0, is_empty_of_found (individual_entry c src dest) s.individual i e),
                λ a. ground (
                  arith,
                  v.1 a,
                  t,
                  count (individual_dest a),
                  count (locked_source a),
                  any-tally (individual_dest a) s.individual,
                  any-tally (individual_dest a) rest,
                ),
              )
      ]
