-- ===== src/Layer3/System.antt =====
-- Layer 3 as its users see it: any sequence of requests and of frames from the driver.
use bcusdk.Base.{ℕ, Bool, Option, none, some, List, [], ◌∷◌}
use bcusdk.Lpdu.{Lpdu, LData}
use bcusdk.Layer3.{
  Callback, Lock, Layer3State, send_l_data, register_busmonitor, register_vbusmonitor,
  register_broadcast, register_group, register_individual, deregister_busmonitor,
  deregister_vbusmonitor, deregister_broadcast, deregister_group, deregister_individual,
}
use bcusdk.Layer3.Run.{receive}

-- The public functions of the class with the driver's answers, and a frame with the clock's readings.
pub data Event : Type 0 where
  send_frame : ℕ → LData → Event
  add_busmonitor add_vbusmonitor : Bool → Callback → Event
  add_broadcast : Callback → Event
  add_group : Bool → Callback → ℕ → Event
  add_individual : Bool → Callback → Lock → ℕ → ℕ → Event
  drop_busmonitor drop_vbusmonitor drop_broadcast : Callback → Event
  drop_group : Callback → ℕ → Event
  drop_individual : Callback → ℕ → ℕ → Event
  arrive : ℕ → (ℕ → ℕ) → Lpdu → Event

-- `none`: an assert stopped the program.
unfoldable pub perform : Event → Layer3State → Option Layer3State
perform (send_frame default_addr f) s = some (send_l_data default_addr f s)
perform (add_busmonitor entered c) s = some (register_busmonitor entered c s).0
perform (add_vbusmonitor opened c) s = some (register_vbusmonitor opened c s).0
perform (add_broadcast c) s = some (register_broadcast c s).0
perform (add_group added c addr) s = some (register_group added c addr s).0
perform (add_individual added c lock src dest) s =
    some (register_individual added c lock src dest s).0
perform (drop_busmonitor c) s = some (deregister_busmonitor c s).0
perform (drop_vbusmonitor c) s = some (deregister_vbusmonitor c s).0
perform (drop_broadcast c) s = some (deregister_broadcast c s).0
perform (drop_group c addr) s = some (deregister_group c addr s).0
perform (drop_individual c src dest) s = some (deregister_individual c src dest s).0
perform (arrive default_addr clock l) s = elim (receive default_addr clock l s) [
  | none ↦ none
  | some (t, deliveries) ↦ some t
]

unfoldable pub run : List Event → Layer3State → Option Layer3State
run [] s = some s
run (e ∷ es) s = elim (perform e s) [ none ↦ none | some t ↦ run es t ]
