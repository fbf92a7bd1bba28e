-- ===== src/Layer3/Tests.antt =====
-- Histories of layer 3: runs, and the theorems at these runs.
use bcusdk.Base.{All, List, [], arith, false, refl, some, true, ℕ, ◌∷◌, ◌≡◌, ◌⊎◌}
use bcusdk.Layer3.{
  Layer3State, add_group_address, close_normal, enter_busmonitor, new, open_normal, register_group,
}
use bcusdk.Layer3.Links.{Inv}
use bcusdk.Layer3.Purge.{NotExpired, receive-NotExpired}
use bcusdk.Layer3.Reachable.{run-Inv}
use bcusdk.Layer3.Repeats.{IsRepetition}
use bcusdk.Layer3.Run.{
  accept, as_repeated, data_frame, first_expired, receive, receive_data, receivers, redel,
}
use bcusdk.Layer3.Suppression.{repetition_dropped}
use bcusdk.Layer3.System.{add_group, perform, run}
use bcusdk.Lpdu.{
  Busmonitor, LData, asserts, busmonitor, checksum, control_byte, group, l_data, normal, prio_code,
  standard_bytes, to_packet_data,
}

abbrev new_state : Layer3State
new_state = record {
  mode = false;
  ignore = [];
  busmonitor = [];
  vbusmonitor = [];
  broadcast = [];
  group = [];
  individual = [];
  calls = open_normal ∷ [];
}

abbrev telegram : LData
telegram = record {
  prio = normal;
  repeated = false;
  valid_checksum = true;
  valid_length = true;
  addr_type = group;
  source = 0x1101;
  dest = 5;
  hopcount = 6;
  payload = 0x00 ∷ 0x81 ∷ [];
}

abbrev telegram_bytes : List ℕ
telegram_bytes = 0x94 ∷ 0x11 ∷ 0x01 ∷ 0x00 ∷ 0x05 ∷ 0xe1 ∷ 0x00 ∷ 0x81 ∷ 0x1e ∷ []

telegram_printed : to_packet_data (as_repeated telegram) ≡ some telegram_bytes
unfolding to_packet_data asserts standard_bytes control_byte prio_code checksum
telegram_printed = refl

-- The clock stands at `now` in a round.
abbrev at_time : ℕ → ℕ → ℕ
at_time now n = now

-- Callback 7 is registered for the group address 5, and the driver agrees.
abbrev listening : Layer3State
listening = record new_state {
  group = record { cb = 7; dest = 5 } ∷ [];
  calls = add_group_address 5 true ∷ open_normal ∷ [];
}

abbrev remembering : Layer3State
remembering = record listening { ignore = record { bytes = telegram_bytes; expiry = 1000100 } ∷ [] }

registered : run (add_group true 7 5 ∷ []) new ≡ some listening
unfolding run perform register_group new
registered = refl

-- The first copy reaches the callback.
first_copy :
    receive 0x1102 (at_time 100) (l_data telegram) listening
    ≡ some (remembering, data_frame 7 telegram ∷ [])
unfolding receive receive_data accept receivers redel first_expired
first_copy = rw (telegram_printed, receive_data) refl

run-Inv_example : Inv listening
run-Inv_example = run-Inv (add_group true 7 5 ∷ []) listening registered

-- Another callback registers between the two copies.
abbrev crowded : Layer3State
crowded = record remembering {
  group = record { cb = 7; dest = 5 } ∷ record { cb = 8; dest = 5 } ∷ [];
}

between : run (add_group true 8 5 ∷ []) remembering ≡ some crowded
unfolding run perform register_group
between = refl

repetition_dropped_example :
    receive 0x1102 (at_time 2000000) (l_data (as_repeated telegram)) crowded ≡ some (crowded, [])
repetition_dropped_example =
    repetition_dropped 0x1102 0x1102 (at_time 100) (at_time 2000000) telegram
      (add_group true 8 5 ∷ []) listening remembering crowded (data_frame 7 telegram ∷ []) refl refl
      (λ n. omega arith) first_copy tt between

receive-NotExpired_example :
    (IsRepetition (l_data telegram) listening.ignore × (remembering.ignore ≡ listening.ignore))
    ⊎ All (NotExpired 100) remembering.ignore
receive-NotExpired_example =
    receive-NotExpired 0x1102 (at_time 100) (l_data telegram) listening remembering
      (data_frame 7 telegram ∷ []) (λ m n h. omega arith) first_copy

-- In bus monitor mode.
abbrev watching : Layer3State
watching = record new_state {
  mode = true;
  busmonitor = 9 ∷ [];
  calls = enter_busmonitor true ∷ close_normal ∷ open_normal ∷ [];
}

watched :
    receive 0x1102 (at_time 100) (l_data telegram) watching
    ≡ some
        (record watching { ignore = record { bytes = telegram_bytes; expiry = 1000100 } ∷ [] }, [])
unfolding receive receive_data accept receivers redel first_expired
watched = rw (telegram_printed, receive_data) refl

abbrev seen : Busmonitor
seen = record { pdu = telegram_bytes; status = 0; timestamp = 0 }
