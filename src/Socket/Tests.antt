-- ===== src/Socket/Tests.antt =====
-- Endpoints at work, and the theorems there.
use bcusdk.Base.{
  ℕ, ◌≡◌, ◌++◌, refl, true, false, ◌&&◌, if◌then◌else◌, some, List, [], ◌∷◌, map, arith,
}
use bcusdk.Lpdu.{LData, normal, group}
use bcusdk.Layer3.{new, register_group}
use bcusdk.Layer3.Run.{receivers}
use bcusdk.Socket.{group_of, group_socket, open_socket, registers, register}
use bcusdk.Socket.Hearing.{hears, open_socket-receivers}
use bcusdk.Socket.Transfer.{
  carried, send_all, receive_all, received, take_all_messages, send_all-received,
}

abbrev switched : LData
switched = record {
  prio = normal;
  repeated = false;
  valid_checksum = true;
  valid_length = true;
  addr_type = group;
  source = 0x1101;
  dest = 5;
  hopcount = 6;
  payload = 0x00 ∷ 0x81 ∷ [];
}

heard_lem : receivers switched (open_socket (group_of 5) false true 77 new).0 ≡ 77 ∷ []
unfolding receivers open_socket registers register register_group new
heard_lem = refl

open_socket-receivers_example :
    receivers switched (open_socket (group_of 5) false true 77 new).0
    ≡ receivers switched new
      ++ (if (open_socket (group_of 5) false true 77 new).1
            && registers (group_of 5) false
            && hears (group_of 5) switched
          then 77 ∷ []
          else [])
open_socket-receivers_example = open_socket-receivers (group_of 5) false true 77 new switched

abbrev values : List (List ℕ)
values = (0x00 ∷ 0x81 ∷ []) ∷ ((0x00 ∷ 0x80 ∷ 0x19 ∷ []) ∷ [])

send_all-received_example :
    (ls : List LData) × (send_all (group_of 5) 0 values ≡ some ls)
    × ((receive_all
          (map (carried 0x1102) ls)
          (record { kind = group_socket; outqueue = []; sem = 0 })).sem
        ≡ 2)
    × (take_all_messages 2 (
          receive_all
            (map (carried 0x1102) ls)
            (record { kind = group_socket; outqueue = []; sem = 0 }))
        ≡ some (map (received group_socket (group_of 5) 0x1102 0) values))
send_all-received_example = send_all-received (group_of 5) group_socket 0x1102 0 values refl (
  ((omega arith, (omega arith, tt)), omega arith),
  (((omega arith, (omega arith, (omega arith, tt))), omega arith), tt),
)
