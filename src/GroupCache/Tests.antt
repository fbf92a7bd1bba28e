-- ===== src/GroupCache/Tests.antt =====
-- A history of the group cache, and the theorem at it.
use bcusdk.Base.{
  ℕ, ◌≡◌, ◌≤◌, ◌&&◌, not, length, is_empty, if◌then◌else◌, refl, true, false, some, none, List, [],
  ◌∷◌, arith,
}
use bcusdk.Array
use bcusdk.Lpdu.{LData, normal, group}
use bcusdk.Tpdu
use bcusdk.GroupCache.{
  Entry, Answer, new, find, search, add, shift_up, store, remove, get_l_data, start, read,
  read_round, fresh_entry, is_value, is_old,
}
use bcusdk.GroupCache.Map.{Op, empty, perform_all, step_all}
use bcusdk.GroupCache.Refinement.{Refines}
use Prim.Native.Nat.{min}
use bcusdk.GroupCache.Ring.{last_updates, skip, collect}
use bcusdk.GroupCache.Recent.{distance, oldest_first}
use bcusdk.GroupCache.History.{recorded_all, perform_all-last_updates, perform_all-missed}
use bcusdk.GroupCache.Answers.{expected, expected_round, perform_all-new}

abbrev telegram : ℕ → LData
telegram a = record {
  prio = normal;
  repeated = false;
  valid_checksum = true;
  valid_length = true;
  addr_type = group;
  source = 0x1101;
  dest = a;
  hopcount = 6;
  payload = 0x00 ∷ 0x81 ∷ [];
}

abbrev junk : Entry
junk = record { payload = []; src = 9; dst = 9; recvtime = 9 }

-- Values arrive for three addresses, one of them twice, and one is removed.
abbrev history : List Op
history =
    Op.switch_on true
    ∷ (Op.frame junk 10 (telegram 7)
        ∷ (Op.frame junk 11 (telegram 3)
            ∷ (Op.frame junk 12 (telegram 7)
                ∷ (Op.frame junk 13 (telegram 5) ∷ (Op.forget 3 ∷ [])))))

abbrev last_seven : Entry
last_seven = record { payload = 0x00 ∷ 0x81 ∷ []; src = 0x1101; dst = 7; recvtime = 12 }

history_lem : (read 0 14 7 0 5 (perform_all history new)).0 ≡ Answer.answered last_seven
unfolding read remove find search get_l_data Tpdu.from_packet start new is_value store add shift_up
    Array.resize fresh_entry Array.deletepart is_old
history_lem = refl

perform_all-new_example :
    Refines (perform_all history new) (step_all history empty)
    × ((read 0 14 7 0 5 (perform_all history new)).0 ≡ expected 0 14 7 0 5 (step_all history empty))
    × ((read_round junk 0 14 7 5 false (perform_all history new)).0
        ≡ expected_round 0 14 7 5 false (step_all history empty))
perform_all-new_example = perform_all-new history junk 0 14 7 0 5 false

last_updates_lem :
    (last_updates false 0 (perform_all history new)).0 ≡ some (7 ∷ (3 ∷ (7 ∷ (5 ∷ []))), 4)
unfolding last_updates skip collect remove find search get_l_data Tpdu.from_packet start new
    is_value store add shift_up Array.resize Array.deletepart
last_updates_lem = refl

perform_all-last_updates_example : (last_updates false 65535 (perform_all history new)).0 ≡ (
    let g = perform_all history new in
    let seen = oldest_first (min (distance g.pos 65535) 256) (recorded_all history new []) in
    if is_empty seen && not false then none else some (seen, g.pos))
perform_all-last_updates_example = perform_all-last_updates history false 65535 (omega arith)

abbrev later : List Op
later = Op.frame junk 20 (telegram 3) ∷ (Op.frame junk 21 (telegram 9) ∷ [])

later_few : length (recorded_all later (perform_all history new) []) ≤ 256
unfolding remove find search get_l_data Tpdu.from_packet start new is_value store add shift_up
    Array.resize Array.deletepart
later_few = omega arith

perform_all-missed_example :
    (last_updates true
      (perform_all history new).pos
      (perform_all later (perform_all history new))).0
    ≡ (let g = perform_all history new in
        let since = recorded_all later g [] in
        let seen = oldest_first (length since) since in
        if is_empty seen && not true then none else some (seen, (perform_all later g).pos))
perform_all-missed_example = perform_all-missed history later true later_few
