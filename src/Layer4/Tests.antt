-- ===== src/Layer4/Tests.antt =====
-- Runs of a connection, and the theorems at these runs.
use bcusdk.Base.{ℕ, ◌≡◌, ◌≢◌, true, false, ◌<◌, ◌++◌, map, refl, some, none, List, [], ◌∷◌, arith}
use bcusdk.Lpdu.{system, new_l_data}
use bcusdk.Tpdu
use bcusdk.Tpdu.{Tpdu, data_connected, disconnect}
use bcusdk.Layer4.{
  Connection, on_ready, send_data, closed, idle, ack_wait, Wake, data_waiting, timer, frame_to,
  default_prio, start, send_connect, send, round, get, finish, on_tpdu, next_no,
}
use bcusdk.Layer3
use mathlib.Core.Option
use bcusdk.Layer4.Opening.{open_connection, close_connection, open_connection-close_connection}
use bcusdk.Layer4.Invariant.{Inv, IsEnabled}
use bcusdk.Layer4.Reachable.{
  created, Reach, here, after, submitted, woken, reached-Inv, reached-IsSafe,
}
use bcusdk.Layer4.Delivery.{unnumbered, on_tpdus, stream, IsDelivered, stream-IsDelivered}
use bcusdk.Layer4.Exchange.{transfer_all, transfer_all-delivered}
use bcusdk.Layer4.Retry.{timeouts, IsAwaiting, send-IsAwaiting}

-- A connection to 1.1.5 that was just opened.
abbrev opened : Connection
opened = record {
  pending = [];
  buf = [];
  out = [];
  recvno = 0;
  sendno = 0;
  mode = idle;
  repcount = 0;
  dest = 0x1105;
  insem = 0;
  bufsem = 0;
  outsem = 0;
  timeout = 6;
  sent = frame_to 0x1105 system (0x80 ∷ []) ∷ [];
}

opened_lem : start (created 0x1105) ≡ some opened
unfolding start send_connect Tpdu.to_packet new_l_data
opened_lem = refl

-- Reading the device descriptor.
abbrev request : List ℕ
request = 0x03 ∷ 0x00 ∷ []

abbrev requested : Connection
requested = record opened { pending = request ∷ []; insem = 1 }

requested_lem : send request opened ≡ requested
unfolding send
requested_lem = refl

requested-Reach : Reach opened requested
unfolding send
requested-Reach =
    after opened opened requested (here opened) (submitted request opened (omega arith))

requested-Inv : Inv requested
requested-Inv = reached-Inv 0x1105 opened requested opened_lem requested-Reach

abbrev awaiting : Connection
unfolding new_l_data
awaiting = record requested {
  insem = 0;
  mode = ack_wait;
  timeout = 3;
  sent = frame_to 0x1105 default_prio (0x43 ∷ 0x00 ∷ []) ∷ opened.sent;
}

awaiting_lem : round data_waiting requested ≡ some awaiting
unfolding round on_ready send_data Tpdu.to_packet new_l_data
awaiting_lem = refl

awaiting-Reach : Reach opened awaiting
awaiting-Reach =
    after opened requested awaiting requested-Reach
      (woken data_waiting requested awaiting (λ e. ground (arith, e)) (omega arith) awaiting_lem)

reached-Inv_example : Inv awaiting
reached-Inv_example = reached-Inv 0x1105 opened awaiting opened_lem awaiting-Reach

reached-IsSafe_example :
    ((w : Wake) → IsEnabled w awaiting → round w awaiting ≢ none)
    × ((0 < awaiting.outsem → get awaiting ≢ none) × (finish awaiting ≢ none))
reached-IsSafe_example = reached-IsSafe 0x1105 opened awaiting opened_lem awaiting-Reach

-- Sixteen numbers are passed: the numbering starts at 15, and each message comes twice.
abbrev messages : List (List ℕ × ℕ)
messages = ((0x7d ∷ 0x40 ∷ []), 1) ∷ (((0x43 ∷ 0x41 ∷ []), 1) ∷ [])

abbrev expecting : Connection
expecting = record opened { recvno = 15 }

stream-IsDelivered_example :
    (c' : Connection) × (on_tpdus (stream 15 messages) expecting ≡ some c')
    × IsDelivered
        ((0x01 ∷ 0x40 ∷ []) ∷ ((0x03 ∷ 0x41 ∷ []) ∷ []))
        (15 ∷ 15 ∷ 0 ∷ 0 ∷ [])
        1
        expecting
        c'
stream-IsDelivered_example = stream-IsDelivered messages 15 expecting (omega arith) refl

send-IsAwaiting_example :
    (bytes : List ℕ) × (c1 : Connection) × (c2 : Connection) × (Tpdu.to_packet
        (data_connected 0 request)
      ≡ some bytes)
    × (round data_waiting requested ≡ some c1)
    × (timeouts 3 c1 ≡ some c2)
    × IsAwaiting request bytes 3 requested c2
    × (on_tpdu (Tpdu.ack 0) c2
        ≡ some (record c2 { timeout = 6; mode = idle; pending = []; sendno = next_no 0 }))
    × (◌≡◌ {A = ℕ} 3 3 → round timer c2 ≡ some (record c2 { mode = closed }))
send-IsAwaiting_example =
    send-IsAwaiting request [] requested 3 requested-Inv refl refl (omega arith)

-- The request goes out three times.
transfer_all-delivered_example :
    (s' : Connection) × (r' : Connection) × (transfer_all (2 ∷ []) requested opened ≡ some (s', r'))
    × (s'.pending ≡ [])
    × (s'.mode ≡ idle)
    × (r'.mode ≡ idle)
    × (r'.recvno ≡ s'.sendno)
    × (r'.out ≡ [] ++ map unnumbered (request ∷ []))
transfer_all-delivered_example =
    transfer_all-delivered (2 ∷ []) (request ∷ []) requested opened requested-Inv refl refl
      ((omega arith, (omega arith, tt)), tt) refl (omega arith, tt) refl

-- Two objects want a connection to 1.1.5; the first one gives it up again.
open_connection-close_connection_example :
    ((open_connection true 7 0x1105 Layer3.new).2 ≡ true)
    × ((open_connection true 8 0x1105 (open_connection true 7 0x1105 Layer3.new).0).0
        ≡ (open_connection true 7 0x1105 Layer3.new).0)
    × ((open_connection true 8 0x1105 (open_connection true 7 0x1105 Layer3.new).0).2 ≡ false)
    × (Option.map
          (λ r. r.1)
          (close_connection true 7 opened (open_connection true 7 0x1105 Layer3.new).0)
        ≡ some Layer3.new)
unfolding Layer3.new
open_connection-close_connection_example =
    open_connection-close_connection true true true 7 8 opened Layer3.new refl
