-- ===== src/Socket/Transfer.antt =====
-- What the endpoints of layer4.cpp send, and what other endpoints get of it.
use bcusdk.Base.{
  ℕ, zero, suc, ◌+◌, ◌-◌, ◌<◌, ◌≡◌, refl, sym, ◌∙◌, ap, Bool, true, false, Option, none, some, List,
  [], ◌∷◌, ◌++◌, map, length, All, IsBytes, arith, at, set, bit_and,
}
use mathlib.Core.List.{append-nil, append_assoc}
use bcusdk.Lpdu.{LData, AddrType, group, individual}
use bcusdk.Layer3
use bcusdk.Layer3.{Call, send, send_l_data}
use bcusdk.Tpdu
use bcusdk.Tpdu.{Tpdu, data_xxx}
use bcusdk.Tpdu.RoundTrip.{from_packet-to_packet}
use bcusdk.Socket.{
  Kind, broadcast, group_socket, group_of, individual_of, tpdu_of, Message, broadcast_comm,
  group_comm, plain, group_apdu, tpdu_comm, Socket, get_l_data, get, addressed, queue_message,
  send_broadcast, send_group, send_individual, send_group_socket, send_tpdu,
}

abbrev pub is_tpdu : Kind → Bool
is_tpdu (tpdu_of src) = true
is_tpdu _ = false

-- Send of an object of each class; `dst` is the address in the argument of GroupSocket and T_TPDU.
abbrev pub send_by : Kind → ℕ → List ℕ → Option LData
send_by broadcast dst d = send_broadcast d
send_by (group_of a) dst d = send_group a d
send_by (individual_of a) dst d = send_individual a d
send_by group_socket dst d = send_group_socket dst d
send_by (tpdu_of src) dst d = some (send_tpdu src dst d)

-- Where a class sends to.
abbrev pub target : Kind → ℕ → AddrType × ℕ
target broadcast dst = (group, 0)
target (group_of a) dst = (group, a)
target (individual_of a) dst = (individual, a)
target group_socket dst = (group, dst)
target (tpdu_of src) dst = (individual, dst)

-- An APDU without what the transport layer puts into its first byte.
abbrev pub cleared : List ℕ → List ℕ
cleared d = set d 0 (bit_and (at d 0) 0x3)

abbrev pub IsApdu : List ℕ → Type 0
IsApdu d = IsBytes d × (0 < length d)

-- The frames that a list of APDUs becomes.
abbrev pub send_all : Kind → ℕ → List (List ℕ) → Option (List LData)
send_all k dst [] = some []
send_all k dst (d ∷ ds) = elim (send_by k dst d) [
  | none ↦ none
  | some l ↦ elim (send_all k dst ds) [ none ↦ none | some ls ↦ some (l ∷ ls) ]
]

abbrev pub receive_all : List LData → Socket → Socket
receive_all [] s = s
receive_all (l ∷ ls) s = receive_all ls (get_l_data l s)

-- The frame that layer 3 gives to a driver with the address `a` when it is asked to send one.
abbrev frame_in : List Call → LData → LData
frame_in (send f ∷ cs) l = f
frame_in _ l = l

unfoldable pub carried : ℕ → LData → LData
unfolding send_l_data Layer3.new
carried a l = frame_in (send_l_data a l Layer3.new).calls l

-- The frame of an APDU on the bus of a driver with the address `src`.
abbrev pub frame_of : Kind → ℕ → ℕ → List ℕ → LData
frame_of k src dst d = addressed (target k dst).0 src (target k dst).1 (cleared d)

-- What the client of each class is to get of an APDU: the address that it came from, except for
-- T_Individual, and for GroupSocket the group it went to.
abbrev pub expected : Kind → (src dst : ℕ) → List ℕ → Message
expected broadcast src dst d = broadcast_comm (cleared d) src
expected (group_of a) src dst d = group_comm (cleared d) src
expected (individual_of a) src dst d = plain (cleared d)
expected group_socket src dst d = group_apdu (cleared d) src dst
expected (tpdu_of a) src dst d = tpdu_comm (cleared d) src

abbrev pub received : Kind → Kind → ℕ → ℕ → List ℕ → Message
received r k src dst d = expected r src (target k dst).1 d

packet_of : (d : List ℕ) → IsApdu d → Tpdu.to_packet (data_xxx d) ≡ some (cleared d)
unfolding Tpdu.to_packet
packet_of d h = ground (arith, h.1)

message_read : (d : List ℕ) → IsApdu d → Tpdu.from_packet (cleared d) ≡ data_xxx (cleared d)
message_read d h = from_packet-to_packet (data_xxx d) (cleared d) h.0 (packet_of d h)

send_frame_of :
    (k : Kind) (dst : ℕ) (d : List ℕ)
    → is_tpdu k ≡ false
    → IsApdu d
    → send_by k dst d ≡ some (frame_of k 0 dst d)
unfolding send_broadcast send_group send_individual send_group_socket
send_frame_of broadcast dst d n h = ground (arith, packet_of d h)
send_frame_of (group_of a) dst d n h = ground (arith, packet_of d h)
send_frame_of (individual_of a) dst d n h = ground (arith, packet_of d h)
send_frame_of group_socket dst d n h = ground (arith, packet_of d h)
send_frame_of (tpdu_of src) dst d n h = cc

get_by_kind :
    (r k : Kind) (src dst : ℕ) (d : List ℕ) (q : List Message) (n : ℕ)
    → IsApdu d
    → let s : Socket = record { kind = r; outqueue = q; sem = n } in
      get_l_data (frame_of k src dst d) s ≡ queue_message (received r k src dst d) s
unfolding get_l_data Tpdu.from_packet addressed
get_by_kind broadcast k src dst d q n h = rw (message_read d h) refl
get_by_kind group_socket k src dst d q n h = rw (message_read d h) refl
get_by_kind (group_of a) k src dst d q n h = rw (message_read d h) refl
get_by_kind (individual_of a) k src dst d q n h = rw (message_read d h) refl
get_by_kind (tpdu_of a) k src dst d q n h = refl

carried_lem :
    (k : Kind) (a dst : ℕ) (d : List ℕ) → carried a (frame_of k 0 dst d) ≡ frame_of k a dst d
unfolding carried addressed
carried_lem k a dst d = refl

length-map : {A : Type 0} {B : Type 0} (f : A → B) (xs : List A) → length (map f xs) ≡ length xs
length-map f [] = refl
length-map f (x ∷ xs) = ap suc (length-map f xs)

receive_all-queue :
    (k : Kind) (a dst : ℕ) (ds : List (List ℕ)) (s : Socket)
    → is_tpdu k ≡ false
    → All IsApdu ds
    → (ls : List LData) × (send_all k dst ds ≡ some ls)
      × ((receive_all (map (carried a) ls) s).outqueue
          ≡ s.outqueue ++ map (received s.kind k a dst) ds)
      × ((receive_all (map (carried a) ls) s).sem ≡ s.sem + length ds)
receive_all-queue k a dst [] s n h = ([], refl, sym (append-nil s.outqueue), omega arith)
receive_all-queue k a dst (d ∷ ds) s n h =
    let m = received s.kind k a dst d in
    let (ls, e, q, t) = receive_all-queue k a dst ds (queue_message m s) n h.1 in
    let got =
      ap (λ l. get_l_data l s) (carried_lem k a dst d)
      ∙ get_by_kind s.kind k a dst d s.outqueue s.sem h.0 in
    let rest = map (carried a) ls in
    (
      frame_of k 0 dst d ∷ ls,
      rw (send_frame_of k dst d n h.0, e, send_all) refl,
      ap (λ u. (receive_all rest u).outqueue) got
          ∙ q
          ∙ append_assoc s.outqueue (m ∷ []) (map (received s.kind k a dst) ds),
      ap (λ u. (receive_all rest u).sem) got ∙ t ∙ omega arith,
    )

-- Taking messages out until none is left.
abbrev pub take_all_messages : ℕ → Socket → Option (List Message)
take_all_messages zero s = some []
take_all_messages (suc n) s = elim (get s) [
  | none ↦ none
  | some (m, s') ↦ elim (take_all_messages n s') [ none ↦ none | some ms ↦ some (m ∷ ms) ]
]

take_all_queue :
    (ms : List Message) (s : Socket) → s.outqueue ≡ ms → take_all_messages (length ms) s ≡ some ms
take_all_queue [] s e = refl
take_all_queue (m ∷ ms) s e =
    let s' : Socket = record s { outqueue = ms; sem = s.sem - 1 } in
    let step : get s ≡ some (m, s') = unfold get in (rw (e, get) refl) in
    rw (step, take_all_queue ms s' refl, take_all_messages) refl

-- The APDUs, byte strings that are not empty, that an endpoint other than T_TPDU sends one after the
-- other: none fails, and an endpoint of any class that is given the frames as layer 3 hands them to a
-- driver with the address `a`, its queue empty before, raises its semaphore once for each, and gives
-- them to its client in the order in which they were sent, with `a` as the sender's address and the
-- group they were sent to where its class keeps these, each without the upper six bits of its first
-- byte.
pub send_all-received :
    (k r : Kind) (a dst : ℕ) (ds : List (List ℕ))
    → is_tpdu k ≡ false
    → All IsApdu ds
    → (ls : List LData) × (send_all k dst ds ≡ some ls)
      × ((receive_all (map (carried a) ls) (record { kind = r; outqueue = []; sem = 0 })).sem
          ≡ length ds)
      × (take_all_messages
            (length ds)
            (receive_all (map (carried a) ls) (record { kind = r; outqueue = []; sem = 0 }))
          ≡ some (map (received r k a dst) ds))
send_all-received k r a dst ds n h =
    let s : Socket = record { kind = r; outqueue = []; sem = 0 } in
    let (ls, e, q, t) = receive_all-queue k a dst ds s n h in
    let u = receive_all (map (carried a) ls) s in
    (
      ls,
      e,
      t ∙ omega arith,
      ap (λ i. take_all_messages i u) (sym (length-map (received r k a dst) ds))
          ∙ take_all_queue (map (received r k a dst) ds) u q,
    )
