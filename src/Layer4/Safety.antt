-- ===== src/Layer4/Safety.antt =====
-- The asserts that a round of T_Connection, its end and Get depend on: those of the queues and of
-- TPDU::ToPacket.
use bcusdk.Base.{ℕ, ◌+◌, ◌<◌, ◌≡◌, ◌≢◌, sym, ◌∙◌, none, List, [], ◌∷◌, arith, List-cases, inl, inr}
use bcusdk.Base.Bits.{bit_and_15}
use bcusdk.Tpdu
use bcusdk.Tpdu.{Tpdu, data_connected, data_xxx, unknown, connect, disconnect}
use bcusdk.Layer4.{
  Connection, Mode, idle, ack_wait, Wake, frame_waiting, data_waiting, timer, send_ack, send_data,
  send_disconnect, get, on_data, accept_data, acknowledge_again, repeat_data, on_nack, on_ack,
  take_acknowledged, on_tpdu, on_ready, on_timer, round, finish,
}
use bcusdk.Layer4.Invariant.{
  Inv, Waits, NonEmpty, IsEnabled, to_packet-ack, to_packet-data_connected, unbuffered-Inv,
  on_frame_step,
}

accept_data-ne-none : (d : List ℕ) (c : Connection) → Inv c → accept_data d c ≢ none
unfolding accept_data send_ack
accept_data-ne-none d c v e = ground (arith, to_packet-ack c.recvno v.recv, e)

acknowledge_again-ne-none : (n : ℕ) (c : Connection) → n < 16 → acknowledge_again n c ≢ none
unfolding acknowledge_again send_ack
acknowledge_again-ne-none n c h e = ground (arith, to_packet-ack n h, e)

-- The first waiting APDU can be sent.
first_pending :
    (c : Connection)
    → Inv c
    → c.pending ≢ []
    → (d : List ℕ) × (q : List (List ℕ)) × (c.pending ≡ d ∷ q) × NonEmpty d
first_pending c v h = elim (List-cases c.pending) [
  | inl n ↦ absurd (h n)
  | inr (d, q, e) ↦ (d, q, e, ground (arith, v.payloads, e))
]

repeat_data-ne-none : (c : Connection) → Inv c → c.pending ≢ [] → repeat_data c ≢ none
unfolding repeat_data send_data
repeat_data-ne-none c v h e =
    let (d, q, eq, k) = first_pending c v h in
    ground (arith, to_packet-data_connected c.sendno d v.send k, eq, e)

on_ready-ne-none : (c : Connection) → Inv c → c.pending ≢ [] → on_ready c ≢ none
unfolding on_ready send_data
on_ready-ne-none c v h e =
    let (d, q, eq, k) = first_pending c v h in
    ground (arith, to_packet-data_connected c.sendno d v.send k, eq, e)

pending_ne : (m : Mode) (n : ℕ) (q : List (List ℕ)) → Waits m n q → m ≡ ack_wait → q ≢ []
pending_ne m n q w h e = ground (arith, w, h, e)

on_tpdu-ne-none : (t : Tpdu) (c : Connection) → Inv c → on_tpdu t c ≢ none
unfolding on_tpdu on_data on_nack on_ack take_acknowledged
on_tpdu-ne-none (data_connected n d) c v e =
    ground (
      arith,
      accept_data-ne-none d c v,
      acknowledge_again-ne-none n c,
      bit_and_15 (c.recvno + 15),
      e,
    )
on_tpdu-ne-none (Tpdu.ack n) c v e = ground (arith, pending_ne c.mode c.insem c.pending v.waits, e)
on_tpdu-ne-none (Tpdu.nack n) c v e =
    ground (arith, repeat_data-ne-none c v, pending_ne c.mode c.insem c.pending v.waits, e)
on_tpdu-ne-none connect c v e = cc
on_tpdu-ne-none _ c v e = cc

pending_ready : (m : Mode) (n : ℕ) (q : List (List ℕ)) → Waits m n q → m ≡ idle → 0 < n → q ≢ []
pending_ready m n q w h k e = ground (arith, w, h, k, e)

ready-ne-none : (c : Connection) → 0 < c.insem → Inv c → round data_waiting c ≢ none
unfolding round
ready-ne-none c h v e =
    ground (arith, on_ready-ne-none c v, pending_ready c.mode c.insem c.pending v.waits, h, e)

-- In a state that meets the invariant, whatever wakes the thread as Pth promises, no assert fails.
pub round-ne-none : (w : Wake) (c : Connection) → IsEnabled w c → Inv c → round w c ≢ none
unfolding round on_timer
round-ne-none frame_waiting c h v e = elim (List-cases c.buf) [
  | inl n ↦ ground (arith, v.frames, n, h)
  | inr (l, rest, b) ↦
      on_tpdu-ne-none (Tpdu.from_packet l.payload) _ (unbuffered-Inv c l rest b v)
        (sym (on_frame_step c l rest b) ∙ e)
]
round-ne-none data_waiting c h v e = ready-ne-none c h v e
round-ne-none timer c h v e =
    ground (arith, repeat_data-ne-none c v, pending_ne c.mode c.insem c.pending v.waits, e)

pub get-ne-none : (c : Connection) → 0 < c.outsem → Inv c → get c ≢ none
unfolding get
get-ne-none c h v e = ground (arith, v.results, h, e)

pub finish-ne-none : (c : Connection) → finish c ≢ none
unfolding finish send_disconnect Tpdu.to_packet
finish-ne-none c e = ground (arith, e)
