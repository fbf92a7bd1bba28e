-- ===== src/Layer4/Invariant.antt =====
-- The invariant of T_Connection between two rounds of its loop, by operation.
use bcusdk.Base.{
  ℕ, ◌+◌, ◌-◌, ◌≤◌, ◌<◌, ◌≡◌, ◌≢◌, sym, ◌∙◌, none, some, List, [], ◌∷◌, ◌++◌, length, arith, All,
  bit_and, at, set, length-append, All-append, List-cases, inl, inr,
}
use mathlib.Core.Path.{subst}
use mathlib.Core.Option.{some-injective}
use bcusdk.Base.Bits.{bit_and_15}
use bcusdk.Lpdu.{LData}
use bcusdk.Tpdu
use bcusdk.Tpdu.{Tpdu, data_connected, data_xxx, unknown, connect, disconnect}
use bcusdk.Tpdu.Header.{low_nibble}
use bcusdk.Layer4.{
  Connection, Mode, closed, idle, ack_wait, Wake, frame_waiting, data_waiting, timer, send_ack,
  send_data, send_disconnect, get_l_data, send, get, on_data, accept_data, acknowledge_again,
  repeat_data, on_nack, on_ack, take_acknowledged, on_tpdu, on_frame, on_ready, on_timer, round,
  finish, close,
}

abbrev pub NonEmpty : List ℕ → Type 0
NonEmpty d = 0 < length d

-- How many APDUs wait, by the state: one more than the semaphore says while one is under way, which may
-- still be in the queue after closing.
abbrev pub Waits : Mode → ℕ → List (List ℕ) → Type 0
Waits closed n q = (n ≤ length q) × (length q ≤ n + 1)
Waits idle n q = length q ≡ n
Waits ack_wait n q = length q ≡ n + 1

pub record Inv (c : Connection) : Type 0 where
  pub frames : length c.buf ≡ c.bufsem
  pub results : length c.out ≡ c.outsem
  pub waits : Waits c.mode c.insem c.pending
  pub payloads : All NonEmpty c.pending
  pub recv : c.recvno < 16
  pub send : c.sendno < 16
  pub repeats : c.repcount ≤ 3

-- Pth wakes the thread for a semaphore that is not 0.
abbrev pub IsEnabled : Wake → Connection → Type 0
IsEnabled frame_waiting c = 0 < c.bufsem
IsEnabled data_waiting c = 0 < c.insem
IsEnabled timer c = Unit

pub to_packet-ack : (n : ℕ) → n < 16 → Tpdu.to_packet (Tpdu.ack n) ≢ none
unfolding Tpdu.to_packet
to_packet-ack n h e = ground (arith, low_nibble n, e)

pub to_packet-data_connected :
    (n : ℕ) (d : List ℕ) → n < 16 → NonEmpty d → Tpdu.to_packet (data_connected n d) ≢ none
unfolding Tpdu.to_packet
to_packet-data_connected n d h k e = ground (arith, low_nibble n, e)

Waits-append :
    (m : Mode) (n : ℕ) (q : List (List ℕ)) (d : List ℕ)
    → Waits m n q
    → Waits m (n + 1) (q ++ (d ∷ []))
Waits-append closed n q d w =
    (omega (arith, w.0, length-append q (d ∷ [])), omega (arith, w.1, length-append q (d ∷ [])))
Waits-append idle n q d w = omega (arith, length-append q (d ∷ []))
Waits-append ack_wait n q d w = omega (arith, length-append q (d ∷ []))

Waits-closed : (m : Mode) (n : ℕ) (q : List (List ℕ)) → Waits m n q → Waits closed n q
Waits-closed closed n q w = w
Waits-closed idle n q w = (omega arith, omega arith)
Waits-closed ack_wait n q w = (omega arith, omega arith)

pub get_l_data-Inv : (l : LData) (c : Connection) → Inv c → Inv (get_l_data l c)
unfolding get_l_data
get_l_data-Inv l c v = ground (arith, v, length-append c.buf (l ∷ []))

pub send-Inv : (d : List ℕ) (c : Connection) → NonEmpty d → Inv c → Inv (send d c)
unfolding send
send-Inv d c h v = record {
  frames = v.frames;
  results = v.results;
  waits = Waits-append c.mode c.insem c.pending d v.waits;
  payloads = All-append NonEmpty c.pending (d ∷ []) v.payloads (h, tt);
  recv = v.recv;
  send = v.send;
  repeats = v.repeats;
}

pub get-Inv : (c c' : Connection) (d : List ℕ) → Inv c → get c ≡ some (d, c') → Inv c'
unfolding get
get-Inv c c' d v e = ground (arith, v, e)

accept_data-Inv : (d : List ℕ) (c c' : Connection) → Inv c → accept_data d c ≡ some c' → Inv c'
unfolding accept_data send_ack
accept_data-Inv d c c' v e = ground (
  arith,
  v,
  e,
  bit_and_15 (c.recvno + 1),
  length-append c.out (set d 0 (bit_and (at d 0) 0x03) ∷ []),
)

acknowledge_again-Inv :
    (n : ℕ) (c c' : Connection) → Inv c → acknowledge_again n c ≡ some c' → Inv c'
unfolding acknowledge_again send_ack
acknowledge_again-Inv n c c' v e = ground (arith, v, e)

repeat_data-Inv : (c c' : Connection) → c.repcount < 3 → Inv c → repeat_data c ≡ some c' → Inv c'
unfolding repeat_data send_data
repeat_data-Inv c c' h v e = ground (arith, v, e)

take_acknowledged-Inv :
    (c c' : Connection) → c.mode ≡ ack_wait → Inv c → take_acknowledged c ≡ some c' → Inv c'
unfolding take_acknowledged
take_acknowledged-Inv c c' h v e = ground (arith, v, e, bit_and_15 (c.sendno + 1))

on_ready-Inv :
    (c c' : Connection) → c.mode ≡ idle → 0 < c.insem → Inv c → on_ready c ≡ some c' → Inv c'
unfolding on_ready send_data
on_ready-Inv c c' m h v e = ground (arith, v, e)

close-Inv : (c : Connection) → Inv c → Inv (close c)
close-Inv c v = record {
  frames = v.frames;
  results = v.results;
  waits = Waits-closed c.mode c.insem c.pending v.waits;
  payloads = v.payloads;
  recv = v.recv;
  send = v.send;
  repeats = v.repeats;
}

on_data-Inv : (n : ℕ) (d : List ℕ) (c c' : Connection) → Inv c → on_data n d c ≡ some c' → Inv c'
unfolding on_data
on_data-Inv n d c c' v e =
    ground (arith, accept_data-Inv d c c' v, acknowledge_again-Inv n c c' v, close-Inv c v, e)

on_nack-Inv : (n : ℕ) (c c' : Connection) → Inv c → on_nack n c ≡ some c' → Inv c'
unfolding on_nack
on_nack-Inv n c c' v e = ground (arith, repeat_data-Inv c c', close-Inv c v, v, e)

on_ack-Inv : (n : ℕ) (c c' : Connection) → Inv c → on_ack n c ≡ some c' → Inv c'
unfolding on_ack
on_ack-Inv n c c' v e = ground (arith, take_acknowledged-Inv c c', close-Inv c v, v, e)

pub on_tpdu-Inv : (t : Tpdu) (c c' : Connection) → Inv c → on_tpdu t c ≡ some c' → Inv c'
unfolding on_tpdu
on_tpdu-Inv (data_connected n d) c c' v e = on_data-Inv n d c c' v e
on_tpdu-Inv (Tpdu.ack n) c c' v e = on_ack-Inv n c c' v e
on_tpdu-Inv (Tpdu.nack n) c c' v e = on_nack-Inv n c c' v e
on_tpdu-Inv connect c c' v e = subst Inv (some-injective _ c' e) (close-Inv c v)
on_tpdu-Inv disconnect c c' v e = subst Inv (some-injective _ c' e) (close-Inv c v)
on_tpdu-Inv (data_xxx d) c c' v e = subst Inv (some-injective _ c' e) v
on_tpdu-Inv (unknown d) c c' v e = subst Inv (some-injective _ c' e) v

-- Taking the first frame out of the buffer.
pub unbuffered-Inv :
    (c : Connection) (l : LData) (rest : List LData)
    → c.buf ≡ l ∷ rest
    → Inv c
    → Inv (record c { buf = rest; bufsem = c.bufsem - 1 })
unbuffered-Inv c l rest e v = ground (arith, v, e)

pub on_frame_step :
    (c : Connection) (l : LData) (rest : List LData)
    → c.buf ≡ l ∷ rest
    → on_frame c
      ≡ on_tpdu (Tpdu.from_packet l.payload) (record c { buf = rest; bufsem = c.bufsem - 1 })
unfolding on_frame
on_frame_step c l rest e = ground (arith, e)

on_frame-Inv : (c c' : Connection) → Inv c → on_frame c ≡ some c' → Inv c'
on_frame-Inv c c' v e = elim (List-cases c.buf) [
  | inl n ↦ absurd (unfold on_frame in ground (arith, n, e))
  | inr (l, rest, b) ↦
      on_tpdu-Inv (Tpdu.from_packet l.payload) _ c' (unbuffered-Inv c l rest b v)
        (sym (on_frame_step c l rest b) ∙ e)
]

on_timer-Inv : (c c' : Connection) → Inv c → on_timer c ≡ some c' → Inv c'
unfolding on_timer
on_timer-Inv c c' v e = ground (arith, repeat_data-Inv c c', close-Inv c v, v, e)

pub round-Inv :
    (w : Wake) (c c' : Connection) → IsEnabled w c → Inv c → round w c ≡ some c' → Inv c'
unfolding round
round-Inv frame_waiting c c' h v e = on_frame-Inv c c' v e
round-Inv data_waiting c c' h v e = ground (arith, on_ready-Inv c c', v, h, e)
round-Inv timer c c' h v e = on_timer-Inv c c' v e

pub finish-Inv : (c c' : Connection) → Inv c → finish c ≡ some c' → Inv c'
unfolding finish send_disconnect Tpdu.to_packet
finish-Inv c c' v e =
    ground
      (arith, v, e, Waits-closed c.mode c.insem c.pending v.waits, length-append c.out ([] ∷ []))
