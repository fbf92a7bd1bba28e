-- ===== src/Layer4.antt =====
-- eibd/libserver/layer4.h and layer4.cpp: T_Connection, a connection to one device with numbered and
-- acknowledged data. GNU Pth is not part of the program: which event wakes the thread comes from
-- outside, a semaphore is the number that pth_sem_inc and pth_sem_dec leave, and a timer the
-- number of seconds it was set to. Trace output is left out.
pub mod Acks
pub mod Delivery
pub mod Exchange
pub mod Invariant
pub mod Opening
pub mod Reachable
pub mod Retry
pub mod Safety
mod Tests
use bcusdk.Base.{
  ℕ, zero, suc, ◌+◌, ◌-◌, ◌<◌, ◌≡◌, Bool, true, false, not, ◌&&◌, ◌||◌, Option, none, some, List,
  [], ◌∷◌, ◌++◌, length, ltb, leb, ◌==◌, if◌then◌else◌, bit_and, at, set,
}
use bcusdk.Queue
use bcusdk.Lpdu.{LData, Priority, system, individual, new_l_data}
use bcusdk.Tpdu
use bcusdk.Tpdu.{Tpdu, data_connected, data_xxx, unknown, connect, disconnect}

-- 0 CLOSED, 1 IDLE, 2 ACK_WAIT
pub data Mode : Type 0 where
  closed idle ack_wait : Mode

-- The object. `pending` is `in`; `sent` is what went to layer3->send_L_Data, newest first.
pub record Connection : Type 0 where
  pub pending : List (List ℕ)
  pub buf : List LData
  pub out : List (List ℕ)
  pub recvno : ℕ
  pub sendno : ℕ
  pub mode : Mode
  pub repcount : ℕ
  pub dest : ℕ
  pub insem : ℕ
  pub bufsem : ℕ
  pub outsem : ℕ
  pub timeout : ℕ
  pub sent : List LData

-- `o >>= f`: a failed assert stops the program.
infixl 5 ◌>>=◌
abbrev pub ◌>>=◌ {ℓ κ} : {A : Type ℓ} {B : Type κ} → Option A → (A → Option B) → Option B
none >>= f = none
some a >>= f = f a

-- A new L_Data_PDU to the device, with the bytes of a message.
abbrev pub frame_to : ℕ → Priority → List ℕ → LData
unfolding new_l_data
frame_to dest p c = record new_l_data {
  prio = p;
  addr_type = individual;
  source = 0;
  dest = dest;
  payload = c;
}

-- The four functions that send a message, up to the call of layer3->send_L_Data; the driver behind it,
-- which may refuse a frame that is too long for it, is no part of this.
abbrev pub transmit : Priority → Tpdu → Connection → Option Connection
transmit p t c = elim (Tpdu.to_packet t) [
  | none ↦ none
  | some bytes ↦ some (record c { sent = frame_to c.dest p bytes ∷ c.sent })
]

abbrev pub default_prio : Priority
unfolding new_l_data
default_prio = new_l_data.prio

pub send_connect : Connection → Option Connection
send_connect = transmit system connect

pub send_disconnect : Connection → Option Connection
send_disconnect = transmit system disconnect

pub send_ack : ℕ → Connection → Option Connection
send_ack serno = transmit default_prio (Tpdu.ack serno)

pub send_data : ℕ → List ℕ → Connection → Option Connection
send_data serno d = transmit default_prio (data_connected serno d)

-- Get_L_Data, Send and the part of Get behind its wait.
unfoldable pub get_l_data : LData → Connection → Connection
get_l_data l c = record c { buf = Queue.put l c.buf; bufsem = c.bufsem + 1 }

unfoldable pub send : List ℕ → Connection → Connection
send d c = record c { pending = Queue.put d c.pending; insem = c.insem + 1 }

unfoldable pub get : Connection → Option (List ℕ × Connection)
get c = elim (Queue.get c.out) [
  | none ↦ none
  | some (d, rest) ↦ some (d, record c { out = rest; outsem = c.outsem - 1 })
]

-- The start of Run: the buffer is emptied, the connection opened and the numbers reset.
unfoldable pub start : Connection → Option Connection
start c = do
  let c0 = record c { buf = []; bufsem = 0; mode = closed }
  c1 ← send_connect c0
  some (record c1 { mode = idle; sendno = 0; recvno = 0; repcount = 0; timeout = 6 })

abbrev pub close : Connection → Connection
close c = record c { mode = closed }

-- `(n + 1) & 0x0f` and `(n - 1) & 0x0f`, where the int -1 has all bits set.
abbrev pub next_no : ℕ → ℕ
next_no n = bit_and (n + 1) 0x0f

abbrev pub previous_no : ℕ → ℕ
previous_no n = bit_and (n + 15) 0x0f

abbrev pub is_idle : Mode → Bool
is_idle idle = true
is_idle _ = false

abbrev pub is_ack_wait : Mode → Bool
is_ack_wait ack_wait = true
is_ack_wait _ = false

-- `if (mode == 1) timeout = 6 seconds`
abbrev pub rearm : Connection → Connection
rearm c = if is_idle c.mode then record c { timeout = 6 } else c

-- The three branches of case T_DATA_CONNECTED_REQ: the expected number, the one before it, others.
pub accept_data : List ℕ → Connection → Option Connection
accept_data d c = do
  let d' = set d 0 (bit_and (at d 0) 0x03)
  c1 ← send_ack c.recvno (record c { out = Queue.put d' c.out; outsem = c.outsem + 1 })
  some (rearm (record c1 { recvno = next_no c.recvno }))

pub acknowledge_again : ℕ → Connection → Option Connection
acknowledge_again serno c = do c1 ← send_ack serno c; some (rearm c1)

pub on_data : ℕ → List ℕ → Connection → Option Connection
on_data serno d c =
    if not (serno == c.recvno) && not (serno == previous_no c.recvno)
    then some (close c)
    else if serno == c.recvno
    then accept_data d c
    else acknowledge_again serno c

-- Sending the first waiting APDU again: `repcount++; SendData (sendno, in.top ()); timeout = 3`.
pub repeat_data : Connection → Option Connection
repeat_data c = do
  d ← Queue.top c.pending
  c1 ← send_data c.sendno d (record c { repcount = c.repcount + 1 })
  some (record c1 { timeout = 3 })

-- case T_NACK
pub on_nack : ℕ → Connection → Option Connection
on_nack serno c =
    if not (serno == c.sendno)
    then some (close c)
    else if Queue.isempty c.pending
    then some (close c)
    else if leb 3 c.repcount || not (is_ack_wait c.mode)
    then some (close c)
    else repeat_data c

-- case T_ACK
pub take_acknowledged : Connection → Option Connection
take_acknowledged c = do
  (d, rest) ← Queue.get c.pending
  some (record c { timeout = 6; mode = idle; pending = rest; sendno = next_no c.sendno })

pub on_ack : ℕ → Connection → Option Connection
on_ack serno c =
    if not (serno == c.sendno)
    then some (close c)
    else if not (is_ack_wait c.mode)
    then some (close c)
    else take_acknowledged c

-- The `switch` on the message of a frame.
pub on_tpdu : Tpdu → Connection → Option Connection
on_tpdu disconnect c = some (close c)
on_tpdu connect c = some (close c)
on_tpdu (data_connected serno d) c = on_data serno d c
on_tpdu (Tpdu.nack serno) c = on_nack serno c
on_tpdu (Tpdu.ack serno) c = on_ack serno c
on_tpdu (data_xxx d) c = some c
on_tpdu (unknown d) c = some c

-- What ended the wait of the loop.
pub data Wake : Type 0 where
  frame_waiting data_waiting timer : Wake

-- A frame in the buffer.
pub on_frame : Connection → Option Connection
on_frame c = do
  (l, rest) ← Queue.get c.buf
  on_tpdu (Tpdu.from_packet l.payload) (record c { buf = rest; bufsem = c.bufsem - 1 })

-- Data to send while the connection is idle.
pub on_ready : Connection → Option Connection
on_ready c = do
  d ← Queue.top c.pending
  c1 ← send_data c.sendno d (record c { repcount = 0; insem = c.insem - 1 })
  some (record c1 { mode = ack_wait; timeout = 3 })

-- The timer has run out.
pub on_timer : Connection → Option Connection
on_timer c = if is_ack_wait c.mode && ltb c.repcount 3 then repeat_data c else some (close c)

-- One round of the loop of Run, in the order of its tests.
unfoldable pub round : Wake → Connection → Option Connection
round frame_waiting c = on_frame c
round data_waiting c = if is_idle c.mode then on_ready c else some c
round timer c = on_timer c

-- The end of Run.
unfoldable pub finish : Connection → Option Connection
finish c = do
  c1 ← send_disconnect c
  some (record c1 { mode = closed; out = Queue.put [] c1.out; outsem = c1.outsem + 1 })
