-- ===== src/Layer4/Reachable.antt =====
-- Every history of a connection: what other parts call in between, and the rounds of its thread.
use bcusdk.Base.{ℕ, ◌<◌, ◌≡◌, ◌≢◌, none, some, List, [], arith}
use bcusdk.Lpdu.{LData}
use bcusdk.Tpdu
use bcusdk.Layer4.{
  Connection, closed, Wake, start, send_connect, get_l_data, send, get, round, finish,
}
use bcusdk.Layer4.Invariant.{
  Inv, NonEmpty, IsEnabled, get_l_data-Inv, send-Inv, get-Inv, round-Inv, finish-Inv,
}
use bcusdk.Layer4.Safety.{round-ne-none, get-ne-none, finish-ne-none}

-- A new object, before its thread starts.
abbrev pub created : ℕ → Connection
created dest = record {
  pending = [];
  buf = [];
  out = [];
  recvno = 0;
  sendno = 0;
  mode = closed;
  repcount = 0;
  dest = dest;
  insem = 0;
  bufsem = 0;
  outsem = 0;
  timeout = 0;
  sent = [];
}

-- Layer 3 delivers a frame, the client sends an APDU or takes one, or the thread makes a
-- round, its loop not ended, or ends.
pub data Step : Connection → Connection → Type 0 where
  delivered : (l : LData) (c : Connection) → Step c (get_l_data l c)
  submitted : (d : List ℕ) (c : Connection) → NonEmpty d → Step c (send d c)
  fetched : (d : List ℕ) (c c' : Connection) → 0 < c.outsem → get c ≡ some (d, c') → Step c c'
  woken :
      (w : Wake) (c c' : Connection)
      → c.mode ≢ closed
      → IsEnabled w c
      → round w c ≡ some c'
      → Step c c'
  ended : (c c' : Connection) → finish c ≡ some c' → Step c c'

pub data Reach : Connection → Connection → Type 0 where
  here : (c : Connection) → Reach c c
  after : (c c1 c2 : Connection) → Reach c c1 → Step c1 c2 → Reach c c2

pub Step-Inv : (c c' : Connection) → Step c c' → Inv c → Inv c'
Step-Inv c _ (delivered l _) v = get_l_data-Inv l c v
Step-Inv c _ (submitted d _ h) v = send-Inv d c h v
Step-Inv c c' (fetched d _ _ h e) v = get-Inv c c' d v e
Step-Inv c c' (woken w _ _ m h e) v = round-Inv w c c' h v e
Step-Inv c c' (ended _ _ e) v = finish-Inv c c' v e

Reach-Inv : (c c' : Connection) → Reach c c' → Inv c → Inv c'
Reach-Inv c _ (here _) v = v
Reach-Inv c c2 (after _ c1 _ r s) v = Step-Inv c1 c2 s (Reach-Inv c c1 r v)

start-Inv : (dest : ℕ) (c : Connection) → start (created dest) ≡ some c → Inv c
unfolding start send_connect Tpdu.to_packet
start-Inv dest c e = ground (arith, e)

-- From the start of a connection on, after any sequence of frames, of APDUs that are sent and
-- fetched, none of those sent empty, of rounds and of the end of the thread: the semaphores count what
-- is queued, with one APDU more to send while an acknowledgement is awaited and perhaps one more after
-- closing; no APDU that waits is empty; both sequence numbers are below 16 and the repetitions at
-- most 3.
pub reached-Inv :
    (dest : ℕ) (c0 c : Connection) → start (created dest) ≡ some c0 → Reach c0 c → Inv c
reached-Inv dest c0 c e r = Reach-Inv c0 c r (start-Inv dest c0 e)

-- In every state that a connection reaches from its start, where no APDU that it is given to send is
-- empty, neither an assert of TPDU::ToPacket nor one of the queues fails, in a round for which Pth
-- wakes the thread, when a client takes an APDU for which the semaphore was raised, and at the end
-- of the thread. What a driver does with the frame that it gets is no part of the statement.
pub reached-IsSafe :
    (dest : ℕ) (c0 c : Connection)
    → start (created dest) ≡ some c0
    → Reach c0 c
    → ((w : Wake) → IsEnabled w c → round w c ≢ none)
      × ((0 < c.outsem → get c ≢ none) × (finish c ≢ none))
reached-IsSafe dest c0 c e r =
    let v = reached-Inv dest c0 c e r in
    (λ w h. round-ne-none w c h v, (λ h. get-ne-none c h v, finish-ne-none c))
