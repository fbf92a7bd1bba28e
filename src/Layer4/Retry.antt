-- ===== src/Layer4/Retry.antt =====
-- How often a connection sends an APDU that is not acknowledged.
use bcusdk.Base.{
  ℕ, zero, suc, ◌≤◌, ◌<◌, ◌≡◌, ◌≢◌, refl, Option, none, some, List, ◌∷◌, ◌++◌, replicate, arith,
  Option-cases, inl, inr,
}
use mathlib.Core.Path.{subst}
use bcusdk.Tpdu
use bcusdk.Tpdu.{Tpdu, data_connected}
use bcusdk.Layer4.{
  Connection, closed, idle, ack_wait, frame_to, default_prio, send_data, repeat_data, on_ready,
  on_timer, on_tpdu, on_ack, take_acknowledged, next_no, round, timer, data_waiting, ◌>>=◌,
}
use bcusdk.Layer4.Invariant.{Inv, to_packet-data_connected}

-- The device does not answer so many times.
abbrev pub timeouts : ℕ → Connection → Option Connection
timeouts zero c = some c
timeouts (suc k) c = timeouts k c >>= round timer

-- The first waiting APDU `d` has gone out `k + 1` times, as the same frame, and an acknowledgement is awaited.
pub record IsAwaiting (d bytes : List ℕ) (k : ℕ) (c c' : Connection) : Type 0 where
  pub mode : c'.mode ≡ ack_wait
  pub repcount : c'.repcount ≡ k
  pub sendno : c'.sendno ≡ c.sendno
  pub dest : c'.dest ≡ c.dest
  pub pending : c'.pending ≡ c.pending
  pub timeout : c'.timeout ≡ 3
  pub sent : c'.sent ≡ replicate (suc k) (frame_to c.dest default_prio bytes) ++ c.sent

ready-IsAwaiting :
    (d bytes : List ℕ) (q : List (List ℕ)) (c c' : Connection)
    → c.mode ≡ idle
    → c.pending ≡ d ∷ q
    → Tpdu.to_packet (data_connected c.sendno d) ≡ some bytes
    → round data_waiting c ≡ some c'
    → IsAwaiting d bytes 0 c c'
unfolding round on_ready send_data
ready-IsAwaiting d bytes q c c' m e t r = ground (arith, m, e, t, r)

timer-IsAwaiting :
    (d bytes : List ℕ) (q : List (List ℕ)) (k : ℕ) (c c1 c' : Connection)
    → k < 3
    → c.pending ≡ d ∷ q
    → Tpdu.to_packet (data_connected c.sendno d) ≡ some bytes
    → IsAwaiting d bytes k c c1
    → round timer c1 ≡ some c'
    → IsAwaiting d bytes (suc k) c c'
unfolding round on_timer repeat_data send_data
timer-IsAwaiting d bytes q k c c1 c' h e t a r = ground (arith, h, e, t, a, r)

-- A connection that waits does not stop before the fourth time.
timer-ne-none :
    (d bytes : List ℕ) (q : List (List ℕ)) (k : ℕ) (c c1 : Connection)
    → k < 3
    → c.pending ≡ d ∷ q
    → Tpdu.to_packet (data_connected c.sendno d) ≡ some bytes
    → IsAwaiting d bytes k c c1
    → round timer c1 ≢ none
unfolding round on_timer repeat_data send_data
timer-ne-none d bytes q k c c1 h e t a r = ground (arith, h, e, t, a, r)

ready-ne-none :
    (d bytes : List ℕ) (q : List (List ℕ)) (c : Connection)
    → c.mode ≡ idle
    → c.pending ≡ d ∷ q
    → Tpdu.to_packet (data_connected c.sendno d) ≡ some bytes
    → round data_waiting c ≢ none
unfolding round on_ready send_data
ready-ne-none d bytes q c m e t r = ground (arith, m, e, t, r)

module _ (d bytes : List ℕ) (q : List (List ℕ)) (c : Connection) where
  -- The state after `k` timeouts.
  unanswered :
      c.mode ≡ idle
      → c.pending ≡ d ∷ q
      → Tpdu.to_packet (data_connected c.sendno d) ≡ some bytes
      → (k : ℕ) → k ≤ 3
      → (c1 c2 : Connection) × (round data_waiting c ≡ some c1)
        × (timeouts k c1 ≡ some c2)
        × IsAwaiting d bytes k c c2
  unanswered m e t zero h = elim (Option-cases (round data_waiting c)) [
    | inl n ↦ absurd (ready-ne-none d bytes q c m e t n)
    | inr (c1, r) ↦ (c1, c1, r, refl, ready-IsAwaiting d bytes q c c1 m e t r)
  ]
  unanswered m e t (suc k) h =
      let (c1, c2, r, ts, a) = unanswered m e t k (omega arith) in
      elim (Option-cases (round timer c2)) [
        | inl n ↦ absurd (timer-ne-none d bytes q k c c2 (omega arith) e t a n)
        | inr (c3, s) ↦
            (c1, c3, r, rw (ts, s) refl, timer-IsAwaiting d bytes q k c c2 c3 (omega arith) e t a s)
      ]

-- What an acknowledgement of the right number or a fourth timeout makes of such a state.
acknowledged-at :
    (d bytes : List ℕ) (q : List (List ℕ)) (k : ℕ) (c c2 : Connection)
    → c.pending ≡ d ∷ q
    → IsAwaiting d bytes k c c2
    → on_ack c.sendno c2
      ≡ some (record c2 { timeout = 6; mode = idle; pending = q; sendno = next_no c.sendno })
unfolding on_ack take_acknowledged
acknowledged-at d bytes q k c c2 e a = ground (arith, e, a)

given_up-at :
    (d bytes : List ℕ) (c c2 : Connection)
    → IsAwaiting d bytes 3 c c2
    → round timer c2 ≡ some (record c2 { mode = closed })
unfolding round on_timer
given_up-at d bytes c c2 a = ground (arith, a)

-- From an idle connection in which `d` waits first: the APDU goes out, and again after each of the
-- first `k` timeouts, `k` at most 3, always as the same frame with the current number. An
-- acknowledgement of that number then takes the APDU, and no other, out of the queue, moves on to the
-- next number and leaves the connection idle; a fourth timeout closes it.
pub send-IsAwaiting :
    (d : List ℕ) (q : List (List ℕ)) (c : Connection) (k : ℕ)
    → Inv c
    → c.mode ≡ idle
    → c.pending ≡ d ∷ q
    → k ≤ 3
    → (bytes : List ℕ) × (c1 : Connection) × (c2 : Connection) × (Tpdu.to_packet
          (data_connected c.sendno d)
        ≡ some bytes)
      × (round data_waiting c ≡ some c1)
      × (timeouts k c1 ≡ some c2)
      × IsAwaiting d bytes k c c2
      × (on_tpdu (Tpdu.ack c.sendno) c2
          ≡ some (record c2 { timeout = 6; mode = idle; pending = q; sendno = next_no c.sendno }))
      × (k ≡ 3 → round timer c2 ≡ some (record c2 { mode = closed }))
unfolding on_tpdu
send-IsAwaiting d q c k v m e h = elim (Option-cases (Tpdu.to_packet (data_connected c.sendno d))) [
  | inl n ↦ absurd (to_packet-data_connected c.sendno d v.send (ground (arith, v.payloads, e)) n)
  | inr (bytes, t) ↦
      let (c1, c2, r, s, a) = unanswered d bytes q c m e t k h in
      (
        bytes,
        c1,
        c2,
        t,
        r,
        s,
        a,
        acknowledged-at d bytes q k c c2 e a,
        λ k3. given_up-at d bytes c c2 (subst (λ j. IsAwaiting d bytes j c c2) k3 a),
      )
]
