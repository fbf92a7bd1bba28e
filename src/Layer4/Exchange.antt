-- ===== src/Layer4/Exchange.antt =====
-- Two connections that talk to one another.
use bcusdk.Base.{
  ℕ, zero, suc, ◌≤◌, ◌≡◌, refl, sym, ap, ◌∙◌, Option, none, some, List, [], ◌∷◌, ◌++◌, length, take,
  replicate, take-append_length, length-replicate, arith, All, IsBytes, Option-cases, inl, inr,
  bit_and, bit_or, ◌*◌, ◌/◌, map,
}
use mathlib.Core.List.{append-nil, append_assoc}
use bcusdk.Base.Bits.{shl, bit_and_3, bit_or_digit}
use mathlib.Core.Path.{subst}
use mathlib.Core.Option.{some-injective}
use bcusdk.Queue
use bcusdk.Lpdu.{LData}
use bcusdk.Tpdu
use bcusdk.Tpdu.{Tpdu, data_connected}
use bcusdk.Tpdu.RoundTrip.{from_packet-to_packet}
use bcusdk.Layer4.{
  Connection, idle, frame_to, default_prio, on_tpdu, next_no, round, data_waiting, timer, ◌>>=◌,
}
use bcusdk.Layer4.Acks.{on_frames, message-IsAcked, on_frames-repeats}
use bcusdk.Layer4.Invariant.{Inv, round-Inv, on_tpdu-Inv}
use bcusdk.Layer4.Delivery.{unnumbered, message-IsDelivered}
use bcusdk.Layer4.Retry.{timeouts, send-IsAwaiting}

-- One APDU from `s` to `r`: the acknowledgements of the first `k` frames are lost, so that `s` sends it
-- again after each; all its frames arrive, and so does the last acknowledgement.
abbrev pub transfer : ℕ → Connection → Connection → Option (Connection × Connection)
transfer k s r = do
  s1 ← round data_waiting s
  s2 ← timeouts k s1
  r' ← on_frames (take (suc k) s2.sent) r
  l ← Queue.top r'.sent
  s3 ← on_tpdu (Tpdu.from_packet l.payload) s2
  some (s3, r')

-- The transport bits leave the two low bits of the first byte alone.
low_bits : (x m : ℕ) → bit_and (bit_or (bit_or (bit_and x 0x3) 0x40) (shl m 2)) 0x3 ≡ bit_and x 0x3
low_bits x m = omega (
  arith,
  bit_and_3 (bit_or (bit_or (bit_and x 0x3) 0x40) (m * 4)),
  bit_and_3 x,
  bit_or_digit (bit_or (bit_and x 0x3) 0x40) (m * 4),
  bit_or_digit (bit_or (bit_and x 0x3) 0x40 / 2) (m * 4 / 2),
  bit_or_digit (bit_and x 0x3) 0x40,
  bit_or_digit (bit_and x 0x3 / 2) (0x40 / 2),
)

unnumbered-packet :
    (n : ℕ) (d bytes : List ℕ)
    → Tpdu.to_packet (data_connected n d) ≡ some bytes
    → unnumbered bytes ≡ unnumbered d
unfolding Tpdu.to_packet
unnumbered-packet n [] bytes e = absurd (ground (arith, e))
unnumbered-packet n (x ∷ d) bytes e = ground (arith, e, low_bits x (bit_and n 0x0f))

timeouts-Inv : (k : ℕ) (c c' : Connection) → Inv c → timeouts k c ≡ some c' → Inv c'
timeouts-Inv zero c c' v e = subst Inv (some-injective c c' e) v
timeouts-Inv (suc k) c c' v e = elim (Option-cases (timeouts k c)) [
  | inl n ↦ absurd (ground (arith, n, e))
  | inr (c1, r) ↦ round-Inv timer c1 c' tt (timeouts-Inv k c c1 v r) (ground (arith, r, e))
]

transfer_steps :
    (k : ℕ) (s r s1 s2 s3 r' : Connection) (l : LData) (rest : List LData)
    → round data_waiting s ≡ some s1
    → timeouts k s1 ≡ some s2
    → on_frames (take (suc k) s2.sent) r ≡ some r'
    → r'.sent ≡ l ∷ rest
    → on_tpdu (Tpdu.from_packet l.payload) s2 ≡ some s3
    → transfer k s r ≡ some (s3, r')
transfer_steps k s r s1 s2 s3 r' l rest go wait got newest acked =
    rw (go, transfer) (rw wait (rw got (rw newest (rw acked refl))))

-- What a transfer of one APDU leaves.
pub record IsTransferred (d : List ℕ) (q : List (List ℕ)) (s r s' r' : Connection) : Type 0 where
  pub inv : Inv s'
  pub idles : s'.mode ≡ idle
  pub pending : s'.pending ≡ q
  pub out : r'.out ≡ r.out ++ (unnumbered d ∷ [])
  pub mode : r'.mode ≡ r.mode
  pub numbers : r'.recvno ≡ s'.sendno

pub transfer-IsTransferred :
    (k : ℕ) (d : List ℕ) (q : List (List ℕ)) (s r : Connection)
    → Inv s
    → s.mode ≡ idle
    → s.pending ≡ d ∷ q
    → IsBytes d
    → r.recvno ≡ s.sendno
    → k ≤ 3
    → (s' : Connection) × (r' : Connection) × (transfer k s r ≡ some (s', r'))
      × IsTransferred d q s r s' r'
unfolding frame_to
transfer-IsTransferred k d q s r v m e b same h =
    let (bytes, s1, s2, t, go, wait, a, acked, gone) = send-IsAwaiting d q s k v m e h in
    let n = s.sendno in
    let F = frame_to s.dest default_prio bytes in
    let read : Tpdu.from_packet F.payload ≡ data_connected n bytes =
      from_packet-to_packet (data_connected n d) bytes (omega (arith, v.send), b) t in
    let (r', got, del) = message-IsDelivered bytes n k r v.send same in
    let (ack, rest, ta, newest) = message-IsAcked bytes n k r r' v.send same got in
    let ack_read : Tpdu.from_packet ack ≡ Tpdu.ack n =
      from_packet-to_packet (Tpdu.ack n) ack (omega (arith, v.send)) ta in
    let batch : take (suc k) s2.sent ≡ replicate (suc k) F =
      ap (take (suc k)) a.sent
      ∙ take-append_length (replicate (suc k) F) s.sent (suc k)
          (sym (length-replicate (suc k) F)) in
    let delivered : on_frames (take (suc k) s2.sent) r ≡ some r' =
      ap (λ ls. on_frames ls r) batch
      ∙ on_frames-repeats (suc k) F (data_connected n bytes) r read
      ∙ got in
    let s' : Connection = record s2 { timeout = 6; mode = idle; pending = q; sendno = next_no n } in
    let v1 = round-Inv data_waiting s s1 (ground (arith, v.waits, m, e)) v go in
    let v2 = timeouts-Inv k s1 s2 v1 wait in
    (
      s',
      r',
      transfer_steps k s r s1 s2 s' r' (frame_to r'.dest default_prio ack) rest go wait delivered
          newest (ap (λ t. on_tpdu t s2) ack_read ∙ acked),
      record {
        inv = on_tpdu-Inv (Tpdu.ack n) s2 s' v2 acked;
        idles = refl;
        pending = refl;
        out = del.out ∙ ap (λ x. r.out ++ (x ∷ [])) (unnumbered-packet n d bytes t);
        mode = del.mode;
        numbers = del.recvno;
      },
    )

-- All APDUs, one after the other, with the number of lost acknowledgements of each.
abbrev pub transfer_all : List ℕ → Connection → Connection → Option (Connection × Connection)
transfer_all [] s r = some (s, r)
transfer_all (k ∷ ks) s r = elim (transfer k s r) [
  | none ↦ none
  | some (s', r') ↦ transfer_all ks s' r'
]

-- A connection that is idle, has the APDUs `ds` to send and agrees with another on the next number sends
-- them over a bus that loses acknowledgements, up to three of each APDU, but neither a data frame nor
-- the acknowledgement of the last one: no step fails, the other connection hands exactly these
-- APDUs to its client, once each and in order, though each repetition reaches it, and the sender is
-- idle again with nothing left to send.
pub transfer_all-delivered :
    (ks : List ℕ) (ds : List (List ℕ)) (s r : Connection)
    → Inv s
    → s.mode ≡ idle
    → s.pending ≡ ds
    → All IsBytes ds
    → r.recvno ≡ s.sendno
    → All (λ k. k ≤ 3) ks
    → length ks ≡ length ds
    → (s' : Connection) × (r' : Connection) × (transfer_all ks s r ≡ some (s', r'))
      × (s'.pending ≡ [])
      × (s'.mode ≡ idle)
      × (r'.mode ≡ r.mode)
      × (r'.recvno ≡ s'.sendno)
      × (r'.out ≡ r.out ++ map unnumbered ds)
transfer_all-delivered [] [] s r v m e b same h len =
    (s, r, refl, e, m, refl, same, sym (append-nil r.out))
transfer_all-delivered [] (d ∷ ds) s r v m e b same h len = absurd (omega (arith, len))
transfer_all-delivered (k ∷ ks) [] s r v m e b same h len = absurd (omega (arith, len))
transfer_all-delivered (k ∷ ks) (d ∷ ds) s r v m e b same h len =
    let (s1, r1, first, t) = transfer-IsTransferred k d ds s r v m e b.0 same h.0 in
    let (s2, r2, others, p, i, o, n, out) =
      transfer_all-delivered ks ds s1 r1 t.inv t.idles t.pending b.1 t.numbers h.1
        (omega (arith, len)) in
    (
      s2,
      r2,
      rw (first, transfer_all) others,
      p,
      i,
      o ∙ t.mode,
      n,
      out
          ∙ ap (λ l. l ++ map unnumbered ds) t.out
          ∙ append_assoc r.out (unnumbered d ∷ []) (map unnumbered ds),
    )
