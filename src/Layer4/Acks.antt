-- ===== src/Layer4/Acks.antt =====
-- The frames of a connection as another one takes them, and the acknowledgements that it sends.
use bcusdk.Base.{
  ℕ, zero, suc, ◌<◌, ◌≡◌, refl, Option, some, List, [], ◌∷◌, replicate, arith, Option-cases, inl,
  inr,
}
use mathlib.Core.Path.{subst}
use mathlib.Core.Option.{some-injective}
use bcusdk.Lpdu.{LData}
use bcusdk.Tpdu
use bcusdk.Tpdu.{Tpdu, data_connected}
use bcusdk.Layer4.{
  Connection, frame_to, default_prio, send_ack, on_tpdu, on_data, accept_data, acknowledge_again,
  next_no, ◌>>=◌,
}
use bcusdk.Layer4.Delivery.{
  on_tpdus, repeats, accept-IsDelivered, again-IsDelivered, accept-ne-none, again-ne-none,
  next_no-ne,
}

abbrev pub on_frames : List LData → Connection → Option Connection
on_frames [] c = some c
on_frames (l ∷ ls) c = on_tpdu (Tpdu.from_packet l.payload) c >>= on_frames ls

-- The newest frame is the acknowledgement of `n`.
abbrev pub IsAcked : ℕ → Connection → Type 0
IsAcked n c =
    (b : List ℕ) × (rest : List LData) × (Tpdu.to_packet (Tpdu.ack n) ≡ some b)
    × (c.sent ≡ frame_to c.dest default_prio b ∷ rest)

accept-IsAcked :
    (d : List ℕ) (n : ℕ) (c c' : Connection)
    → c.recvno ≡ n
    → on_tpdu (data_connected n d) c ≡ some c'
    → IsAcked n c'
unfolding on_tpdu on_data accept_data send_ack
accept-IsAcked d n c c' e r = elim (Option-cases (Tpdu.to_packet (Tpdu.ack n))) [
  | inl t ↦ absurd (ground (arith, e, r, t))
  | inr (b, t) ↦ (b, c.sent, t, ground (arith, e, r, t))
]

again-IsAcked :
    (d : List ℕ) (n : ℕ) (c c' : Connection)
    → n < 16
    → c.recvno ≡ next_no n
    → on_tpdu (data_connected n d) c ≡ some c'
    → IsAcked n c'
unfolding on_tpdu on_data acknowledge_again send_ack
again-IsAcked d n c c' h e r = elim (Option-cases (Tpdu.to_packet (Tpdu.ack n))) [
  | inl t ↦ absurd (ground (arith, next_no-ne n h, e, r, t))
  | inr (b, t) ↦ (b, c.sent, t, ground (arith, next_no-ne n h, e, r, t))
]

repeats-IsAcked :
    (d : List ℕ) (n k : ℕ) (c c' : Connection)
    → n < 16
    → c.recvno ≡ next_no n
    → IsAcked n c
    → on_tpdus (repeats k (data_connected n d)) c ≡ some c'
    → IsAcked n c'
repeats-IsAcked d n zero c c' h e a r = subst (IsAcked n) (some-injective c c' r) a
repeats-IsAcked d n (suc k) c c' h e a r = elim (Option-cases (on_tpdu (data_connected n d) c)) [
  | inl x ↦ absurd (again-ne-none d n c h e x)
  | inr (c1, x) ↦
      repeats-IsAcked d n k c1 c' h (again-IsDelivered d n c c1 h e x).recvno
        (again-IsAcked d n c c1 h e x) (ground (arith, x, r))
]

pub message-IsAcked :
    (d : List ℕ) (n k : ℕ) (c c' : Connection)
    → n < 16
    → c.recvno ≡ n
    → on_tpdus (data_connected n d ∷ repeats k (data_connected n d)) c ≡ some c'
    → IsAcked n c'
message-IsAcked d n k c c' h e r = elim (Option-cases (on_tpdu (data_connected n d) c)) [
  | inl x ↦ absurd (accept-ne-none d n c h e x)
  | inr (c1, x) ↦
      repeats-IsAcked d n k c1 c' h (accept-IsDelivered d n c c1 h e x).recvno
        (accept-IsAcked d n c c1 e x) (ground (arith, x, r))
]

-- Frames with the same message are that message again and again.
pub on_frames-repeats :
    (k : ℕ) (l : LData) (t : Tpdu) (c : Connection)
    → Tpdu.from_packet l.payload ≡ t
    → on_frames (replicate k l) c ≡ on_tpdus (repeats k t) c
on_frames-repeats zero l t c e = refl
on_frames-repeats (suc k) l t c e = elim (Option-cases (on_tpdu t c)) [
  | inl x ↦ rw (e, x) refl
  | inr (c1, x) ↦ rw (e, x) (on_frames-repeats k l t c1 e)
]
