-- ===== src/Layer4/Delivery.antt =====
-- What a connection hands to its client from the numbered messages of the device, repetitions included.
use bcusdk.Base.{
  ℕ, zero, suc, ◌+◌, ◌<◌, ◌≡◌, ◌≢◌, refl, ◌∙◌, Option, none, some, List, [], ◌∷◌, ◌++◌, length,
  length-append, arith, replicate, ◌*◌, bit_and, at, set, Option-cases, inl, inr,
}
use mathlib.Core.List.{append-nil, append_assoc}
use bcusdk.Base.Bits.{bit_and_15, table, same_below}
use bcusdk.Tpdu
use bcusdk.Lpdu.{LData}
use bcusdk.Tpdu.Header.{ack_byte, low_nibble}
use bcusdk.Tpdu.{Tpdu, data_connected}
use bcusdk.Layer4.{
  Connection, send_ack, on_tpdu, on_data, accept_data, acknowledge_again, next_no, previous_no,
  frame_to, default_prio, ◌>>=◌,
}
use bcusdk.Layer4.Invariant.{to_packet-ack}

-- The messages in the order in which they come.
abbrev pub on_tpdus : List Tpdu → Connection → Option Connection
on_tpdus [] c = some c
on_tpdus (t ∷ ts) c = on_tpdu t c >>= on_tpdus ts

abbrev pub repeats : ℕ → Tpdu → List Tpdu
repeats zero t = []
repeats (suc k) t = t ∷ repeats k t

-- A device that numbers its APDUs from `n` on, and sends each of them again as often as it says.
abbrev pub stream : ℕ → List (List ℕ × ℕ) → List Tpdu
stream n [] = []
stream n ((d, k) ∷ ms) =
    data_connected n d ∷ (repeats k (data_connected n d) ++ stream (next_no n) ms)

-- An APDU as the client gets it: the sequence number is cleared.
abbrev pub unnumbered : List ℕ → List ℕ
unnumbered d = set d 0 (bit_and (at d 0) 0x03)

abbrev pub apdus : List (List ℕ × ℕ) → List (List ℕ)
apdus [] = []
apdus ((d, k) ∷ ms) = unnumbered d ∷ apdus ms

-- Where the numbering is after so many messages.
abbrev pub advance : ℕ → ℕ → ℕ
advance zero n = n
advance (suc k) n = advance k (next_no n)

-- The numbers of the messages of such a device, one for each message.
abbrev pub numbers : ℕ → List (List ℕ × ℕ) → List ℕ
numbers n [] = []
numbers n ((d, k) ∷ ms) = n ∷ (replicate k n ++ numbers (next_no n) ms)

-- The frame of a T_ACK with the number `n`: 0xc2 and the number in the bits above the lowest two.
abbrev pub ack_frame : ℕ → ℕ → LData
ack_frame dest n = frame_to dest default_prio ((0xc2 + n * 4) ∷ [])

-- What is sent, newest first, once the numbers are acknowledged one after the other.
abbrev pub acknowledged : ℕ → List ℕ → List LData → List LData
acknowledged dest [] sent = sent
acknowledged dest (n ∷ ns) sent = acknowledged dest ns (ack_frame dest n ∷ sent)

-- What the messages do to a connection: the client gets `ds`, the frames that are sent are the
-- acknowledgements of the numbers `ns`, and `n` is expected next.
pub record IsDelivered (ds : List (List ℕ)) (ns : List ℕ) (n : ℕ) (c c' : Connection) : Type 0 where
  pub out : c'.out ≡ c.out ++ ds
  pub mode : c'.mode ≡ c.mode
  pub recvno : c'.recvno ≡ n
  pub acks : c'.sent ≡ acknowledged c.dest ns c.sent
  pub dest : c'.dest ≡ c.dest
  pub outsem : c'.outsem ≡ c.outsem + length ds
  pub pending : c'.pending ≡ c.pending
  pub sendno : c'.sendno ≡ c.sendno

pub next_no-ne :
    (n : ℕ) → n < 16 → (next_no n ≢ n) × ((previous_no (next_no n) ≡ n) × (next_no n < 16))
next_no-ne n h = (
  λ e. omega (arith, bit_and_15 (n + 1), e),
  (
    omega (arith, bit_and_15 (n + 1), bit_and_15 (next_no n + 15)),
    omega (arith, bit_and_15 (n + 1)),
  ),
)

ack_packet : (n : ℕ) → n < 16 → Tpdu.to_packet (Tpdu.ack n) ≡ some ((0xc2 + n * 4) ∷ [])
unfolding Tpdu.to_packet
ack_packet n h =
    let byte = table 16 ack_byte (λ m. 0xc2 + m * 4) (unfold same_below in refl) n h in
    ground (arith, low_nibble n, byte)

acknowledged-append :
    (dest : ℕ) (ns ms : List ℕ) (sent : List LData)
    → acknowledged dest (ns ++ ms) sent ≡ acknowledged dest ms (acknowledged dest ns sent)
acknowledged-append dest [] ms sent = refl
acknowledged-append dest (n ∷ ns) ms sent = acknowledged-append dest ns ms (ack_frame dest n ∷ sent)

-- A message with the expected number.
pub accept-IsDelivered :
    (d : List ℕ) (n : ℕ) (c c' : Connection)
    → n < 16
    → c.recvno ≡ n
    → on_tpdu (data_connected n d) c ≡ some c'
    → IsDelivered (unnumbered d ∷ []) (n ∷ []) (next_no n) c c'
unfolding on_tpdu on_data accept_data send_ack
accept-IsDelivered d n c c' h e r = ground (arith, ack_packet n h, e, r)

-- The same message again.
pub again-IsDelivered :
    (d : List ℕ) (n : ℕ) (c c' : Connection)
    → n < 16
    → c.recvno ≡ next_no n
    → on_tpdu (data_connected n d) c ≡ some c'
    → IsDelivered [] (n ∷ []) (next_no n) c c'
unfolding on_tpdu on_data acknowledge_again send_ack
again-IsDelivered d n c c' h e r =
    ground (arith, ack_packet n h, next_no-ne n h, append-nil c.out, e, r)

pub accept-ne-none :
    (d : List ℕ) (n : ℕ) (c : Connection)
    → n < 16
    → c.recvno ≡ n
    → on_tpdu (data_connected n d) c ≢ none
unfolding on_tpdu on_data accept_data send_ack
accept-ne-none d n c h e r = ground (arith, to_packet-ack n h, e, r)

pub again-ne-none :
    (d : List ℕ) (n : ℕ) (c : Connection)
    → n < 16
    → c.recvno ≡ next_no n
    → on_tpdu (data_connected n d) c ≢ none
unfolding on_tpdu on_data acknowledge_again send_ack
again-ne-none d n c h e r = ground (arith, next_no-ne n h, to_packet-ack n h, e, r)

IsDelivered-trans :
    (ds es : List (List ℕ)) (ks ls : List ℕ) (m n : ℕ) (c c1 c2 : Connection)
    → IsDelivered ds ks m c c1
    → IsDelivered es ls n c1 c2
    → IsDelivered (ds ++ es) (ks ++ ls) n c c2
IsDelivered-trans ds es ks ls m n c c1 c2 a b = ground (
  arith,
  a,
  b,
  append_assoc c.out ds es,
  length-append ds es,
  acknowledged-append c.dest ks ls c.sent,
)

on_tpdus-append :
    (ts us : List Tpdu) (c : Connection) → on_tpdus (ts ++ us) c ≡ (on_tpdus ts c >>= on_tpdus us)
on_tpdus-append [] us c = refl
on_tpdus-append (t ∷ ts) us c = elim (Option-cases (on_tpdu t c)) [
  | inl n ↦ rw (n) refl
  | inr (c1, e) ↦ rw (e) (on_tpdus-append ts us c1)
]

-- The repetitions of the message before the expected one.
pub repeats-IsDelivered :
    (d : List ℕ) (n k : ℕ) (c : Connection)
    → n < 16
    → c.recvno ≡ next_no n
    → (c' : Connection) × (on_tpdus (repeats k (data_connected n d)) c ≡ some c')
      × IsDelivered [] (replicate k n) (next_no n) c c'
repeats-IsDelivered d n zero c h e = (c, refl, ground (arith, append-nil c.out, e))
repeats-IsDelivered d n (suc k) c h e = elim (Option-cases (on_tpdu (data_connected n d) c)) [
  | inl x ↦ absurd (again-ne-none d n c h e x)
  | inr (c1, r) ↦
      let a = again-IsDelivered d n c c1 h e r in
      let (c2, s, b) = repeats-IsDelivered d n k c1 h a.recvno in
      (
        c2,
        rw (r) s,
        IsDelivered-trans [] [] (n ∷ []) (replicate k n) (next_no n) (next_no n) c c1 c2 a b,
      )
]

-- A message with its repetitions.
pub message-IsDelivered :
    (d : List ℕ) (n k : ℕ) (c : Connection)
    → n < 16
    → c.recvno ≡ n
    → (c' : Connection) × (on_tpdus (data_connected n d ∷ repeats k (data_connected n d)) c
        ≡ some c')
      × IsDelivered (unnumbered d ∷ []) (n ∷ replicate k n) (next_no n) c c'
message-IsDelivered d n k c h e = elim (Option-cases (on_tpdu (data_connected n d) c)) [
  | inl x ↦ absurd (accept-ne-none d n c h e x)
  | inr (c1, r) ↦
      let a = accept-IsDelivered d n c c1 h e r in
      let (c2, s, b) = repeats-IsDelivered d n k c1 h a.recvno in
      (
        c2,
        rw (r) s,
        IsDelivered-trans (unnumbered d ∷ []) [] (n ∷ []) (replicate k n) (next_no n) (next_no n) c
            c1 c2 a b,
      )
]

-- From a connection that expects the number `n`, below 16, a device that numbers its messages from `n`
-- on and sends each again as often as it likes before the next: none fails or closes the connection,
-- the client gets each APDU exactly once and in order, with the number cleared, and what is sent is one
-- T_ACK for every message, repetition or not, with the number of the message and in the same order.
pub stream-IsDelivered :
    (ms : List (List ℕ × ℕ)) (n : ℕ) (c : Connection)
    → n < 16
    → c.recvno ≡ n
    → (c' : Connection) × (on_tpdus (stream n ms) c ≡ some c')
      × IsDelivered (apdus ms) (numbers n ms) (advance (length ms) n) c c'
stream-IsDelivered [] n c h e = (c, refl, ground (arith, append-nil c.out, e))
stream-IsDelivered ((d, k) ∷ ms) n c h e =
    let t = data_connected n d in
    let (c1, r, a) = message-IsDelivered d n k c h e in
    let (c2, s, b) = stream-IsDelivered ms (next_no n) c1 (next_no-ne n h).1.1 a.recvno in
    (
      c2,
      on_tpdus-append (t ∷ repeats k t) (stream (next_no n) ms) c ∙ rw (r) s,
      IsDelivered-trans (unnumbered d ∷ []) (apdus ms) (n ∷ replicate k n) (numbers (next_no n) ms)
          (next_no n) (advance (length ms) (next_no n)) c c1 c2 a b,
    )
