-- ===== src/Layer3/Suppression.antt =====
-- Layer3::Run on a repetition, with other events since the first copy.
use bcusdk.Base.{
  ℕ, ◌+◌, ◌≡◌, refl, sym, ◌∙◌, true, false, some, Option-cases, inl, inr, List, [], ◌∷◌, arith,
}
use mathlib.Core.Path.{subst}
use bcusdk.Lpdu.{LData, l_data, to_packet_data}
use bcusdk.Layer3.{
  Layer3State, send_l_data, register_busmonitor, register_vbusmonitor, register_broadcast,
  register_group, register_individual, deregister_busmonitor, deregister_vbusmonitor,
  deregister_broadcast, deregister_group, deregister_individual,
}
use bcusdk.Layer3.Run.{receive, receive_data, as_repeated, ignore_time, Delivery}
use bcusdk.Layer3.System.{Event, send_frame, arrive, perform, run}
use bcusdk.Layer3.Repeats.{
  Remembers, IsBefore, Leaves-Remembers, receive-Leaves, accepted-Remembers, repeat_dropped,
  receive_data_abort,
}

-- Every clock reading of these events is at most `until`.
abbrev pub AllBefore : ℕ → List Event → Type 0
AllBefore until [] = Unit
AllBefore until (arrive a clock l ∷ es) = IsBefore until clock × AllBefore until es
AllBefore until (_ ∷ es) = AllBefore until es

perform-Remembers :
    (d : List ℕ) (until : ℕ) (e : Event) (s t : Layer3State)
    → AllBefore until (e ∷ [])
    → perform e s ≡ some t
    → Remembers d until s.ignore
    → Remembers d until t.ignore
unfolding perform send_l_data register_busmonitor register_vbusmonitor register_broadcast
    register_group register_individual deregister_busmonitor deregister_vbusmonitor
    deregister_broadcast deregister_group deregister_individual
perform-Remembers d until (arrive a clock l) s t b e m = elim (Option-cases (receive a clock l s)) [
  | inl n ↦ absurd (ground (arith, n, e))
  | inr ((u, ds), r) ↦
      subst (Remembers d until) (ground (arith, r, e)) (
        Leaves-Remembers d until l clock s.ignore u.ignore b.0 (receive-Leaves a clock l s u ds r)
          m)
]
perform-Remembers d until (send_frame a f) s t b e m = subst (Remembers d until) (ground arith) m
perform-Remembers d until _ s t b e m = subst (Remembers d until) (ground arith) m

AllBefore-head :
    (until : ℕ) (e : Event) (es : List Event)
    → AllBefore until (e ∷ es)
    → AllBefore until (e ∷ []) × AllBefore until es
AllBefore-head until (arrive a clock l) es b = ((b.0, tt), b.1)
AllBefore-head until (send_frame a f) es b = (tt, b)
AllBefore-head until _ es b = (tt, b)

run-Remembers :
    (d : List ℕ) (until : ℕ) (es : List Event) (s t : Layer3State)
    → AllBefore until es
    → run es s ≡ some t
    → Remembers d until s.ignore
    → Remembers d until t.ignore
unfolding run
run-Remembers d until [] s t b e m = subst (Remembers d until) (ground arith) m
run-Remembers d until (x ∷ es) s t b e m =
    let (now, later) = AllBefore-head until x es b in
    elim (Option-cases (perform x s)) [
      | inl n ↦ absurd (ground (arith, n, e))
      | inr (u, r) ↦
          run-Remembers d until es u t later (ground (arith, r, e))
            (perform-Remembers d until x s u now r m)
    ]

receive_complete :
    (default_addr : ℕ) (clock : ℕ → ℕ) (f : LData) (s : Layer3State)
    → f.valid_length ≡ true
    → receive default_addr clock (l_data f) s ≡ receive_data default_addr clock f s
unfolding receive
receive_complete a clock f s v = rw v

-- Layer 3 processes a complete frame that is not marked as repeated, in a round that takes at most a
-- second; then any requests and frames follow, every clock reading at most a second after the first
-- one of that round. The same frame marked as repeated then changes nothing and is delivered to no
-- one, whenever and with whatever address of the driver it arrives.
pub repetition_dropped :
    (a b : ℕ) (clock clock' : ℕ → ℕ) (f : LData) (es : List Event) (s t u : Layer3State)
    (ds : List Delivery)
    → f.valid_length ≡ true
    → f.repeated ≡ false
    → IsBefore (clock 0 + ignore_time) clock
    → receive a clock (l_data f) s ≡ some (t, ds)
    → AllBefore (clock 0 + ignore_time) es
    → run es t ≡ some u
    → receive b clock' (l_data (as_repeated f)) u ≡ some (u, [])
repetition_dropped a b clock clock' f es s t u ds v r round e later e' =
    let first : receive_data a clock f s ≡ some (t, ds) =
      sym (receive_complete a clock f s v) ∙ e in
    elim (Option-cases (to_packet_data (as_repeated f))) [
      | inl n ↦ absurd (ground (arith, receive_data_abort a clock f s n, first))
      | inr (d, p) ↦
          receive_complete b clock' (as_repeated f) u v
          ∙ repeat_dropped b clock' (as_repeated f) d (clock 0 + ignore_time) u refl p (
              run-Remembers d (clock 0 + ignore_time) es t u later e'
                (accepted-Remembers a clock f d s t ds round r p first))
    ]
