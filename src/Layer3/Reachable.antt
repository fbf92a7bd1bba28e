-- ===== src/Layer3/Reachable.antt =====
-- The invariant over every history of layer 3.
use bcusdk.Base.{ℕ, ◌≡◌, some, sym, refl, ◌∙◌, Option-cases, inl, inr, List, [], ◌∷◌, arith}
use mathlib.Core.Path.{subst}
use mathlib.Core.Option.{some-injective}
use bcusdk.Lpdu.{Lpdu, unknown, l_data}
use bcusdk.Layer3.{Layer3State, new}
use bcusdk.Layer3.Run.{receive, receive_data, accept, Delivery}
use bcusdk.Layer3.System.{
  Event, send_frame, add_busmonitor, add_vbusmonitor, add_broadcast, add_group, add_individual,
  drop_busmonitor, drop_vbusmonitor, drop_broadcast, drop_group, drop_individual, arrive, perform,
  run,
}
use bcusdk.Layer3.Links.{
  Inv, new-Inv, send_l_data-Inv, register_busmonitor-Inv, register_vbusmonitor-Inv,
  register_broadcast-Inv, register_group-Inv, register_individual-Inv, deregister_busmonitor-Inv,
  deregister_vbusmonitor-Inv, deregister_broadcast-Inv, deregister_group-Inv,
  deregister_individual-Inv,
}

-- A frame changes the list of ignored frames alone.
pub record IsKept (s t : Layer3State) : Type 0 where
  pub mode : t.mode ≡ s.mode
  pub busmonitor : t.busmonitor ≡ s.busmonitor
  pub vbusmonitor : t.vbusmonitor ≡ s.vbusmonitor
  pub broadcast : t.broadcast ≡ s.broadcast
  pub group : t.group ≡ s.group
  pub individual : t.individual ≡ s.individual
  pub calls : t.calls ≡ s.calls

pub receive-IsKept :
    (default_addr : ℕ) (clock : ℕ → ℕ) (l : Lpdu) (s t : Layer3State) (ds : List Delivery)
    → receive default_addr clock l s ≡ some (t, ds)
    → IsKept s t
unfolding receive receive_data accept
receive-IsKept a clock (unknown c) s t ds e = ground arith
receive-IsKept a clock (l_data f) s t ds e = ground arith
receive-IsKept a clock _ s t ds e = ground arith

kept-Inv : (s t : Layer3State) → IsKept s t → Inv s → Inv t
kept-Inv s t k v = (ground (arith, v.0), λ a. ground (arith, v.1 a))

Inv-of_some : (x t : Layer3State) → some x ≡ some t → Inv x → Inv t
Inv-of_some x t e = subst Inv (some-injective x t e)

pub perform-Inv : (e : Event) (s t : Layer3State) → Inv s → perform e s ≡ some t → Inv t
unfolding perform
perform-Inv (send_frame a f) s t v = λ e. Inv-of_some _ t e (send_l_data-Inv s v a f)
perform-Inv (add_busmonitor b c) s t v = λ e. Inv-of_some _ t e (register_busmonitor-Inv s v b c)
perform-Inv (add_vbusmonitor b c) s t v = λ e. Inv-of_some _ t e (register_vbusmonitor-Inv s v b c)
perform-Inv (add_broadcast c) s t v = λ e. Inv-of_some _ t e (register_broadcast-Inv s v c)
perform-Inv (add_group b c a) s t v = λ e. Inv-of_some _ t e (register_group-Inv s v b c a)
perform-Inv (add_individual b c l src dest) s t v =
    λ e. Inv-of_some _ t e (register_individual-Inv s v b c l src dest)
perform-Inv (drop_busmonitor c) s t v = λ e. Inv-of_some _ t e (deregister_busmonitor-Inv s v c)
perform-Inv (drop_vbusmonitor c) s t v = λ e. Inv-of_some _ t e (deregister_vbusmonitor-Inv s v c)
perform-Inv (drop_broadcast c) s t v = λ e. Inv-of_some _ t e (deregister_broadcast-Inv s v c)
perform-Inv (drop_group c a) s t v = λ e. Inv-of_some _ t e (deregister_group-Inv s v c a)
perform-Inv (drop_individual c src dest) s t v =
    λ e. Inv-of_some _ t e (deregister_individual-Inv s v c src dest)
perform-Inv (arrive a clock l) s t v = λ e. elim (Option-cases (receive a clock l s)) [
  | inl n ↦ absurd (ground (arith, n, e))
  | inr ((u, ds), r) ↦
      Inv-of_some u t (sym (rw (r, perform) refl) ∙ e)
        (kept-Inv s u (receive-IsKept a clock l s u ds r) v)
]

run_from-Inv : (es : List Event) (s t : Layer3State) → Inv s → run es s ≡ some t → Inv t
unfolding run
run_from-Inv [] s t v e = Inv-of_some s t e v
run_from-Inv (x ∷ es) s t v e = elim (Option-cases (perform x s)) [
  | inl n ↦ absurd (ground (arith, n, e))
  | inr (u, r) ↦ run_from-Inv es u t (perform-Inv x s u v r) (ground (arith, r, e))
]

-- After any sequence of requests and frames, whatever the driver answers: the driver was never called
-- out of order and is in bus monitor mode exactly if layer 3 is; that mode is on exactly while a bus
-- monitor is registered, and then nobody else is; the driver watches the virtual bus monitor exactly
-- while someone is registered for it, and holds each address other than 0 exactly while someone is
-- registered for it; and no two connections have the same source.
pub run-Inv : (es : List Event) (t : Layer3State) → run es new ≡ some t → Inv t
run-Inv es t = run_from-Inv es new t new-Inv
