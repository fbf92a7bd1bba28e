-- ===== src/Layer3/Purge.antt =====
-- The loop of Layer3::Run behind the label `redel`.
use bcusdk.Base.{
  ℕ, zero, suc, ◌+◌, ◌≤◌, ◌≡◌, none, some, Option-cases, inl, inr, ◌⊎◌, List, [], ◌∷◌, ◌++◌, arith,
  All, map, length, take, drop, length-append, length-take, length-drop,
}
use mathlib.Core.Path.{subst}
use bcusdk.Base.{sym}
use bcusdk.Lpdu.{Lpdu, busmonitor}
use bcusdk.Layer3.{Layer3State, IgnoreInfo}
use bcusdk.Layer3.Run.{first_expired, redel, receive, Delivery, monitor_frame}
use bcusdk.Layer3.Repeats.{
  redel_done, redel_again, first_expired-lt, receive-Leaves, Leaves, IsRepetition,
}

-- Time does not run backwards.
abbrev pub IsMonotone : (ℕ → ℕ) → Type 0
IsMonotone clock = (m n : ℕ) → m ≤ n → clock m ≤ clock n

abbrev pub NotExpired : ℕ → IgnoreInfo → Type 0
NotExpired now e = now ≤ e.expiry

first_expired-le : (clock : ℕ → ℕ) (n : ℕ) (es : List IgnoreInfo) → n ≤ (first_expired clock n es).1
unfolding first_expired
first_expired-le clock n [] = omega arith
first_expired-le clock n (e ∷ es) = ground (arith, first_expired-le clock (n + 1) es)

first_expired-none :
    (clock : ℕ → ℕ) (k n : ℕ) (es : List IgnoreInfo)
    → IsMonotone clock
    → k ≤ n
    → (first_expired clock n es).0 ≡ none
    → All (NotExpired (clock k)) es
unfolding first_expired
first_expired-none clock k n [] mono h e = tt
first_expired-none clock k n (x ∷ es) mono h e = (
  ground (arith, mono k n h),
  first_expired-none clock k (n + 1) es mono (omega arith) (ground (arith, e)),
)

redel-NotExpired :
    (fuel : ℕ) (clock : ℕ → ℕ) (k n : ℕ) (es : List IgnoreInfo)
    → IsMonotone clock
    → k ≤ n
    → length es ≤ fuel
    → All (NotExpired (clock k)) (redel fuel clock n es)
redel-NotExpired zero clock k n [] mono h size = unfold redel in tt
redel-NotExpired zero clock k n (e ∷ es) mono h size = absurd (omega arith)
redel-NotExpired (suc fuel) clock k n es mono h size =
    elim (Option-cases (first_expired clock n es).0) [
      | inl e ↦
          subst (All (NotExpired (clock k))) (sym (redel_done fuel clock n es e))
            (first_expired-none clock k n es mono h e)
      | inr (i, e) ↦ subst (All (NotExpired (clock k))) (sym (redel_again fuel clock n es i e)) (
          redel-NotExpired fuel clock k _ _ mono (omega (arith, first_expired-le clock n es)) (
            omega (
              arith,
              first_expired-lt clock n es i e,
              length-append (take i es) (drop (suc i) es),
              length-take i es,
              length-drop (suc i) es,
            )))
    ]

Leaves-NotExpired :
    (l : Lpdu) (clock : ℕ → ℕ) (es fs : List IgnoreInfo)
    → IsMonotone clock
    → Leaves l clock es fs
    → (IsRepetition l es × (fs ≡ es)) ⊎ All (NotExpired (clock 0)) fs
Leaves-NotExpired l clock es fs mono (inl e) = inl e
Leaves-NotExpired l clock es fs mono (inr (inl e)) = inr (
    subst (All (NotExpired (clock 0))) (sym e)
      (redel-NotExpired (length es) clock 0 0 es mono (omega arith) (omega arith)))
Leaves-NotExpired l clock es fs mono (inr (inr (x, e))) = inr (
    subst (All (NotExpired (clock 0))) (sym e) (
      redel-NotExpired (length (es ++ (x ∷ []))) clock 0 1 (es ++ (x ∷ [])) mono (omega arith)
        (omega arith)))

-- With a clock that does not run backwards, a round of the loop that ends leaves no remembered frame whose
-- time had run out when the round began, whatever is received, but for a repetition of a frame that
-- is remembered: that is dropped before the loop at `redel`, and leaves the remembered frames as they
-- are.
pub receive-NotExpired :
    (default_addr : ℕ) (clock : ℕ → ℕ) (l : Lpdu) (s t : Layer3State) (ds : List Delivery)
    → IsMonotone clock
    → receive default_addr clock l s ≡ some (t, ds)
    → (IsRepetition l s.ignore × (t.ignore ≡ s.ignore)) ⊎ All (NotExpired (clock 0)) t.ignore
receive-NotExpired a clock l s t ds mono e =
    Leaves-NotExpired l clock s.ignore t.ignore mono (receive-Leaves a clock l s t ds e)

-- What is delivered in bus monitor mode.
abbrev pub monitored : Lpdu → Layer3State → List Delivery
monitored (busmonitor m) s = map (λ c. monitor_frame c m) (s.busmonitor ++ s.vbusmonitor)
monitored _ s = []
