-- ===== src/Layer3/Repeats.antt =====
-- What the list `ignore` of layer 3 remembers, and for how long.
use bcusdk.Base.{
  ℕ, zero, suc, ◌+◌, ◌≤◌, ◌<◌, ◌≡◌, refl, sym, true, false, none, some, Option-cases, Bool-cases,
  inl, inr, List, [], ◌∷◌, ◌++◌, arith, ◌⊎◌, length, take, drop, any, ◌&&◌,
}
use mathlib.Core.Path.{subst}
use bcusdk.Array.Equal.{equal_refl}
use bcusdk.Lpdu.{Lpdu, LData, unknown, l_data, to_packet_data}
use bcusdk.Array.Cut.{deletepart_one}
use bcusdk.Layer3.{Layer3State, IgnoreInfo}
use bcusdk.Layer3.Run.{
  first_expired, redel, same_bytes, receive, receive_data, accept, as_repeated, ignore_time,
  Delivery,
}

-- The frame `d` is remembered until the time `until` at least.
abbrev pub Remembers : List ℕ → ℕ → List IgnoreInfo → Type 0
Remembers d until [] = ⊥
Remembers d until (e ∷ es) = ((e.bytes ≡ d) × (until ≤ e.expiry)) ⊎ Remembers d until es

-- Every reading of the clock is at most `until`.
abbrev pub IsBefore : ℕ → (ℕ → ℕ) → Type 0
IsBefore until clock = (n : ℕ) → clock n ≤ until

pub first_expired-lt :
    (clock : ℕ → ℕ) (n : ℕ) (es : List IgnoreInfo) (i : ℕ)
    → (first_expired clock n es).0 ≡ some i
    → i < length es
unfolding first_expired
first_expired-lt clock n [] i f = cc
first_expired-lt clock n (x ∷ es) zero f = omega arith
first_expired-lt clock n (x ∷ es) (suc i) f = ground (arith, first_expired-lt clock (n + 1) es i)

-- What the loop finds has run out, so the frame outlives its deletion.
first_expired-Remembers :
    (d : List ℕ) (until : ℕ) (clock : ℕ → ℕ) (n : ℕ) (es : List IgnoreInfo) (i : ℕ)
    → IsBefore until clock
    → (first_expired clock n es).0 ≡ some i
    → Remembers d until es
    → Remembers d until (take i es ++ drop (suc i) es)
unfolding first_expired
first_expired-Remembers d until clock n [] i b f m = absurd m
first_expired-Remembers d until clock n (x ∷ es) zero b f (inl h) = ground (arith, b n, h, f)
first_expired-Remembers d until clock n (x ∷ es) zero b f (inr m) = m
first_expired-Remembers d until clock n (x ∷ es) (suc i) b f (inl h) = inl h
first_expired-Remembers d until clock n (x ∷ es) (suc i) b f (inr m) =
    inr (first_expired-Remembers d until clock (n + 1) es i b (ground (arith, f)) m)

pub redel_done :
    (fuel : ℕ) (clock : ℕ → ℕ) (n : ℕ) (es : List IgnoreInfo)
    → (first_expired clock n es).0 ≡ none
    → redel (suc fuel) clock n es ≡ es
unfolding redel
redel_done fuel clock n es e = rw (e, redel)

pub redel_again :
    (fuel : ℕ) (clock : ℕ → ℕ) (n : ℕ) (es : List IgnoreInfo) (i : ℕ)
    → (first_expired clock n es).0 ≡ some i
    → redel (suc fuel) clock n es
      ≡ redel fuel clock (first_expired clock n es).1 (take i es ++ drop (suc i) es)
unfolding redel
redel_again fuel clock n es i e =
    rw (e, redel) (rw (deletepart_one i es (first_expired-lt clock n es i e)))

redel-Remembers :
    (d : List ℕ) (until fuel : ℕ) (clock : ℕ → ℕ) (n : ℕ) (es : List IgnoreInfo)
    → IsBefore until clock
    → Remembers d until es
    → Remembers d until (redel fuel clock n es)
redel-Remembers d until zero clock n es b m = unfold redel in m
redel-Remembers d until (suc fuel) clock n es b m =
    elim (Option-cases (first_expired clock n es).0) [
      | inl e ↦ subst (Remembers d until) (sym (redel_done fuel clock n es e)) m
      | inr (i, e) ↦ subst (Remembers d until) (sym (redel_again fuel clock n es i e)) (
          redel-Remembers d until fuel clock _ _ b
            (first_expired-Remembers d until clock n es i b e m))
    ]

append-Remembers :
    (d : List ℕ) (until : ℕ) (es fs : List IgnoreInfo)
    → Remembers d until es
    → Remembers d until (es ++ fs)
append-Remembers d until (e ∷ es) fs (inl h) = inl h
append-Remembers d until (e ∷ es) fs (inr m) = inr (append-Remembers d until es fs m)
append-Remembers d until [] fs m = absurd m

Remembers-append_one :
    (d : List ℕ) (until : ℕ) (es : List IgnoreInfo) (e : IgnoreInfo)
    → e.bytes ≡ d
    → until ≤ e.expiry
    → Remembers d until (es ++ (e ∷ []))
Remembers-append_one d until [] e h k = inl (h, k)
Remembers-append_one d until (x ∷ es) e h k = inr (Remembers-append_one d until es e h k)

any_of_Remembers :
    (d : List ℕ) (until : ℕ) (es : List IgnoreInfo)
    → Remembers d until es
    → any (same_bytes d) es ≡ true
any_of_Remembers d until [] m = absurd m
any_of_Remembers d until (e ∷ es) (inl h) = rw (h.0, equal_refl d)
any_of_Remembers d until (e ∷ es) (inr m) = ground (arith, any_of_Remembers d until es m)

-- The frame is a repetition that the list `es` has: its bytes, as a repeated frame, are there.
abbrev pub IsRepetition : Lpdu → List IgnoreInfo → Type 0
IsRepetition l es =
    (f : LData) × (d : List ℕ) × (l ≡ l_data f)
    × (f.valid_length ≡ true)
    × (f.repeated ≡ true)
    × (to_packet_data (as_repeated f) ≡ some d)
    × (any (same_bytes d) es ≡ true)

-- What a round leaves of the ignored frames: all of them, if the frame is a repetition, or what is left
-- of them, with a new one or not, by the loop that takes out those that have run out.
abbrev pub Leaves : Lpdu → (ℕ → ℕ) → List IgnoreInfo → List IgnoreInfo → Type 0
Leaves l clock es fs =
    (IsRepetition l es × (fs ≡ es))
    ⊎ ((fs ≡ redel (length es) clock 0 es)
        ⊎ ((x : IgnoreInfo) × (fs ≡ redel (length (es ++ (x ∷ []))) clock 1 (es ++ (x ∷ [])))))

-- The entry of a frame with the bytes `d`.
abbrev pub entry_of : (ℕ → ℕ) → List ℕ → IgnoreInfo
entry_of clock d = record { bytes = d; expiry = clock 0 + ignore_time }

receive_data-Leaves :
    (default_addr : ℕ) (clock : ℕ → ℕ) (f : LData) (s t : Layer3State) (ds : List Delivery)
    → f.valid_length ≡ true
    → receive_data default_addr clock f s ≡ some (t, ds)
    → Leaves (l_data f) clock s.ignore t.ignore
unfolding receive_data accept
receive_data-Leaves a clock f s t ds y e = elim (Option-cases (to_packet_data (as_repeated f))) [
  | inl n ↦ absurd (ground (arith, n, e))
  | inr (d, p) ↦ elim (Bool-cases (f.repeated && any (same_bytes d) s.ignore)) [
    | inl r ↦
        inl ((f, d, refl, y, ground (arith, r), p, ground (arith, r)), ground (arith, p, r, e))
    | inr r ↦ inr (inr (entry_of clock d, ground (arith, p, r, e)))
  ]
]

pub receive-Leaves :
    (default_addr : ℕ) (clock : ℕ → ℕ) (l : Lpdu) (s t : Layer3State) (ds : List Delivery)
    → receive default_addr clock l s ≡ some (t, ds)
    → Leaves l clock s.ignore t.ignore
unfolding receive
receive-Leaves a clock (unknown c) s t ds e = inr (inl (ground (arith, e)))
receive-Leaves a clock (l_data f) s t ds e = elim (Bool-cases f.valid_length) [
  | inl y ↦ receive_data-Leaves a clock f s t ds y (ground (arith, y, e))
  | inr n ↦ inr (inl (ground (arith, n, e)))
]
receive-Leaves a clock _ s t ds e = inr (inl (ground (arith, e)))

pub Leaves-Remembers :
    (d : List ℕ) (until : ℕ) (l : Lpdu) (clock : ℕ → ℕ) (es fs : List IgnoreInfo)
    → IsBefore until clock
    → Leaves l clock es fs
    → Remembers d until es
    → Remembers d until fs
Leaves-Remembers d until l clock es fs b (inl e) m = subst (Remembers d until) (sym e.1) m
Leaves-Remembers d until l clock es fs b (inr (inl e)) m =
    subst (Remembers d until) (sym e) (redel-Remembers d until (length es) clock 0 es b m)
Leaves-Remembers d until l clock es fs b (inr (inr (x, e))) m = subst (Remembers d until) (sym e) (
    redel-Remembers d until (length (es ++ (x ∷ []))) clock 1 (es ++ (x ∷ [])) b
      (append-Remembers d until es (x ∷ []) m))

-- A first copy is remembered for a second after the reading that its round began with.
pub accepted-Remembers :
    (default_addr : ℕ) (clock : ℕ → ℕ) (f : LData) (d : List ℕ) (s t : Layer3State)
    (ds : List Delivery)
    → IsBefore (clock 0 + ignore_time) clock
    → f.repeated ≡ false
    → to_packet_data (as_repeated f) ≡ some d
    → receive_data default_addr clock f s ≡ some (t, ds)
    → Remembers d (clock 0 + ignore_time) t.ignore
unfolding receive_data accept
accepted-Remembers a clock f d s t ds b r p e =
    subst (Remembers d (clock 0 + ignore_time)) (ground (arith, p, r, e)) (
      redel-Remembers d (clock 0 + ignore_time) (length (s.ignore ++ (entry_of clock d ∷ []))) clock
        1 (s.ignore ++ (entry_of clock d ∷ [])) b
        (Remembers-append_one d (clock 0 + ignore_time) s.ignore (entry_of clock d) refl
          (omega arith)))

pub repeat_dropped :
    (default_addr : ℕ) (clock : ℕ → ℕ) (f : LData) (d : List ℕ) (until : ℕ) (s : Layer3State)
    → f.repeated ≡ true
    → to_packet_data (as_repeated f) ≡ some d
    → Remembers d until s.ignore
    → receive_data default_addr clock f s ≡ some (s, [])
unfolding receive_data
repeat_dropped a clock f d until s r p m =
    rw (p, receive_data) (ground (arith, r, any_of_Remembers d until s.ignore m))

pub receive_data_abort :
    (default_addr : ℕ) (clock : ℕ → ℕ) (f : LData) (s : Layer3State)
    → to_packet_data (as_repeated f) ≡ none
    → receive_data default_addr clock f s ≡ none
unfolding receive_data
receive_data_abort a clock f s n = rw (n, receive_data)
