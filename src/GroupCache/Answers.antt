-- ===== src/GroupCache/Answers.antt =====
-- What Read answers, from the map.
use bcusdk.Base.{
  ℕ, ◌≡◌, inl, inr, refl, sym, ◌∙◌, Bool, not, none, some, Option-cases, Bool-cases, List, ◌==◌,
  if◌then◌else◌,
}
use bcusdk.GroupCache.{Entry, GroupCache, Answer, new, read, read_round, empty_entry}
use bcusdk.GroupCache.Refinement.{
  Refines, found_value, fresh_entry-recent, perform_all-Refines, new-Refines,
}
use bcusdk.GroupCache.Map.{Map, empty, recent, Op, perform_all, step_all}

-- What Read answers before its loop, from the map: the recent value; an empty entry if the cache is
-- off or it may not wait; else it waits.
abbrev pub expected : ℕ → ℕ → ℕ → ℕ → ℕ → Map → Answer
expected unset now a timeout age m =
    if not m.on then Answer.answered (empty_entry unset 0) else elim (recent now a age m) [
      | some e ↦ Answer.answered e
      | none ↦ if timeout == 0 then Answer.answered (empty_entry unset a) else Answer.waits
    ]

-- What a round of its loop answers.
abbrev pub expected_round : ℕ → ℕ → ℕ → ℕ → Bool → Map → Answer
expected_round unset now a age expired m = elim (recent now a age m) [
  | some e ↦ Answer.answered e
  | none ↦ if not expired then Answer.waits else elim (m.value a) [
    | some e ↦ Answer.answered (empty_entry unset a)
    | none ↦ Answer.answered (empty_entry now a)
  ]
]

read_answer :
    (unset now a timeout age : ℕ) (g : GroupCache) (m : Map)
    → Refines g m
    → (read unset now a timeout age g).0 ≡ expected unset now a timeout age m
unfolding read
read_answer unset now a timeout age g m r = elim (Option-cases (recent now a age m)) [
  | inl n ↦
      let f = fresh_entry-recent now a age g m r ∙ n in
      elim (Bool-cases m.on) [
        | inl t ↦
            let t' = r.on ∙ t in
            rw (t', t, f, n, read, expected)
              (elim (Bool-cases (timeout == 0)) [ inl z ↦ rw z refl | inr z ↦ rw z refl ])
        | inr t ↦ let t' = r.on ∙ t in rw (t', t, read, expected) refl
      ]
  | inr (e, n) ↦
      let f = fresh_entry-recent now a age g m r ∙ n in
      elim (Bool-cases m.on) [
        | inl t ↦ let t' = r.on ∙ t in rw (t', t, f, n, read, expected) refl
        | inr t ↦ let t' = r.on ∙ t in rw (t', t, read, expected) refl
      ]
]

read_round_answer :
    (fresh : Entry) (unset now a age : ℕ) (expired : Bool) (g : GroupCache) (m : Map)
    → Refines g m
    → (read_round fresh unset now a age expired g).0 ≡ expected_round unset now a age expired m
unfolding read_round
read_round_answer fresh unset now a age expired g m r = elim (Option-cases (recent now a age m)) [
  | inr (e, n) ↦
      let f = fresh_entry-recent now a age g m r ∙ n in rw (f, n, read_round, expected_round) refl
  | inl n ↦
      let f = fresh_entry-recent now a age g m r ∙ n in
      elim (found_value a g.cache r.sorted) [
        | inl (q, v) ↦
            let w : m.value a ≡ none = sym (r.values a) ∙ v in
            elim (Bool-cases expired) [
              | inl t ↦ rw (f, n, read_round, expected_round) (rw (t, q, w) refl)
              | inr t ↦ rw (f, n, read_round, expected_round) (rw (t) refl)
            ]
        | inr (p, e, q, v) ↦
            let w : m.value a ≡ some e = sym (r.values a) ∙ v in
            elim (Bool-cases expired) [
              | inl t ↦ rw (f, n, read_round, expected_round) (rw (t, q, w) refl)
              | inr t ↦ rw (f, n, read_round, expected_round) (rw (t) refl)
            ]
      ]
]

-- After any sequence of frames, removals, clearings, starts and stops, and rounds of waiting readers,
-- whatever unset memory holds: the array is in ascending order without duplicates, it holds at every
-- address what the map holds that is written, deleted and emptied by the same calls, and Read
-- answers from it, at once or in a round of its loop, what that map says.
pub perform_all-new :
    (os : List Op) (fresh : Entry) (unset now a timeout age : ℕ) (expired : Bool)
    → Refines (perform_all os new) (step_all os empty)
      × ((read unset now a timeout age (perform_all os new)).0
          ≡ expected unset now a timeout age (step_all os empty))
      × ((read_round fresh unset now a age expired (perform_all os new)).0
          ≡ expected_round unset now a age expired (step_all os empty))
perform_all-new os fresh unset now a timeout age expired =
    let r = perform_all-Refines os new empty new-Refines in
    (
      r,
      read_answer unset now a timeout age (perform_all os new) (step_all os empty) r,
      read_round_answer fresh unset now a age expired (perform_all os new) (step_all os empty) r,
    )
