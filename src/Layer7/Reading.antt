-- ===== src/Layer7/Reading.antt =====
-- layer7.cpp: X_Memory_Read_Block with a device that answers.
use bcusdk.Base.{
  Bool-cases, List, [], ap, arith, drop, false, if◌then◌else◌, inl, inr, length, length-append,
  length-drop, length-replicate, ltb, refl, replicate, suc, sym, take, take_all, true, zero, ℕ, ◌%◌,
  ◌++◌, ◌+◌, ◌-◌, ◌<◌, ◌∙◌, ◌∷◌, ◌≡◌, ◌≤◌,
}
use bcusdk.Array.{copy_at, resize, setpart}
use bcusdk.Array.Cut.{put_front}
use bcusdk.Layer7.{ok}
use bcusdk.Layer7.Blocks.{read_block, read_rounds}
use bcusdk.Layer7.Device.{IsMemory, bytes_at, bytes_at-length, device, quiet, read_memory-device}
use mathlib.Core.Path.{ap₂}
use mathlib.Core.List.{append_assoc, append-nil}

pub bytes_at-append :
    (m : ℕ → ℕ) (a i n : ℕ) → bytes_at m a i ++ bytes_at m (a + i) n ≡ bytes_at m a (i + n)
bytes_at-append m a zero n =
    let e : a + 0 ≡ a = omega arith in let f : 0 + n ≡ n = omega arith in rw (e, f) refl
bytes_at-append m a (suc i) n =
    let e : a + suc i ≡ a + 1 + i = omega arith in
    let f : suc i + n ≡ suc (i + n) = omega arith in
    rw (e, f) (ap (λ l. m a ∷ l) (bytes_at-append m (a + 1) i n))

copied :
    (u vs rest : List ℕ) (n : ℕ)
    → n ≡ length u
    → length vs ≤ length rest
    → copy_at vs n (u ++ rest) ≡ u ++ (vs ++ drop (length vs) rest)
unfolding copy_at
copied u [] rest n e h = refl
copied u (v ∷ vs) [] n e h = absurd (omega arith)
copied u (v ∷ vs) (x ∷ rest) n e h = rw (put_front u x v rest n e) (
    ap (copy_at vs (n + 1)) (sym (append_assoc u (v ∷ []) rest))
    ∙ copied (u ++ (v ∷ [])) vs rest (n + 1) (omega (arith, length-append u (v ∷ []))) (omega arith)
    ∙ append_assoc u (v ∷ []) (vs ++ drop (length vs) rest))

-- `setpart` where there is room.
setpart_within :
    (x : ℕ) (u vs rest : List ℕ) (n : ℕ)
    → n ≡ length u
    → length vs ≤ length rest
    → setpart x vs n (u ++ rest) ≡ u ++ (vs ++ drop (length vs) rest)
unfolding setpart
setpart_within x u vs rest n e h =
    let room : ltb (length (u ++ rest)) (length vs + n) ≡ false =
      ground (arith, length-append u rest) in
    rw room (copied u vs rest n e h)

module _ (fresh : ℕ → ℕ) (m : ℕ → ℕ) (memory_bytes : IsMemory m) where
  -- One round of the loop.
  read_step :
      (rounds a len i n : ℕ) (rest : List ℕ)
      → i < len
      → a + len ≤ 65536
      → n ≡ (if ltb 12 (len - i) then 12 else len - i)
      → n ≤ length rest
      → read_rounds (device fresh) fresh (suc rounds) a len i 12 (bytes_at m a i ++ rest) (quiet m)
        ≡ read_rounds
            (device fresh)
            fresh
            rounds
            a
            len
            (i + 12)
            12
            (bytes_at m a (i + n) ++ drop n rest)
            (quiet m)
  unfolding read_rounds
  read_step rounds a len i n rest h k e l =
      let more : ltb i len ≡ true = ground arith in
      let here : (a + i) % 65536 ≡ a + i = omega arith in
      let few : n < 16 = ground arith in
      let size = bytes_at-length m (a + i) n in
      let set_bytes =
        setpart_within (fresh 0) (bytes_at m a i) (bytes_at m (a + i) n) rest i
          (sym (bytes_at-length m a i)) (omega (arith, size)) in
      let joined =
        sym (
          append_assoc (bytes_at m a i) (bytes_at m (a + i) n)
            (drop (length (bytes_at m (a + i) n)) rest))
        ∙ ap₂ (λ l d. l ++ drop d rest) (bytes_at-append m a i n) size in
      rw
        (
          read_rounds,
          more,
          here,
          sym e,
          read_memory-device fresh m (a + i) n memory_bytes (omega arith) few,
        )
        (ap (λ l. read_rounds (device fresh) fresh rounds a len (i + 12) 12 l (quiet m))
          (set_bytes ∙ joined))

  read_end :
      (rounds a len i : ℕ) (erg : List ℕ)
      → len ≤ i
      → 0 < rounds
      → read_rounds (device fresh) fresh rounds a len i 12 erg (quiet m) ≡ ok erg (quiet m)
  unfolding read_rounds
  read_end zero a len i erg h p = absurd (omega arith)
  read_end (suc rounds) a len i erg h p =
      let done : ltb i len ≡ false = ground arith in rw (read_rounds, done) refl

  nothing_left : (rest : List ℕ) (u : List ℕ) → length rest ≡ 0 → u ++ rest ≡ u
  nothing_left [] u e = append-nil u
  nothing_left (x ∷ rest) u e = absurd (omega arith)

  read_all :
      (rounds a len i : ℕ) (rest : List ℕ)
      → i ≤ len
      → a + len ≤ 65536
      → length rest ≡ len - i
      → len < rounds + i
      → 0 < rounds
      → read_rounds (device fresh) fresh rounds a len i 12 (bytes_at m a i ++ rest) (quiet m)
        ≡ ok (bytes_at m a len) (quiet m)
  read_all zero a len i rest h k e l p = absurd (omega arith)
  read_all (suc rounds) a len i rest h k e l p = elim (Bool-cases (ltb i len)) [
    | inr done ↦
        let at_end : len ≤ i = ground arith in
        let whole : i ≡ len = omega arith in
        read_end (suc rounds) a len i (bytes_at m a i ++ rest) at_end p
        ∙ ap (λ l. ok l (quiet m))
            (nothing_left rest (bytes_at m a i) (omega arith) ∙ ap (bytes_at m a) whole)
    | inl more ↦
        let within : i < len = ground arith in
        elim (Bool-cases (ltb 12 (len - i))) [
          | inl full ↦
              let room : 12 < len - i = ground arith in
              let twelve : 12 ≡ (if ltb 12 (len - i) then 12 else len - i) = rw full refl in
              read_step rounds a len i 12 rest within k twelve (omega arith)
              ∙ read_all rounds a len (i + 12) (drop 12 rest) (omega arith) k
                  (omega (arith, length-drop 12 rest)) (omega arith) (omega arith)
          | inr last ↦
              let room : len - i ≤ 12 = ground arith in
              let left : len - i ≡ (if ltb 12 (len - i) then 12 else len - i) = rw last refl in
              let whole : i + (len - i) ≡ len = omega arith in
              read_step rounds a len i (len - i) rest within k left (omega arith)
              ∙ read_end rounds a len (i + 12) _ (omega arith) (omega arith)
              ∙ ap (λ l. ok l (quiet m))
                  (nothing_left (drop (len - i) rest) _ (omega (arith, length-drop (len - i) rest))
                    ∙ ap (bytes_at m a) whole)
        ]
  ]

  -- X_Memory_Read_Block gives the bytes of the device.
  pub read_block-device :
      (a len : ℕ)
      → a + len ≤ 65536
      → read_block (device fresh) fresh a len (quiet m) ≡ ok (bytes_at m a len) (quiet m)
  unfolding read_block resize
  read_block-device a len h =
      let fill = replicate (len - 0) (fresh 0) in
      let nothing : take {A = ℕ} len [] ≡ [] = take_all len [] (omega arith) in
      ap (λ l. read_rounds (device fresh) fresh (len + 2) a len 0 12 (l ++ fill) (quiet m)) nothing
      ∙ read_all (len + 2) a len 0 fill (omega arith) h (length-replicate (len - 0) (fresh 0))
          (omega arith) (omega arith)
