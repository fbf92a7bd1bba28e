-- ===== src/Layer7/Writing.antt =====
-- layer7.cpp: X_Memory_Write_Block with a device that answers.
use bcusdk.Base.{
  ==_iff, All-drop, All-take, Bool-cases, IsByte, IsBytes, List, [], ap, arith, drop, false, inl,
  inr, length, length-drop, length-take, refl, suc, sym, take, true, zero, ℕ, ◌%◌, ◌+◌, ◌-◌, ◌<◌,
  ◌==◌, ◌∙◌, ◌∷◌, ◌≡◌, ◌≤◌,
}
use bcusdk.Layer7.{ok, write_memory_verified}
use bcusdk.Layer7.Blocks.{run_length, write_block, write_rounds}
use bcusdk.Layer7.Device.{Device, IsMemory, bytes_at, device, quiet, stored}
use bcusdk.Layer7.Reading.{read_block-device}
use bcusdk.Layer7.Verified.{
  bytes_at-same, stored-IsMemory, stored-below, write_memory_verified-device,
}

run_length-le :
    (room : ℕ) (c prev : List ℕ)
    → (run_length room c prev ≤ room) × (run_length room c prev ≤ length c)
run_length-le zero c prev = (omega arith, omega arith)
run_length-le (suc room) [] prev = (omega arith, omega arith)
run_length-le (suc room) (x ∷ c) [] = (omega arith, omega arith)
run_length-le (suc room) (x ∷ c) (y ∷ prev) = ground (arith, run_length-le room c prev)

-- No run starts where the byte is right.
run_length-zero :
    (room x y : ℕ) (c prev : List ℕ) → run_length (suc room) (x ∷ c) (y ∷ prev) ≡ 0 → x ≡ y
run_length-zero room x y c prev e = ground (arith, ==_iff x y)

-- Where two memories agree, so they do after the same bytes were stored.
stored-base :
    (a : ℕ) (c : List ℕ) (m l : ℕ → ℕ) (k : ℕ) → m k ≡ l k → stored a c m k ≡ stored a c l k
stored-base a [] m l k e = e
stored-base a (x ∷ c) m l k e = ground (arith, stored-base (a + 1) c m l k e)

-- What is stored in two steps.
stored-split :
    (j a : ℕ) (c : List ℕ) (m : ℕ → ℕ) (k : ℕ)
    → stored (a + j) (drop j c) (stored a (take j c) m) k ≡ stored a c m k
stored-split zero a c m k = let e : a + 0 ≡ a = omega arith in rw e refl
stored-split (suc j) a [] m k = refl
stored-split (suc j) a (x ∷ c) m k =
    let later = stored a (x ∷ take j c) m in
    elim (Bool-cases (k == a)) [
      | inl e ↦
          let here : k ≡ a = (==_iff k a).0 e in
          let low = stored-below (a + suc j) k (drop j c) later (omega arith) in low ∙ rw e refl
      | inr e ↦
          let next : a + suc j ≡ a + 1 + j = omega arith in
          let base =
            stored-base (a + 1 + j) (drop j c) later (stored (a + 1) (take j c) m) k (rw e refl) in
          rw (next, e) (base ∙ stored-split j (a + 1) c m k)
    ]

bytes_at-drop : (m : ℕ → ℕ) (a n j : ℕ) → drop j (bytes_at m a n) ≡ bytes_at m (a + j) (n - j)
bytes_at-drop m a n zero =
    let e : a + 0 ≡ a = omega arith in let f : n - 0 ≡ n = omega arith in rw (e, f) refl
bytes_at-drop m a zero (suc j) = let f : 0 - suc j ≡ 0 = omega arith in rw f refl
bytes_at-drop m a (suc n) (suc j) =
    let e : a + suc j ≡ a + 1 + j = omega arith in
    let f : suc n - suc j ≡ n - j = omega arith in rw (e, f) (bytes_at-drop m (a + 1) n j)

stored-above : (a k : ℕ) (c : List ℕ) (m : ℕ → ℕ) → a + length c ≤ k → stored a c m k ≡ m k
stored-above a k [] m h = refl
stored-above a k (x ∷ c) m h = ground (arith, stored-above (a + 1) k c m (omega arith))

-- A byte that is right already is as good as stored.
unchanged :
    (a x k : ℕ) (c : List ℕ) (m : ℕ → ℕ) → x ≡ m a → stored (a + 1) c m k ≡ stored a (x ∷ c) m k
unchanged a x k c m e = elim (Bool-cases (k == a)) [
  | inl h ↦
      let here : k ≡ a = (==_iff k a).0 h in
      stored-below (a + 1) k c m (omega arith) ∙ ap m here ∙ sym e ∙ rw h refl
  | inr h ↦ rw h refl
]

module _ (fresh : ℕ → ℕ) where
  -- The loop ends with the answer 0, and the device holds the bytes.
  abbrev IsStored : ℕ → ℕ → List ℕ → List ℕ → (ℕ → ℕ) → Type 0
  IsStored rounds a c prev m =
      (l : ℕ → ℕ) × ((write_rounds (device fresh) fresh rounds a c prev true (quiet m)
          ≡ ok true (quiet l))
        × ((k : ℕ) → l k ≡ stored a c m k))

  skip_step :
      (rounds a x : ℕ) (c prev : List ℕ) (d : Device)
      → (run_length 12 (x ∷ c) prev == 0) ≡ true
      → write_rounds (device fresh) fresh (suc rounds) a (x ∷ c) prev true d
        ≡ write_rounds (device fresh) fresh rounds (a + 1) c (drop 1 prev) true d
  unfolding write_rounds
  skip_step rounds a x c prev d e = rw (write_rounds, e) refl

  run_step :
      (rounds a x : ℕ) (c prev : List ℕ) (d e : Device)
      → (run_length 12 (x ∷ c) prev == 0) ≡ false
      → write_memory_verified
          (device fresh)
          fresh
          (a % 65536)
          (take (run_length 12 (x ∷ c) prev) (x ∷ c))
          d
        ≡ ok true e
      → write_rounds (device fresh) fresh (suc rounds) a (x ∷ c) prev true d
        ≡ write_rounds
            (device fresh)
            fresh
            rounds
            (a + run_length 12 (x ∷ c) prev)
            (drop (run_length 12 (x ∷ c) prev) (x ∷ c))
            (drop (run_length 12 (x ∷ c) prev) prev)
            true
            e
  unfolding write_rounds
  run_step rounds a x c prev d e z w = rw (write_rounds, z, w) refl

  write_all :
      (rounds a : ℕ) (c : List ℕ) (m : ℕ → ℕ)
      → IsMemory m
      → IsBytes c
      → a + length c ≤ 65536
      → length c < rounds
      → IsStored rounds a c (bytes_at m a (length c)) m
  write_all zero a c m h b k l = absurd (omega arith)
  write_all (suc rounds) a [] m h b k l = (m, (unfold write_rounds in refl, λ i. refl))
  write_all (suc rounds) a (x ∷ c) m h b k l =
      let prev = bytes_at m a (length (x ∷ c)) in
      let j = run_length 12 (x ∷ c) prev in
      elim (Bool-cases (j == 0)) [
        | inl e ↦
            let rest = write_all rounds (a + 1) c m h b.1 (omega arith) (omega arith) in
            let right =
              run_length-zero 11 x (m a) c (bytes_at m (a + 1) (length c)) ((==_iff j 0).0 e) in
            (
              rest.0,
              (
                skip_step rounds a x c prev (quiet m) e ∙ rest.1.0,
                λ i. rest.1.1 i ∙ unchanged a x i c m right,
              ),
            )
        | inr e ↦
            let le = run_length-le 12 (x ∷ c) prev in
            let now = take j (x ∷ c) in
            let l1 = stored a now m in
            let word_address : a % 65536 ≡ a = omega arith in
            let size : length now ≡ j = omega (arith, length-take j (x ∷ c), le.1) in
            let nb = All-take IsByte j (x ∷ c) b in
            let done =
              write_memory_verified-device fresh m a now h nb (omega arith)
                (omega (arith, size, le.0)) in
            let left : length (drop j (x ∷ c)) ≡ length (x ∷ c) - j = length-drop j (x ∷ c) in
            let before : drop j prev ≡ bytes_at l1 (a + j) (length (drop j (x ∷ c))) =
              bytes_at-drop m a (length (x ∷ c)) j
              ∙ bytes_at-same m l1 (a + j) (length (x ∷ c) - j)
                  (λ i q. sym (stored-above a i now m (omega (arith, size))))
              ∙ ap (bytes_at l1 (a + j)) (sym left) in
            let rest =
              write_all rounds (a + j) (drop j (x ∷ c)) l1 (stored-IsMemory m a now h nb)
                (All-drop IsByte j (x ∷ c) b) (omega (arith, left, le.1))
                (ground (arith, left, le.1)) in
            let at_word =
              ap (λ q. write_memory_verified (device fresh) fresh q now (quiet m)) word_address
              ∙ done in
            let after =
              ap
                (λ p.
                  write_rounds (device fresh) fresh rounds (a + j) (drop j (x ∷ c)) p true
                    (quiet l1))
                before in
            (
              rest.0,
              (
                run_step rounds a x c prev (quiet m) (quiet l1) e at_word ∙ after ∙ rest.1.0,
                λ i. rest.1.1 i ∙ stored-split j a (x ∷ c) m i,
              ),
            )
      ]

  -- X_Memory_Write_Block with a device that answers, on a block that ends within the 64 KB of
  -- addresses: the answer is 0, no answer of the device is left over, and each byte of the device's
  -- memory is the one of the block where the block lies, and what it was elsewhere.
  pub write_block-stored :
      (m : ℕ → ℕ) (a : ℕ) (c : List ℕ)
      → IsMemory m
      → IsBytes c
      → a + length c ≤ 65536
      → (l : ℕ → ℕ) × ((write_block (device fresh) fresh a c (quiet m) ≡ ok true (quiet l))
          × ((k : ℕ) → l k ≡ stored a c m k))
  unfolding write_block
  write_block-stored m a c h b k =
      let written = write_all (length c + 1) a c m h b k (omega arith) in
      (written.0, (rw (read_block-device fresh m h a (length c) k) written.1.0, written.1.1))
