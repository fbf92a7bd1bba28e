-- ===== src/Layer7/Blocks.antt =====
-- layer7.cpp: reading and writing memory in blocks. An address has sixteen bits.
use bcusdk.Base.{
  Bool, List, [], drop, false, if◌then◌else◌, length, ltb, suc, take, true, zero, ℕ, ◌%◌, ◌&&◌, ◌+◌,
  ◌-◌, ◌==◌, ◌∷◌,
}
use bcusdk.Array.{resize, setpart}
use bcusdk.Layer7.{
  Link, Result, failed, ok, read_memory, stopped, write_memory, write_memory_verified, ◌>>=◌,
}

-- `while (data[i + j] != prev[i + j] && j < blocksize && i + j < data ()) j++`, on the bytes from `i` on;
-- `room` is `blocksize - j`. The code looks at `data[i + j]` before it tests `i + j < data ()`: what
-- stands behind the last byte does not change the result.
abbrev pub run_length : ℕ → List ℕ → List ℕ → ℕ
run_length (suc room) (x ∷ c) (y ∷ prev) =
    let more = run_length room c prev in if x == y then 0 else more + 1
run_length _ _ _ = 0

module _ {S : Type 0} (link : Link S) (fresh : ℕ → ℕ) where
  -- The loop of X_Memory_Read_Block. `rounds` bounds the rounds; a block that fails is tried again in
  -- steps of two bytes.
  unfoldable pub read_rounds : ℕ → ℕ → ℕ → ℕ → ℕ → List ℕ → S → Result S (List ℕ)
  unfolding setpart
  read_rounds zero addr len i blocksize erg s = stopped
  read_rounds (suc rounds) addr len i blocksize erg s = elim (ltb i len) [
    | false ↦ ok erg s
    | true ↦
        elim (read_memory link fresh ((addr + i) % 65536)
          (if ltb blocksize (len - i) then blocksize else len - i) s) [
            | stopped ↦ stopped
            | failed s' ↦ elim (blocksize == 12) [
              | true ↦ read_rounds rounds addr len i 2 erg s'
              | false ↦ failed s'
            ]
            | ok e s' ↦
                read_rounds rounds addr len (i + blocksize) blocksize (setpart (fresh 0) e i erg) s'
          ]
  ]

  -- X_Memory_Read_Block: each round but one moves on by two bytes at least.
  unfoldable pub read_block : ℕ → ℕ → S → Result S (List ℕ)
  unfolding read_rounds resize
  read_block addr len s = read_rounds (len + 2) addr len 0 12 (resize (fresh 0) len []) s

  -- The loop of X_Memory_Write_Block from `i` on, over the rest of the bytes and of what was there;
  -- `same` says that no answer was -2 yet. `rounds` bounds the rounds.
  unfoldable pub write_rounds : ℕ → ℕ → List ℕ → List ℕ → Bool → S → Result S Bool
  unfolding write_memory_verified
  write_rounds zero at_addr c prev same s = stopped
  write_rounds (suc rounds) at_addr [] prev same s = ok same s
  write_rounds (suc rounds) at_addr (x ∷ c) prev same s =
      let j = run_length 12 (x ∷ c) prev in
      elim (j == 0) [
        | true ↦ write_rounds rounds (at_addr + 1) c (drop 1 prev) same s
        | false ↦ elim (write_memory_verified link fresh (at_addr % 65536) (take j (x ∷ c)) s) [
          | stopped ↦ stopped
          | failed s' ↦ failed s'
          | ok equal_bytes s' ↦
              write_rounds rounds (at_addr + j) (drop j (x ∷ c)) (drop j prev) (same && equal_bytes)
                s'
        ]
      ]

  -- X_Memory_Write_Block: true is the answer 0, false the answer -2.
  unfoldable pub write_block : ℕ → List ℕ → S → Result S Bool
  unfolding read_block write_rounds
  write_block addr c s =
      read_block addr (length c) s >>= λ prev s1. write_rounds (length c + 1) addr c prev true s1

  -- A_Memory_Write_Block: twelve bytes at a time, without looking at them again.
  unfoldable pub write_unverified : ℕ → ℕ → List ℕ → S → Result S Unit
  unfolding write_memory
  write_unverified zero at_addr c s = stopped
  write_unverified (suc rounds) at_addr [] s = ok tt s
  write_unverified (suc rounds) at_addr (x ∷ c) s =
      elim (write_memory link fresh (at_addr % 65536) (take 12 (x ∷ c)) s) [
        | stopped ↦ stopped
        | failed s' ↦ failed s'
        | ok u s' ↦ write_unverified rounds (at_addr + 12) (drop 12 (x ∷ c)) s'
      ]

  unfoldable pub write_block_unverified : ℕ → List ℕ → S → Result S Unit
  unfolding write_unverified
  write_block_unverified addr c s = write_unverified (length c + 1) addr c s
