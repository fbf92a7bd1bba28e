-- ===== src/Lpdu/Parse.antt =====
-- What L_Data_PDU::init reads from a frame that is written out byte by byte.
use bcusdk.Base.{
  ℕ, ◌+◌, ◌-◌, ◌≡◌, refl, true, some, List, [], ◌∷◌, ◌++◌, length, arith, ◌==◌, bit_and, word,
  length-append, take-append_length, get_or-append_length,
}
use bcusdk.Base.Bits.{shr}
use bcusdk.Lpdu.{
  checksum, checksum_ok, read_prio, read_addr_type, init_standard, init_extended, extended,
}

-- The last byte is compared with the checksum of the ones before it.
pub checksum_ok_append : (b : List ℕ) (cs : ℕ) → checksum_ok (b ++ (cs ∷ [])) ≡ (cs == checksum b)
unfolding checksum_ok
checksum_ok_append b cs = rw (
  get_or-append_length b cs [] (length (b ++ (cs ∷ [])) - 1) 0 last,
  take-append_length b (cs ∷ []) (length (b ++ (cs ∷ [])) - 1) last,
)
  where
    last : length (b ++ (cs ∷ [])) - 1 ≡ length b
    last = omega (arith, length-append b (cs ∷ []))

-- A short frame whose length nibble fits the payload `d`.
pub init_standard_lem :
    (c0 s1 s2 d1 d2 b5 cs : ℕ) (d : List ℕ)
    → bit_and b5 0x0f + 1 ≡ length d
    → init_standard (c0 ∷ s1 ∷ s2 ∷ d1 ∷ d2 ∷ b5 ∷ (d ++ (cs ∷ [])))
      ≡ some (record {
        prio = read_prio c0;
        repeated = bit_and c0 0x20 == 0;
        valid_checksum = cs == checksum (c0 ∷ s1 ∷ s2 ∷ d1 ∷ d2 ∷ b5 ∷ d);
        valid_length = true;
        addr_type = read_addr_type b5;
        source = word s1 s2;
        dest = word d1 d2;
        hopcount = bit_and (shr b5 4) 0x07;
        payload = d;
      })
unfolding init_standard
init_standard_lem c0 s1 s2 d1 d2 b5 cs d h =
    rw
      (
        checksum_ok_append (c0 ∷ s1 ∷ s2 ∷ d1 ∷ d2 ∷ b5 ∷ d) cs,
        h,
        length-append d (cs ∷ []),
        take-append_length d (cs ∷ []) (length d) refl,
      )
      (ground arith)

-- A long frame whose length byte fits the payload `d`.
pub init_extended_lem :
    (c0 b1 s1 s2 d1 d2 n cs : ℕ) (d : List ℕ)
    → bit_and b1 0x0f ≡ 0
    → n + 1 ≡ length d
    → init_extended (c0 ∷ b1 ∷ s1 ∷ s2 ∷ d1 ∷ d2 ∷ n ∷ (d ++ (cs ∷ [])))
      ≡ some (record {
        prio = read_prio c0;
        repeated = bit_and c0 0x20 == 0;
        valid_checksum = cs == checksum (c0 ∷ b1 ∷ s1 ∷ s2 ∷ d1 ∷ d2 ∷ n ∷ d);
        valid_length = true;
        addr_type = read_addr_type b1;
        source = word s1 s2;
        dest = word d1 d2;
        hopcount = bit_and (shr b1 4) 0x07;
        payload = d;
      })
unfolding init_extended extended
init_extended_lem c0 b1 s1 s2 d1 d2 n cs d z h =
    rw
      (
        checksum_ok_append (c0 ∷ b1 ∷ s1 ∷ s2 ∷ d1 ∷ d2 ∷ n ∷ d) cs,
        z,
        h,
        length-append d (cs ∷ []),
        take-append_length d (cs ∷ []) (length d) refl,
      )
      (ground arith)
