-- ===== src/EibNetIp/Blocks.antt =====
-- The four fields of fixed size in the description of a device in eibnetip.cpp, in front of the rest.
use bcusdk.Base.{
  List, ap, arith, drop, drop-append_past, length, length-append, sym, take, take-append_length, ℕ,
  ◌++◌, ◌+◌, ◌∙◌, ◌∷◌, ◌≡◌,
}

-- Where the fields and the rest are found.
pub record Found (t : List ℕ) (serial multicast mac name : List ℕ) (b x : ℕ) (r : List ℕ)
    : Type 0 where
  pub size : length t ≡ 48 + length r
  pub serials : take 6 t ≡ serial
  pub multicasts : take 4 (drop 6 t) ≡ multicast
  pub macs : take 6 (drop 10 t) ≡ mac
  pub names : take 30 (drop 16 t) ≡ name
  pub rest : drop 46 t ≡ b ∷ x ∷ r

pub found :
    (serial multicast mac name : List ℕ) (b x : ℕ) (r : List ℕ)
    → length serial ≡ 6
    → length multicast ≡ 4
    → length mac ≡ 6
    → length name ≡ 30
    → Found
        (serial ++ (multicast ++ (mac ++ (name ++ (b ∷ x ∷ r)))))
        serial
        multicast
        mac
        name
        b
        x
        r
found s m a n b x r hs hm ha hn =
    let after_n = b ∷ x ∷ r in
    let after_a = n ++ after_n in
    let after_m = a ++ after_a in
    let after_s = m ++ after_m in
    let at_m = drop-append_past s after_s 6 0 (omega arith) in
    let at_a =
      drop-append_past s after_s 10 4 (omega arith)
      ∙ drop-append_past m after_m 4 0 (omega arith) in
    let at_n =
      drop-append_past s after_s 16 10 (omega arith)
      ∙ drop-append_past m after_m 10 6 (omega arith)
      ∙ drop-append_past a after_a 6 0 (omega arith) in
    let at_r =
      drop-append_past s after_s 46 40 (omega arith)
      ∙ drop-append_past m after_m 40 36 (omega arith)
      ∙ drop-append_past a after_a 36 30 (omega arith)
      ∙ drop-append_past n after_n 30 0 (omega arith) in
    record {
      size = omega (
        arith,
        length-append s after_s,
        length-append m after_m,
        length-append a after_a,
        length-append n after_n,
      );
      serials = take-append_length s after_s 6 (sym hs);
      multicasts = ap (take 4) at_m ∙ take-append_length m after_m 4 (sym hm);
      macs = ap (take 6) at_a ∙ take-append_length a after_a 6 (sym ha);
      names = ap (take 30) at_n ∙ take-append_length n after_n 30 (sym hn);
      rest = at_r;
    }
