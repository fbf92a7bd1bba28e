-- ===== src/Apdu/RoundTrip/Cons.antt =====
-- APDU::fromPacket on a message of two bytes or more, in two steps.
use bcusdk.Base.{List, arith, length, take, take_all, ℕ, ◌∷◌, ◌≡◌}
use bcusdk.Apdu.Codec.{from_packet, init_class, or_unknown}
use bcusdk.Apdu.Service.{class_of}

pub from_packet-cons :
    (x y : ℕ) (c : List ℕ)
    → from_packet (x ∷ y ∷ c) ≡ or_unknown (x ∷ y ∷ c) (init_class (class_of x y) (x ∷ y ∷ c))
unfolding from_packet
from_packet-cons x y c = ground arith

pub drop_all_of : (k : ℕ) (c : List ℕ) → length c ≡ k → take k c ≡ c
drop_all_of k c e = ground (arith, take_all k c)
