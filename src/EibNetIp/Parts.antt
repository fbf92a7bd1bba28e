-- ===== src/EibNetIp/Parts.antt =====
-- The parts of the messages in eibnetip.cpp: the eight bytes of an address in front of the rest.
use bcusdk.Base.{
  Bool, List, arith, at, drop, false, length, refl, take, take_all, true, ℕ, ◌++◌, ◌∷◌, ◌≡◌,
}
use bcusdk.EibNetIp.{SockAddr, ip_to_eibnetip}

pub address-take :
    (a : SockAddr) (nat : Bool) (r : List ℕ)
    → take 8 (ip_to_eibnetip a nat ++ r) ≡ ip_to_eibnetip a nat
unfolding ip_to_eibnetip
address-take a true r = refl
address-take a false r = refl

pub address-drop : (a : SockAddr) (nat : Bool) (r : List ℕ) → drop 8 (ip_to_eibnetip a nat ++ r) ≡ r
unfolding ip_to_eibnetip
address-drop a true r = refl
address-drop a false r = refl

pub address-length : (a : SockAddr) (nat : Bool) → length (ip_to_eibnetip a nat) ≡ 8
unfolding ip_to_eibnetip
address-length a true = refl
address-length a false = refl

pub address_whole :
    (a : SockAddr) (nat : Bool) → take 8 (ip_to_eibnetip a nat) ≡ ip_to_eibnetip a nat
address_whole a nat = take_all 8 (ip_to_eibnetip a nat) (omega (arith, address-length a nat))

-- What follows two addresses.
pub two_addresses :
    (a b : SockAddr) (nat : Bool) (x : ℕ) (r : List ℕ)
    → (at (ip_to_eibnetip a nat ++ (ip_to_eibnetip b nat ++ (x ∷ r))) 16 ≡ x)
      × (drop 17 (ip_to_eibnetip a nat ++ (ip_to_eibnetip b nat ++ (x ∷ r))) ≡ r)
unfolding ip_to_eibnetip
two_addresses a b true x r = (refl, refl)
two_addresses a b false x r = (refl, refl)
