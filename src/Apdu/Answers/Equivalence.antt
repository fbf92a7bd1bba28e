-- ===== src/Apdu/Answers/Equivalence.antt =====
-- Why isResponse of apdu.cpp and the list of answers agree.
use bcusdk.Base.{List, [], arith, refl, true, ℕ, ◌↔◌, ◌∷◌, ◌≡◌}
use bcusdk.Apdu.{
  Apdu, adc_read, adc_response, authorize_request, authorize_response, device_descriptor_read,
  device_descriptor_response, domain_address_read, domain_address_response, group_value_read,
  group_value_response, individual_address_read, individual_address_response, key_response,
  key_write, memory_read, memory_response, property_description_read, property_description_response,
  property_value_read, property_value_response, property_value_write, serial_number_read,
  serial_number_response, user_manufacturer_info_read, user_manufacturer_info_response,
  user_memory_read, user_memory_response,
}
use bcusdk.Apdu.Answers.{
  Answers, adc, authorized, device_descriptor, domain_address, group_value, individual_address,
  is_response, key, manufacturer_info, memory, property_description, property_value,
  property_written, same_serial, serial_number, user_memory,
}

same_serial_eq : (a b : List ℕ) → same_serial a b ≡ true → a ≡ b
same_serial_eq [] [] e = refl
same_serial_eq (x ∷ a) (y ∷ b) e = ground (arith, same_serial_eq a b)
same_serial_eq _ _ e = ground arith

same_serial_refl : (a : List ℕ) → same_serial a a ≡ true
same_serial_refl [] = refl
same_serial_refl (x ∷ a) = ground (arith, same_serial_refl a)

is_response-Answers : (r q : Apdu) → is_response r q ≡ true → Answers r q
unfolding is_response
is_response-Answers (group_value_response s d) group_value_read e = group_value s d
is_response-Answers individual_address_response individual_address_read e = individual_address
is_response-Answers (serial_number_response s a) (serial_number_read s') e =
    let same : s' ≡ s = ground (arith, same_serial_eq s' s) in rw same (serial_number s a)
is_response-Answers (domain_address_response a) domain_address_read e = domain_address a
is_response-Answers (property_value_response o p n s d) (property_value_write o' p' n' s' d') e =
    let o_same : o' ≡ o = ground arith in
    let p_same : p' ≡ p = ground arith in
    let n_same : n' ≡ n = ground arith in
    let s_same : s' ≡ s = ground arith in
    rw (o_same, p_same, n_same, s_same) (property_written o p n s d d')
is_response-Answers (property_value_response o p n s d) (property_value_read o' p' n' s') e =
    let o_same : o' ≡ o = ground arith in
    let p_same : p' ≡ p = ground arith in
    let n_same : n' ≡ n = ground arith in
    let s_same : s' ≡ s = ground arith in
    rw (o_same, p_same, n_same, s_same) (property_value o p n s d)
is_response-Answers (property_description_response o p i t n a) (property_description_read o' p' i')
      e =
    let o_same : o' ≡ o = ground arith in rw o_same (property_description o p i t n a p' i')
is_response-Answers (device_descriptor_response t d) (device_descriptor_read t') e =
    let t_same : t' ≡ t = ground arith in rw t_same (device_descriptor t d)
is_response-Answers (adc_response c n v) (adc_read c' n') e =
    let c_same : c' ≡ c = ground arith in
    let n_same : n' ≡ n = ground arith in rw (c_same, n_same) (adc c n v)
is_response-Answers (memory_response n a d) (memory_read n' a') e =
    let n_same : n' ≡ n = ground arith in
    let a_same : a' ≡ a = ground arith in rw (n_same, a_same) (memory n a d)
is_response-Answers (user_memory_response x n a d) (user_memory_read x' n' a') e =
    let x_same : x' ≡ x = ground arith in
    let n_same : n' ≡ n = ground arith in
    let a_same : a' ≡ a = ground arith in rw (x_same, n_same, a_same) (user_memory x n a d)
is_response-Answers (user_manufacturer_info_response m d) user_manufacturer_info_read e =
    manufacturer_info m d
is_response-Answers (authorize_response l) (authorize_request k) e = authorized l k
is_response-Answers (key_response l) (key_write l' k) e =
    let l_same : l' ≡ l = ground arith in rw l_same (key l k)
is_response-Answers _ _ e = ground arith

Answers-is_response : {r q : Apdu} → Answers r q → is_response r q ≡ true
unfolding is_response
Answers-is_response (group_value s d) = refl
Answers-is_response individual_address = refl
Answers-is_response (serial_number s a) = ground (arith, same_serial_refl s)
Answers-is_response (domain_address a) = refl
Answers-is_response (property_written o p n s d d') = ground arith
Answers-is_response (property_value o p n s d) = ground arith
Answers-is_response (property_description o p i t n a p' i') = ground arith
Answers-is_response (device_descriptor t d) = ground arith
Answers-is_response (adc c n v) = ground arith
Answers-is_response (memory n a d) = ground arith
Answers-is_response (user_memory x n a d) = ground arith
Answers-is_response (manufacturer_info m d) = refl
Answers-is_response (authorized l k) = refl
Answers-is_response (key l k) = ground arith

-- isResponse holds of two messages exactly if the first is an answer to the second.
pub is_response_iff : (r q : Apdu) → is_response r q ≡ true ↔ Answers r q
is_response_iff r q = (is_response-Answers r q, Answers-is_response)
