-- ===== src/Ladder/Moduli.antt =====
-- The tests on a list of moduli: coprimality, primality, the product, reducer hints and lengths of
-- number-theoretic transforms.
use rns.Prelude.{
  ℕ, zero, suc, ◌-◌, ◌*◌, ◌%◌, ◌&&◌, Bool, true, false, not, List, [], ◌∷◌, leb, ltb, ◌==◌,
  if◌then◌else◌, all, any,
}
use rns.Python.Gcd.{gcd}
use rns.Python.BitLength.{bit_length}
use rns.Trial.{trial}

abbrev pub default_moduli : List ℕ
default_moduli =
    256 ∷ 255 ∷ 253 ∷ 251 ∷ 247 ∷ 239 ∷ 233 ∷ 229 ∷ 227 ∷ 223 ∷ 217 ∷ 211 ∷ 199 ∷ 197 ∷ 191 ∷ 181
    ∷ 179 ∷ 173 ∷ 167 ∷ 163 ∷ 157 ∷ 151 ∷ 149 ∷ 139 ∷ 137 ∷ 131 ∷ 127 ∷ 113 ∷ []

-- HOT_REDUCER_MODULI, as a membership test.
unfoldable pub is_hot_reducer : ℕ → Bool
is_hot_reducer value = any (λ m. value == m) (251 ∷ 253 ∷ 255 ∷ 256 ∷ [])

-- The inner loop over `values[index + 1 :]`, and the outer loop.
unfoldable pub is_coprime_set : List ℕ → Bool
is_coprime_set [] = true
is_coprime_set (left ∷ rest) = all (λ right. gcd left right == 1) rest && is_coprime_set rest

unfoldable pub is_prime : ℕ → Bool
is_prime value =
    if ltb value 2
    then false
    else if value == 2
    then true
    else if value % 2 == 0
    then false
    else trial value 2 value 3

unfoldable pub product_loop : ℕ → List ℕ → ℕ
product_loop result [] = result
product_loop result (value ∷ values) = product_loop (result * value) values

unfoldable pub product : List ℕ → ℕ
unfolding product_loop
product values = product_loop 1 values

unfoldable pub product_bits : List ℕ → ℕ
product_bits values = bit_length (product values)

-- The strings that `reducer_cost_hint` returns.
pub data ReducerHint : Type 0 where
  hot_shift_mask_mod256 hot_mersenne_fold_mod255 hot_existing_reducer_or_shift_mask : ReducerHint
  generic_prime_reciprocal_candidate single_byte_modulus_reciprocal_candidate : ReducerHint
  non_byte_modulus_not_current_kernel_candidate : ReducerHint

unfoldable pub reducer_cost_hint : ℕ → ReducerHint
reducer_cost_hint value =
    if value == 256
    then hot_shift_mask_mod256
    else if value == 255
    then hot_mersenne_fold_mod255
    else if any (λ m. value == m) (251 ∷ 253 ∷ [])
    then hot_existing_reducer_or_shift_mask
    else if is_prime value
    then generic_prime_reciprocal_candidate
    else if leb value 256
    then single_byte_modulus_reciprocal_candidate
    else non_byte_modulus_not_current_kernel_candidate

-- The `while length <= max_length` loop. A length that doubles passes `max_length` within
-- `max_length` rounds.
unfoldable pub lengths_from : ℕ → ℕ → ℕ → ℕ → List ℕ
lengths_from zero value max_length len = []
lengths_from (suc fuel) value max_length len = elim (leb len max_length) [
  | false ↦ []
  | true ↦
      let rest = lengths_from fuel value max_length (len * 2) in
      if (value - 1) % (2 * len) == 0 then len ∷ rest else rest
]

unfoldable pub ntt_friendly_lengths : ℕ → ℕ → List ℕ
unfolding lengths_from
ntt_friendly_lengths value max_length =
    if not (is_prime value) then [] else lengths_from max_length value max_length 1
