-- ===== src/Schema/Kernels.antt =====
-- core_shared.py: the constants and the helpers of the validator.
use rns.Prelude.{
  ℕ, Bool, true, false, ◌&&◌, ◌||◌, List, [], ◌∷◌, String, leb, ltb, ◌==◌, if◌then◌else◌, any, ◌^◌,
  ◌-◌, ◌+◌, Option, none, some,
}
use rns.Prelude.Int.{ℤ, pos, negsuc, ltb_ℤ, leb_ℤ, eqb_ℤ, ◌*ℤ◌, pos_part, neg_part}
use rns.Trial.{trial}
use rns.Json.{Value, int, bool, float, dyadic, infinite, not_a_number}
use rns.Outcome.{Outcome, done, raised, type_error, overflow_error}

abbrev pub wrap64_hip_u32_accumulator_max_k : ℕ
wrap64_hip_u32_accumulator_max_k = 4096

abbrev pub wrap64_hip_colpair_min_dimension : ℕ
wrap64_hip_colpair_min_dimension = 256

abbrev pub wrap64_low_product_diagonals : ℕ
wrap64_low_product_diagonals = 8

abbrev pub wrap64_hip_u32_kernel : String
wrap64_hip_u32_kernel = "direct_hip_wrap64_byte_gemm36_u32acc_tiled_2d_v4"

abbrev pub wrap64_hip_u64_kernel : String
wrap64_hip_u64_kernel = "direct_hip_wrap64_byte_gemm36_u64acc_tiled_2d_v4"

abbrev pub wrap64_hip_u32_colpair_kernel : String
wrap64_hip_u32_colpair_kernel = "direct_hip_wrap64_byte_gemm36_u32acc_colpair_2d_v5"

abbrev pub wrap64_rocwmma_candidate_kernel : String
wrap64_rocwmma_candidate_kernel = "rocwmma_wrap64_byte_gemm36_candidate_v0"

-- `_is_int(v) and v >= n`, `_is_int(v) and v <= n`
abbrev pub int_at_least : ℤ → Value → Bool
int_at_least n (int a) = leb_ℤ n a
int_at_least n _ = false

abbrev pub int_at_most : ℤ → Value → Bool
int_at_most n (int a) = leb_ℤ a n
int_at_most n _ = false

-- `v > n`; only numbers have an order with an integer.
abbrev pub number_of : Bool → ℤ
number_of true = pos 1
number_of false = pos 0

unfoldable pub greater : Value → ℤ → Outcome Bool
greater (int a) n = done (ltb_ℤ n a)
greater (bool b) n = done (ltb_ℤ n (number_of b))
greater (float (dyadic a m)) n = done (ltb_ℤ (n *ℤ pos (2 ^ m)) a)
greater (float (infinite plus)) n = done plus
greater (float not_a_number) n = done false
greater _ n = raised type_error

unfoldable pub wrap64_hip_shape_supports_colpair_kernel : Value → Value → Value → Bool
wrap64_hip_shape_supports_colpair_kernel m_value n_value k_value =
    int_at_least (pos 1) k_value
    && int_at_most (pos wrap64_hip_u32_accumulator_max_k) k_value
    && int_at_least (pos wrap64_hip_colpair_min_dimension) m_value
    && int_at_least (pos wrap64_hip_colpair_min_dimension) n_value

-- The set is listed in the order in which `sorted` prints it.
unfoldable pub wrap64_hip_allowed_kernels : Value → Value → Value → List String
unfolding wrap64_hip_shape_supports_colpair_kernel
wrap64_hip_allowed_kernels m_value n_value k_value =
    if wrap64_hip_shape_supports_colpair_kernel m_value n_value k_value
    then wrap64_hip_u32_colpair_kernel ∷ wrap64_hip_u32_kernel ∷ []
    else if int_at_least (pos 1) k_value
        && int_at_most (pos wrap64_hip_u32_accumulator_max_k) k_value
    then wrap64_hip_u32_kernel ∷ []
    else wrap64_hip_u64_kernel ∷ []

-- The least magnitude of an integer that `float` rounds past the largest double.
unfoldable pub float_overflow : ℕ
float_overflow = 2 ^ 1024 - 2 ^ 970

-- `_is_number`
unfoldable pub is_number : Value → Outcome Bool
unfolding float_overflow
is_number (int a) =
    if leb float_overflow (pos_part a + neg_part a) then raised overflow_error else done true
is_number (float (dyadic a m)) = done true
is_number _ = done false

-- `_is_prime_modulus`; a negative value is below 2.
unfoldable pub is_prime_modulus : ℤ → Bool
is_prime_modulus (negsuc n) = false
is_prime_modulus (pos value) = if ltb value 2 || ltb 251 value then false else trial value 1 value 2

-- The membership `modulus not in CK_FINITE_STATIC_MODULI` is over these.
abbrev pub ck_finite_static_moduli : List ℕ
ck_finite_static_moduli =
    127 ∷ 131 ∷ 137 ∷ 139 ∷ 149 ∷ 151 ∷ 157 ∷ 163 ∷ 167 ∷ 173 ∷ 179 ∷ 181 ∷ 191 ∷ 193 ∷ 197 ∷ 199
    ∷ 211 ∷ 217 ∷ 223 ∷ 227 ∷ 229 ∷ 233 ∷ 239 ∷ 241 ∷ 243 ∷ 247 ∷ 251 ∷ 253 ∷ 255 ∷ 256 ∷ []

unfoldable pub is_static_modulus : ℤ → Bool
is_static_modulus (negsuc n) = false
is_static_modulus (pos value) = any (λ m. value == m) ck_finite_static_moduli

-- A dict from the moduli 251, 255 and 256 to the kernels that are specialised for them.
pub record Specialized : Type 0 where
  pub mod251 : String
  pub mod255 : String
  pub mod256 : String

unfoldable pub specialized_kernel : Specialized → ℤ → Option String
specialized_kernel t modulus =
    if eqb_ℤ modulus (pos 251)
    then some t.mod251
    else if eqb_ℤ modulus (pos 255)
    then some t.mod255
    else if eqb_ℤ modulus (pos 256)
    then some t.mod256
    else none

abbrev pub direct_hip_finite_specialized_kernels : Specialized
direct_hip_finite_specialized_kernels = record {
  mod251 = "direct_hip_tiled_finite_u8_gemm_mod251_v1";
  mod255 = "direct_hip_tiled_finite_u8_gemm_mod255_v1";
  mod256 = "direct_hip_tiled_finite_u8_gemm_mod256_v1";
}

abbrev pub direct_hip_finite_oneshot_specialized_kernels : Specialized
direct_hip_finite_oneshot_specialized_kernels = record {
  mod251 = "direct_hip_native_finite_u8_gemm_mod251_v1";
  mod255 = "direct_hip_native_finite_u8_gemm_mod255_v1";
  mod256 = "direct_hip_native_finite_u8_gemm_mod256_v1";
}

abbrev pub direct_hip_finite_native_a_reuse_b_specialized_kernels : Specialized
direct_hip_finite_native_a_reuse_b_specialized_kernels = record {
  mod251 = "direct_hip_native_a_finite_u8_gemm_mod251_v1";
  mod255 = "direct_hip_native_a_finite_u8_gemm_mod255_v1";
  mod256 = "direct_hip_native_a_finite_u8_gemm_mod256_v1";
}

abbrev pub ck_finite_specialized_kernels : Specialized
ck_finite_specialized_kernels = record {
  mod251 = "ck_wmma_cshuffle_finite_u8_mod251_centered_epilogue_v2";
  mod255 = "ck_wmma_cshuffle_finite_u8_mod255_centered_epilogue_v2";
  mod256 = "ck_wmma_cshuffle_finite_u8_mod256_centered_epilogue_v2";
}

abbrev pub rocwmma_finite_specialized_kernels : Specialized
rocwmma_finite_specialized_kernels = record {
  mod251 = "rocwmma_i8_i32_signed_finite_u8_mod251_hot_residue_v2";
  mod255 = "rocwmma_i8_i32_signed_finite_u8_mod255_hot_residue_v2";
  mod256 = "rocwmma_i8_i32_signed_finite_u8_mod256_hot_residue_v2";
}
