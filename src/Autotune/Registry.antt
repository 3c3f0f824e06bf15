-- ===== src/Autotune/Registry.antt =====
-- The targets, backends, kernels and epilogues that a reviewed entry may name.
use text.Mathlib.Text.{starts_with}
use rns.Prelude.{
  Bool, false, ◌&&◌, ◌||◌, Option, none, some, List, [], ◌∷◌, String, str_eq, ◌<>◌, if◌then◌else◌,
  any,
}
use rns.Prelude.Int.{ℤ, pos, ltb_ℤ, leb_ℤ, eqb_ℤ}
use rns.Autotune.Result.{Library}

-- `text in {…}`
abbrev pub one_of : String → List String → Bool
one_of s set = any (λ t. str_eq s t) set

abbrev pub linux_cdna_targets : List String
linux_cdna_targets = "gfx90a" ∷ "gfx942" ∷ "gfx950" ∷ []

abbrev pub bounded_semantics : List String
bounded_semantics = "bounded_i64" ∷ "bounded_u64" ∷ []

abbrev pub exact_wide_semantics : List String
exact_wide_semantics = "exact_wide_signed" ∷ "exact_wide_unsigned" ∷ []

abbrev pub finite_u8_semantics : List String
finite_u8_semantics = "finite_field_u8" ∷ "finite_ring_u8" ∷ []

abbrev pub reviewed_release_prefix : String
reviewed_release_prefix = "reviewed_release_"

abbrev pub public_accelerator_autotune_backends : List String
public_accelerator_autotune_backends = "hipblaslt" ∷ "ck" ∷ "rocwmma" ∷ []

abbrev pub native_vector_autotune_backend : String
native_vector_autotune_backend = "hip-vector-alu-int64"

abbrev pub public_accelerator_autotune_semantics : List String
public_accelerator_autotune_semantics =
    "bounded_i64" ∷ "bounded_u64" ∷ "exact_wide_signed" ∷ "exact_wide_unsigned" ∷ "finite_ring_u8"
    ∷ "finite_field_u8" ∷ []

-- The argument is the identifier or the empty text for None.
unfoldable pub target_class_for_id : Library → String → String
target_class_for_id lib target_id =
    let target = lib.lower target_id in
    if one_of target linux_cdna_targets
    then "cdna"
    else if starts_with target "gfx10" || starts_with target "gfx11" || starts_with target "gfx12"
    then "rdna"
    else if str_eq target ""
    then "missing"
    else "unknown"

unfoldable pub reviewed_release_status_for_target : Library → String → String
reviewed_release_status_for_target lib target_id =
    let target = lib.lower target_id in
    if str_eq target "gfx1100"
    then "reviewed_release_same_contract_fastest_windows_gfx1100"
    else if one_of target linux_cdna_targets
    then "reviewed_release_same_contract_fastest_linux_" <> target
    else if starts_with target "gfx"
    then "reviewed_release_same_contract_fastest_target_" <> target
    else ""

unfoldable pub reviewed_backend_supports_semantic_contract : String → String → Bool
reviewed_backend_supports_semantic_contract selected_backend semantic_contract =
    if str_eq selected_backend native_vector_autotune_backend
    then one_of semantic_contract bounded_semantics
    else one_of selected_backend public_accelerator_autotune_backends
      && one_of semantic_contract public_accelerator_autotune_semantics

unfoldable pub expected_vector_alu_kernel : String → ℤ → ℤ → ℤ → Option String
expected_vector_alu_kernel semantic_contract m n k =
    let gemv_n1 = eqb_ℤ n (pos 1) && leb_ℤ (pos 4096) k in
    let gemv_small_n = ltb_ℤ (pos 1) n && leb_ℤ n (pos 8) && leb_ℤ (pos 512) k in
    if str_eq semantic_contract "bounded_i64"
    then some (
        if gemv_n1
        then "hip_vector_alu_i64_gemv_n1_exact_192b_v1"
        else if gemv_small_n
        then "hip_vector_alu_i64_gemv_small_n_exact_192b_v1"
        else "hip_vector_alu_i64_exact_192b_v1")
    else if str_eq semantic_contract "bounded_u64"
    then some (
        if gemv_n1
        then "hip_vector_alu_u64_gemv_n1_exact_192b_v1"
        else if gemv_small_n
        then "hip_vector_alu_u64_gemv_small_n_exact_192b_v1"
        else "hip_vector_alu_u64_exact_192b_v1")
    else none

-- `{…}.get(modulus, default)`
unfoldable pub by_modulus : List (ℤ × String) → String → ℤ → String
by_modulus [] default modulus = default
by_modulus ((n, kernel) ∷ rows) default modulus =
    if eqb_ℤ n modulus then kernel else by_modulus rows default modulus

abbrev pub ck_finite_specialized_kernels : List (ℤ × String)
ck_finite_specialized_kernels =
    (pos 251, "ck_wmma_cshuffle_finite_u8_mod251_centered_epilogue_v2")
    ∷ (pos 255, "ck_wmma_cshuffle_finite_u8_mod255_centered_epilogue_v2")
    ∷ (pos 256, "ck_wmma_cshuffle_finite_u8_mod256_centered_epilogue_v2")
    ∷ []

abbrev pub rocwmma_finite_specialized_kernels : List (ℤ × String)
rocwmma_finite_specialized_kernels =
    (pos 251, "rocwmma_i8_i32_signed_finite_u8_mod251_hot_residue_v2")
    ∷ (pos 255, "rocwmma_i8_i32_signed_finite_u8_mod255_hot_residue_v2")
    ∷ (pos 256, "rocwmma_i8_i32_signed_finite_u8_mod256_hot_residue_v2")
    ∷ []

is_kernel : Option String → String → Bool
is_kernel none kernel = false
is_kernel (some expected) kernel = str_eq kernel expected

ck_kernel_supported : String → String → ℤ → Bool
unfolding by_modulus
ck_kernel_supported semantic_contract selected_kernel finite_modulus =
    if one_of semantic_contract finite_u8_semantics
    then str_eq selected_kernel (
        by_modulus ck_finite_specialized_kernels
          "ck_wmma_cshuffle_finite_u8_static_modulus_centered_epilogue_v2" finite_modulus)
    else if one_of semantic_contract exact_wide_semantics
    then str_eq selected_kernel "ck_wmma_cshuffle_i8_i32_default_moduli_static_centered_epilogue_v3"
    else if one_of semantic_contract bounded_semantics
    then one_of selected_kernel (
        "ck_wmma_cshuffle_i8_i32_default_moduli_static_centered_epilogue_v3"
        ∷ "ck_wmma_cshuffle_tiled_i8_i32_default_moduli_static_centered_epilogue_v3" ∷ [])
    else false

rocwmma_kernel_supported : String → String → ℤ → Bool
unfolding by_modulus
rocwmma_kernel_supported semantic_contract selected_kernel finite_modulus =
    if one_of semantic_contract finite_u8_semantics
    then str_eq selected_kernel (
        by_modulus rocwmma_finite_specialized_kernels
          "rocwmma_i8_i32_signed_finite_u8_hot_residue_v1" finite_modulus)
    else if one_of semantic_contract exact_wide_semantics
    then str_eq selected_kernel "rocwmma_i8_i32_signed_mod251_255_256_hot_residue_v2"
    else if one_of semantic_contract bounded_semantics
    then one_of selected_kernel (
        "rocwmma_i8_i32_signed_mod251_255_256_hot_residue_v2"
        ∷ "rocwmma_i8_i32_signed_tiled_mod251_255_256_hot_residue_v2" ∷ [])
    else false

unfoldable pub reviewed_kernel_supported_for_contract :
    String → String → String → ℤ → ℤ → ℤ → ℤ → Bool
unfolding is_kernel ck_kernel_supported rocwmma_kernel_supported expected_vector_alu_kernel
reviewed_kernel_supported_for_contract selected_backend semantic_contract selected_kernel
      finite_modulus m n k =
    if str_eq selected_backend native_vector_autotune_backend
    then is_kernel (expected_vector_alu_kernel semantic_contract m n k) selected_kernel
    else if str_eq selected_backend "hipblaslt"
    then str_eq selected_kernel "hipblaslt_int8_i32_scratch_reduce_specialized_251_255_256_v2"
    else if str_eq selected_backend "ck"
    then ck_kernel_supported semantic_contract selected_kernel finite_modulus
    else if str_eq selected_backend "rocwmma"
    then rocwmma_kernel_supported semantic_contract selected_kernel finite_modulus
    else false

-- The epilogue of a contract, given those of the finite, exact-wide and bounded contracts.
epilogue_of : String → String → String → String → String → Bool
epilogue_of semantic_contract epilogue finite wide bounded =
    if one_of semantic_contract finite_u8_semantics
    then str_eq epilogue finite
    else if one_of semantic_contract exact_wide_semantics
    then str_eq epilogue wide
    else if one_of semantic_contract bounded_semantics
    then str_eq epilogue bounded
    else false

unfoldable pub reviewed_epilogue_supported_for_contract : String → String → String → Bool
unfolding epilogue_of
reviewed_epilogue_supported_for_contract selected_backend semantic_contract epilogue =
    if str_eq selected_backend native_vector_autotune_backend
    then one_of semantic_contract bounded_semantics && str_eq epilogue "direct_int64_export"
    else if str_eq selected_backend "hipblaslt"
    then epilogue_of semantic_contract epilogue
        "separate_i32_scratch_reduce_then_canonical_u8_export"
        "separate_i32_scratch_reduce_rns_output" "separate_i32_scratch_reduce_then_crt_export"
    else if str_eq selected_backend "ck"
    then epilogue_of semantic_contract epilogue
        "ck_fused_i32_to_centered_residue_then_canonical_u8_export"
        "ck_fused_i32_to_centered_residue_rns_output"
        "ck_fused_i32_to_centered_residue_then_crt_export"
    else if str_eq selected_backend "rocwmma"
    then epilogue_of semantic_contract epilogue
        "rocwmma_fused_i32_to_centered_residue_then_canonical_u8_export"
        "rocwmma_fused_i32_to_centered_residue_rns_output"
        "rocwmma_fused_i32_to_centered_residue_then_crt_export"
    else false
