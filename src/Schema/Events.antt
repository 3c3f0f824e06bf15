-- ===== src/Schema/Events.antt =====
-- gpu_events.py: the names of the phases that the GPU events of a backend are reported under.
pub mod Lengths
use text.Mathlib.Text.{find?}
use rns.Prelude.{
  ℕ, zero, suc, ◌+◌, Bool, true, false, ◌||◌, List, [], ◌∷◌, ◌++◌, String, ◌<>◌, some, none, ltb,
  if◌then◌else◌,
}
use rns.Prelude.Int.{pos}
use rns.Python.Decimal.{show}
use rns.Json.{Value, str, py_eq}
use rns.Outcome.{Outcome, done, ◌>>=◌, in_set}
use rns.Schema.Mode.{finite_semantics}

-- The part of the registry (metadata_registry_constants.py) that these names belong to.
abbrev pub amdgpu_builtin_deep_gpu_event_labels : List String
amdgpu_builtin_deep_gpu_event_labels =
    "amdgpu_builtin_cdna3_mfma_i32_16x16x32_i8_finite_kernel"
    ∷ "amdgpu_builtin_cdna3_mfma_i32_16x16x32_i8_kernel"
    ∷ "amdgpu_builtin_cdna3_mfma_i32_32x32x16_i8_finite_kernel"
    ∷ "amdgpu_builtin_cdna3_mfma_i32_32x32x16_i8_kernel"
    ∷ "amdgpu_builtin_cdna3_smfmac_i32_16x16x64_i8_sparse_a_finite_kernel"
    ∷ "amdgpu_builtin_cdna3_smfmac_i32_16x16x64_i8_sparse_a_kernel"
    ∷ "amdgpu_builtin_cdna3_smfmac_i32_32x32x32_i8_sparse_a_finite_kernel"
    ∷ "amdgpu_builtin_cdna3_smfmac_i32_32x32x32_i8_sparse_a_kernel"
    ∷ "amdgpu_builtin_rdna3_wmma_i32_16x16x16_iu8_finite_kernel"
    ∷ "amdgpu_builtin_rdna3_wmma_i32_16x16x16_iu8_kernel"
    ∷ "amdgpu_builtin_rdna4_swmmac_i32_16x16x32_iu8_sparse_a_finite_kernel"
    ∷ "amdgpu_builtin_rdna4_swmmac_i32_16x16x32_iu8_sparse_a_kernel"
    ∷ "amdgpu_builtin_rdna4_wmma_i32_16x16x16_iu8_finite_kernel"
    ∷ "amdgpu_builtin_rdna4_wmma_i32_16x16x16_iu8_kernel" ∷ []

-- `f"{index:02d}"`
abbrev two_digits : ℕ → String
two_digits index = if ltb index 10 then "0" <> show (pos index) else show (pos index)

unfoldable pub prefix_event_label : String → ℕ → String → String
prefix_event_label prefix index suffix = prefix <> two_digits index <> "_" <> suffix

-- `phases.extend([…])` for one index.
abbrev prefix_event_labels : String → ℕ → List String → List String
prefix_event_labels prefix index [] = []
prefix_event_labels prefix index (suffix ∷ suffixes) =
    prefix_event_label prefix index suffix ∷ prefix_event_labels prefix index suffixes

-- `for index in range(…)`, from `index` on.
unfoldable pub each_prefix : String → List String → ℕ → ℕ → List String
unfolding prefix_event_label
each_prefix prefix suffixes index zero = []
each_prefix prefix suffixes index (suc count) =
    prefix_event_labels prefix index suffixes ++ each_prefix prefix suffixes (suc index) count

unfoldable pub ck_deep_gpu_event_phases : ℕ → Bool → List String
unfolding each_prefix
ck_deep_gpu_event_phases prefix_count zero_output_tiles =
    ("ck_pack_a_kernel" ∷ "ck_pack_b_kernel" ∷ "ck_wmma_cshuffle_matmul" ∷ "ck_copy_centered_kernel"
      ∷ "ck_add_centered_kernel" ∷ [])
    ++ (if zero_output_tiles then "ck_zero_output_tile_memset" ∷ [] else [])
    ++ each_prefix "ck_prefix_"
        ("pack_a" ∷ "pack_b" ∷ "matmul" ∷ "copy_centered" ∷ "add_centered" ∷ []) 0 prefix_count

unfoldable pub rocwmma_deep_gpu_event_phases : ℕ → Bool → Bool → List String
unfolding each_prefix
rocwmma_deep_gpu_event_phases prefix_count use_prepacked_b zero_output_tiles =
    let memset = if zero_output_tiles then "rocwmma_zero_output_tile_memset" ∷ [] else [] in
    if use_prepacked_b
    then ("rocwmma_pack_a_prepacked_b_kernel" ∷ "rocwmma_matmul_prepacked_b_kernel" ∷ [])
      ++ memset
      ++ each_prefix "rocwmma_prefix_" ("pack_a_prepacked_b" ∷ "matmul_prepacked_b" ∷ []) 0
          prefix_count
    else ("rocwmma_pack_a_kernel" ∷ "rocwmma_pack_b_kernel" ∷ "rocwmma_matmul_kernel" ∷ [])
      ++ memset
      ++ each_prefix "rocwmma_prefix_" ("pack_a" ∷ "pack_b" ∷ "matmul" ∷ []) 0 prefix_count

abbrev vector_kernel : Value → Value → String
vector_kernel semantics selected_kernel =
    if py_eq selected_kernel (str "hip_vector_alu_i64_gemv_n1_exact_192b_v1")
    then "vector_alu_i64_gemv_n1_kernel"
    else if py_eq selected_kernel (str "hip_vector_alu_i64_gemv_small_n_exact_192b_v1")
    then "vector_alu_i64_gemv_small_n_kernel"
    else if py_eq selected_kernel (str "hip_vector_alu_u64_gemv_n1_exact_192b_v1")
    then "vector_alu_u64_gemv_n1_kernel"
    else if py_eq selected_kernel (str "hip_vector_alu_u64_gemv_small_n_exact_192b_v1")
    then "vector_alu_u64_gemv_small_n_kernel"
    else if py_eq semantics (str "bounded_i64")
        || py_eq selected_kernel (str "hip_vector_alu_i64_exact_192b_v1")
    then "vector_alu_i64_kernel"
    else "vector_alu_u64_kernel"

unfoldable pub vector_gpu_event_phases : Value → Value → List String
vector_gpu_event_phases semantics selected_kernel =
    "vector_alu_pack_a_h2d"
    ∷ "vector_alu_pack_b_h2d"
    ∷ "pack"
    ∷ "vector_alu_status_memset"
    ∷ vector_kernel semantics selected_kernel
    ∷ "rns_gemm"
    ∷ "vector_alu_status_d2h"
    ∷ "vector_alu_output_d2h"
    ∷ "crt_export"
    ∷ []

-- `part in kernel`
abbrev pub contains : String → String → Bool
contains kernel part = elim (find? kernel part) [ some at ↦ true | none ↦ false ]

-- `selected_kernel if isinstance(selected_kernel, str) else ""`
abbrev pub kernel_text : Value → String
kernel_text (str s) = s
kernel_text _ = ""

unfoldable pub kernel_label : String → Bool → String
kernel_label kernel finite =
    if contains kernel "cdna3_mfma_i32_32x32x16_i8"
    then (if finite
        then "amdgpu_builtin_cdna3_mfma_i32_32x32x16_i8_finite_kernel"
        else "amdgpu_builtin_cdna3_mfma_i32_32x32x16_i8_kernel")
    else if contains kernel "cdna3_mfma_i32_16x16x32_i8_finite"
    then "amdgpu_builtin_cdna3_mfma_i32_16x16x32_i8_finite_kernel"
    else if contains kernel "cdna3_mfma_i32_16x16x32_i8"
    then "amdgpu_builtin_cdna3_mfma_i32_16x16x32_i8_kernel"
    else if contains kernel "rdna3_wmma_i32_16x16x16_iu8_finite"
    then "amdgpu_builtin_rdna3_wmma_i32_16x16x16_iu8_finite_kernel"
    else if contains kernel "rdna3_wmma_i32_16x16x16_iu8"
    then "amdgpu_builtin_rdna3_wmma_i32_16x16x16_iu8_kernel"
    else if contains kernel "rdna4_wmma_i32_16x16x16_iu8_finite"
    then "amdgpu_builtin_rdna4_wmma_i32_16x16x16_iu8_finite_kernel"
    else if contains kernel "rdna4_wmma_i32_16x16x16_iu8"
    then "amdgpu_builtin_rdna4_wmma_i32_16x16x16_iu8_kernel"
    else if contains kernel "cdna3_smfmac_i32_16x16x64_i8"
    then (if finite
        then "amdgpu_builtin_cdna3_smfmac_i32_16x16x64_i8_sparse_a_finite_kernel"
        else "amdgpu_builtin_cdna3_smfmac_i32_16x16x64_i8_sparse_a_kernel")
    else if contains kernel "rdna4_swmmac_i32_16x16x32_iu8"
    then (if finite
        then "amdgpu_builtin_rdna4_swmmac_i32_16x16x32_iu8_sparse_a_finite_kernel"
        else "amdgpu_builtin_rdna4_swmmac_i32_16x16x32_iu8_sparse_a_kernel")
    else "amdgpu_builtin_rns_matrix_core_kernel"

unfoldable pub amdgpu_builtin_gpu_event_label : Value → Value → Outcome String
unfolding kernel_label
amdgpu_builtin_gpu_event_label selected_kernel semantics =
    in_set semantics finite_semantics >>= λ finite.
    done (kernel_label (kernel_text selected_kernel) finite)

unfoldable pub amdgpu_builtin_deep_gpu_event_phases : Value → Value → Outcome (List String)
unfolding amdgpu_builtin_gpu_event_label
amdgpu_builtin_deep_gpu_event_phases selected_kernel semantics =
    amdgpu_builtin_gpu_event_label selected_kernel semantics >>= λ label. done (label ∷ [])
