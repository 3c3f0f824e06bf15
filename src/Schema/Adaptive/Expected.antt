-- ===== src/Schema/Adaptive/Expected.antt =====
-- The kernels, epilogues, workspaces and event scopes that a per-tile capture is expected to name.
use text.Mathlib.Text.{starts_with}
use rns.Prelude.{Bool, false, ◌&&◌, List, [], ◌∷◌, String, Option, some, none, if◌then◌else◌}
use rns.Prelude.Int.{pos}
use rns.Json.{Value, Fields, str, get, py_eq, hashable}
use rns.Outcome.{Outcome, done, raised, type_error, in_set, strs, ◌>>=◌}
use rns.Schema.Mode.{fields_of, finite_semantics}
use rns.Schema.Kernels.{int_at_least}

abbrev find_text : Value → List (String × String) → Option String
find_text v [] = none
find_text v ((key, value) ∷ rest) =
    let others = find_text v rest in if py_eq v (str key) then some value else others

-- `{…}.get(v)`: a list or a dict cannot be looked up.
unfoldable pub choice : Value → List (String × String) → Outcome (Option String)
choice v table = if hashable v then done (find_text v table) else raised type_error

abbrev pub vector_alu_selected_kernels : List String
vector_alu_selected_kernels =
    "hip_vector_alu_i64_exact_192b_v1" ∷ "hip_vector_alu_i64_gemv_n1_exact_192b_v1"
    ∷ "hip_vector_alu_i64_gemv_small_n_exact_192b_v1" ∷ "hip_vector_alu_u64_exact_192b_v1"
    ∷ "hip_vector_alu_u64_gemv_n1_exact_192b_v1" ∷ "hip_vector_alu_u64_gemv_small_n_exact_192b_v1"
    ∷ []

unfoldable pub direct_hip_expected_kernel : Fields → String
direct_hip_expected_kernel schedule =
    let tiles = int_at_least (pos 1) (get "zero_output_tile_count" schedule) in
    let products = int_at_least (pos 1) (get "zero_row_col_product_count" schedule) in
    if tiles && products
    then "direct_hip_tiled_active_prefix_zero_tile_row_col_skip_rns_gemm_v1"
    else if tiles
    then "direct_hip_tiled_active_prefix_zero_skip_rns_gemm_v3"
    else if products
    then "direct_hip_tiled_active_prefix_zero_row_col_skip_rns_gemm_v1"
    else "direct_hip_grouped_active_prefix_schedule_rns_gemm_v3"

abbrev text_starts : Value → String → Bool
text_starts (str s) prefix = starts_with s prefix
text_starts _ prefix = false

-- The three dimensions are integers from 128 on.
abbrev from_128 : Fields → Bool
from_128 d =
    int_at_least (pos 128) (get "m" d)
    && int_at_least (pos 128) (get "n" d)
    && int_at_least (pos 128) (get "k" d)

abbrev finite_or : Bool → String → String → String
finite_or finite a b = if finite then a else b

abbrev amdgpu_kernel : Fields → Value → Bool → Bool → String
amdgpu_kernel d target finite rdna4 =
    if text_starts target "gfx110"
    then finite_or finite "amdgpu_builtin_rdna3_wmma_i32_16x16x16_iu8_finite_u8_epilogue_v1"
        "amdgpu_builtin_rdna3_wmma_i32_16x16x16_iu8_centered_epilogue_v1"
    else if rdna4
    then finite_or finite "amdgpu_builtin_rdna4_wmma_i32_16x16x16_iu8_finite_u8_epilogue_v1"
        "amdgpu_builtin_rdna4_wmma_i32_16x16x16_iu8_centered_epilogue_v1"
    else if text_starts target "gfx942" && from_128 d
    then finite_or finite "amdgpu_builtin_cdna3_mfma_i32_32x32x16_i8_finite_u8_epilogue_v1"
        "amdgpu_builtin_cdna3_mfma_i32_32x32x16_i8_centered_epilogue_v1"
    else finite_or finite "amdgpu_builtin_cdna3_mfma_i32_16x16x32_i8_finite_u8_epilogue_v1"
        "amdgpu_builtin_cdna3_mfma_i32_16x16x32_i8_centered_epilogue_v1"

unfoldable pub amdgpu_expected_kernel : Fields → Outcome String
amdgpu_expected_kernel d =
    let target = get "gcn_arch" (fields_of (get "device" d)) in
    in_set (get "semantics" d) finite_semantics >>= λ finite.
    in_set target (strs ("gfx1200" ∷ "gfx1201" ∷ [])) >>= λ rdna4.
    done (amdgpu_kernel d target finite rdna4)

abbrev pub expected_kernels : String → String → List (String × String)
expected_kernels direct_hip amdgpu =
    ("hip-direct", direct_hip)
    ∷ ("ck", "ck_wmma_cshuffle_tiled_i8_i32_default_moduli_static_centered_epilogue_v3")
    ∷ ("rocwmma", "rocwmma_i8_i32_signed_tiled_mod251_255_256_hot_residue_v2")
    ∷ ("amdgpu-builtins", amdgpu)
    ∷ []

abbrev pub expected_epilogues : List (String × String)
expected_epilogues =
    ("ck", "ck_fused_i32_to_centered_residue_then_crt_export")
    ∷ ("rocwmma", "rocwmma_fused_i32_to_centered_residue_then_crt_export")
    ∷ ("amdgpu-builtins", "amdgpu_builtin_fused_i32_to_centered_residue_then_chained_crt_export")
    ∷ ("hip-vector-alu-int64", "direct_int64_export")
    ∷ []

unfoldable pub expected_workspaces : Bool → List (String × String)
expected_workspaces runtime =
    ("cpu-reference", "host_reference_workspace")
    ∷ ("rocwmma", "resident_device_buffers_with_rocwmma_pack_workspace")
    ∷ (
      "amdgpu-builtins",
      "resident_device_buffers_direct_amdgpu_builtin_matrix_core_no_dense_pack_workspace",
    )
    ∷ (
      "hip-vector-alu-int64",
      if runtime then "native_device_i64_u64_buffers" else "benchmark_owned_device_buffers",
    )
    ∷ []

abbrev pub expected_isas : List (String × String)
expected_isas =
    ("cpu-reference", "not_applicable_cpu")
    ∷ ("ck", "ck_cshuffle_int8_matrix_isa_gate_no_divide")
    ∷ ("rocwmma", "rocwmma_i8_matrix_isa_gate_no_divide")
    ∷ ("amdgpu-builtins", "amdgpu_builtin_matrix_isa_gate_no_divide")
    ∷ ("hip-vector-alu-int64", "source_level_192bit_limb_accumulator_no_matrix_engine")
    ∷ []

-- The backend, the message where its events are missing, and the scope of its events.
abbrev pub event_checks : List (String × String × String)
event_checks =
    (
      "hip-direct", "direct-HIP per-tile adaptive captures must include HIP event timings",
      "direct_hip_bounded_adaptive_default_stream_backend_operation_groups",
    )
    ∷ (
      "ck", "CK per-tile adaptive captures must include HIP event operation-group timings",
      "accelerator_backend_default_stream_deep_kernel_events_with_direct_hip_pack_export",
    )
    ∷ (
      "rocwmma",
      "rocWMMA per-tile adaptive captures must include HIP event operation-group timings",
      "accelerator_backend_default_stream_deep_kernel_events_with_direct_hip_pack_export",
    )
    ∷ (
      "amdgpu-builtins",
      "AMDGPU builtin per-tile adaptive captures must include HIP event operation-group timings",
      "accelerator_backend_default_stream_deep_kernel_events_with_direct_hip_pack_export",
    )
    ∷ (
      "hip-vector-alu-int64",
      "vector-ALU per-tile adaptive captures must include HIP event operation-group timings",
      "vector_alu_default_stream_native_int64_operation_groups",
    )
    ∷ []
