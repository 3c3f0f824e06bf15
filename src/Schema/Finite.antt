-- ===== src/Schema/Finite.antt =====
-- semantic_finite.py: the contract of captures over a small ring or field, in parts that are run
-- one after another.
pub mod Accepts
use text.Mathlib.Text.{find?}
use rns.Prelude.{
  Bool, true, false, not, ◌&&◌, ◌||◌, [], ◌∷◌, String, ◌<>◌, Option, none, some, if◌then◌else◌,
}
use rns.Prelude.Int.{ℤ, pos, ltb_ℤ}
use rns.Python.Decimal.{show}
use rns.Json.{Value, Fields, null, str, int, get, py_eq, is_dict, is_true, is_none, is_int}
use rns.Outcome.{strs, ◌and◌, negate}
use rns.Check.{
  Check, ◌>>=◌, ◌>>◌, lift, skip, error, when, when_if, reject, reject_if, require_in, for_each,
}
use rns.Schema.Kernels.{
  is_prime_modulus, is_static_modulus, Specialized, specialized_kernel,
  direct_hip_finite_specialized_kernels, direct_hip_finite_oneshot_specialized_kernels,
  direct_hip_finite_native_a_reuse_b_specialized_kernels, ck_finite_specialized_kernels,
  rocwmma_finite_specialized_kernels,
}
use rns.Schema.Mode.{fields_of, is, holds, int_value, mode_is}
use rns.Schema.Predicates.{is_finite_oneshot_capture, is_direct_hip_finite_native_a_reuse_b_capture}
use rns.Schema.Context.{Context}
use rns.Schema.Expect.{expect, expect_scope}

-- `needle in text`
abbrev contains_text : String → String → Bool
contains_text text needle = elim (find? text needle) [ some at ↦ true | none ↦ false ]

-- `modulus` is not an integer, or is outside the range of its contract.
unfoldable pub check_modulus : Value → Value → Check Unit
check_modulus semantics (int modulus) =
    if py_eq semantics (str "finite_ring_u8")
    then reject (ltb_ℤ modulus (pos 2) || ltb_ℤ (pos 256) modulus)
        "finite_ring_u8 finite_modulus must be in [2, 256]"
    else reject (py_eq semantics (str "finite_field_u8") && not (is_prime_modulus modulus))
        "finite_field_u8 finite_modulus must be prime and <= 251"
check_modulus semantics _ = error "finite-u8 captures must include integer finite_modulus"

-- The kernel of a modulus by a table, or else the generic one.
unfoldable pub kernel_or : Specialized → ℤ → String → String
kernel_or table modulus generic = elim (specialized_kernel table modulus) [
  | some kernel ↦ kernel
  | none ↦ generic
]

module _ (d : Fields) where
  unfoldable pub check_oneshot : Check Unit
  check_oneshot = do
    expect d "benchmark" (str "rns8_finite_u8_public_oneshot")
        "finite one-shot captures must use benchmark=rns8_finite_u8_public_oneshot"
    reject_if (negate (mode_is d "public_oneshot_transient_native_inputs"))
        "finite one-shot captures must use benchmark_execution_mode=public_oneshot_transient_native_inputs"
    require_in (get "backend_selected" d) (strs ("cpu-reference" ∷ "hip-direct" ∷ []))
        "finite one-shot captures must select cpu-reference or hip-direct"
    require_in (get "backend_requested" d) (strs ("cpu-reference" ∷ "cpu" ∷ "hip-direct" ∷ []))
        "finite one-shot captures must request cpu or hip-direct"
    reject (is_true (get "reuse_packed_inputs" d))
        "finite one-shot captures must not use packed-input reuse"
    require_in (get "pack_mode" d) (null ∷ str "per_repeat_repack" ∷ [])
        "finite one-shot captures must use pack_mode=per_repeat_repack"
    require_in (get "prepack_reuse_strategy" d) (null ∷ str "none" ∷ [])
        "finite one-shot captures must use prepack_reuse_strategy=none"

  -- The tests on backend, bound, prefix and layout.
  unfoldable pub check_shape : Context → Check Unit
  check_shape ctx = do
    require_in (get "backend_selected" d)
        (strs (
          "cpu-reference" ∷ "hip-direct" ∷ "hipblaslt" ∷ "ck" ∷ "rocwmma" ∷ "amdgpu-builtins" ∷ []))
        "finite-u8 captures must select cpu-reference, hip-direct, hipblaslt, ck, rocwmma, or amdgpu-builtins backend"
    reject (not (py_eq ctx.bound_mode (str "global")))
        "finite-u8 captures must use bound_mode=global"
    reject
        (not (py_eq (get "bound_kind" d) (str "none")) || not (py_eq (get "bound" d) (int (pos 0))))
        "finite-u8 captures must use bound_kind=none and bound=0"
    reject (not (is_none (get "tile_bounds_u64" d)))
        "finite-u8 captures must use tile_bounds_u64=null"
    reject (not (py_eq ctx.prefix (int (pos 0)))) "finite-u8 captures must use prefix=0"
    reject (not (is_none ctx.packed_layout))
        "finite-u8 captures must use packed_layout_version=null"
    expect d "epilogue_type" (str "canonical_u8_export")
        "finite-u8 captures must use canonical_u8_export epilogue"
    require_in (get "input_distribution" d)
        (strs (
          "u8_binary_0_1" ∷ "u8_sparse_90pct_zero_uniform_nonzero"
          ∷ "u8_low_hamming_powers_of_two_mod_q" ∷ "u8_small_centered_minus2_2_mod_q"
          ∷ "u8_full_uniform_0_modulus_minus_1" ∷ "u8_uniform_0_modulus_minus_1"
          ∷ "u8_sparse_a_4_to_2_structured_k_groups_exactly_two_nonzero_per_group" ∷ []))
        "finite-u8 captures must use a registered finite input_distribution"

  -- The autotune key names the modulus.
  unfoldable pub check_autotune_key : Fields → Value → Check Unit
  check_autotune_key backend_metadata modulus = elim (get "autotune_key" backend_metadata) [
    | str autotune_key ↦ when (is_int modulus) (
        reject
          (not (
            contains_text (";" <> autotune_key <> ";")
              (";finite_modulus=" <> show (int_value modulus) <> ";")))
          "finite-u8 backend_metadata.autotune_key must include finite_modulus")
    | _ ↦ skip
  ]

  unfoldable pub check_specialized : Fields → ℤ → String → Check Unit
  check_specialized backend_metadata modulus kernel = do
    expect d "selected_kernel" (str kernel) (
        "direct-HIP finite-u8 modulus "
        <> show modulus
        <> " captures must use selected_kernel="
        <> kernel)
    expect backend_metadata "isa_evidence"
        (str "rns8_hip_direct_finite_specialized_reducer_isa_gate_no_divide")
        "direct-HIP finite-u8 specialized captures must use backend_metadata.isa_evidence=rns8_hip_direct_finite_specialized_reducer_isa_gate_no_divide"

  unfoldable pub check_generic : Fields → String → Check Unit
  check_generic backend_metadata kernel = do
    expect d "selected_kernel" (str kernel)
        ("direct-HIP generic finite-u8 captures must use selected_kernel=" <> kernel)
    expect backend_metadata "isa_evidence" (str "rns8_hip_direct_reciprocal_isa_gate")
        "direct-HIP generic finite-u8 captures must use backend_metadata.isa_evidence=rns8_hip_direct_reciprocal_isa_gate"

  unfoldable pub check_kernel : Fields → ℤ → Option String → String → Check Unit
  unfolding check_specialized check_generic
  check_kernel backend_metadata modulus (some kernel) generic_kernel =
      check_specialized backend_metadata modulus kernel
  check_kernel backend_metadata modulus none generic_kernel =
      check_generic backend_metadata generic_kernel

  unfoldable pub check_oneshot_modes : Fields → Check Unit
  check_oneshot_modes backend_metadata = do
    expect backend_metadata "epilogue_mode"
        (str "native_u8_centered_residue_then_canonical_u8_export")
        "direct-HIP finite one-shot captures must use backend_metadata.epilogue_mode=native_u8_centered_residue_then_canonical_u8_export"
    expect backend_metadata "workspace_mode"
        (str "transient_native_u8_inputs_to_resident_finite_output")
        "direct-HIP finite one-shot captures must use backend_metadata.workspace_mode=transient_native_u8_inputs_to_resident_finite_output"

  unfoldable pub check_reuse_modes : Fields → Check Unit
  check_reuse_modes backend_metadata = do
    expect backend_metadata "epilogue_mode"
        (str "native_a_centered_resident_b_residue_then_canonical_u8_export")
        "direct-HIP finite native-A reuse-B captures must use backend_metadata.epilogue_mode=native_a_centered_resident_b_residue_then_canonical_u8_export"
    expect backend_metadata "workspace_mode" (str "transient_native_u8_a_resident_finite_b_output")
        "direct-HIP finite native-A reuse-B captures must use backend_metadata.workspace_mode=transient_native_u8_a_resident_finite_b_output"

  -- The kernel, its evidence and its modes, for the direct-HIP backend.
  unfoldable pub check_hip_direct : Fields → ℤ → Bool → Check Unit
  unfolding check_kernel check_oneshot_modes check_reuse_modes
  check_hip_direct backend_metadata modulus oneshot = do
    native_a_reuse_b ← lift (is_direct_hip_finite_native_a_reuse_b_capture d)
    let table =
        if oneshot
        then direct_hip_finite_oneshot_specialized_kernels
        else if native_a_reuse_b
        then direct_hip_finite_native_a_reuse_b_specialized_kernels
        else direct_hip_finite_specialized_kernels
    let generic_kernel =
        if oneshot
        then "direct_hip_native_finite_u8_gemm_v1"
        else if native_a_reuse_b
        then "direct_hip_native_a_finite_u8_gemm_v1"
        else "direct_hip_tiled_finite_u8_gemm_v1"
    check_kernel backend_metadata modulus (specialized_kernel table modulus) generic_kernel
    when oneshot (check_oneshot_modes backend_metadata)
    when (not oneshot && native_a_reuse_b) (check_reuse_modes backend_metadata)

  -- The static reducers of CK and rocWMMA.
  unfoldable pub check_static : String → Specialized → String → ℤ → String → Check Unit
  unfolding kernel_or
  check_static label table generic modulus tail = do
    reject (not (is_static_modulus modulus))
        (label <> " finite-u8 modulus " <> show modulus <> tail)
    let expected_kernel = kernel_or table modulus generic
    expect d "selected_kernel" (str expected_kernel) (
        label
        <> " finite-u8 modulus "
        <> show modulus
        <> " captures must use selected_kernel="
        <> expected_kernel)

  unfoldable pub check_schedule : Fields → Check Unit
  check_schedule schedule = do
    for_each
        ("min_required_prefix" ∷ "max_required_prefix" ∷ "min_selected_prefix"
          ∷ "max_selected_prefix" ∷ [])
        (λ key.
          expect schedule key (int (pos 0))
            ("finite-u8 captures must use schedule_metadata." <> key <> "=0"))
    expect schedule "prefix_group_count" (int (pos 0))
        "finite-u8 captures must use schedule_metadata.prefix_group_count=0"
    reject (is_true (get "adaptive_execution_applied" schedule))
        "finite-u8 captures must not apply adaptive execution"

  unfoldable pub validate_finite_u8_contract : Context → Check Unit
  unfolding check_oneshot check_shape check_autotune_key check_hip_direct check_static
      check_schedule
  validate_finite_u8_contract ctx = do
    oneshot ← lift (is_finite_oneshot_capture d)
    when oneshot check_oneshot
    check_shape ctx
    let modulus = get "finite_modulus" d
    check_modulus ctx.semantics modulus
    let backend_metadata = fields_of (get "backend_metadata" d)
    check_autotune_key backend_metadata modulus
    when_if (is (get "backend_selected" d) "hip-direct" and holds (is_int modulus))
        (check_hip_direct backend_metadata (int_value modulus) oneshot)
    when_if (is (get "backend_selected" d) "ck" and holds (is_int modulus)) (
        check_static "CK" ck_finite_specialized_kernels
          "ck_wmma_cshuffle_finite_u8_static_modulus_centered_epilogue_v2" (int_value modulus)
          " captures are unsupported by the static CK reducer set")
    when_if (is (get "backend_selected" d) "rocwmma" and holds (is_int modulus)) (
        check_static "rocWMMA" rocwmma_finite_specialized_kernels
          "rocwmma_i8_i32_signed_finite_u8_hot_residue_v1" (int_value modulus)
          " captures are unsupported by the static rocWMMA reducer set")
    when (is_dict ctx.schedule) (check_schedule (fields_of ctx.schedule))
    when_if (is (get "backend_selected" d) "hip-direct") (
        expect_scope (get "timing_metadata" d) (
          if oneshot
          then "direct_hip_oneshot_default_stream_operation_groups"
          else "direct_hip_default_stream_backend_operation_groups"))
    when_if (is (get "backend_selected" d) "hipblaslt") (
        expect_scope (get "timing_metadata" d)
          "hipblaslt_baseline_default_stream_backend_operation_groups")
