-- ===== src/Schema/ExactWide.antt =====
-- semantic_exact_wide.py: the contract of exact-wide captures, in parts that are run one after
-- another.
pub mod Expected
pub mod Accepts
use rns.Prelude.{not, ◌&&◌, ◌||◌, [], ◌∷◌, String, ◌<>◌, str_eq, Option, none, some, if◌then◌else◌}
use rns.Prelude.Int.{pos, ltb_ℤ}
use rns.Json.{Value, Fields, null, str, int, arr, get, py_eq, is_dict, is_true, is_none, is_int}
use rns.Outcome.{strs, ◌and◌, ◌or◌, negate}
use rns.Check.{
  Check, ◌>>=◌, ◌>>◌, skip, error, when, when_if, reject, reject_if, require_in, for_each,
}
use rns.Schema.Kernels.{greater, int_at_least, int_at_most}
use rns.Schema.Mode.{fields_of, is, int_value, mode_in}
use rns.Schema.Context.{Context}
use rns.Schema.Expect.{expect, expect_scope}
use rns.Schema.ExactWide.Expected.{
  expected_export_kernels, semantics_text, limb_epilogue, expected_status_check, any_nonzero,
  expected_backend_epilogue, text_value,
}

module _ (d : Fields) (ctx : Context) where
  -- The tests on backend, bound, prefix and layout.
  unfoldable pub check_shape : Check Unit
  check_shape = do
    require_in (get "backend_selected" d)
        (strs (
          "cpu-reference" ∷ "hip-direct" ∷ "hipblaslt" ∷ "ck" ∷ "rocwmma" ∷ "amdgpu-builtins" ∷ []))
        "exact-wide captures must select cpu-reference, hip-direct, hipblaslt, ck, rocwmma, or amdgpu-builtins backend"
    reject (not (py_eq ctx.bound_mode (str "global")))
        "exact-wide captures must use bound_mode=global"
    reject
        (not (py_eq (get "bound_kind" d) (str "none")) || not (py_eq (get "bound" d) (int (pos 0))))
        "exact-wide captures must use bound_kind=none and bound=0"
    reject (not (is_none (get "tile_bounds_u64" d)))
        "exact-wide captures must use tile_bounds_u64=null"
    reject (int_at_most (pos 0) ctx.prefix) "exact-wide captures must use a positive prefix"
    reject (not (is_none ctx.packed_layout))
        "exact-wide captures must use packed_layout_version=null"

  unfoldable pub check_final_export : Check Unit
  check_final_export =
      reject_if
        (negate (
          mode_in d (
            "residue_chain_final_host_export" ∷ "residue_chain_independent_final_host_export"
            ∷ [])))
        "exact-wide residue-chain final-export captures must use benchmark_execution_mode=residue_chain_final_host_export or residue_chain_independent_final_host_export"

  -- The shape and the epilogue of a residue chain, or of a single product.
  unfoldable pub check_chain : Check Unit
  unfolding check_final_export
  check_chain = do
    let chain = ltb_ℤ (pos 1) ctx.residue_chain_length
    let resident = str_eq ctx.residue_output_mode "residue_current_rns"
    when (chain && not resident) check_final_export
    when chain (
        reject (not (py_eq (get "m" d) (get "n" d)) || not (py_eq (get "n" d) (get "k" d)))
          "exact-wide residue chains must use square m=n=k shapes")
    when (not chain) (
        reject (not (str_eq ctx.residue_output_mode "host_export"))
          "exact-wide host-export captures must use residue_output_mode=host_export")
    let epilogue = if chain && resident then "residue_current_rns_output" else limb_epilogue ctx
    expect d "epilogue_type" (str epilogue)
        ("exact-wide captures must use " <> epilogue <> " epilogue")
    reject (not (is_none (get "finite_modulus" d)))
        "exact-wide captures must use finite_modulus=null"

  -- A capture whose status check was left out reports no time for it.
  unfoldable pub check_elided : Check Unit
  check_elided = when (is_dict (get "gpu_event_timings_us" d)) (
      for_each ("exact_wide_export_status_memset" ∷ "exact_wide_export_status_d2h" ∷ []) (λ phase.
        elim (get phase (fields_of (get "gpu_event_timings_us" d))) [
          | arr values ↦ reject_if (any_nonzero values) (
              "exact-wide status-elided captures must report gpu_event_timings_us." <> phase
              <> " as zero")
          | _ ↦ skip
        ]))

  unfoldable pub check_status : String → Check Unit
  unfolding check_elided
  check_status expected = do
    reject (not (py_eq ctx.status_check (str expected)))
        ("exact_wide_export_status_check must be " <> expected)
    when (py_eq ctx.status_check (str "elided_full_width_device_reconstruction")) check_elided

  unfoldable pub check_limbs : Value → Check Unit
  unfolding check_status
  check_limbs limb_count =
      if int_at_least (pos 1) limb_count && int_at_most (pos 32) limb_count
      then when (not (is_none ctx.status_check))
          (check_status (expected_status_check (int_value limb_count)))
      else error "exact-wide captures must use exact_wide_limb_count in [1, 32]"

  -- The kernel that a part of the capture names is registered, and it is the exported one.
  unfoldable pub check_kernel : Value → String → String → Value → String → Check Unit
  check_kernel part key label export_kernel other = do
    let kernel = get key (fields_of part)
    require_in kernel (strs (expected_export_kernels ctx))
        (semantics_text ctx <> " " <> label <> " must be a registered exact-wide export kernel")
    reject (not (is_none export_kernel) && not (py_eq kernel export_kernel))
        (other <> " must match export_variant.selected_kernel")

  unfoldable pub check_kernels : Check Unit
  unfolding check_kernel
  check_kernels = do
    let export_variant = get "export_variant" d
    let export_kernel = get "selected_kernel" (fields_of export_variant)
    when (is_dict export_variant) (
        require_in export_kernel (strs (expected_export_kernels ctx)) (
          semantics_text ctx
          <> " export_variant.selected_kernel must be a registered exact-wide export kernel"))
    let exact_output = get "exact_output_contract" d
    when (is_dict exact_output) (
        check_kernel exact_output "kernel_identity" "exact_output_contract.kernel_identity"
          export_kernel "exact_output_contract.kernel_identity")
    let reconstruction = get "reconstruction_variant" d
    when (is_dict reconstruction) (
        check_kernel reconstruction "kernel_identity" "reconstruction_variant.kernel_identity"
          export_kernel "reconstruction_variant.kernel_identity")

  unfoldable pub check_minimum_proven : Fields → Check Unit
  check_minimum_proven schedule = do
    reject (not (py_eq (get "min_selected_prefix" schedule) (get "max_selected_prefix" schedule)))
        "exact-wide minimum_proven captures must use one selected prefix"
    reject_if (greater (get "max_selected_prefix" schedule) (int_value ctx.prefix))
        "exact-wide selected schedule prefix must be <= prefix"

  unfoldable pub check_schedule : Fields → Check Unit
  unfolding check_minimum_proven
  check_schedule schedule = do
    let minimum = py_eq ctx.prefix_policy (str "minimum_proven")
    when minimum (check_minimum_proven schedule)
    reject
        (not minimum
          && (not (py_eq (get "min_selected_prefix" schedule) ctx.prefix)
              || not (py_eq (get "max_selected_prefix" schedule) ctx.prefix)))
        "exact-wide captures must use fixed selected schedule prefix equal to prefix"
    expect schedule "prefix_group_count" (int (pos 1))
        "exact-wide captures must use one fixed prefix group"
    reject (is_true (get "adaptive_execution_applied" schedule))
        "exact-wide captures must not apply adaptive execution"

  unfoldable pub check_epilogue_mode : Fields → Option String → Check Unit
  check_epilogue_mode backend_metadata none = skip
  check_epilogue_mode backend_metadata (some expected) =
      expect backend_metadata "epilogue_mode" (str expected) (
        "exact-wide "
        <> text_value (get "backend_selected" d)
        <> " captures must use backend_metadata.epilogue_mode="
        <> expected)

  unfoldable pub validate_exact_wide_contract : Check Unit
  unfolding check_shape check_chain check_limbs check_kernels check_schedule check_epilogue_mode
  validate_exact_wide_contract = do
    check_shape
    check_chain
    check_limbs (get "exact_wide_limb_count" d)
    check_kernels
    when (is_dict ctx.schedule && is_int ctx.prefix) (check_schedule (fields_of ctx.schedule))
    when (is_dict ctx.backend_metadata) (
        check_epilogue_mode (fields_of ctx.backend_metadata)
          (expected_backend_epilogue (get "backend_selected" d) (get "selected_kernel" d)))
    when_if (is (get "backend_selected" d) "hip-direct") (
        expect_scope (get "timing_metadata" d) "direct_hip_default_stream_backend_operation_groups")
    when_if (is (get "backend_selected" d) "hipblaslt") (
        expect_scope (get "timing_metadata" d)
          "hipblaslt_baseline_default_stream_backend_operation_groups")
