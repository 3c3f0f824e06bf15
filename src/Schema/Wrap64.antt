-- ===== src/Schema/Wrap64.antt =====
-- semantic_wrap64.py: the contract of wraparound captures, in parts that are run one after another.
pub mod Accepts
use rns.Prelude.{not, ◌||◌, List, [], ◌∷◌, String, ◌<>◌}
use rns.Prelude.Int.{pos}
use rns.Json.{Fields, null, str, int, get, py_eq, is_dict, is_none}
use rns.Outcome.{in_set, strs, ◌and◌, negate}
use rns.Check.{Check, ◌>>=◌, ◌>>◌, lift, when, when_if, reject, reject_if, require_in, for_each}
use rns.Schema.Kernels.{wrap64_hip_allowed_kernels, wrap64_rocwmma_candidate_kernel}
use rns.Schema.Mode.{fields_of, is, holds, is_wrap64_rocwmma_candidate}
use rns.Schema.Context.{Context}
use rns.Schema.Expect.{expect, expect_scope}

-- `str(sorted(names))` of one or two names.
unfoldable pub list_repr : List String → String
list_repr [] = "[]"
list_repr (s ∷ []) = "['" <> s <> "']"
list_repr (s ∷ t ∷ _) = "['" <> s <> "', '" <> t <> "']"

module _ (d : Fields) (ctx : Context) where
  unfoldable pub check_hip_direct : Check Unit
  check_hip_direct = do
    let allowed_kernels = wrap64_hip_allowed_kernels (get "m" d) (get "n" d) (int ctx.k_value)
    require_in (get "selected_kernel" d) (strs allowed_kernels)
        ("direct-HIP wrap64 captures must use selected_kernel in " <> list_repr allowed_kernels)
    when (is_dict ctx.backend_metadata) (do
      let metadata = fields_of ctx.backend_metadata
      expect metadata "epilogue_mode" (str "low64_wrap_export")
          "direct-HIP wrap64 captures must use backend_metadata.epilogue_mode=low64_wrap_export"
      expect metadata "workspace_mode" (str "resident_device_buffers")
          "direct-HIP wrap64 captures must use backend_metadata.workspace_mode=resident_device_buffers"
      expect metadata "isa_evidence"
          (str "wrap64_byte_gemm36_isa_gate_no_variable_divide_no_matrix_engine")
          "direct-HIP wrap64 captures must use backend_metadata.isa_evidence=wrap64_byte_gemm36_isa_gate_no_variable_divide_no_matrix_engine")

  unfoldable pub check_candidate : Check Unit
  check_candidate = do
    expect d "selected_kernel" (str wrap64_rocwmma_candidate_kernel) (
        "rocWMMA wrap64 candidate captures must use selected_kernel="
        <> wrap64_rocwmma_candidate_kernel)
    when (is_dict ctx.backend_metadata) (do
      let metadata = fields_of ctx.backend_metadata
      expect metadata "epilogue_mode" (str "low64_wrap_export")
          "rocWMMA wrap64 candidate captures must use backend_metadata.epilogue_mode=low64_wrap_export"
      expect metadata "workspace_mode" (str "benchmark_owned_compact_byte_limb_device_buffers")
          "rocWMMA wrap64 candidate captures must use backend_metadata.workspace_mode=benchmark_owned_compact_byte_limb_device_buffers")

  -- The tests on bound, prefix, layout and schedule.
  unfoldable pub check_layout : Check Unit
  check_layout = do
    reject
        (not (py_eq (get "bound_kind" d) (str "none")) || not (py_eq (get "bound" d) (int (pos 0))))
        "wrap64 captures must use bound_kind=none and bound=0"
    reject (not (is_none (get "tile_bounds_u64" d))) "wrap64 captures must use tile_bounds_u64=null"
    reject (not (py_eq ctx.prefix (int (pos 0)))) "wrap64 captures must use prefix=0"
    reject (not (py_eq ctx.packed_layout (str "byte_limb_v1")))
        "wrap64 captures must use packed_layout_version=byte_limb_v1"
    expect d "epilogue_type" (str "low64_wrap_export")
        "wrap64 captures must use low64_wrap_export epilogue"
    when (is_dict ctx.schedule) (do
      let schedule = fields_of ctx.schedule
      for_each
          ("min_required_prefix" ∷ "max_required_prefix" ∷ "min_selected_prefix"
            ∷ "max_selected_prefix" ∷ [])
          (λ key.
            expect schedule key (int (pos 0))
              ("wrap64 captures must use schedule_metadata." <> key <> "=0"))
      expect schedule "prefix_group_count" (int (pos 0))
          "wrap64 captures must use schedule_metadata.prefix_group_count=0")

  unfoldable pub validate_wrap64_contract : Check Unit
  unfolding check_hip_direct check_candidate check_layout expect_scope
  validate_wrap64_contract = do
    is_candidate ← lift (is_wrap64_rocwmma_candidate d)
    reject_if
        (negate (in_set (get "backend_selected" d) (strs ("wrap64-byte-limb" ∷ "hip-direct" ∷ [])))
          and holds (not is_candidate))
        "wrap64 captures must select wrap64-byte-limb, hip-direct, or rocWMMA candidate backend"
    reject (not (py_eq ctx.bound_mode (str "global"))) "wrap64 captures must use bound_mode=global"
    when_if (is (get "backend_selected" d) "hip-direct") check_hip_direct
    when is_candidate check_candidate
    check_layout
    when_if (is (get "backend_selected" d) "hip-direct") (
        expect_scope (get "timing_metadata" d)
          "direct_hip_wrap64_byte_gemm36_default_stream_backend_operation_groups")
    when is_candidate (
        expect_scope (get "timing_metadata" d)
          "rocwmma_wrap64_byte_gemm36_candidate_default_stream_operation_groups")
