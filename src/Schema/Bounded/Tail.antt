-- ===== src/Schema/Bounded/Tail.antt =====
-- The epilogue, the bound and the selected prefix of bounded captures.
use rns.Prelude.{Bool, not, ◌&&◌, ◌||◌, [], ◌∷◌, String, ◌<>◌, str_eq, if◌then◌else◌}
use rns.Prelude.Int.{pos, ltb_ℤ}
use rns.Json.{Fields, str, int, get, py_eq, is_dict, is_int, is_true, is_false, is_none}
use rns.Outcome.{Outcome, done, in_set, strs, negate, branch}
use rns.Check.{Check, ◌>>=◌, ◌>>◌, lift, when, reject, reject_if, require_in}
use rns.Schema.Kernels.{greater}
use rns.Schema.Mode.{fields_of, int_value, mode_in}
use rns.Schema.Context.{Context}
use rns.Schema.Expect.{expect, expect_scope}
use rns.Schema.TileBounds.{validate_v4_tile_bounds}
use rns.Schema.Adaptive.{validate_v4_adaptive_schedule}
use rns.Schema.Predicates.{
  is_direct_hip_native_to_rns_bridge_capture, is_direct_hip_vector_to_rns_chain_capture,
  is_direct_hip_vector_to_rns_host_repack_control_capture,
}
use rns.Schema.Bounded.Names.{by_semantics, semantics_text}

module _ (d : Fields) (ctx : Context) where
  -- `residue_chain_length > 1`
  abbrev pub is_chain : Bool
  is_chain = ltb_ℤ (pos 1) ctx.residue_chain_length

  -- `residue_output_mode == "residue_current_rns"`
  abbrev pub is_resident : Bool
  is_resident = str_eq ctx.residue_output_mode "residue_current_rns"

  abbrev pub expected_epilogue_type : String
  expected_epilogue_type =
      if is_chain
      then (if is_resident then "residue_current_rns_output" else "crt_export")
      else if py_eq (get "backend_selected" d) (str "hip-vector-alu-int64")
      then "direct_int64_export"
      else "crt_export"

  unfoldable pub check_chain : Check Unit
  check_chain = do
    when (not is_resident) (
        reject_if
          (negate (
            mode_in d (
              "residue_chain_final_host_export" ∷ "residue_chain_independent_final_host_export"
              ∷ [])))
          "bounded residue-chain final-export captures must use benchmark_execution_mode=residue_chain_final_host_export or residue_chain_independent_final_host_export")
    reject (not (py_eq ctx.bound_mode (str "global")))
        "bounded residue chains must use bound_mode=global"
    reject_if (in_set (get "backend_selected" d) (strs ("hip-vector-alu-int64" ∷ [])))
        "bounded residue chains must not select hip-vector-alu-int64"
    reject (not (py_eq (get "m" d) (get "n" d)) || not (py_eq (get "n" d) (get "k" d)))
        "bounded residue chains must use square m=n=k shapes"

  unfoldable pub check_epilogue_type : Check Unit
  unfolding check_chain
  check_epilogue_type = do
    when is_chain check_chain
    when (not is_chain) (
        reject (not (str_eq ctx.residue_output_mode "host_export"))
          "bounded host-export captures must use residue_output_mode=host_export")
    expect d "epilogue_type" (str expected_epilogue_type)
        (semantics_text ctx <> " captures must use " <> expected_epilogue_type <> " epilogue")

  -- The scope of the GPU events of a direct-HIP capture.
  unfoldable pub hip_scope : (streaming_overlap_capture : Bool) → Outcome String
  hip_scope streaming_overlap_capture =
      if streaming_overlap_capture
      then done "direct_hip_streaming_overlap_multistream_operation_groups"
      else branch (is_direct_hip_native_to_rns_bridge_capture d)
          (done "direct_hip_native_to_rns_bridge_default_stream_operation_groups")
          (branch (is_direct_hip_vector_to_rns_chain_capture d)
            (branch (is_direct_hip_vector_to_rns_host_repack_control_capture d)
              (done "direct_hip_vector_native_host_repack_chain_default_stream_operation_groups")
              (done "direct_hip_vector_native_to_rns_chain_default_stream_operation_groups"))
            (done "direct_hip_default_stream_backend_operation_groups"))

  -- The scope is computed only where the events were timed.
  unfoldable pub check_hip_scope : (streaming_overlap_capture : Bool) → Check Unit
  unfolding hip_scope
  check_hip_scope streaming_overlap_capture = do
    let metadata = get "timing_metadata" d
    when (is_dict metadata && is_true (get "gpu_event_timing" (fields_of metadata)))
        (lift (hip_scope streaming_overlap_capture) >>= expect_scope metadata)

  unfoldable pub check_hipblaslt : Check Unit
  check_hipblaslt = do
    expect_scope (get "timing_metadata" d)
        "hipblaslt_baseline_default_stream_backend_operation_groups"
    when (is_dict ctx.backend_metadata) (
        expect (fields_of ctx.backend_metadata) "epilogue_mode"
          (str "separate_i32_scratch_reduce_then_crt_export")
          "hipBLASLt bounded captures must use backend_metadata.epilogue_mode=separate_i32_scratch_reduce_then_crt_export")

  -- Both selected prefixes are the prefix of the capture.
  abbrev pub selects_prefix : Fields → Bool
  selects_prefix schedule =
      py_eq (get "min_selected_prefix" schedule) ctx.prefix
      && py_eq (get "max_selected_prefix" schedule) ctx.prefix

  unfoldable pub check_global_prefix : Fields → Check Unit
  check_global_prefix schedule =
      if py_eq ctx.prefix_policy (str "minimum_proven")
      then reject
          (not (py_eq (get "min_selected_prefix" schedule) (get "max_selected_prefix" schedule)))
          (semantics_text ctx <> " minimum_proven global captures must use one selected prefix")
        >> reject_if (greater (get "max_selected_prefix" schedule) (int_value ctx.prefix))
            (semantics_text ctx <> " selected schedule prefix must be <= prefix")
      else reject (not (selects_prefix schedule)) (
          semantics_text ctx <> " captures must use fixed selected schedule prefix equal to prefix")

  unfoldable pub check_global_schedule : Fields → Check Unit
  unfolding check_global_prefix
  check_global_schedule schedule = do
    check_global_prefix schedule
    expect schedule "prefix_group_count" (int (pos 1))
        (semantics_text ctx <> " captures must use one fixed prefix group")
    reject (is_true (get "adaptive_execution_applied" schedule))
        (semantics_text ctx <> " global captures must not apply adaptive execution")

  unfoldable pub check_global : (oneshot_capture streaming_overlap_capture : Bool) → Check Unit
  unfolding check_hip_scope check_hipblaslt check_global_schedule
  check_global oneshot_capture streaming_overlap_capture = do
    let bound_kind = by_semantics ctx "global_max_abs" "global_max_unsigned"
    expect d "bound_kind" (str bound_kind)
        (semantics_text ctx <> " captures must use bound_kind=" <> bound_kind)
    reject (not (is_none (get "tile_bounds_u64" d)))
        (semantics_text ctx <> " global captures must use tile_bounds_u64=null")
    when (py_eq (get "backend_selected" d) (str "hip-direct") && not oneshot_capture)
        (check_hip_scope streaming_overlap_capture)
    when (py_eq (get "backend_selected" d) (str "hipblaslt")) check_hipblaslt
    when (is_dict ctx.schedule && is_int ctx.prefix)
        (check_global_schedule (fields_of ctx.schedule))

  unfoldable pub check_fixed_requested : Fields → Check Unit
  check_fixed_requested schedule = do
    reject (not (selects_prefix schedule))
        "fixed-requested per-tile captures must use selected schedule prefix equal to prefix"
    expect schedule "prefix_group_count" (int (pos 1))
        "fixed-requested per-tile captures must use one selected prefix group"
    reject
        (not (is_false (get "adaptive_prefix_active" schedule))
          || not (is_false (get "adaptive_skip_active" schedule)))
        "fixed-requested per-tile captures must not set adaptive prefix flags"
    reject (not (is_false (get "adaptive_execution_applied" schedule)))
        "fixed-requested per-tile captures must not apply adaptive execution"

  unfoldable pub check_per_tile : Check Unit
  unfolding check_fixed_requested
  check_per_tile = do
    let bound_kind = by_semantics ctx "per_tile_max_abs" "per_tile_max_unsigned"
    expect d "bound_kind" (str bound_kind)
        (semantics_text ctx <> " per-tile captures must use bound_kind=" <> bound_kind)
    require_in (get "backend_selected" d)
        (strs (
          "cpu-reference" ∷ "hip-direct" ∷ "ck" ∷ "rocwmma" ∷ "amdgpu-builtins"
          ∷ "hip-vector-alu-int64" ∷ []))
        "per-tile adaptive captures must select cpu-reference, hip-direct, ck, rocwmma, amdgpu-builtins, or hip-vector-alu-int64 backend"
    expect d "bound" (int (pos 0)) "per-tile adaptive captures must use bound=0"
    validate_v4_tile_bounds ctx.semantics ctx.schedule d
    if py_eq ctx.prefix_policy (str "fixed_requested")
        then when (is_dict ctx.schedule && is_int ctx.prefix)
            (check_fixed_requested (fields_of ctx.schedule))
        else validate_v4_adaptive_schedule d ctx.prefix ctx.schedule

  unfoldable pub check_bound : (oneshot_capture streaming_overlap_capture : Bool) → Check Unit
  unfolding check_global check_per_tile
  check_bound oneshot_capture streaming_overlap_capture =
      if py_eq ctx.bound_mode (str "global")
      then check_global oneshot_capture streaming_overlap_capture
      else when (py_eq ctx.bound_mode (str "per_tile")) check_per_tile
