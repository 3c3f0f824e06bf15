-- ===== src/Schema/Bounded/Chains.antt =====
-- The layout of bounded captures and the captures that pass a product on: vector GEMV, the
-- native-to-RNS bridge, vector-to-RNS chains and streaming overlap.
use rns.Prelude.{Bool, false, not, ◌&&◌, ◌||◌, List, [], ◌∷◌, String, ◌<>◌, str_eq, if◌then◌else◌}
use rns.Prelude.Int.{pos, eqb_ℤ}
use rns.Json.{
  Value, Fields, Items, end, item, str, arr, get, py_eq, is_dict, is_true, is_false, is_none,
}
use rns.Outcome.{strs, negate}
use rns.Check.{Check, ◌>>=◌, ◌>>◌, lift, when, when_if, reject, reject_if, require_in}
use rns.Schema.Kernels.{int_at_most}
use rns.Schema.Mode.{
  fields_of, mode_in, is_vector_alu_runtime_capture, is_vector_alu_gemv_n1_capture,
  is_vector_alu_gemv_small_n_capture,
}
use rns.Schema.Context.{Context}
use rns.Schema.Expect.{expect, expect_scope}
use rns.Schema.Predicates.{
  is_direct_hip_native_to_rns_bridge_capture, is_direct_hip_vector_to_rns_chain_capture,
  is_direct_hip_vector_to_rns_host_repack_control_capture,
}
use rns.Schema.Bounded.Names.{by_semantics, semantics_text}

-- `value in items`
abbrev pub any_item : Value → Items → Bool
any_item value end = false
any_item value (item other rest) = py_eq other value || any_item value rest

-- `isinstance(operands, list) and value in operands`
abbrev pub list_contains : Value → Value → Bool
list_contains (arr items) value = any_item value items
list_contains _ value = false

module _ (d : Fields) (ctx : Context) where
  -- The execution mode and the output of a vector GEMV.
  unfoldable pub check_gemv : (label mode_name : String) (expected_modes : List String) → Check Unit
  check_gemv label mode_name expected_modes = do
    reject_if (negate (mode_in d expected_modes))
        (label <> " captures must use a " <> mode_name <> " execution mode")
    let packing = get "plan_packing" d
    when (is_dict packing) (do
      expect (fields_of packing) "output_domain_name" (str "native_i64_u64_current")
          (label <> " captures must declare plan_packing.output_domain_name=native_i64_u64_current")
      reject (not (is_true (get "output_device_current" (fields_of packing))))
          (label <> " captures must leave native output current on device"))

  unfoldable pub check_layout : Check Unit
  check_layout = do
    let expected = by_semantics ctx "native_i64_rowmajor_v1" "native_u64_rowmajor_v1"
    vector ← lift (is_vector_alu_runtime_capture d)
    if vector
        then reject (not (py_eq ctx.packed_layout (str expected))) (
            semantics_text ctx
            <> " runtime vector captures must use packed_layout_version="
            <> expected)
        else reject (not (is_none ctx.packed_layout))
            (semantics_text ctx <> " captures must use packed_layout_version=null")

  unfoldable pub check_prefix_and_layout : Check Unit
  unfolding check_gemv check_layout
  check_prefix_and_layout = do
    reject (int_at_most (pos 0) ctx.prefix)
        (semantics_text ctx <> " captures must use a positive prefix")
    when_if (is_vector_alu_gemv_n1_capture d) (
        check_gemv "vector-ALU GEMV N=1" "vector-GEMV" (
          "public_runtime_vector_alu_gemv_n1_native_buffers"
          ∷ "benchmark_owned_vector_alu_gemv_n1_native_buffers" ∷ []))
    when_if (is_vector_alu_gemv_small_n_capture d) (
        check_gemv "vector-ALU GEMV small-N" "vector-GEMV small-N" (
          "public_runtime_vector_alu_gemv_small_n_native_buffers"
          ∷ "benchmark_owned_vector_alu_gemv_small_n_native_buffers" ∷ []))
    check_layout

  unfoldable pub check_bridge : Check Unit
  check_bridge = do
    let metadata = get "timing_metadata" d
    expect d "benchmark" (str "rns8_bounded_gemm_native_to_rns_bridge")
        "native-to-RNS bridge captures must use benchmark=rns8_bounded_gemm_native_to_rns_bridge"
    expect d "backend_requested" (str "auto")
        "native-to-RNS bridge captures must use backend_requested=auto"
    expect d "pack_mode" (str "per_repeat_repack")
        "native-to-RNS bridge captures must use pack_mode=per_repeat_repack"
    reject (not (is_false (get "reuse_packed_inputs" d)))
        "native-to-RNS bridge captures must not use packed-input reuse"
    reject
        (is_dict metadata && not (is_true (get "native_to_rns_bridge_forced" (fields_of metadata))))
        "native-to-RNS bridge captures must set timing_metadata.native_to_rns_bridge_forced=true"

  -- `timing_metadata` of a chain, which repeats the packing and names the control mode.
  unfoldable pub check_chain_metadata :
      (host_repack_control : Bool) (expected_strategy : String) → Fields → Check Unit
  check_chain_metadata host_repack_control expected_strategy metadata = do
    reject (not (is_true (get "vector_to_rns_chain" metadata)))
        "vector-to-RNS chain captures must set timing_metadata.vector_to_rns_chain=true"
    let control =
        if host_repack_control then "host_export_repack_control" else "fused_device_native_to_rns"
    expect metadata "vector_to_rns_chain_control_mode" (str control) (
        "vector-to-RNS chain captures must set timing_metadata.vector_to_rns_chain_control_mode="
        <> control)
    reject (not (is_false (get "native_to_rns_bridge_forced" metadata)))
        "vector-to-RNS chain captures must set timing_metadata.native_to_rns_bridge_forced=false"
    expect metadata "pack_mode" (get "pack_mode" d)
        "vector-to-RNS chain captures must keep timing_metadata.pack_mode in sync"
    expect metadata "prepack_reuse_strategy" (str expected_strategy)
        "vector-to-RNS chain captures must keep timing_metadata.prepack_reuse_strategy in sync"

  unfoldable pub check_vector_chain : Check Unit
  unfolding check_chain_metadata
  check_vector_chain = do
    let metadata = get "timing_metadata" d
    host_repack_control ← lift (is_direct_hip_vector_to_rns_host_repack_control_capture d)
    let benchmark =
        if host_repack_control
        then "rns8_bounded_gemm_vector_to_rns_chain_host_repack_control"
        else "rns8_bounded_gemm_vector_to_rns_chain"
    expect d "benchmark" (str benchmark)
        ("vector-to-RNS chain captures must use benchmark=" <> benchmark)
    expect d "backend_requested" (str "auto")
        "vector-to-RNS chain captures must use backend_requested=auto"
    require_in (get "pack_mode" d) (strs ("per_repeat_repack" ∷ "prepacked_reuse_b" ∷ []))
        "vector-to-RNS chain captures must use pack_mode=per_repeat_repack or prepacked_reuse_b"
    let reuse = py_eq (get "pack_mode" d) (str "prepacked_reuse_b")
    let reused = get "reuse_packed_inputs" d
    reject (not (if reuse then is_true reused else is_false reused))
        "vector-to-RNS chain captures must set reuse_packed_inputs to match consumer-B reuse"
    let strategy = if reuse then "persistent_matrix_residency" else "none"
    expect d "prepack_reuse_strategy" (str strategy)
        ("vector-to-RNS chain captures must use prepack_reuse_strategy=" <> strategy)
    when (is_dict metadata) (check_chain_metadata host_repack_control strategy (fields_of metadata))

  unfoldable pub check_streaming : Check Unit
  check_streaming = do
    expect d "benchmark" (str "rns8_streaming_overlap_resident_b_pipeline")
        "streaming-overlap captures must use benchmark=rns8_streaming_overlap_resident_b_pipeline"
    expect d "benchmark_execution_mode" (str "benchmark_streaming_overlap_resident_b_pipeline")
        "streaming-overlap captures must use benchmark_execution_mode=benchmark_streaming_overlap_resident_b_pipeline"
    reject
        (not (py_eq (get "backend_selected" d) (str "hip-direct"))
          || not (py_eq (get "backend_requested" d) (str "hip-direct")))
        "streaming-overlap captures must request and select hip-direct"
    reject (not (py_eq ctx.bound_mode (str "global")))
        "streaming-overlap captures must use bound_mode=global"
    reject
        (not (eqb_ℤ ctx.residue_chain_length (pos 1))
          || not (str_eq ctx.residue_output_mode "host_export"))
        "streaming-overlap captures must use host_export residue_chain_length=1"
    expect d "pack_mode" (str "prepacked_reuse_b")
        "streaming-overlap captures must use pack_mode=prepacked_reuse_b"
    let operands = get "prepack_reuse_operands" d
    reject
        (not (is_true (get "reuse_packed_inputs" d))
          || not (py_eq operands (arr (item (str "B") end))))
        "streaming-overlap captures must reuse packed B"
    reject (list_contains operands (str "A")) "streaming-overlap captures must not reuse packed A"
    expect d "prepack_reuse_strategy" (str "persistent_matrix_residency")
        "streaming-overlap captures must keep B resident through persistent_matrix_residency"
    expect_scope (get "timing_metadata" d)
        "direct_hip_streaming_overlap_multistream_operation_groups"

  -- The parts of the contract from the prefix to streaming overlap.
  unfoldable pub check_chains : (streaming_overlap_capture : Bool) → Check Unit
  unfolding check_prefix_and_layout check_bridge check_vector_chain check_streaming
  check_chains streaming_overlap_capture = do
    check_prefix_and_layout
    when_if (is_direct_hip_native_to_rns_bridge_capture d) check_bridge
    when_if (is_direct_hip_vector_to_rns_chain_capture d) check_vector_chain
    when streaming_overlap_capture check_streaming
