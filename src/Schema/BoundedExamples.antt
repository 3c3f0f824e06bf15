-- ===== src/Schema/BoundedExamples.antt =====
-- The theorem on bounded captures, applied to one with bounds of its tiles.
use rns.Prelude.{ℕ, ◌≡◌, ◌⊎◌, true, String, Option, none, refl}
use rns.Prelude.Int.{ℤ, pos}
use rns.Json.{Fields, empty, field, str, int, obj, get_or, py_eq}
use rns.Outcome.{in_set}
use rns.Check.{reject_if, when_if, require_in, for_each}
use rns.Check.Passes.{Returns, Passes}
use rns.Schema.Predicates.{
  is_bounded_oneshot_capture, is_direct_hip_bounded_native_a_reuse_b_capture,
  is_direct_hip_bounded_uniform_small_reuse_a_capture,
  is_direct_hip_bounded_uniform_small_transient_capture, is_direct_hip_native_to_rns_bridge_capture,
  is_direct_hip_vector_to_rns_chain_capture, is_direct_hip_bounded_residue_channel_fusion_capture,
  is_streaming_overlap_capture, is_direct_hip_bounded_native_b_reuse_a_large_colpair_capture,
  is_direct_hip_bounded_skinny_gemv_n1_capture, is_direct_hip_bounded_skinny_gemv_small_n_capture,
}
use rns.Schema.Mode.{
  is_vector_alu_runtime_capture, is_vector_alu_gemv_n1_capture, is_vector_alu_gemv_small_n_capture,
  declared_mode, inferred_mode, benchmark_execution_mode, mode_is, is_wrap64_rocwmma_candidate,
}
use rns.Schema.Contract.{validate_semantic_contract}
use rns.Schema.Chain.{residue_chain_length, residue_output_mode}
use rns.Schema.Bounded.Contract.{validate_bounded_contract}
use rns.Schema.Bounded.Export.{check_export_kernels}
use rns.Schema.Bounded.Kinds.{check_kinds}
use rns.Schema.Bounded.Chains.{check_chains}
use rns.Schema.Bounded.Tail.{check_epilogue_type, check_bound}
use rns.Schema.TileBounds.{validate_v4_tile_bounds, expected_pattern}
use rns.Schema.Expect.{expect_scope}
use rns.Schema.Bounded.Accepts.Parts.{IsChainShape}
use rns.Schema.Bounded.Accepts.{HasGlobalBound, HasTileBounds, accepted_bounded_bounds}

-- No text is read as an integer here.
abbrev no_integer : String → Option ℤ
no_integer s = none

abbrev tile_bounds : Fields
tile_bounds = field "source" (str "exact_seeded_input_prepass") (
    field "pattern" (str "exact_output_tile_max_abs_v1") (
      field "order" (str "row_major_output_tiles") (
        field "count" (int (pos 4)) (
          field "min" (int (pos 3))
            (field "max" (int (pos 9)) (field "hash_u64" (int (pos 77)) empty))))))

abbrev per_tile_capture : Fields
per_tile_capture = field "semantics" (str "bounded_i64") (
    field "backend_selected" (str "cpu-reference") (
      field "bound_mode" (str "per_tile") (
        field "bound_kind" (str "per_tile_max_abs") (
          field "bound" (int (pos 0)) (
            field "tile_bounds_u64" (obj tile_bounds) (
              field "prefix" (int (pos 3)) (
                field "contract_prefix_policy" (str "fixed_requested")
                  (field "epilogue_type" (str "crt_export") empty))))))))

per_tile_capture-Passes :
    Passes (validate_semantic_contract per_tile_capture (validate_bounded_contract no_integer))
unfolding get_or in_set py_eq reject_if when_if require_in for_each is_bounded_oneshot_capture
    is_direct_hip_bounded_native_a_reuse_b_capture
    is_direct_hip_bounded_uniform_small_reuse_a_capture
    is_direct_hip_bounded_uniform_small_transient_capture is_direct_hip_native_to_rns_bridge_capture
    is_direct_hip_vector_to_rns_chain_capture is_direct_hip_bounded_residue_channel_fusion_capture
    is_streaming_overlap_capture is_direct_hip_bounded_native_b_reuse_a_large_colpair_capture
    is_direct_hip_bounded_skinny_gemv_n1_capture is_direct_hip_bounded_skinny_gemv_small_n_capture
    is_vector_alu_runtime_capture is_vector_alu_gemv_n1_capture is_vector_alu_gemv_small_n_capture
    declared_mode inferred_mode benchmark_execution_mode mode_is is_wrap64_rocwmma_candidate
    validate_semantic_contract residue_chain_length residue_output_mode validate_bounded_contract
    check_export_kernels check_kinds check_chains check_epilogue_type check_bound
    validate_v4_tile_bounds expected_pattern expect_scope
per_tile_capture-Passes = refl

accepted_bounded_bounds_example :
    (n : ℕ) × Returns (residue_chain_length per_tile_capture) (pos n)
    × ((HasGlobalBound per_tile_capture true × IsChainShape n per_tile_capture)
        ⊎ ((n ≡ 1) × HasTileBounds per_tile_capture true))
unfolding get_or
accepted_bounded_bounds_example =
    accepted_bounded_bounds no_integer per_tile_capture true per_tile_capture-Passes refl
