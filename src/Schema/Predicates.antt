-- ===== src/Schema/Predicates.antt =====
-- validator_predicates.py: which kind of capture a capture is.
pub mod Exclusive
use rns.Prelude.{Bool, ◌&&◌, [], ◌∷◌}
use rns.Prelude.Int.{pos}
use rns.Json.{Fields, int, get, py_eq, is_dict, is_true}
use rns.Outcome.{Outcome, in_set, ◌and◌, ◌or◌, negate}
use rns.Schema.Mode.{
  fields_of, is, holds, ints_less, bounded_semantics, finite_semantics, mode_is, mode_in,
}
use rns.Schema.Kernels.{int_at_least, int_at_most}

module _ (d : Fields) where
  unfoldable pub is_bounded_oneshot_capture : Outcome Bool
  is_bounded_oneshot_capture =
      (mode_is d "public_oneshot_transient_native_inputs"
        or is (get "benchmark" d) "rns8_bounded_gemm_public_oneshot")
      and in_set (get "semantics" d) bounded_semantics

  unfoldable pub is_direct_hip_bounded_native_input_oneshot_capture : Outcome Bool
  is_direct_hip_bounded_native_input_oneshot_capture =
      is_bounded_oneshot_capture
      and is (get "backend_selected" d) "hip-direct"
      and holds (py_eq (get "selected_prefix" d) (get "prefix" d))
      and holds (py_eq (get "prefix" d) (int (pos 9)))

  unfoldable pub is_direct_hip_bounded_resident_fallback_oneshot_capture : Outcome Bool
  is_direct_hip_bounded_resident_fallback_oneshot_capture =
      let selected = get "selected_prefix" d in
      let requested = get "prefix" d in
      let schedule_selected = get "max_selected_prefix" (fields_of (get "schedule_metadata" d)) in
      is_bounded_oneshot_capture
      and is (get "backend_selected" d) "hip-direct"
      and holds (int_at_least (pos 1) selected)
      and holds (ints_less selected requested)
      and holds (py_eq selected schedule_selected)

  unfoldable pub is_finite_oneshot_capture : Outcome Bool
  is_finite_oneshot_capture =
      (mode_is d "public_oneshot_transient_native_inputs"
        or is (get "benchmark" d) "rns8_finite_u8_public_oneshot")
      and in_set (get "semantics" d) finite_semantics

  unfoldable pub is_public_oneshot_capture : Outcome Bool
  is_public_oneshot_capture = is_bounded_oneshot_capture or is_finite_oneshot_capture

  unfoldable pub is_direct_hip_bounded_native_a_reuse_b_capture : Outcome Bool
  is_direct_hip_bounded_native_a_reuse_b_capture =
      is (get "backend_selected" d) "hip-direct"
      and in_set (get "semantics" d) bounded_semantics
      and is (get "pack_mode" d) "prepacked_reuse_b"
      and is (get "prepack_reuse_strategy" d) "persistent_matrix_residency"
      and mode_in d (
          "transient_native_a_resident_b_reuse" ∷ "transient_uniform_small_i8_a_resident_i8_b_reuse"
          ∷ [])

  unfoldable pub is_direct_hip_bounded_native_a_reuse_b_uniform_small : Outcome Bool
  is_direct_hip_bounded_native_a_reuse_b_uniform_small =
      (is (get "semantics" d) "bounded_i64"
        and is (get "input_distribution" d) "signed_uniform_-16_16")
      or (is (get "semantics" d) "bounded_u64"
          and is (get "input_distribution" d) "unsigned_uniform_0_16")

  -- The three dimensions are integers from 512 on.
  unfoldable pub is_large : Outcome Bool
  is_large = holds (
      int_at_least (pos 512) (get "m" d)
      && int_at_least (pos 512) (get "n" d)
      && int_at_least (pos 512) (get "k" d))

  unfoldable pub is_direct_hip_bounded_native_a_reuse_b_large_colpair : Outcome Bool
  is_direct_hip_bounded_native_a_reuse_b_large_colpair =
      in_set (get "semantics" d) bounded_semantics
      and negate is_direct_hip_bounded_native_a_reuse_b_uniform_small
      and is_large

  unfoldable pub is_direct_hip_bounded_uniform_small_reuse_a_capture : Outcome Bool
  is_direct_hip_bounded_uniform_small_reuse_a_capture =
      is (get "backend_selected" d) "hip-direct"
      and in_set (get "semantics" d) bounded_semantics
      and is (get "pack_mode" d) "prepacked_reuse_a"
      and is (get "prepack_reuse_strategy" d) "persistent_matrix_residency"
      and mode_is d "transient_uniform_small_i8_b_resident_i8_a_reuse"
      and is_direct_hip_bounded_native_a_reuse_b_uniform_small

  unfoldable pub is_direct_hip_bounded_uniform_small_transient_capture : Outcome Bool
  is_direct_hip_bounded_uniform_small_transient_capture =
      is (get "backend_selected" d) "hip-direct"
      and in_set (get "semantics" d) bounded_semantics
      and is (get "pack_mode" d) "per_repeat_repack"
      and is (get "prepack_reuse_strategy" d) "none"
      and mode_is d "transient_uniform_small_i8_ab_inputs"
      and is_direct_hip_bounded_native_a_reuse_b_uniform_small

  unfoldable pub is_direct_hip_native_to_rns_bridge_capture : Outcome Bool
  is_direct_hip_native_to_rns_bridge_capture =
      is (get "backend_selected" d) "hip-direct"
      and in_set (get "semantics" d) bounded_semantics
      and mode_is d "auto_native_to_rns_bridge"

  unfoldable pub is_direct_hip_vector_to_rns_chain_capture : Outcome Bool
  is_direct_hip_vector_to_rns_chain_capture =
      is (get "backend_selected" d) "hip-direct"
      and in_set (get "semantics" d) bounded_semantics
      and mode_in d (
          "vector_native_to_direct_rns_chain" ∷ "vector_native_host_export_repack_direct_rns_chain"
          ∷ [])

  unfoldable pub is_direct_hip_vector_to_rns_host_repack_control_capture : Outcome Bool
  is_direct_hip_vector_to_rns_host_repack_control_capture =
      is (get "backend_selected" d) "hip-direct"
      and in_set (get "semantics" d) bounded_semantics
      and mode_is d "vector_native_host_export_repack_direct_rns_chain"

  unfoldable pub is_direct_hip_bounded_residue_channel_fusion_capture : Outcome Bool
  is_direct_hip_bounded_residue_channel_fusion_capture =
      is (get "backend_selected" d) "hip-direct"
      and in_set (get "semantics" d) bounded_semantics
      and is (get "benchmark" d) "rns8_bounded_gemm_residue_channel_fusion_experiment"
      and mode_is d "residue_channel_fusion_native_inputs"
      and is (get "pack_mode" d) "per_repeat_repack"
      and is (get "prepack_reuse_strategy" d) "none"

  unfoldable pub is_host_api_batch_capture : Outcome Bool
  is_host_api_batch_capture = mode_is d "benchmark_host_api_batch"

  unfoldable pub is_grouped_dispatch_capture : Outcome Bool
  is_grouped_dispatch_capture = mode_is d "benchmark_grouped_dispatch_evidence"

  unfoldable pub is_hip_graph_replay_capture : Outcome Bool
  is_hip_graph_replay_capture = mode_in d (
      "hip_graph_replay_resident_rns_chain" ∷ "hip_graph_replay_bounded_pack_gemm_export"
      ∷ "hip_graph_replay_finite_u8_pack_gemm_export"
      ∷ "hip_graph_replay_exact_wide_pack_gemm_export" ∷ "hip_graph_replay_wrap64_pack_gemm_export"
      ∷ [])

  unfoldable pub is_streaming_overlap_capture : Outcome Bool
  is_streaming_overlap_capture =
      let overlap = get "streaming_overlap" d in
      holds (is_dict overlap)
      and holds (is_true (get "requested" (fields_of overlap)))
      and is (get "capture_status" (fields_of overlap)) "executed"

  unfoldable pub is_direct_hip_bounded_native_b_reuse_a_large_colpair_capture : Outcome Bool
  is_direct_hip_bounded_native_b_reuse_a_large_colpair_capture =
      is (get "backend_selected" d) "hip-direct"
      and in_set (get "semantics" d) bounded_semantics
      and is (get "pack_mode" d) "prepacked_reuse_a"
      and is (get "prepack_reuse_strategy" d) "persistent_matrix_residency"
      and mode_is d "transient_native_b_resident_a_reuse"
      and negate is_direct_hip_bounded_native_a_reuse_b_uniform_small
      and is_large

  -- `prefix == selected_prefix == 9`
  unfoldable pub prefix_nine : Outcome Bool
  prefix_nine = holds (
      py_eq (get "prefix" d) (get "selected_prefix" d)
      && py_eq (get "selected_prefix" d) (int (pos 9)))

  unfoldable pub is_direct_hip_bounded_skinny_gemv_n1_capture : Outcome Bool
  is_direct_hip_bounded_skinny_gemv_n1_capture =
      is (get "backend_selected" d) "hip-direct"
      and in_set (get "semantics" d) bounded_semantics
      and holds (py_eq (get "n" d) (int (pos 1)))
      and prefix_nine
      and is (get "pack_mode" d) "per_repeat_repack"
      and is (get "prepack_reuse_strategy" d) "none"
      and mode_is d "direct_hip_skinny_gemv_n1_resident_rns"

  unfoldable pub is_direct_hip_bounded_skinny_gemv_small_n_capture : Outcome Bool
  is_direct_hip_bounded_skinny_gemv_small_n_capture =
      is (get "backend_selected" d) "hip-direct"
      and in_set (get "semantics" d) bounded_semantics
      and holds (int_at_least (pos 2) (get "n" d) && int_at_most (pos 8) (get "n" d))
      and prefix_nine
      and is (get "pack_mode" d) "per_repeat_repack"
      and is (get "prepack_reuse_strategy" d) "none"
      and mode_is d "direct_hip_skinny_gemv_small_n_resident_rns"

  unfoldable pub is_direct_hip_finite_native_a_reuse_b_capture : Outcome Bool
  is_direct_hip_finite_native_a_reuse_b_capture =
      is (get "backend_selected" d) "hip-direct"
      and in_set (get "semantics" d) finite_semantics
      and is (get "pack_mode" d) "prepacked_reuse_b"
      and is (get "prepack_reuse_strategy" d) "persistent_matrix_residency"
