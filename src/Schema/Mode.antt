-- ===== src/Schema/Mode.antt =====
-- validator_predicates.py: the tests that the execution mode rests on, and `_benchmark_execution_mode`.
-- A predicate may raise, since a list or a dict cannot be looked up in a set.
pub mod Inferred
use rns.Prelude.{Bool, false, ◌&&◌, List, [], ◌∷◌, String, str_eq}
use rns.Prelude.Int.{ℤ, pos, ltb_ℤ}
use rns.Json.{Value, Fields, null, str, int, obj, get, py_eq}
use rns.Outcome.{Outcome, done, raised, in_set, strs, ◌and◌, ◌or◌, branch}
use rns.Schema.Kernels.{int_at_least, int_at_most, wrap64_rocwmma_candidate_kernel}

-- The dict itself, or one without fields where the code tests `isinstance(value, dict)` first.
abbrev pub fields_of : Value → Fields
fields_of (obj d) = d
fields_of _ = Fields.empty

-- `value == "…"`
abbrev pub is : Value → String → Outcome Bool
is v s = done (py_eq v (str s))

abbrev pub holds : Bool → Outcome Bool
holds b = done b

-- `_is_int(a) and _is_int(b) and a < b`
abbrev pub ints_less : Value → Value → Bool
ints_less (int a) (int b) = ltb_ℤ a b
ints_less _ _ = false

-- `int(value)` of an integer
abbrev pub int_value : Value → ℤ
int_value (int a) = a
int_value _ = pos 0

abbrev pub bounded_semantics : List Value
bounded_semantics = strs ("bounded_i64" ∷ "bounded_u64" ∷ [])

abbrev pub finite_semantics : List Value
finite_semantics = strs ("finite_ring_u8" ∷ "finite_field_u8" ∷ [])

module _ (d : Fields) where
  unfoldable pub is_wrap64_rocwmma_candidate : Outcome Bool
  is_wrap64_rocwmma_candidate =
      is (get "semantics" d) "wrap_u64_mod_2_64"
      and is (get "backend_selected" d) "rocwmma"
      and is (get "selected_kernel" d) wrap64_rocwmma_candidate_kernel
      and is (get "backend_requested" d) "rocwmma-wrap64-candidate"

  unfoldable pub is_vector_alu_runtime_capture : Outcome Bool
  is_vector_alu_runtime_capture =
      is (get "backend_selected" d) "hip-vector-alu-int64"
      and is (get "benchmark" d) "rns8_bounded_gemm_hip_vector_alu_int64_runtime"

  unfoldable pub is_vector_alu_gemv_n1_capture : Outcome Bool
  is_vector_alu_gemv_n1_capture =
      is (get "backend_selected" d) "hip-vector-alu-int64"
      and in_set (get "semantics" d) bounded_semantics
      and holds (py_eq (get "n" d) (int (pos 1)))
      and holds (int_at_least (pos 4096) (get "k" d))

  unfoldable pub is_vector_alu_gemv_small_n_capture : Outcome Bool
  is_vector_alu_gemv_small_n_capture =
      is (get "backend_selected" d) "hip-vector-alu-int64"
      and in_set (get "semantics" d) bounded_semantics
      and holds (int_at_least (pos 2) (get "n" d) && int_at_most (pos 8) (get "n" d))
      and holds (int_at_least (pos 512) (get "k" d))

  -- `benchmark_execution_mode` of the capture, or else of its `timing_metadata`.
  unfoldable pub declared_mode : Value
  declared_mode =
      let mode = get "benchmark_execution_mode" d in
      elim mode [
        | null ↦ get "benchmark_execution_mode" (fields_of (get "timing_metadata" d))
        | other ↦ other
      ]

  -- The mode of a vector capture that declares none.
  unfoldable pub vector_alu_mode : Outcome String
  vector_alu_mode =
      branch is_vector_alu_gemv_n1_capture
        (branch is_vector_alu_runtime_capture
          (done "public_runtime_vector_alu_gemv_n1_native_buffers")
          (done "benchmark_owned_vector_alu_gemv_n1_native_buffers"))
        (branch is_vector_alu_gemv_small_n_capture
          (branch is_vector_alu_runtime_capture
            (done "public_runtime_vector_alu_gemv_small_n_native_buffers")
            (done "benchmark_owned_vector_alu_gemv_small_n_native_buffers"))
          (done "benchmark_owned_vector_alu_native_buffers"))

  -- The ladder of `_benchmark_execution_mode` for a capture that declares no mode.
  unfoldable pub inferred_mode : Outcome String
  unfolding vector_alu_mode
  inferred_mode = branch is_wrap64_rocwmma_candidate (done "internal_wrap64_rocwmma_candidate") (
      branch is_vector_alu_runtime_capture (done "public_runtime_vector_alu_native_buffers") (
        branch (is (get "benchmark" d) "rns8_hip_graph_replay_resident_rns_chain")
          (done "hip_graph_replay_resident_rns_chain")
          (branch (is (get "benchmark" d) "rns8_hip_graph_replay_bounded_pack_gemm_export")
            (done "hip_graph_replay_bounded_pack_gemm_export")
            (branch (is (get "benchmark" d) "rns8_hip_graph_replay_finite_u8_pack_gemm_export")
              (done "hip_graph_replay_finite_u8_pack_gemm_export")
              (branch (is (get "benchmark" d) "rns8_hip_graph_replay_exact_wide_pack_gemm_export")
                (done "hip_graph_replay_exact_wide_pack_gemm_export")
                (branch (is (get "benchmark" d) "rns8_hip_graph_replay_wrap64_pack_gemm_export")
                  (done "hip_graph_replay_wrap64_pack_gemm_export")
                  (branch
                    (in_set (get "benchmark" d) (
                      strs (
                        "rns8_bounded_gemm_public_oneshot" ∷ "rns8_finite_u8_public_oneshot" ∷ [])))
                    (done "public_oneshot_transient_native_inputs")
                    (branch (is (get "backend_selected" d) "hip-vector-alu-int64") vector_alu_mode
                      (done "persistent_resident_matrices")))))))))

  unfoldable pub benchmark_execution_mode : Outcome String
  benchmark_execution_mode = elim declared_mode [ str mode ↦ done mode | _ ↦ inferred_mode ]

  -- `self._benchmark_execution_mode() == "…"` and `… in {…}`
  unfoldable pub mode_is : String → Outcome Bool
  mode_is s = elim benchmark_execution_mode [ done m ↦ done (str_eq m s) | raised e ↦ raised e ]

  unfoldable pub mode_in : List String → Outcome Bool
  mode_in [] = holds false
  mode_in (s ∷ ss) = mode_is s or mode_in ss
