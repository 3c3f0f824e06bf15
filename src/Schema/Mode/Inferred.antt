-- ===== src/Schema/Mode/Inferred.antt =====
-- Which modes `_benchmark_execution_mode` gives a capture that declares none.
use rns.Prelude.{◌≡◌, Bool, true, false, String, str_eq, List, [], ◌∷◌, any, refl, subst}
use rns.Json.{Fields, get}
use rns.Outcome.{Outcome, done, raised, branch, in_set, strs}
use rns.Schema.Mode.{
  is, is_wrap64_rocwmma_candidate, is_vector_alu_runtime_capture, is_vector_alu_gemv_n1_capture,
  is_vector_alu_gemv_small_n_capture, inferred_mode, vector_alu_mode,
}

-- The modes that are inferred for some capture. The code names two more, the
-- `public_runtime_vector_alu_gemv_*` ones.
abbrev pub inferred_modes : List String
inferred_modes =
    "internal_wrap64_rocwmma_candidate" ∷ "public_runtime_vector_alu_native_buffers"
    ∷ "hip_graph_replay_resident_rns_chain" ∷ "hip_graph_replay_bounded_pack_gemm_export"
    ∷ "hip_graph_replay_finite_u8_pack_gemm_export" ∷ "hip_graph_replay_exact_wide_pack_gemm_export"
    ∷ "hip_graph_replay_wrap64_pack_gemm_export" ∷ "public_oneshot_transient_native_inputs"
    ∷ "benchmark_owned_vector_alu_gemv_n1_native_buffers"
    ∷ "benchmark_owned_vector_alu_gemv_small_n_native_buffers"
    ∷ "benchmark_owned_vector_alu_native_buffers" ∷ "persistent_resident_matrices" ∷ []

-- A result that is a mode is one of them.
abbrev Infers : Outcome String → Type 0
Infers r = (mode : String) → r ≡ done mode → any (str_eq mode) inferred_modes ≡ true

done_inj : (s t : String) → done s ≡ done t → s ≡ t
done_inj s t h = cc h

done_infers : (s : String) → any (str_eq s) inferred_modes ≡ true → Infers (done s)
done_infers s e mode h = subst (λ t. any (str_eq t) inferred_modes ≡ true) (done_inj s mode h) e

branch_infers :
    (test : Outcome Bool) (a b : Outcome String)
    → (test ≡ done true → Infers a)
    → (test ≡ done false → Infers b)
    → Infers (branch test a b)
branch_infers (done true) a b ha hb mode h = ha refl mode h
branch_infers (done false) a b ha hb mode h = hb refl mode h
branch_infers (raised e) a b ha hb mode h = absurd (cc h)

module _ (d : Fields) where
  owned_infers :
      (mode other : String)
      → is_vector_alu_runtime_capture d ≡ done false
      → any (str_eq mode) inferred_modes ≡ true
      → Infers (branch (is_vector_alu_runtime_capture d) (done other) (done mode))
  owned_infers mode other private_run e =
      branch_infers (is_vector_alu_runtime_capture d) _ _ (λ run. absurd (cc (private_run, run)))
        (λ _. done_infers mode e)

  vector_infers : is_vector_alu_runtime_capture d ≡ done false → Infers (vector_alu_mode d)
  unfolding vector_alu_mode
  vector_infers private_run =
      branch_infers (is_vector_alu_gemv_n1_capture d) _ _
        (λ _. owned_infers "benchmark_owned_vector_alu_gemv_n1_native_buffers" _ private_run refl)
        (λ _.
          branch_infers (is_vector_alu_gemv_small_n_capture d) _ _
            (λ _.
              owned_infers "benchmark_owned_vector_alu_gemv_small_n_native_buffers" _ private_run
                refl)
            (λ _. done_infers "benchmark_owned_vector_alu_native_buffers" refl))

  -- The tests on the benchmark's name.
  step :
      (test : Outcome Bool) (s : String) (rest : Outcome String)
      → any (str_eq s) inferred_modes ≡ true
      → Infers rest
      → Infers (branch test (done s) rest)
  step test s rest e h = branch_infers test (done s) rest (λ _. done_infers s e) (λ _. h)

  named : String → Outcome Bool
  named benchmark = is (get "benchmark" d) benchmark

  -- The mode that is inferred for a capture is one of twelve: the two modes of a public runtime
  -- capture with a matrix-vector shape are never inferred.
  pub inferred_mode_reachable :
      (mode : String) → inferred_mode d ≡ done mode → any (str_eq mode) inferred_modes ≡ true
  unfolding inferred_mode named
  inferred_mode_reachable =
      step (is_wrap64_rocwmma_candidate d) "internal_wrap64_rocwmma_candidate" _ refl (
        branch_infers (is_vector_alu_runtime_capture d) _ _
          (λ _. done_infers "public_runtime_vector_alu_native_buffers" refl)
          (λ private_run.
            step (named "rns8_hip_graph_replay_resident_rns_chain")
              "hip_graph_replay_resident_rns_chain" _ refl
              (step (named "rns8_hip_graph_replay_bounded_pack_gemm_export")
                "hip_graph_replay_bounded_pack_gemm_export" _ refl
                (step (named "rns8_hip_graph_replay_finite_u8_pack_gemm_export")
                  "hip_graph_replay_finite_u8_pack_gemm_export" _ refl
                  (step (named "rns8_hip_graph_replay_exact_wide_pack_gemm_export")
                    "hip_graph_replay_exact_wide_pack_gemm_export" _ refl
                    (step (named "rns8_hip_graph_replay_wrap64_pack_gemm_export")
                      "hip_graph_replay_wrap64_pack_gemm_export" _ refl
                      (step
                        (in_set (get "benchmark" d) (
                          strs (
                            "rns8_bounded_gemm_public_oneshot" ∷ "rns8_finite_u8_public_oneshot"
                            ∷ [])))
                        "public_oneshot_transient_native_inputs" _ refl
                        (branch_infers (is (get "backend_selected" d) "hip-vector-alu-int64") _ _
                          (λ _. vector_infers private_run)
                          (λ _. done_infers "persistent_resident_matrices" refl)))))))))
