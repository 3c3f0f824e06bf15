-- ===== src/Schema/Bounded/Kinds.antt =====
-- The kinds of direct-HIP captures: each must be a single exported product under a global bound and
-- name its kernel, its epilogue, its workspace and the parts of its autotune key.
use rns.Prelude.{Bool, true, false, not, ◌||◌, List, [], ◌∷◌, String, ◌<>◌, str_eq, if◌then◌else◌}
use rns.Prelude.Int.{pos, eqb_ℤ}
use rns.Json.{Value, Fields, str, get, py_eq, is_dict, is_true}
use rns.Check.{Check, ◌>>=◌, ◌>>◌, lift, skip, when, when_if, reject, for_each}
use rns.Schema.Mode.{fields_of}
use rns.Schema.Context.{Context}
use rns.Schema.Expect.{expect}
use rns.Schema.Events.{contains}
use rns.Schema.Predicates.{
  is_direct_hip_bounded_native_a_reuse_b_uniform_small,
  is_direct_hip_bounded_native_a_reuse_b_large_colpair,
  is_direct_hip_bounded_uniform_small_reuse_a_capture,
  is_direct_hip_bounded_residue_channel_fusion_capture,
  is_direct_hip_bounded_uniform_small_transient_capture,
  is_direct_hip_bounded_native_b_reuse_a_large_colpair_capture,
  is_direct_hip_bounded_skinny_gemv_n1_capture, is_direct_hip_bounded_skinny_gemv_small_n_capture,
}
use rns.Schema.Bounded.Names.{
  KernelNames, reciprocal_isa_evidence, native_a_reuse_b, uniform_small_reuse_a,
  residue_channel_fusion, uniform_small_transient, native_b_reuse_a, skinny_gemv_n1,
  skinny_gemv_small_n,
}

module _ (d : Fields) (ctx : Context) where
  -- `bound_mode` and the length and the output of the chain.
  unfoldable pub check_single : String → Check Unit
  check_single label = do
    reject (not (py_eq ctx.bound_mode (str "global")))
        (label <> " captures must use bound_mode=global")
    reject
        (not (eqb_ℤ ctx.residue_chain_length (pos 1))
          || not (str_eq ctx.residue_output_mode "host_export"))
        (label <> " captures must use host_export residue_chain_length=1")

  unfoldable pub check_no_reuse : String → Check Unit
  check_no_reuse label =
      reject (is_true (get "reuse_packed_inputs" d))
        (label <> " captures must not use packed-input reuse")

  -- `f";{key}={value};" in f";{autotune_key};"` for each part
  abbrev pub check_key_parts : String → Value → List (String × String) → Check Unit
  check_key_parts label (str autotune_key) parts = for_each parts (λ (part : String × String).
      reject (not (contains (";" <> autotune_key <> ";") (";" <> part.0 <> "=" <> part.1 <> ";")))
        (label <> " backend_metadata.autotune_key must include " <> part.0 <> "=" <> part.1))
  check_key_parts label _ parts = skip

  unfoldable pub check_backend_names : String → KernelNames → Fields → Check Unit
  check_backend_names label names backend_metadata = do
    expect backend_metadata "epilogue_mode" (str names.epilogue)
        (label <> " captures must use backend_metadata.epilogue_mode=" <> names.epilogue)
    expect backend_metadata "workspace_mode" (str names.workspace)
        (label <> " captures must use backend_metadata.workspace_mode=" <> names.workspace)
    expect backend_metadata "isa_evidence" (str reciprocal_isa_evidence)
        (label <> " captures must use backend_metadata.isa_evidence=" <> reciprocal_isa_evidence)

  unfoldable pub check_kernel_name : String → KernelNames → Check Unit
  check_kernel_name label names =
      expect d "selected_kernel" (str names.kernel)
        (label <> " captures must use selected_kernel=" <> names.kernel)

  -- The kernel, the names in `backend_metadata` and the parts of the autotune key.
  unfoldable pub check_names : String → KernelNames → List (String × String) → Check Unit
  unfolding check_kernel_name check_backend_names
  check_names label names others = do
    check_kernel_name label names
    let backend_metadata = fields_of ctx.backend_metadata
    when (is_dict ctx.backend_metadata) (do
      check_backend_names label names backend_metadata
      check_key_parts label (get "autotune_key" backend_metadata)
          (("kernel", names.kernel) ∷ ("epilogue", names.epilogue) ∷ others))

  unfoldable pub check_kind :
      (label : String) (no_reuse : Bool) (names : KernelNames) (others : List (String × String))
      → Check Unit
  unfolding check_single check_no_reuse check_names
  check_kind label no_reuse names others = do
    check_single label
    when no_reuse (check_no_reuse label)
    check_names label names others

  unfoldable pub check_native_a_reuse_b : Check Unit
  unfolding check_single check_names
  check_native_a_reuse_b = do
    check_single "direct-HIP bounded native-A reuse-B"
    uniform_small ← lift (is_direct_hip_bounded_native_a_reuse_b_uniform_small d)
    large_colpair ← lift (is_direct_hip_bounded_native_a_reuse_b_large_colpair d)
    check_names "direct-HIP bounded native-A reuse-B"
        (native_a_reuse_b ctx uniform_small large_colpair)
        (("input_profile", if uniform_small then "uniform-small" else "adaptive-bands") ∷ [])

  unfoldable pub check_kinds : Bool → Check Unit
  unfolding check_native_a_reuse_b check_kind
  check_kinds native_a_reuse_b_capture = do
    when native_a_reuse_b_capture check_native_a_reuse_b
    when_if (is_direct_hip_bounded_uniform_small_reuse_a_capture d) (
        check_kind "direct-HIP bounded uniform-small reuse-A" false uniform_small_reuse_a
          (("input_profile", "uniform-small") ∷ []))
    when_if (is_direct_hip_bounded_residue_channel_fusion_capture d) (
        check_kind "direct-HIP residue-channel fusion" true residue_channel_fusion (
          ("input_profile", "uniform-small")
          ∷ ("execution", "residue_channel_fusion_native_inputs")
          ∷ []))
    when_if (is_direct_hip_bounded_uniform_small_transient_capture d) (
        check_kind "direct-HIP bounded uniform-small transient" true uniform_small_transient (
          ("input_profile", "uniform-small")
          ∷ ("execution", "transient_uniform_small_i8_ab_inputs")
          ∷ []))
    when_if (is_direct_hip_bounded_native_b_reuse_a_large_colpair_capture d) (
        check_kind "direct-HIP bounded native-B reuse-A" false (native_b_reuse_a ctx)
          (("input_profile", "adaptive-bands") ∷ []))
    when_if (is_direct_hip_bounded_skinny_gemv_n1_capture d) (
        check_kind "direct-HIP skinny GEMV N=1" false (skinny_gemv_n1 ctx)
          (("execution", "direct_hip_skinny_gemv_n1_resident_rns") ∷ []))
    when_if (is_direct_hip_bounded_skinny_gemv_small_n_capture d) (
        check_kind "direct-HIP skinny GEMV small-N" false (skinny_gemv_small_n ctx)
          (("execution", "direct_hip_skinny_gemv_small_n_resident_rns") ∷ []))
