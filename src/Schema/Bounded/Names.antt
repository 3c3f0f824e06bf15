-- ===== src/Schema/Bounded/Names.antt =====
-- The kernels, epilogues and workspaces that core_shared.py and the registry list for bounded
-- captures, and the choice between the two semantics.
use rns.Prelude.{Bool, List, [], ◌∷◌, String, if◌then◌else◌}
use rns.Json.{str, py_eq}
use rns.Schema.Context.{Context}

abbrev pub bounded_i64_export_kernels : List String
bounded_i64_export_kernels =
    "cpu_reference_export_i64" ∷ "hip_direct_export_i64_device"
    ∷ "hip_direct_export_i64_grouped_device" ∷ "hip_direct_export_i64_tiled_device"
    ∷ "vector_alu_output_d2h" ∷ []

abbrev pub bounded_u64_export_kernels : List String
bounded_u64_export_kernels =
    "cpu_reference_export_u64" ∷ "hip_direct_export_u64_device"
    ∷ "hip_direct_export_u64_grouped_device" ∷ "hip_direct_export_u64_tiled_device"
    ∷ "vector_alu_output_d2h" ∷ []

-- `a if semantics == "bounded_i64" else b`. The validator is called for the two bounded semantics
-- only, so that this is also `{"bounded_i64": a, "bounded_u64": b}[semantics]`.
abbrev pub by_semantics {ℓ} : {A : Type ℓ} → Context → A → A → A
by_semantics ctx a b = if py_eq ctx.semantics (str "bounded_i64") then a else b

-- `{semantics}` in a message
abbrev pub semantics_text : Context → String
semantics_text ctx = by_semantics ctx "bounded_i64" "bounded_u64"

-- What a kind of capture must name.
pub record KernelNames : Type 0 where
  pub kernel : String
  pub epilogue : String
  pub workspace : String

abbrev pub reciprocal_isa_evidence : String
reciprocal_isa_evidence = "rns8_hip_direct_reciprocal_isa_gate"

abbrev pub oneshot_native : Bool → KernelNames
oneshot_native large = record {
  kernel =
      if large
      then "direct_hip_prefix9_native_input_colpair_grouped_rns_gemm_v2"
      else "direct_hip_prefix9_native_input_grouped_rns_gemm_v1";
  epilogue = "native_input_centered_residue_then_crt_export";
  workspace = "transient_native_inputs_to_resident_rns_output";
}

abbrev pub oneshot_resident_fallback : KernelNames
oneshot_resident_fallback = record {
  kernel = "direct_hip_grouped_active_prefix_schedule_rns_gemm_v3";
  epilogue = "fused_centered_residue_then_crt_export";
  workspace = "resident_device_buffers";
}

-- The kernel of the large shapes takes the place of that of uniform small inputs too.
abbrev pub native_a_reuse_b : Context → (uniform_small large_colpair : Bool) → KernelNames
native_a_reuse_b ctx uniform_small large_colpair = record {
  kernel =
      if large_colpair
      then by_semantics ctx "direct_hip_native_a_i64_colpair_prefix9_reuse_b_grouped_rns_gemm_v2"
          "direct_hip_native_a_u64_colpair_prefix9_reuse_b_grouped_rns_gemm_v2"
      else if uniform_small
      then "direct_hip_uniform_small_i8_ab_colpair_prefix9_reuse_b_grouped_rns_gemm_v2"
      else by_semantics ctx "direct_hip_native_a_i64_prefix9_reuse_b_grouped_rns_gemm_v1"
          "direct_hip_native_a_u64_prefix9_reuse_b_grouped_rns_gemm_v1";
  epilogue =
      if uniform_small
      then "uniform_small_i8_ab_resident_b_residue_then_crt_export"
      else "native_a_centered_resident_b_residue_then_crt_export";
  workspace = "transient_native_a_resident_rns_b_output";
}

abbrev pub uniform_small_reuse_a : KernelNames
uniform_small_reuse_a = record {
  kernel = "direct_hip_uniform_small_i8_ab_colpair_prefix9_reuse_a_grouped_rns_gemm_v1";
  epilogue = "uniform_small_i8_ab_resident_a_residue_then_crt_export";
  workspace = "transient_i8_b_resident_i8_a_rns_output";
}

abbrev pub residue_channel_fusion : KernelNames
residue_channel_fusion = record {
  kernel = "direct_hip_uniform_small_i8_ab_colpair_prefix9_residue_channel_width3_experimental_v0";
  epilogue = "width3_residue_fusion_transient_then_crt_export";
  workspace = "width3_residue_fusion_transient_i8_inputs";
}

abbrev pub uniform_small_transient : KernelNames
uniform_small_transient = record {
  kernel = "direct_hip_uniform_small_i8_ab_colpair_prefix9_transient_grouped_rns_gemm_v1";
  epilogue = "uniform_small_i8_ab_transient_residue_then_crt_export";
  workspace = "transient_i8_a_transient_i8_b_rns_output";
}

abbrev pub native_b_reuse_a : Context → KernelNames
native_b_reuse_a ctx = record {
  kernel =
      by_semantics ctx "direct_hip_native_b_i64_colpair_prefix9_reuse_a_grouped_rns_gemm_v1"
        "direct_hip_native_b_u64_colpair_prefix9_reuse_a_grouped_rns_gemm_v1";
  epilogue = "resident_a_native_b_centered_residue_then_crt_export";
  workspace = "transient_native_b_resident_rns_a_output";
}

abbrev pub skinny_gemv_n1 : Context → KernelNames
skinny_gemv_n1 ctx = record {
  kernel =
      by_semantics ctx "direct_hip_prefix9_rns_gemv_n1_i64_v1"
        "direct_hip_prefix9_rns_gemv_n1_u64_v1";
  epilogue = "resident_rns_gemv_n1_centered_residue_then_crt_export";
  workspace = "resident_rns_inputs_skinny_n1_output";
}

abbrev pub skinny_gemv_small_n : Context → KernelNames
skinny_gemv_small_n ctx = record {
  kernel =
      by_semantics ctx "direct_hip_prefix9_rns_gemv_small_n_i64_v1"
        "direct_hip_prefix9_rns_gemv_small_n_u64_v1";
  epilogue = "resident_rns_gemv_small_n_centered_residue_then_crt_export";
  workspace = "resident_rns_inputs_skinny_n_le8_output";
}
