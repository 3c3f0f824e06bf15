-- ===== src/Schema/Adaptive.antt =====
-- validator_schedule.py, `_validate_v4_adaptive_schedule`: the schedule of a per-tile capture.
pub mod Expected
pub mod Accepts
use rns.Prelude.{
  true, false, not, ◌&&◌, List, [], ◌∷◌, String, ◌<>◌, Option, some, none, if◌then◌else◌,
}
use rns.Prelude.Int.{pos}
use rns.Json.{Value, Fields, str, bool, get, py_eq, is_dict, is_bool, is_true, is_false}
use rns.Outcome.{strs, ◌and◌}
use rns.Check.{Check, ◌>>=◌, ◌>>◌, lift, skip, error, when, reject, require_in}
use rns.Schema.Mode.{fields_of, ints_less, is, is_vector_alu_runtime_capture}
use rns.Schema.Kernels.{int_at_least, int_at_most}
use rns.Schema.Expect.{expect}
use rns.Schema.Adaptive.Expected.{
  choice, direct_hip_expected_kernel, amdgpu_expected_kernel, expected_kernels, expected_epilogues,
  expected_workspaces, expected_isas, vector_alu_selected_kernels, event_checks,
}

abbrev or_default : Option String → String → String
or_default (some value) other = value
or_default none other = other

module _ (d : Fields) where
  -- `adaptive_execution_applied`, which a public vector run sets to false.
  unfoldable pub check_applied : Fields → Check Unit
  check_applied schedule =
      lift
        (is (get "backend_selected" d) "hip-vector-alu-int64" and is_vector_alu_runtime_capture d)
      >>= λ comparator.
          let applied = get "adaptive_execution_applied" schedule in
          if comparator
          then reject (not (is_false applied))
              "per-tile adaptive vector runtime captures must set schedule_metadata.adaptive_execution_applied=false"
          else reject (not (is_true applied))
              "per-tile adaptive captures must set schedule_metadata.adaptive_execution_applied=true"

  abbrev named_kernel : String → Option String → Check Unit
  named_kernel selected_kernel none = skip
  named_kernel selected_kernel (some expected) =
      reject (not (py_eq (str selected_kernel) (str expected)))
        ("per-tile adaptive " <> backend <> " captures must use selected_kernel=" <> expected)
    where
      backend : String
      backend = elim (get "backend_selected" d) [ str s ↦ s | _ ↦ "" ]

  unfoldable pub check_selected_kernel : Fields → Value → Check Unit
  check_selected_kernel schedule (str selected_kernel) =
      if py_eq (str selected_kernel) (str "")
      then error "per-tile adaptive captures must report selected_kernel"
      else (lift (amdgpu_expected_kernel d) >>= λ amdgpu.
          lift (
            choice (get "backend_selected" d)
              (expected_kernels (direct_hip_expected_kernel schedule) amdgpu))
          >>= λ expected.
              named_kernel selected_kernel expected
              >> when (py_eq (get "backend_selected" d) (str "hip-vector-alu-int64")) (
                  require_in (str selected_kernel) (strs vector_alu_selected_kernels)
                    "per-tile adaptive hip-vector-alu-int64 captures must use a known vector-ALU selected_kernel"))
  check_selected_kernel schedule _ = error "per-tile adaptive captures must report selected_kernel"

  -- The prefixes that the tiles are computed with.
  unfoldable pub check_prefixes : Value → Fields → Check Unit
  check_prefixes prefix schedule = do
    let group_count = get "prefix_group_count" schedule
    let max_selected = get "max_selected_prefix" schedule
    let min_selected = get "min_selected_prefix" schedule
    let prefix_active = get "adaptive_prefix_active" schedule
    let skip_active = get "adaptive_skip_active" schedule
    reject
        (is_bool prefix_active
          && not (py_eq prefix_active (bool (int_at_least (pos 2) group_count))))
        "schedule_metadata.adaptive_prefix_active must match prefix_group_count > 1"
    reject (is_bool skip_active && not (py_eq skip_active (bool (ints_less max_selected prefix))))
        "schedule_metadata.adaptive_skip_active must match max_selected_prefix < prefix"
    reject (int_at_most (pos 0) group_count)
        "per-tile adaptive captures must use at least one prefix group"
    reject (int_at_most (pos 0) min_selected)
        "schedule_metadata.min_selected_prefix must be positive for per-tile adaptive captures"
    reject (ints_less prefix max_selected) "schedule_metadata.max_selected_prefix must be <= prefix"
    reject (not (is_true prefix_active) && not (is_true skip_active))
        "per-tile adaptive captures must apply prefix grouping or prefix skipping"

  unfoldable pub check_events : Fields → List (String × String × String) → Check Unit
  check_events metadata [] = skip
  check_events metadata ((backend, label, scope) ∷ rest) =
      let others = check_events metadata rest in
      if py_eq (get "backend_selected" d) (str backend)
      then (reject (not (is_true (get "gpu_event_timing" metadata))) label
          >> expect metadata "gpu_event_timing_source_scope" (str scope)
              ("timing_metadata.gpu_event_timing_source_scope must be " <> scope))
      else others

  unfoldable pub check_workspace : Fields → Check Unit
  check_workspace backend_metadata = do
    runtime ← lift (is_vector_alu_runtime_capture d)
    workspace ← lift (choice (get "backend_selected" d) (expected_workspaces runtime))
    let expected = or_default workspace "resident_device_buffers_with_active_prefix_tiled_schedule"
    if py_eq (get "backend_selected" d) (str "ck")
        then require_in (get "workspace_mode" backend_metadata)
            (strs (
              "resident_device_buffers_with_ck_canonical_pack_workspace"
              ∷ "resident_device_buffers_with_ck_centered_pack_workspace" ∷ []))
            "per-tile adaptive CK captures must use a known CK pack workspace mode"
        else expect backend_metadata "workspace_mode" (str expected)
            ("per-tile adaptive captures must use backend_metadata.workspace_mode=" <> expected)

  -- `expected.get(backend, default)` and the test of one field against it.
  unfoldable pub check_choice : Fields → String → List (String × String) → String → Check Unit
  check_choice backend_metadata key table other = do
    found ← lift (choice (get "backend_selected" d) table)
    let expected = or_default found other
    expect backend_metadata key (str expected)
        ("per-tile adaptive captures must use backend_metadata." <> key <> "=" <> expected)

  unfoldable pub check_backend : Fields → Check Unit
  unfolding check_choice check_workspace
  check_backend backend_metadata = do
    check_choice backend_metadata "epilogue_mode" expected_epilogues
        "fused_centered_residue_then_crt_export"
    check_workspace backend_metadata
    check_choice backend_metadata "isa_evidence" expected_isas "rns8_hip_direct_reciprocal_isa_gate"

  unfoldable pub check_schedule : Value → Fields → Check Unit
  unfolding check_applied check_selected_kernel check_prefixes check_events check_backend
  check_schedule prefix schedule = do
    check_applied schedule
    check_selected_kernel schedule (get "selected_kernel" d)
    check_prefixes prefix schedule
    when (is_dict (get "timing_metadata" d))
        (check_events (fields_of (get "timing_metadata" d)) event_checks)
    when (is_dict (get "backend_metadata" d)) (check_backend (fields_of (get "backend_metadata" d)))

  unfoldable pub validate_v4_adaptive_schedule : Value → Value → Check Unit
  unfolding check_schedule
  validate_v4_adaptive_schedule prefix schedule =
      when (is_dict schedule) (check_schedule prefix (fields_of schedule))
