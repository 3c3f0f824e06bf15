-- ===== src/Schema/Output.antt =====
-- output_policies.py: the layout of the output and the policy of export staging.
pub mod Accepts
use rns.Prelude.{Bool, not, ◌&&◌, ◌||◌, List, [], ◌∷◌, String, ◌<>◌, any, if◌then◌else◌}
use rns.Prelude.Int.{ℤ, pos, ◌+ℤ◌, eqb_ℤ}
use rns.Json.{Value, Fields, str, int, get, has_key, py_eq, is_int}
use rns.Outcome.{in_set, strs}
use rns.Check.{Check, ◌>>=◌, ◌>>◌, lift, error, when, reject, require_in}
use rns.Schema.Kernels.{int_at_least}
use rns.Schema.Mode.{int_value}
use rns.Schema.Expect.{expect}

abbrev pub output_destination_layouts : List String
output_destination_layouts = "contiguous_row_major" ∷ "padded_row_major" ∷ []

abbrev pub direct_hip_export_staging_policies : List String
direct_hip_export_staging_policies =
    "disabled_by_RNS8_HIP_PINNED_EXPORT_STAGING"
    ∷ "exact_wide_signed_forced_only_local_gfx1100_padded_staging_loses"
    ∷ "forced_for_large_outputs_by_RNS8_HIP_PINNED_EXPORT_STAGING"
    ∷ "large_padded_outputs_only_default" ∷ "not_applicable"
    ∷ "wrap64_forced_only_pending_padded_staging_evidence" ∷ []

-- `output_destination_layout(padding)`
unfoldable pub output_destination_layout : Value → String
output_destination_layout padding =
    if py_eq padding (int (pos 0)) then "contiguous_row_major" else "padded_row_major"

module _ (d metadata : Fields) where
  unfoldable pub has_output_layout : Bool
  has_output_layout =
      any (λ key. has_key key d) ("output_logical_ld" ∷ "output_ld_padding" ∷ [])
      || any (λ key. has_key key metadata)
          ("benchmark_output_destination_layout" ∷ "benchmark_output_logical_ld"
            ∷ "benchmark_output_ld_padding" ∷ [])

  -- The lists in the messages are the sorted sets.
  unfoldable pub check_layout : Value → Check Unit
  check_layout padding =
      lift (
        in_set (get "benchmark_output_destination_layout" metadata)
          (strs output_destination_layouts))
      >>= λ known.
          if known
          then expect metadata "benchmark_output_destination_layout"
              (str (output_destination_layout padding))
              ("timing_metadata.benchmark_output_destination_layout must be "
                <> output_destination_layout padding)
          else error
              "timing_metadata.benchmark_output_destination_layout must be one of ['contiguous_row_major', 'padded_row_major']"

  -- The tests that follow the two early returns.
  unfoldable pub check_matching : Value → Value → Check Unit
  unfolding check_layout
  check_matching output_ld padding = do
    let n = get "n" d
    reject (is_int n && not (eqb_ℤ (int_value output_ld) (int_value n +ℤ int_value padding)))
        "output_logical_ld must equal n + output_ld_padding"
    check_layout padding
    expect metadata "benchmark_output_logical_ld" output_ld
        "timing_metadata.benchmark_output_logical_ld must match output_logical_ld"
    expect metadata "benchmark_output_ld_padding" padding
        "timing_metadata.benchmark_output_ld_padding must match output_ld_padding"
    require_in (get "direct_hip_export_staging_policy" metadata)
        (strs direct_hip_export_staging_policies)
        "timing_metadata.direct_hip_export_staging_policy must be one of ['disabled_by_RNS8_HIP_PINNED_EXPORT_STAGING', 'exact_wide_signed_forced_only_local_gfx1100_padded_staging_loses', 'forced_for_large_outputs_by_RNS8_HIP_PINNED_EXPORT_STAGING', 'large_padded_outputs_only_default', 'not_applicable', 'wrap64_forced_only_pending_padded_staging_evidence']"

  unfoldable pub check_strides : Value → Value → Check Unit
  unfolding check_matching
  check_strides output_ld padding =
      if not (int_at_least (pos 1) output_ld)
      then error "output_logical_ld must be a positive integer"
      else if not (int_at_least (pos 0) padding)
      then error "output_ld_padding must be a nonnegative integer"
      else check_matching output_ld padding

  unfoldable pub validate_output_layout_metadata : Check Unit
  unfolding has_output_layout check_strides
  validate_output_layout_metadata =
      when has_output_layout (check_strides (get "output_logical_ld" d) (get "output_ld_padding" d))
