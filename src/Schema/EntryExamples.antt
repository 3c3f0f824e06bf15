-- ===== src/Schema/EntryExamples.antt =====
-- The theorems on entry points, modes, layouts and phases, applied to captures.
use rns.Prelude.{ℕ, ◌+◌, ◌≤◌, ◌≡◌, ◌↔◌, true, str_eq, any, refl, false}
use rns.Prelude.Int.{pos}
use rns.Trial.{IsPrime}
use rns.Json.{Fields, empty, field, str, int, get, get_or, has_key, py_eq}
use rns.Outcome.{in_set}
use rns.Check.{Check, skip}
use rns.Check.Passes.{Passes}
use rns.Schema.Kernels.{is_prime_modulus}
use rns.Schema.Primes.{is_prime_modulus_iff}
use rns.Schema.Core.{accepted, validate_capture, validate_capture_iff}
use rns.Schema.Mode.{inferred_mode, is_wrap64_rocwmma_candidate, is_vector_alu_runtime_capture}
use rns.Schema.Mode.Inferred.{inferred_modes, inferred_mode_reachable}
use rns.Schema.Output.{
  has_output_layout, validate_output_layout_metadata, output_destination_layout, check_strides,
  check_matching, check_layout,
}
use rns.Schema.Output.Accepts.{output_layout_accepts}
use rns.Check.{◌>>=◌, reject, require_in, when}
use rns.Schema.Predicates.{is_host_api_batch_capture}
use rns.Schema.Predicates.Exclusive.{host_batch, capture_kinds_exclude}
use rns.Schema.Mode.{mode_is, benchmark_execution_mode, declared_mode}
use rns.Schema.Expect.{expect}
use rns.Prelude.{◌⊎◌, ◌<◌, ◌^◌}
use rns.Json.{bool, obj, null}
use rns.Schema.Schedule.{
  check_schedule_fields, check_field_types, check_tile_grid, check_prefix_order,
}
use rns.Schema.Adaptive.{
  validate_v4_adaptive_schedule, check_schedule, check_applied, check_selected_kernel,
  check_prefixes,
}
use rns.Schema.Adaptive.Expected.{choice, direct_hip_expected_kernel, amdgpu_expected_kernel}
use rns.Schema.Adaptive.Accepts.{adaptive_schedule_accepts}
use rns.Schema.TileBounds.{
  expected_pattern, validate_v4_tile_bounds, check_tile_bounds, check_tile_values,
}
use rns.Schema.TileBounds.Accepts.{tile_bounds_accepts}
use rns.Check.{for_each}

is_prime_modulus_iff_example : (is_prime_modulus (pos 251) ≡ true) ↔ (IsPrime 251 × (251 ≤ 251))
is_prime_modulus_iff_example = is_prime_modulus_iff 251

-- A validator that accepts, and a capture of version 4.
abbrev accept_all : Fields → Check Unit
accept_all d = skip

abbrev versioned : Fields
versioned = field "schema_version" (int (pos 4)) empty

validate_capture_iff_example :
    (validate_capture versioned "capture.json" accept_all ≡ accepted (pos 4)) ↔ (
      (pos 4 ≡ pos 4)
      × (has_key "schema_version" versioned ≡ true)
      × (get "schema_version" versioned ≡ int (pos 4))
      × Passes (accept_all versioned))
validate_capture_iff_example = validate_capture_iff versioned "capture.json" accept_all (pos 4)

inferred_mode_reachable_example : any (str_eq "persistent_resident_matrices") inferred_modes ≡ true
unfolding inferred_mode get_or py_eq in_set is_wrap64_rocwmma_candidate
    is_vector_alu_runtime_capture
inferred_mode_reachable_example =
    inferred_mode_reachable versioned "persistent_resident_matrices" refl

abbrev padded_capture : Fields
padded_capture =
    field "n" (int (pos 30))
      (field "output_logical_ld" (int (pos 32)) (field "output_ld_padding" (int (pos 2)) empty))

abbrev padded_metadata : Fields
padded_metadata = field "benchmark_output_destination_layout" (str "padded_row_major") (
    field "benchmark_output_logical_ld" (int (pos 32)) (
      field "benchmark_output_ld_padding" (int (pos 2))
        (field "direct_hip_export_staging_policy" (str "not_applicable") empty)))

output_layout_accepts_example :
    (padding : ℕ) × (get "output_ld_padding" padded_capture ≡ int (pos padding))
    × (get "output_logical_ld" padded_capture ≡ int (pos (30 + padding)))
    × (1 ≤ 30 + padding)
    × (get "benchmark_output_destination_layout" padded_metadata
        ≡ str (output_destination_layout (int (pos padding))))
unfolding get_or has_key py_eq in_set has_output_layout validate_output_layout_metadata
    output_destination_layout check_strides check_matching check_layout ◌>>=◌ reject require_in when
    expect
output_layout_accepts_example =
    output_layout_accepts padded_capture padded_metadata 30 refl refl refl

-- A per-tile schedule with two groups of prefixes, on a grid of two by two tiles.
abbrev grouped_schedule : Fields
grouped_schedule = field "adaptive_execution_applied" (bool true) (
    field "prefix_group_count" (int (pos 2)) (
      field "min_selected_prefix" (int (pos 3)) (
        field "max_selected_prefix" (int (pos 9)) (
          field "adaptive_prefix_active" (bool true) (
            field "adaptive_skip_active" (bool false) (
              field "tile_m" (int (pos 64)) (
                field "tile_n" (int (pos 64)) (
                  field "tile_rows" (int (pos 2)) (
                    field "tile_cols" (int (pos 2)) (
                      field "tile_count" (int (pos 4)) (
                        field "min_required_prefix" (int (pos 3)) (
                          field "max_required_prefix" (int (pos 8))
                            (field "range_bit_length" (int (pos 60)) empty)))))))))))))

abbrev tiled_capture : Fields
tiled_capture = field "backend_selected" (str "hip-direct") (
    field "tile_m" (int (pos 64)) (
      field "tile_n" (int (pos 64)) (
        field "selected_kernel" (str "direct_hip_grouped_active_prefix_schedule_rns_gemm_v3")
          empty)))

adaptive_schedule_accepts_example :
    (groups : ℕ) × (low : ℕ) × (high : ℕ) × (get "prefix_group_count" grouped_schedule
      ≡ int (pos groups))
    × (get "min_selected_prefix" grouped_schedule ≡ int (pos low))
    × (get "max_selected_prefix" grouped_schedule ≡ int (pos high))
    × (1 ≤ low)
    × (low ≤ high)
    × (high ≤ 9)
    × ((2 ≤ groups) ⊎ ((1 ≤ groups) × (high < 9)))
unfolding get_or py_eq in_set ◌>>=◌ reject when require_in for_each expect
    validate_v4_adaptive_schedule check_schedule check_applied check_selected_kernel check_prefixes
    is_vector_alu_runtime_capture choice direct_hip_expected_kernel amdgpu_expected_kernel
    check_schedule_fields check_field_types check_tile_grid check_prefix_order
adaptive_schedule_accepts_example =
    adaptive_schedule_accepts tiled_capture grouped_schedule 9 refl refl

abbrev bounds_object : Fields
bounds_object = field "source" (str "exact_seeded_input_prepass") (
    field "pattern" (str "exact_output_tile_max_abs_v1") (
      field "order" (str "row_major_output_tiles") (
        field "count" (int (pos 4)) (
          field "min" (int (pos 0))
            (field "max" (int (pos 1000)) (field "hash_u64" (int (pos 7)) empty))))))

abbrev bounded_capture : Fields
bounded_capture = field "tile_bounds_u64" (obj bounds_object) empty

tile_bounds_accepts_example :
    (count : ℕ) × (low : ℕ) × (high : ℕ) × (get "count" bounds_object ≡ int (pos count))
    × (get "min" bounds_object ≡ int (pos low))
    × (get "max" bounds_object ≡ int (pos high))
    × (1 ≤ count)
    × (low ≤ high)
    × (high ≤ 2 ^ 63)
unfolding get_or py_eq ◌>>=◌ reject for_each expect validate_v4_tile_bounds check_tile_bounds
    check_tile_values expected_pattern
tile_bounds_accepts_example = tile_bounds_accepts null bounded_capture bounds_object refl refl

abbrev batch_capture : Fields
batch_capture = field "benchmark_execution_mode" (str "benchmark_host_api_batch") empty

capture_kinds_exclude_example : host_batch ≡ host_batch
unfolding is_host_api_batch_capture mode_is benchmark_execution_mode declared_mode get_or
capture_kinds_exclude_example = capture_kinds_exclude batch_capture host_batch host_batch refl refl
