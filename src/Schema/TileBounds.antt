-- ===== src/Schema/TileBounds.antt =====
-- validator_schedule.py, `_validate_v4_tile_bounds`: the bounds of a per-tile capture.
pub mod Accepts
use rns.Prelude.{◌^◌, Bool, false, not, ◌&&◌, [], ◌∷◌, String, ◌<>◌, if◌then◌else◌}
use rns.Prelude.Int.{ℤ, pos, ltb_ℤ}
use rns.Json.{Value, Fields, obj, str, get, py_eq, is_int}
use rns.Check.{Check, ◌>>=◌, ◌>>◌, error, reject, for_each}
use rns.Schema.Mode.{fields_of, ints_less, int_value}
use rns.Schema.Expect.{expect}

-- `isinstance(value, str) and value`
abbrev nonempty_text : Value → Bool
nonempty_text (str s) = not (py_eq (str s) (str ""))
nonempty_text _ = false

abbrev bounded_i64 : Value → Bool
bounded_i64 semantics = py_eq semantics (str "bounded_i64")

unfoldable pub expected_pattern : Value → String
expected_pattern semantics =
    if bounded_i64 semantics
    then "exact_output_tile_max_abs_v1"
    else "exact_output_tile_max_unsigned_v1"

-- `_is_int(value) and value < limit`, `_is_int(value) and value > limit`
abbrev pub below : ℤ → Value → Bool
below limit value = is_int value && ltb_ℤ (int_value value) limit

abbrev pub above : ℤ → Value → Bool
above limit value = is_int value && ltb_ℤ limit (int_value value)

module _ (semantics schedule : Value) where
  unfoldable pub check_tile_values : Fields → Check Unit
  check_tile_values tile_bounds = do
    for_each ("count" ∷ "min" ∷ "max" ∷ "hash_u64" ∷ []) (λ key.
        reject (not (is_int (get key tile_bounds)))
          ("tile_bounds_u64." <> key <> " must be an integer"))
    reject (below (pos 1) (get "count" tile_bounds)) "tile_bounds_u64.count must be positive"
    reject (below (pos 0) (get "min" tile_bounds)) "tile_bounds_u64.min must be nonnegative"
    reject (below (pos 0) (get "max" tile_bounds)) "tile_bounds_u64.max must be nonnegative"
    reject (ints_less (get "max" tile_bounds) (get "min" tile_bounds))
        "tile_bounds_u64.min must be <= max"
    reject (bounded_i64 semantics && above (pos (2 ^ 63)) (get "max" tile_bounds))
        "bounded_i64 tile_bounds_u64.max must be <= 2^63"
    reject (below (pos 0) (get "hash_u64" tile_bounds))
        "tile_bounds_u64.hash_u64 must be nonnegative"
    reject
        (is_int (get "count" tile_bounds)
          && is_int (get "tile_count" (fields_of schedule))
          && not (py_eq (get "count" tile_bounds) (get "tile_count" (fields_of schedule))))
        "tile_bounds_u64.count must match schedule_metadata.tile_count"

  unfoldable pub check_tile_bounds : Fields → Check Unit
  unfolding check_tile_values
  check_tile_bounds tile_bounds = do
    for_each ("source" ∷ "pattern" ∷ "order" ∷ []) (λ key.
        reject (not (nonempty_text (get key tile_bounds)))
          ("tile_bounds_u64." <> key <> " must be a nonempty string"))
    expect tile_bounds "source" (str "exact_seeded_input_prepass")
        "tile_bounds_u64.source must be exact_seeded_input_prepass"
    expect tile_bounds "pattern" (str (expected_pattern semantics))
        ("tile_bounds_u64.pattern must be " <> expected_pattern semantics)
    expect tile_bounds "order" (str "row_major_output_tiles")
        "tile_bounds_u64.order must be row_major_output_tiles"
    check_tile_values tile_bounds

  unfoldable pub validate_v4_tile_bounds : Fields → Check Unit
  unfolding check_tile_bounds
  validate_v4_tile_bounds d = elim (get "tile_bounds_u64" d) [
    | obj tile_bounds ↦ check_tile_bounds tile_bounds
    | _ ↦ error "tile_bounds_u64 must be an object for per-tile adaptive captures"
  ]
