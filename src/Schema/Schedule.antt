-- ===== src/Schema/Schedule.antt =====
-- validator_schedule.py, `_validate_schedule_metadata`: the part on the types of the fields of
-- schedule_metadata, on the grid of tiles and on the order of the prefixes.
use rns.Prelude.{not, ◌&&◌, ◌||◌, List, [], ◌∷◌, String, ◌<>◌}
use rns.Prelude.Int.{pos, ◌*ℤ◌}
use rns.Json.{Fields, int, get, py_eq, is_int, is_bool}
use rns.Check.{Check, ◌>>◌, reject, for_each}
use rns.Schema.Kernels.{int_at_most}
use rns.Schema.Mode.{ints_less, int_value}

abbrev pub integer_fields : List String
integer_fields =
    "tile_m" ∷ "tile_n" ∷ "tile_rows" ∷ "tile_cols" ∷ "tile_count" ∷ "min_required_prefix"
    ∷ "max_required_prefix" ∷ "min_selected_prefix" ∷ "max_selected_prefix" ∷ "prefix_group_count"
    ∷ "range_bit_length" ∷ []

module _ (d schedule : Fields) where
  unfoldable pub check_field_types : Check Unit
  check_field_types = do
    for_each integer_fields (λ key.
        reject (not (is_int (get key schedule)))
          ("schedule_metadata." <> key <> " must be an integer"))
    for_each ("adaptive_prefix_active" ∷ "adaptive_skip_active" ∷ "adaptive_execution_applied" ∷ [])
        (λ key.
          reject (not (is_bool (get key schedule)))
            ("schedule_metadata." <> key <> " must be a boolean"))

  unfoldable pub check_tile_grid : Check Unit
  check_tile_grid = do
    reject (not (py_eq (get "tile_m" schedule) (get "tile_m" d)))
        "schedule_metadata.tile_m must match tile_m"
    reject (not (py_eq (get "tile_n" schedule) (get "tile_n" d)))
        "schedule_metadata.tile_n must match tile_n"
    let rows = get "tile_rows" schedule
    let cols = get "tile_cols" schedule
    let count = get "tile_count" schedule
    reject
        (is_int rows
          && is_int cols
          && is_int count
          && (int_at_most (pos 0) rows
              || int_at_most (pos 0) cols
              || not (py_eq count (int (int_value rows *ℤ int_value cols)))))
        "schedule_metadata tile grid must have positive rows/cols and matching tile_count"

  unfoldable pub check_prefix_order : Check Unit
  check_prefix_order = do
    reject (ints_less (get "max_required_prefix" schedule) (get "min_required_prefix" schedule))
        "schedule_metadata min_required_prefix must be <= max_required_prefix"
    reject (ints_less (get "max_selected_prefix" schedule) (get "min_selected_prefix" schedule))
        "schedule_metadata min_selected_prefix must be <= max_selected_prefix"

  -- The three parts in the order of the method.
  unfoldable pub check_schedule_fields : Check Unit
  unfolding check_field_types check_tile_grid check_prefix_order
  check_schedule_fields = do check_field_types; check_tile_grid; check_prefix_order
