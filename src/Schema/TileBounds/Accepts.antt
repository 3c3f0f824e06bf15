-- ===== src/Schema/TileBounds/Accepts.antt =====
-- What the tile bounds of a capture without errors satisfy.
use rns.Prelude.{ℕ, ◌≤◌, ◌^◌, ◌≡◌, false, not, refl, arith}
use rns.Prelude.Int.{pos, negsuc}
use rns.Json.{Value, Fields, obj, str, int, get, py_eq, is_int}
use rns.Check.Passes.{Passes, then-Passes, reject-Passes, for_each-Passes}
use rns.Schema.Mode.{ints_less}
use rns.Schema.TileBounds.{
  below, above, validate_v4_tile_bounds, check_tile_bounds, check_tile_values,
}

-- An integer that is not below a limit.
not-below :
    (limit : ℕ) (v : Value)
    → not (is_int v) ≡ false
    → below (pos limit) v ≡ false
    → (n : ℕ) × (v ≡ int (pos n)) × (limit ≤ n)
not-below limit (int (pos n)) i e = (n, refl, ground arith)
not-below limit (int (negsuc n)) i e = absurd (ground arith)
not-below limit v i e = absurd (cc)

ordered : (low high : ℕ) → ints_less (int (pos high)) (int (pos low)) ≡ false → low ≤ high
ordered low high e = ground arith

not_above : (high : ℕ) → above (pos (2 ^ 63)) (int (pos high)) ≡ false → high ≤ 2 ^ 63
not_above high e = ground arith

module _ (schedule : Value) (d bounds : Fields) where
  values_sound :
      Passes (check_tile_values (str "bounded_i64") schedule bounds)
      → (count : ℕ) × (low : ℕ) × (high : ℕ) × (get "count" bounds ≡ int (pos count))
        × (get "min" bounds ≡ int (pos low))
        × (get "max" bounds ≡ int (pos high))
        × (1 ≤ count)
        × (low ≤ high)
        × (high ≤ 2 ^ 63)
  unfolding check_tile_values py_eq
  values_sound h =
      let (ints, h1) = then-Passes _ _ tt h in
      let (count_int, (min_int, (max_int, _))) = for_each-Passes _ _ ints in
      let (count_low, h2) = then-Passes _ _ tt h1 in
      let (min_low, h3) = then-Passes _ _ tt h2 in
      let (max_low, h4) = then-Passes _ _ tt h3 in
      let (order, h5) = then-Passes _ _ tt h4 in
      let (top, _) = then-Passes _ _ tt h5 in
      let (count, ec, c1) =
        not-below 1 (get "count" bounds) (reject-Passes _ _ count_int)
          (reject-Passes _ _ count_low) in
      let (low, el, _) =
        not-below 0 (get "min" bounds) (reject-Passes _ _ min_int) (reject-Passes _ _ min_low) in
      let (high, eh, _) =
        not-below 0 (get "max" bounds) (reject-Passes _ _ max_int) (reject-Passes _ _ max_low) in
      (
        count,
        low,
        high,
        ec,
        el,
        eh,
        c1,
        ordered low high (rw (eh, el) at (reject-Passes _ _ order)),
        not_above high (rw eh at (reject-Passes _ _ top)),
      )

  -- The tile bounds of a signed per-tile capture that `_validate_v4_tile_bounds` accepts are for at
  -- least one tile, in order, and at most `2 ^ 63`.
  pub tile_bounds_accepts :
      get "tile_bounds_u64" d ≡ obj bounds
      → Passes (validate_v4_tile_bounds (str "bounded_i64") schedule d)
      → (count : ℕ) × (low : ℕ) × (high : ℕ) × (get "count" bounds ≡ int (pos count))
        × (get "min" bounds ≡ int (pos low))
        × (get "max" bounds ≡ int (pos high))
        × (1 ≤ count)
        × (low ≤ high)
        × (high ≤ 2 ^ 63)
  unfolding validate_v4_tile_bounds check_tile_bounds
  tile_bounds_accepts e h =
      let whole : Passes (check_tile_bounds (str "bounded_i64") schedule bounds) =
        rw (e, validate_v4_tile_bounds) at h in
      let (_, h1) = then-Passes _ _ tt whole in
      let (_, h2) = then-Passes _ _ tt h1 in
      let (_, h3) = then-Passes _ _ tt h2 in
      let (_, values) = then-Passes _ _ tt h3 in values_sound values
