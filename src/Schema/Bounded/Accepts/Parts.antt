-- ===== src/Schema/Bounded/Accepts/Parts.antt =====
-- What the last parts of the bounded contract give when they pass.
use rns.Prelude.{
  ℕ, dec_lt, ◌≤◌, ◌≡◌, Bool, true, false, not, ◌||◌, String, Option, refl, arith, ◌⊎◌, inl, inr,
  not-false,
}
use rns.Prelude.Int.{ℤ, pos, ltb_ℤ}
use rns.Json.{Fields, str, int, get, py_eq, is_none}
use rns.Json.Laws.{py_eq-str}
use rns.Check.Passes.{Passes, then-Passes, lift_passes, reject-Passes, when-Passes}
use rns.Schema.Context.{Context}
use rns.Schema.Expect.{expect-Passes_str, expect-Passes}
use rns.Schema.TileBounds.{validate_v4_tile_bounds}
use rns.Schema.Bounded.Names.{by_semantics}
use rns.Schema.Bounded.Tail.{
  check_epilogue_type, check_bound, check_global, check_per_tile, check_chain, is_chain,
}
use rns.Schema.Bounded.Contract.{validate_bounded_contract}

-- The shape of a chain: `m`, `n` and `k` are equal.
abbrev pub IsSquare : Fields → Type 0
IsSquare d = (py_eq (get "m" d) (get "n" d) ≡ true) × (py_eq (get "n" d) (get "k" d) ≡ true)

-- A single product, or a chain of square products.
abbrev pub IsChainShape : ℕ → Fields → Type 0
IsChainShape n d = (n ≡ 1) ⊎ ((2 ≤ n) × IsSquare d)

both_equal : (a b : Bool) → (not a || not b) ≡ false → (a ≡ true) × (b ≡ true)
both_equal true true e = (refl, refl)
both_equal a b e = absurd (cc)

pub chain_shape :
    (n : ℕ) (d : Fields) → 1 ≤ n → (ltb_ℤ (pos 1) (pos n) ≡ true → IsSquare d) → IsChainShape n d
chain_shape n d low square = elim (dec_lt 1 n) [
  | yes more ↦ inr (more, square (ground arith))
  | no few ↦ inl (omega arith)
]

module _ (parse_int : String → Option ℤ) (d : Fields) (ctx : Context) where
  pub tail_parts :
      Passes (validate_bounded_contract parse_int d ctx)
      → (oneshot : Bool) × (streaming : Bool) × Passes (check_epilogue_type d ctx)
        × Passes (check_bound d ctx oneshot streaming)
  unfolding validate_bounded_contract
  tail_parts h =
      let (oneshot, _, h1) = lift_passes _ _ tt h in
      let (_, _, h2) = lift_passes _ _ tt h1 in
      let (streaming, _, h3) = lift_passes _ _ tt h2 in
      let (_, h4) = then-Passes _ _ tt h3 in
      let (_, h5) = then-Passes _ _ tt h4 in
      let (_, h6) = then-Passes _ _ tt h5 in
      let (_, h7) = then-Passes _ _ tt h6 in
      let (epilogue, bound) = then-Passes _ _ tt h7 in (oneshot, streaming, epilogue, bound)

module _ (d : Fields) (ctx : Context) where
  pub chain-global :
      Passes (check_epilogue_type d ctx) → is_chain d ctx ≡ true → ctx.bound_mode ≡ str "global"
  unfolding check_epilogue_type check_chain
  chain-global h chain =
      let (whole, _) = then-Passes _ _ tt h in
      let (_, h1) = then-Passes _ _ tt (when-Passes _ _ whole chain) in
      let (bound, _) = then-Passes _ _ tt h1 in
      py_eq-str _ _ (not-false _ (reject-Passes _ _ bound))

  pub chain-IsSquare : Passes (check_epilogue_type d ctx) → is_chain d ctx ≡ true → IsSquare d
  unfolding check_epilogue_type check_chain
  chain-IsSquare h chain =
      let (whole, _) = then-Passes _ _ tt h in
      let (_, h1) = then-Passes _ _ tt (when-Passes _ _ whole chain) in
      let (_, h2) = then-Passes _ _ tt h1 in
      let (_, square) = then-Passes _ _ tt h2 in both_equal _ _ (reject-Passes _ _ square)

  pub global_bound :
      (oneshot streaming : Bool)
      → Passes (check_global d ctx oneshot streaming)
      → (get "bound_kind" d ≡ str (by_semantics ctx "global_max_abs" "global_max_unsigned"))
        × (is_none (get "tile_bounds_u64" d) ≡ true)
  unfolding check_global
  global_bound oneshot streaming h =
      let (kind, h1) = then-Passes _ _ tt h in
      let (tiles, _) = then-Passes _ _ tt h1 in
      (expect-Passes_str _ _ _ _ kind, not-false _ (reject-Passes _ _ tiles))

  pub per_tile_bound :
      Passes (check_per_tile d ctx)
      → (get "bound_kind" d ≡ str (by_semantics ctx "per_tile_max_abs" "per_tile_max_unsigned"))
        × (py_eq (get "bound" d) (int (pos 0)) ≡ true)
        × Passes (validate_v4_tile_bounds ctx.semantics ctx.schedule d)
  unfolding check_per_tile
  per_tile_bound h =
      let (kind, h1) = then-Passes _ _ tt h in
      let (_, h2) = then-Passes _ _ tt h1 in
      let (zero, h3) = then-Passes _ _ tt h2 in
      let (tiles, _) = then-Passes _ _ tt h3 in
      (expect-Passes_str _ _ _ _ kind, expect-Passes _ _ _ _ zero, tiles)
