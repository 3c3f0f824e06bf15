-- ===== src/Schema/Bounded/Accepts.antt =====
-- What a bounded capture that passes the whole of `validate_semantic_contract` satisfies.
pub mod Parts
use rns.Prelude.{
  ℕ, dec_lt, ◌≤◌, ◌≡◌, Bool, true, false, String, Option, refl, arith, ◌⊎◌, inl, inr, ap, sym, ◌∙◌,
  subst, if◌then◌else◌, [], ◌∷◌,
}
use rns.Prelude.Int.{ℤ, pos, ltb_ℤ}
use rns.Json.{Value, Fields, str, int, obj, get, get_or, py_eq, is_none}
use rns.Json.Laws.{OneOf, in_set-OneOf, str-py_eq, str-ne}
use rns.Outcome.{in_set}
use rns.Check.{Check, when}
use rns.Check.Passes.{Returns, Passes, bind_passes, then-Passes, require_in-Passes}
use rns.Schema.Chain.{residue_chain_length, residue_output_mode}
use rns.Schema.Context.{Context}
use rns.Schema.Contract.{validate_semantic_contract, check_flags, dispatch, context}
use rns.Schema.Contract.Branches.{past, taken}
use rns.Schema.TileBounds.{validate_v4_tile_bounds}
use rns.Schema.Contract.Chains.{length_positive, contract_parts}
use rns.Schema.Bounded.Names.{by_semantics}
use rns.Schema.Bounded.Tail.{check_bound, check_global, check_per_tile}
use rns.Schema.Bounded.Contract.{validate_bounded_contract}
use rns.Schema.Bounded.Accepts.Parts.{
  IsChainShape, chain_shape, tail_parts, chain-global, chain-IsSquare, global_bound, per_tile_bound,
}

-- The name of the bounded semantics of signed or of unsigned integers.
abbrev pub semantics_name : (signed : Bool) → String
semantics_name signed = if signed then "bounded_i64" else "bounded_u64"

abbrev pub bound_kind_name : (signed per_tile : Bool) → String
bound_kind_name true per_tile = if per_tile then "per_tile_max_abs" else "global_max_abs"
bound_kind_name false per_tile = if per_tile then "per_tile_max_unsigned" else "global_max_unsigned"

obj_tiles :
    (semantics schedule : Value) (d : Fields)
    → Passes (validate_v4_tile_bounds semantics schedule d)
    → (bounds : Fields) × (get "tile_bounds_u64" d ≡ obj bounds)
unfolding validate_v4_tile_bounds
obj_tiles semantics schedule d h = tiles (get "tile_bounds_u64" d) refl
  where
    tiles :
        (v : Value)
        → get "tile_bounds_u64" d ≡ v
        → (bounds : Fields) × (get "tile_bounds_u64" d ≡ obj bounds)
    tiles (obj bounds) e = (bounds, e)
    tiles v e = absurd (cc (ap (λ (p : Check Unit). p.1) (rw (e, validate_v4_tile_bounds) at h)))

-- The mode of the bound, which is "global" where the capture has none.
abbrev pub bound_mode_of : Fields → Value
bound_mode_of d = get_or "bound_mode" (str "global") d

-- One bound for the whole product, and none for its tiles.
abbrev pub HasGlobalBound : Fields → (signed : Bool) → Type 0
HasGlobalBound d signed =
    (bound_mode_of d ≡ str "global")
    × (get "bound_kind" d ≡ str (bound_kind_name signed false))
    × (is_none (get "tile_bounds_u64" d) ≡ true)

-- Bounds of the tiles, and none for the whole product.
abbrev pub HasTileBounds : Fields → (signed : Bool) → Type 0
HasTileBounds d signed =
    (bound_mode_of d ≡ str "per_tile")
    × (get "bound_kind" d ≡ str (bound_kind_name signed true))
    × (py_eq (get "bound" d) (int (pos 0)) ≡ true)
    × ((bounds : Fields) × (get "tile_bounds_u64" d ≡ obj bounds))

module _ (d : Fields) (bounded : Fields → Context → Check Unit) where
  flags-bound_mode :
      Passes (validate_semantic_contract d bounded)
      → OneOf (bound_mode_of d) ("global" ∷ "per_tile" ∷ [])
  unfolding validate_semantic_contract check_flags
  flags-bound_mode h =
      let (_, _, h1) = bind_passes (residue_chain_length d) _ tt h in
      let (_, _, h2) = bind_passes (residue_output_mode d) _ tt h1 in
      let (flags, _) = then-Passes _ _ tt h2 in
      let (mode, _) = then-Passes _ _ tt flags in
      in_set-OneOf _ ("global" ∷ "per_tile" ∷ []) (require_in-Passes _ _ _ mode)

  dispatched_bounded :
      (signed : Bool) (ctx : Context)
      → ctx.semantics ≡ str (semantics_name signed)
      → Passes (dispatch d bounded ctx)
      → Passes (bounded d ctx)
  unfolding dispatch in_set py_eq
  dispatched_bounded true ctx e h = taken _ _ _ (rw e) (past _ _ _ (rw e) h)
  dispatched_bounded false ctx e h = taken _ _ _ (rw e) (past _ _ _ (rw e) h)

module _ (d : Fields) (ctx : Context) where
  global-Passes :
      (oneshot streaming : Bool)
      → ctx.bound_mode ≡ str "global"
      → Passes (check_bound d ctx oneshot streaming)
      → Passes (check_global d ctx oneshot streaming)
  unfolding check_bound
  global-Passes oneshot streaming e h = rw (e, str-py_eq "global") at h

  per_tile-Passes :
      (oneshot streaming : Bool)
      → ctx.bound_mode ≡ str "per_tile"
      → Passes (check_bound d ctx oneshot streaming)
      → Passes (check_per_tile d ctx)
  unfolding check_bound py_eq when
  per_tile-Passes oneshot streaming e h = rw e at h

not-global : (d : Fields) → bound_mode_of d ≡ str "per_tile" → bound_mode_of d ≡ str "global" → ⊥
not-global d e e' = str-ne "per_tile" "global" refl (sym e ∙ e')

single : (n : ℕ) → 1 ≤ n → ¬ (ltb_ℤ (pos 1) (pos n) ≡ true) → n ≡ 1
single n low h = elim (dec_lt 1 n) [ yes more ↦ absurd (h (ground arith)) | no few ↦ omega arith ]

module _ (ctx : Context) where
  by_semantics-lem :
      (signed : Bool) (a b : String)
      → ctx.semantics ≡ str (semantics_name signed)
      → by_semantics ctx a b ≡ (if signed then a else b)
  unfolding py_eq
  by_semantics-lem true a b e = rw e
  by_semantics-lem false a b e = rw e

  kind-lem :
      (signed per_tile : Bool)
      → ctx.semantics ≡ str (semantics_name signed)
      → by_semantics ctx (bound_kind_name true per_tile) (bound_kind_name false per_tile)
        ≡ bound_kind_name signed per_tile
  kind-lem true per_tile e = by_semantics-lem true _ _ e
  kind-lem false per_tile e = by_semantics-lem false _ _ e

module _ (parse_int : String → Option ℤ) (d : Fields) where
  -- The bound of a capture whose contract passed, for a chain of `n` products.
  bound_cases :
      (signed : Bool) (n : ℕ) (mode : String)
      → get "semantics" d ≡ str (semantics_name signed)
      → 1 ≤ n
      → OneOf (bound_mode_of d) ("global" ∷ "per_tile" ∷ [])
      → Passes (validate_bounded_contract parse_int d (context d (pos n) mode))
      → (HasGlobalBound d signed × IsChainShape n d) ⊎ ((n ≡ 1) × HasTileBounds d signed)
  bound_cases signed n mode e low (inl global) h =
      let ctx = context d (pos n) mode in
      let (oneshot, streaming, epilogue, bound) = tail_parts parse_int d ctx h in
      let (kind, tiles) =
        global_bound d ctx oneshot streaming (global-Passes d ctx oneshot streaming global bound) in
      inl (
        (global, kind ∙ ap str (kind-lem ctx signed false e), tiles),
        chain_shape n d low (chain-IsSquare d ctx epilogue),
      )
  bound_cases signed n mode e low (inr (inl per_tile)) h =
      let ctx = context d (pos n) mode in
      let (oneshot, streaming, epilogue, bound) = tail_parts parse_int d ctx h in
      let (kind, zero, tiles) =
        per_tile_bound d ctx (per_tile-Passes d ctx oneshot streaming per_tile bound) in
      inr (
        single n low (λ chain. not-global d per_tile (chain-global d ctx epilogue chain)),
        (
          per_tile,
          kind ∙ ap str (kind-lem ctx signed true e),
          zero,
          obj_tiles ctx.semantics ctx.schedule d tiles,
        ),
      )
  bound_cases signed n mode e low (inr (inr h')) h = absurd h'

  -- A capture of signed or of unsigned bounded products that `validate_semantic_contract` accepts
  -- with `validate_bounded_contract` has a global bound of the kind of its semantics and no bounds of
  -- tiles, and is a single product or a chain of products of equal `m`, `n` and `k`; or it has bounds
  -- of its tiles and the bound 0, and is a single product.
  pub accepted_bounded_bounds :
      (signed : Bool)
      → Passes (validate_semantic_contract d (validate_bounded_contract parse_int))
      → get "semantics" d ≡ str (semantics_name signed)
      → (n : ℕ) × Returns (residue_chain_length d) (pos n)
        × ((HasGlobalBound d signed × IsChainShape n d) ⊎ ((n ≡ 1) × HasTileBounds d signed))
  accepted_bounded_bounds signed h e =
      let bounded = validate_bounded_contract parse_int in
      let (chain, mode, length_read, _, _, contract) = contract_parts d bounded h in
      let (n, chain_is, low) = length_positive d chain length_read in
      let checked = dispatched_bounded d bounded signed (context d chain mode) e contract in
      (
        n,
        subst (Returns (residue_chain_length d)) chain_is length_read,
        bound_cases signed n mode e low (flags-bound_mode d bounded h)
            (subst (λ c. Passes (bounded d (context d c mode))) chain_is checked),
      )
