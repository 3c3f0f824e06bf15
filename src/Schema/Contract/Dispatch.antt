-- ===== src/Schema/Contract/Dispatch.antt =====
-- The choice of a contract, and what the contracts give for a capture that passes the whole of
-- `validate_semantic_contract`.
use rns.Prelude.{ℕ, ◌*◌, ◌^◌, ◌<◌, ◌≤◌, ◌≡◌, true, false, [], ◌∷◌, inl, inr, ap, sym, ◌∙◌, subst}
use rns.Prelude.Int.{pos}
use rns.Trial.{IsPrime}
use rns.Json.{Fields, str, int, get, is_str, hashable}
use rns.Json.Laws.{OneOf, in_set-OneOf, py_eq-str, str-py_eq}
use rns.Outcome.{Exception, done, raised, type_error, in_set}
use rns.Check.{Check, ◌>>=◌}
use rns.Check.Passes.{Passes, Raises, bind-Raises, raised-Raises}
use rns.Schema.Kernels.{wrap64_low_product_diagonals}
use rns.Schema.Context.{Context}
use rns.Schema.Wrap64.{validate_wrap64_contract}
use rns.Schema.Wrap64.Accepts.{IsU32Kernel, wrap64_accumulators_fit}
use rns.Schema.Finite.{validate_finite_u8_contract}
use rns.Schema.Finite.Accepts.{finite_accepts_field}
use rns.Schema.Contract.{validate_semantic_contract, dispatch, else_if, context, k_value_of}
use rns.Schema.Contract.Chains.{contract_parts}
use rns.Schema.Contract.Branches.{
  else_if-Passes, past, taken, field_tests, pos_inj, k_value_lem, done_eq, supported, in_bounded,
  in_exact_wide, unhashable-ne, known_semantics,
}

module _ (d : Fields) (bounded : Fields → Context → Check Unit) where
  dispatched :
      (ctx : Context)
      → is_str ctx.semantics ≡ true
      → Passes (dispatch d bounded ctx)
      → OneOf ctx.semantics known_semantics
  unfolding dispatch
  dispatched ctx text h = elim (else_if-Passes _ _ _ h) [
    | inl (e, _) ↦ inl (py_eq-str _ _ (done_eq _ _ e))
    | inr (_, h1) ↦ inr (elim (else_if-Passes _ _ _ h1) [
      | inl (e, _) ↦ in_bounded _ e
      | inr (_, h2) ↦ inr (
          inr (elim (else_if-Passes _ _ _ h2) [
            | inl (e, _) ↦ in_exact_wide _ e
            | inr (_, h3) ↦ inr (
                inr (elim (else_if-Passes _ _ _ h3) [
                  | inl (e, _) ↦ in_set-OneOf _ ("finite_ring_u8" ∷ "finite_field_u8" ∷ []) e
                  | inr (_, h4) ↦ absurd (supported _ text h4)
                ]))
          ]))
    ])
  ]

  -- A capture that `validate_semantic_contract` accepts and whose semantics is a text has one of the
  -- seven semantics that have a contract.
  pub accepted_semantics :
      Passes (validate_semantic_contract d bounded)
      → is_str (get "semantics" d) ≡ true
      → OneOf (get "semantics" d) known_semantics
  accepted_semantics h text =
      let (chain, mode, _, _, _, contract) = contract_parts d bounded h in
      dispatched (context d chain mode) text contract

  dispatched_wrap64 :
      (ctx : Context)
      → ctx.semantics ≡ str "wrap_u64_mod_2_64"
      → Passes (dispatch d bounded ctx)
      → Passes (validate_wrap64_contract d ctx)
  unfolding dispatch
  dispatched_wrap64 ctx e h = taken _ _ _ (ap done (rw e (str-py_eq "wrap_u64_mod_2_64"))) h

  dispatched_field :
      (ctx : Context)
      → ctx.semantics ≡ str "finite_field_u8"
      → Passes (dispatch d bounded ctx)
      → Passes (validate_finite_u8_contract d ctx)
  unfolding dispatch
  dispatched_field ctx e h =
      let (wrap, narrow, wide, finite) = field_tests ctx.semantics e in
      taken _ _ _ finite (past _ _ _ wide (past _ _ _ narrow (past _ _ _ wrap h)))

  -- A capture over a finite field that `validate_semantic_contract` accepts has a prime modulus of
  -- at most 251.
  pub accepted_field_modulus :
      Passes (validate_semantic_contract d bounded)
      → get "semantics" d ≡ str "finite_field_u8"
      → (p : ℕ) × (get "finite_modulus" d ≡ int (pos p)) × IsPrime p × (p ≤ 251)
  accepted_field_modulus h e =
      let (chain, mode, _, _, _, contract) = contract_parts d bounded h in
      finite_accepts_field d (context d chain mode)
        (dispatched_field (context d chain mode) e contract) e

  -- In a wraparound capture of the backend hip-direct that `validate_semantic_contract` accepts with a
  -- kernel of 32-bit accumulators and whose depth is a natural number `k`, no accumulator overflows:
  -- `k` products of bytes over the eight byte diagonals stay below `2 ^ 32`.
  pub accepted_wrap64_depth :
      (k : ℕ)
      → Passes (validate_semantic_contract d bounded)
      → get "semantics" d ≡ str "wrap_u64_mod_2_64"
      → get "backend_selected" d ≡ str "hip-direct"
      → IsU32Kernel (get "selected_kernel" d)
      → get "k" d ≡ int (pos k)
      → wrap64_low_product_diagonals * (k * (255 * 255)) < 2 ^ 32
  accepted_wrap64_depth k h e backend u32 depth_read =
      let (chain, mode, _, _, _, contract) = contract_parts d bounded h in
      let accepted = dispatched_wrap64 (context d chain mode) e contract in
      let (depth, read, fits) =
        wrap64_accumulators_fit d (context d chain mode) accepted backend u32 in
      subst (λ n. wrap64_low_product_diagonals * (n * (255 * 255)) < 2 ^ 32)
        (pos_inj depth k (sym read ∙ ap k_value_of depth_read ∙ k_value_lem k)) fits

  unhashable-Raises :
      (ctx : Context) → hashable ctx.semantics ≡ false → Raises (dispatch d bounded ctx)
  unfolding dispatch else_if in_set ◌>>=◌
  unhashable-Raises ctx h = (type_error, rw (unhashable-ne ctx.semantics _ h, h))

  -- Where the semantics is a list or a dict, `validate_semantic_contract` ends with an exception and
  -- not with messages, whatever else the capture holds and whatever the bounded contract is.
  pub unhashable_semantics_raises :
      hashable (get "semantics" d) ≡ false
      → (e : Exception) × ((validate_semantic_contract d bounded).0 ≡ raised e)
  unfolding validate_semantic_contract
  unhashable_semantics_raises h = bind-Raises _ _ (λ chain. bind-Raises _ _ (λ mode.
      bind-Raises _ _ (λ _. bind-Raises _ _ (λ _.
        bind-Raises _ _ (λ _. raised-Raises _ _ (unhashable-Raises (context d chain mode) h))))))
