-- ===== src/Schema/Contract/Chains.antt =====
-- The rules on residue chains that hold of every capture without errors.
use rns.Prelude.{
  ℕ, ◌≤◌, ◌<◌, ◌≡◌, Bool, true, false, not, ◌&&◌, String, eq_iff, [], ◌∷◌, refl, arith, ◌⊎◌, inl,
  inr, ap, sym, ◌∙◌, Bool-cases, dec_lt, subst,
}
use rns.Prelude.Int.{ℤ, pos, negsuc, eqb_ℤ}
use rns.Schema.Kernels.{int_at_least}
use rns.Json.{Value, Fields, int, get, get_or}
use rns.Json.Laws.{OneOf, in_set-OneOf}
use rns.Outcome.{Outcome, done, in_set, ◌and◌, negate}
use rns.Check.{Check, ◌>>=◌, ◌>>◌, error, pure}
use rns.Check.Passes.{Returns, Passes, bind_passes, then-Passes, reject-Passes, reject_if-Passes}
use rns.Schema.Chain.{residue_chain_length, residue_output_mode}
use rns.Schema.Context.{Context}
use rns.Schema.Mode.{holds, int_value}
use rns.Schema.Contract.{
  validate_semantic_contract, check_chain_shape, dispatch, context, rns_chain_semantics,
}

module _ (d : Fields) (bounded : Fields → Context → Check Unit) where
  -- The parts of an accepted capture's validation that the theorems are about.
  pub contract_parts :
      Passes (validate_semantic_contract d bounded)
      → (chain : ℤ) × (mode : String) × Returns (residue_chain_length d) chain
        × Returns (residue_output_mode d) mode
        × Passes (check_chain_shape d chain mode)
        × Passes (dispatch d bounded (context d chain mode))
  unfolding validate_semantic_contract
  contract_parts h =
      let (chain, chain_read, h1) = bind_passes (residue_chain_length d) _ tt h in
      let (mode, mode_read, h2) = bind_passes (residue_output_mode d) _ tt h1 in
      let (_, h3) = then-Passes _ _ tt h2 in
      let (shape, h4) = then-Passes _ _ tt h3 in
      let (_, h5) = then-Passes _ _ tt h4 in
      let (contract, _) = then-Passes _ _ tt h5 in
      (chain, mode, chain_read, mode_read, shape, contract)

returned_value : {A : Type 0} (a b : A) → Returns (done a, []) b → a ≡ b
returned_value {A = A} a b h = cc (ap (λ (p : Check A). p.0) h)

noisy : (message : String) (a b : ℤ) → Returns (error message >> pure a) b → ⊥
unfolding ◌>>=◌
noisy message a b h = cc (ap (λ (p : Check ℤ). p.1) h)

-- A test with a guard that holds, in a check that passed.
guarded :
    (a : Bool) (r : Outcome Bool) → holds a and negate r ≡ done false → a ≡ true → r ≡ done true
guarded true (done true) h e = refl
guarded a r h e = absurd (cc)

guarded_test : (a b : Bool) → (a && not b) ≡ false → a ≡ true → b ≡ true
guarded_test true true h e = refl
guarded_test a b h e = absurd (cc)

one_test : (n : ℕ) → 1 ≤ n → ¬ (1 < n) → eqb_ℤ (pos n) (pos 1) ≡ true
one_test n low few = ground arith

module _ (d : Fields) where
  chain_value :
      (v : Value) → int_at_least (pos 1) v ≡ true → (n : ℕ) × (int_value v ≡ pos n) × (1 ≤ n)
  chain_value (int (pos n)) e = (n, refl, ground arith)
  chain_value (int (negsuc n)) e = absurd (ground arith)
  chain_value v e = absurd (cc)

  pub length_positive :
      (chain : ℤ) → Returns (residue_chain_length d) chain → (n : ℕ) × (chain ≡ pos n) × (1 ≤ n)
  unfolding residue_chain_length
  length_positive chain h =
      elim (Bool-cases (int_at_least (pos 1) (get_or "residue_chain_length" (int (pos 1)) d))) [
        | inl e ↦
            let (n, value, low) = chain_value (get_or "residue_chain_length" (int (pos 1)) d) e in
            (n, sym (returned_value _ chain (rw e at h)) ∙ value, low)
        | inr e ↦ absurd (noisy _ _ chain (rw e at h))
      ]

  shape_cases :
      (n : ℕ) (mode : String)
      → 1 ≤ n
      → Passes (check_chain_shape d (pos n) mode)
      → ((n ≡ 1) × (mode ≡ "host_export"))
        ⊎ ((2 ≤ n) × (in_set (get "semantics" d) rns_chain_semantics ≡ done true))
  unfolding check_chain_shape
  shape_cases n mode low h =
      let (semantic, h1) = then-Passes _ _ tt h in
      let (_, h2) = then-Passes _ _ tt h1 in
      let (single, _) = then-Passes _ _ tt h2 in
      let host = reject-Passes _ _ single in
      elim (dec_lt 1 n) [
        | yes more ↦ inr (more, guarded _ _ (reject_if-Passes _ _ semantic) (ground arith))
        | no few ↦ inl (
          omega arith,
          (eq_iff mode "host_export").0 (guarded_test _ _ host (one_test n low few)),
        )
      ]

  -- A capture that `validate_semantic_contract` accepts, whatever the bounded contract asks for, is a
  -- single product with a host export, or a chain of two products or more under one of the four RNS
  -- semantics.
  pub accepted_chain_shape :
      (bounded : Fields → Context → Check Unit)
      → Passes (validate_semantic_contract d bounded)
      → (n : ℕ) × (mode : String) × Returns (residue_chain_length d) (pos n)
        × Returns (residue_output_mode d) mode
        × (((n ≡ 1) × (mode ≡ "host_export"))
            ⊎ ((2 ≤ n)
                × OneOf (get "semantics" d) (
                    "bounded_i64" ∷ "bounded_u64" ∷ "exact_wide_signed" ∷ "exact_wide_unsigned"
                    ∷ [])))
  accepted_chain_shape bounded h =
      let (chain, mode, length_read, mode_read, shape, _) = contract_parts d bounded h in
      let (n, e, low) = length_positive chain length_read in
      (
        n,
        mode,
        subst (Returns (residue_chain_length d)) e length_read,
        mode_read,
        elim (shape_cases n mode low (subst (λ c. Passes (check_chain_shape d c mode)) e shape)) [
          | inl single ↦ inl single
          | inr (many, semantic) ↦ inr (
            many,
            in_set-OneOf _
                ("bounded_i64" ∷ "bounded_u64" ∷ "exact_wide_signed" ∷ "exact_wide_unsigned" ∷ [])
                semantic,
          )
        ],
      )
