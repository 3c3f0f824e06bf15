-- ===== src/Schema/Output/Accepts.antt =====
-- What a capture whose output layout passes satisfies.
use rns.Prelude.{
  ℕ, ◌+◌, ◌≤◌, ◌≡◌, Bool, true, false, not, String, refl, arith, ap, ◌∙◌, if◌then◌else◌, Bool-cases,
  inl, inr,
}
use rns.Prelude.Int.{pos, negsuc, ◌+ℤ◌, eqb_ℤ}
use rns.Json.{Value, Fields, str, int, get}
use rns.Check.{Check, error}
use rns.Check.Passes.{Passes, then-Passes, lift_passes, reject-Passes, when-Passes}
use rns.Schema.Kernels.{int_at_least}
use rns.Schema.Expect.{expect, expect-Passes_str}
use rns.Schema.Output.{
  output_destination_layout, has_output_layout, check_layout, check_matching, check_strides,
  validate_output_layout_metadata,
}

-- The leading dimension and the padding, as numbers.
at_least :
    (lower : ℕ) (v : Value)
    → int_at_least (pos lower) v ≡ true
    → (n : ℕ) × (v ≡ int (pos n)) × (lower ≤ n)
at_least lower (int (pos n)) e = (n, refl, ground arith)
at_least lower (int (negsuc n)) e = absurd (ground arith)
at_least lower v e = absurd (cc)

noisy : (message : String) → Passes (error message) → ⊥
noisy message h = cc (ap (λ (p : Check Unit). p.1) h)

module _ (d metadata : Fields) where
  same_sum : (ld n p : ℕ) → not (eqb_ℤ (pos ld) (pos n +ℤ pos p)) ≡ false → ld ≡ n + p
  same_sum ld n p h = ground arith

  layout_branch :
      (known : Bool) (layout message other : String)
      → Passes (
          if known
          then expect metadata "benchmark_output_destination_layout" (str layout) message
          else error other)
      → get "benchmark_output_destination_layout" metadata ≡ str layout
  layout_branch true layout message other h = expect-Passes_str metadata _ layout message h
  layout_branch false layout message other h = absurd (noisy other h)

  strides :
      (output_ld padding : Value)
      → Passes (check_strides d metadata output_ld padding)
      → (int_at_least (pos 1) output_ld ≡ true)
        × (int_at_least (pos 0) padding ≡ true)
        × Passes (check_matching d metadata output_ld padding)
  unfolding check_strides
  strides output_ld padding h = elim (Bool-cases (int_at_least (pos 1) output_ld)) [
    | inl positive ↦ elim (Bool-cases (int_at_least (pos 0) padding)) [
      | inl padded ↦ (positive, padded, rw (positive, padded) at h)
      | inr bad ↦ absurd (noisy _ (rw (positive, bad) at h))
    ]
    | inr bad ↦ absurd (noisy _ (rw bad at h))
  ]

  stride_sum :
      (n ld p : ℕ)
      → get "n" d ≡ int (pos n)
      → Passes (check_matching d metadata (int (pos ld)) (int (pos p)))
      → ld ≡ n + p
  unfolding check_matching
  stride_sum n ld p e h =
      let (sum, _) = then-Passes _ _ tt h in same_sum ld n p (rw e at (reject-Passes _ _ sum))

  layout_named :
      (output_ld padding : Value)
      → Passes (check_matching d metadata output_ld padding)
      → get "benchmark_output_destination_layout" metadata ≡ str (output_destination_layout padding)
  unfolding check_matching check_layout
  layout_named output_ld padding h =
      let (_, h1) = then-Passes _ _ tt h in
      let (layout, _) = then-Passes _ _ tt h1 in
      let (known, _, named) = lift_passes _ _ tt layout in layout_branch known _ _ _ named

  -- Where a capture mentions an output layout, has an integer `n` and passes
  -- `validate_output_layout_metadata`, its leading dimension is `n` plus the padding, is positive, and
  -- the layout that the metadata names is the one of the padding.
  pub output_layout_accepts :
      (n : ℕ)
      → has_output_layout d metadata ≡ true
      → get "n" d ≡ int (pos n)
      → Passes (validate_output_layout_metadata d metadata)
      → (padding : ℕ) × (get "output_ld_padding" d ≡ int (pos padding))
        × (get "output_logical_ld" d ≡ int (pos (n + padding)))
        × (1 ≤ n + padding)
        × (get "benchmark_output_destination_layout" metadata
            ≡ str (output_destination_layout (int (pos padding))))
  unfolding validate_output_layout_metadata
  output_layout_accepts n present e h =
      let (positive, padded, matching) =
        strides (get "output_logical_ld" d) (get "output_ld_padding" d)
          (when-Passes _ _ h present) in
      let (ld, ld_read, low) = at_least 1 (get "output_logical_ld" d) positive in
      let (p, p_read, _) = at_least 0 (get "output_ld_padding" d) padded in
      let matched = rw (ld_read, p_read) at matching in
      let sum = stride_sum n ld p e matched in
      (
        p,
        p_read,
        ld_read ∙ ap (λ (k : ℕ). int (pos k)) sum,
        omega arith,
        layout_named (int (pos ld)) (int (pos p)) matched,
      )
