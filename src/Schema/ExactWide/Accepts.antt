-- ===== src/Schema/ExactWide/Accepts.antt =====
-- What an exact-wide capture without errors satisfies.
use rns.Prelude.{
  ◌<◌, dec_lt, ℕ, ◌≤◌, ◌≡◌, true, false, not, ◌&&◌, String, List, [], ◌∷◌, refl, arith, ◌⊎◌, inl,
  inr, not-false, ap, sym, ◌∙◌, Bool-cases, subst,
}
use rns.Prelude.Int.{pos, negsuc}
use rns.Json.{Value, Fields, null, str, int, obj, get, py_eq, is_none, is_dict}
use rns.Json.Laws.{OneOf, in_set-OneOf, py_eq-str}
use rns.Check.{Check, when}
use rns.Check.Passes.{Passes, then-Passes, reject-Passes, when-Passes, require_in-Passes}
use rns.Schema.Kernels.{int_at_least, int_at_most}
use rns.Schema.Mode.{int_value, fields_of}
use rns.Schema.Context.{Context}
use rns.Schema.ExactWide.{
  check_limbs, check_status, check_kernel, check_kernels, validate_exact_wide_contract,
}
use rns.Schema.ExactWide.Expected.{expected_export_kernels, expected_status_check}

OneOf-str : (v : Value) (ss : List String) → OneOf v ss → (s : String) × (v ≡ str s)
OneOf-str v [] h = absurd h
OneOf-str v (s ∷ ss) (inl e) = (s, e)
OneOf-str v (s ∷ ss) (inr h) = OneOf-str v ss h

below_three : (n : ℕ) → n < 3 → expected_status_check (pos n) ≡ "required_for_range_check"
unfolding expected_status_check
below_three n small = ground arith

from_three :
    (n : ℕ) → 3 ≤ n → expected_status_check (pos n) ≡ "elided_full_width_device_reconstruction"
unfolding expected_status_check
from_three n large = ground arith

module _ (d : Fields) (ctx : Context) where
  contract_parts :
      Passes (validate_exact_wide_contract d ctx)
      → Passes (check_limbs d ctx (get "exact_wide_limb_count" d)) × Passes (check_kernels d ctx)
  unfolding validate_exact_wide_contract
  contract_parts h =
      let (_, h1) = then-Passes _ _ tt h in
      let (_, h2) = then-Passes _ _ tt h1 in
      let (limbs, h3) = then-Passes _ _ tt h2 in
      let (kernels, _) = then-Passes _ _ tt h3 in (limbs, kernels)

  -- The status check is absent, or the one that the limb count asks for.
  abbrev pub HasStatusCheck : ℕ → Type 0
  HasStatusCheck n =
      (ctx.status_check ≡ null)
      ⊎ ((n < 3) × (ctx.status_check ≡ str "required_for_range_check"))
      ⊎ ((3 ≤ n) × (ctx.status_check ≡ str "elided_full_width_device_reconstruction"))

  named_status : (n : ℕ) → ctx.status_check ≡ str (expected_status_check (pos n)) → HasStatusCheck n
  unfolding expected_status_check
  named_status n e = elim (dec_lt n 3) [
    | yes small ↦ inr (inl (small, e ∙ ap str (below_three n small)))
    | no large ↦ inr (inr (omega arith, e ∙ ap str (from_three n (omega arith))))
  ]

  is_none-eq : (v : Value) → is_none v ≡ true → v ≡ null
  is_none-eq null e = refl
  is_none-eq v e = absurd (cc)

  limb_range :
      (v : Value)
      → Passes (check_limbs d ctx v)
      → (int_at_least (pos 1) v && int_at_most (pos 32) v) ≡ true
  unfolding check_limbs
  limb_range v h = elim (Bool-cases (int_at_least (pos 1) v && int_at_most (pos 32) v)) [
    | inl e ↦ e
    | inr e ↦ absurd (cc (ap (λ (p : Check Unit). p.1) (rw e at h)))
  ]

  limb_number :
      (v : Value)
      → (int_at_least (pos 1) v && int_at_most (pos 32) v) ≡ true
      → (n : ℕ) × (v ≡ int (pos n)) × (1 ≤ n) × (n ≤ 32)
  limb_number (int (pos n)) e = (n, refl, ground arith, ground arith)
  limb_number (int (negsuc n)) e = absurd (ground arith)
  limb_number v e = absurd (cc)

  check_named :
      (expected : String) → Passes (check_status d ctx expected) → ctx.status_check ≡ str expected
  unfolding check_status
  check_named expected h =
      let (named, _) = then-Passes _ _ tt h in py_eq-str _ _ (not-false _ (reject-Passes _ _ named))

  in_range :
      (v : Value)
      → (int_at_least (pos 1) v && int_at_most (pos 32) v) ≡ true
      → check_limbs d ctx v
        ≡ when
            (not (is_none ctx.status_check))
            (check_status d ctx (expected_status_check (int_value v)))
  unfolding check_limbs
  in_range v e = rw e

  limb_check :
      (v : Value) (n : ℕ)
      → v ≡ int (pos n)
      → Passes (check_limbs d ctx v)
      → is_none ctx.status_check ≡ false
      → Passes (check_status d ctx (expected_status_check (pos n)))
  limb_check v n e h given =
      subst (λ w. Passes (check_status d ctx (expected_status_check (int_value w)))) e
        (when-Passes _ _ (sym (in_range v (limb_range v h)) ∙ h) (ap not given))

  limb_status :
      (v : Value) (n : ℕ) → v ≡ int (pos n) → Passes (check_limbs d ctx v) → HasStatusCheck n
  limb_status v n e h = elim (Bool-cases (is_none ctx.status_check)) [
    | inl absent ↦ inl (is_none-eq _ absent)
    | inr given ↦ named_status n (check_named _ (limb_check v n e h given))
  ]

  -- A capture that `validate_exact_wide_contract` accepts exports 1 to 32 limbs, and its status
  -- check is null or absent, or `required_for_range_check` below 3 limbs and the elided one from 3
  -- limbs on.
  pub exact_wide_accepts_limbs :
      Passes (validate_exact_wide_contract d ctx)
      → (n : ℕ) × (get "exact_wide_limb_count" d ≡ int (pos n))
        × (1 ≤ n)
        × (n ≤ 32)
        × HasStatusCheck n
  exact_wide_accepts_limbs h =
      let (limbs, _) = contract_parts h in
      let (n, e, low, high) = limb_number _ (limb_range _ limbs) in
      (n, e, low, high, limb_status _ n e limbs)

  exported_kernel :
      (variant : Fields)
      → get "export_variant" d ≡ obj variant
      → Passes (check_kernels d ctx)
      → OneOf (get "selected_kernel" variant) (expected_export_kernels ctx)
  unfolding check_kernels
  exported_kernel variant e h =
      let (first, _) = then-Passes _ _ tt h in
      let named = require_in-Passes _ _ _ (when-Passes _ _ first (ap is_dict e)) in
      subst (λ w. OneOf (get "selected_kernel" (fields_of w)) (expected_export_kernels ctx)) e
        (in_set-OneOf _ _ named)

  -- A kernel that is named beside a registered one is the same kernel.
  same_kernel :
      (part : Value) (key label other : String) (kernel : Value)
      → OneOf kernel (expected_export_kernels ctx)
      → Passes (check_kernel d ctx part key label kernel other)
      → get key (fields_of part) ≡ kernel
  unfolding check_kernel
  same_kernel part key label other kernel registered h =
      let (s, e) = OneOf-str _ _ registered in
      let (_, same) = then-Passes _ _ tt h in
      subst
        (λ w.
          (not (is_none w) && not (py_eq (get key (fields_of part)) w)) ≡ false
          → get key (fields_of part) ≡ w)
        (sym e) (λ fits. py_eq-str _ s (not-false _ fits)) (reject-Passes _ _ same)

  checked_kernels :
      (variant output : Fields)
      → get "export_variant" d ≡ obj variant
      → get "exact_output_contract" d ≡ obj output
      → Passes (check_kernels d ctx)
      → get "kernel_identity" output ≡ get "selected_kernel" variant
  unfolding check_kernels
  checked_kernels variant output e e' h =
      let (_, h1) = then-Passes _ _ tt h in
      let (second, _) = then-Passes _ _ tt h1 in
      let checked = when-Passes _ _ second (ap is_dict e') in
      let registered = exported_kernel variant e h in
      let selected = ap (λ w. get "selected_kernel" (fields_of w)) e in
      let same =
        same_kernel (get "exact_output_contract" d) _ "exact_output_contract.kernel_identity"
          "exact_output_contract.kernel_identity" _
          (subst (λ w. OneOf w (expected_export_kernels ctx)) (sym selected) registered) checked in
      ap (λ w. get "kernel_identity" (fields_of w)) (sym e') ∙ same ∙ selected

  -- A capture that `validate_exact_wide_contract` accepts and in which `export_variant` and
  -- `exact_output_contract` are objects exports with a kernel that is registered for its signedness,
  -- and the output contract names the same kernel.
  pub exact_wide_accepts_kernel :
      (variant output : Fields)
      → Passes (validate_exact_wide_contract d ctx)
      → get "export_variant" d ≡ obj variant
      → get "exact_output_contract" d ≡ obj output
      → OneOf (get "selected_kernel" variant) (expected_export_kernels ctx)
        × (get "kernel_identity" output ≡ get "selected_kernel" variant)
  exact_wide_accepts_kernel variant output h e e' =
      let (_, kernels) = contract_parts h in
      (exported_kernel variant e kernels, checked_kernels variant output e e' kernels)
