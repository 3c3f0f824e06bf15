-- ===== src/Schema/Wrap64/Accepts.antt =====
-- What a capture without errors satisfies.
use rns.Prelude.{
  ℕ, ◌*◌, ◌^◌, ◌<◌, ◌≤◌, true, false, ◌&&◌, [], ◌∷◌, ◌≡◌, ◌⊎◌, inl, inr, refl, arith, ap, or_false,
  not-false, subst, Bool-cases,
}
use rns.Prelude.Int.{ℤ, pos, negsuc}
use rns.Json.{Value, Fields, null, str, int, get, py_eq, is_none}
use rns.Json.Laws.{py_eq-str, str-py_eq, str-ne, OneOf, in_set-OneOf}
use rns.Outcome.{done}
use rns.Check.{when_if}
use rns.Check.Passes.{
  Passes, then-Passes, lift_passes, reject-Passes, when_if-Passes, require_in-Passes,
}
use rns.Schema.Kernels.{
  int_at_least, int_at_most, wrap64_hip_allowed_kernels, wrap64_hip_u32_kernel,
  wrap64_hip_u32_colpair_kernel, wrap64_hip_u64_kernel, wrap64_low_product_diagonals,
}
use rns.Schema.Mode.{is}
use rns.Schema.Context.{Context}
use rns.Schema.Expect.{expect-Passes_str}
use rns.Schema.Wrap64.{check_hip_direct, check_layout, validate_wrap64_contract}

module _ (d : Fields) (ctx : Context) where
  -- The parts of the contract that the theorems below are about.
  contract_parts :
      Passes (validate_wrap64_contract d ctx)
      → (py_eq ctx.bound_mode (str "global") ≡ true)
        × Passes (when_if (is (get "backend_selected" d) "hip-direct") (check_hip_direct d ctx))
        × Passes (check_layout d ctx)
  unfolding validate_wrap64_contract
  contract_parts h =
      let (candidate, e, h1) = lift_passes _ _ tt h in
      let (_, h2) = then-Passes _ _ tt h1 in
      let (mode, h3) = then-Passes _ _ tt h2 in
      let (hip, h4) = then-Passes _ _ tt h3 in
      let (_, h5) = then-Passes _ _ tt h4 in
      let (layout, _) = then-Passes _ _ tt h5 in (not-false _ (reject-Passes _ _ mode), hip, layout)

  -- What `check_layout` requires.
  pub record IsLayout : Type 0 where
    pub unbounded : get "bound_kind" d ≡ str "none"
    pub zero_bound : py_eq (get "bound" d) (int (pos 0)) ≡ true
    pub untiled : get "tile_bounds_u64" d ≡ null
    pub no_prefix : py_eq ctx.prefix (int (pos 0)) ≡ true
    pub byte_limbs : ctx.packed_layout ≡ str "byte_limb_v1"
    pub low64 : get "epilogue_type" d ≡ str "low64_wrap_export"

  is_none-eq : (v : Value) → is_none v ≡ true → v ≡ null
  is_none-eq null e = refl
  is_none-eq v e = absurd (cc)

  layout_sound : Passes (check_layout d ctx) → IsLayout
  unfolding check_layout
  layout_sound h =
      let (bound, h1) = then-Passes _ _ tt h in
      let (tiles, h2) = then-Passes _ _ tt h1 in
      let (prefix, h3) = then-Passes _ _ tt h2 in
      let (packed, h4) = then-Passes _ _ tt h3 in
      let (epilogue, _) = then-Passes _ _ tt h4 in
      let (kind, value) = or_false _ _ (reject-Passes _ _ bound) in
      record {
        unbounded = py_eq-str _ _ (not-false _ kind);
        zero_bound = not-false _ value;
        untiled = is_none-eq _ (not-false _ (reject-Passes _ _ tiles));
        no_prefix = not-false _ (reject-Passes _ _ prefix);
        byte_limbs = py_eq-str _ _ (not-false _ (reject-Passes _ _ packed));
        low64 = expect-Passes_str d _ _ _ epilogue;
      }

  hip_direct_kernel :
      Passes (check_hip_direct d ctx)
      → OneOf
          (get "selected_kernel" d)
          (wrap64_hip_allowed_kernels (get "m" d) (get "n" d) (int ctx.k_value))
  unfolding check_hip_direct
  hip_direct_kernel h =
      let (kernel, _) = then-Passes _ _ tt h in in_set-OneOf _ _ (require_in-Passes _ _ _ kernel)

  -- A capture that `validate_wrap64_contract` accepts has the byte-limb layout of the wraparound
  -- contract: a global bound mode with no bound, no tiles, prefix 0, and the low 64 bits exported.
  pub wrap64_accepts_layout :
      Passes (validate_wrap64_contract d ctx) → (ctx.bound_mode ≡ str "global") × IsLayout
  wrap64_accepts_layout h =
      let (mode, _, layout) = contract_parts h in (py_eq-str _ _ mode, layout_sound layout)

  accepted_kernel :
      Passes (validate_wrap64_contract d ctx)
      → get "backend_selected" d ≡ str "hip-direct"
      → OneOf
          (get "selected_kernel" d)
          (wrap64_hip_allowed_kernels (get "m" d) (get "n" d) (int ctx.k_value))
  accepted_kernel h backend =
      let (_, hip, _) = contract_parts h in
      hip_direct_kernel (when_if-Passes _ _ hip (ap done (rw backend (str-py_eq "hip-direct"))))

-- The kernels with 32-bit accumulators.
abbrev pub IsU32Kernel : Value → Type 0
IsU32Kernel v = (v ≡ str wrap64_hip_u32_kernel) ⊎ (v ≡ str wrap64_hip_u32_colpair_kernel)

-- Of the kernels that the helper allows, the 32-bit ones come with a depth of at most 4096.
u64-not_u32 : IsU32Kernel (str wrap64_hip_u64_kernel) → ⊥
u64-not_u32 (inl e) = str-ne _ _ refl e
u64-not_u32 (inr e) = str-ne _ _ refl e

deep_kernels :
    (m n : Value) (k : ℤ)
    → (int_at_least (pos 1) (int k) && int_at_most (pos 4096) (int k)) ≡ false
    → wrap64_hip_allowed_kernels m n (int k) ≡ wrap64_hip_u64_kernel ∷ []
unfolding wrap64_hip_allowed_kernels
deep_kernels m n k h = ground arith

shallow :
    (k : ℤ)
    → (int_at_least (pos 1) (int k) && int_at_most (pos 4096) (int k)) ≡ true
    → (depth : ℕ) × (k ≡ pos depth) × (depth ≤ 4096)
shallow (pos depth) h = (depth, refl, ground arith)
shallow (negsuc n) h = absurd (ground arith)

small_depth :
    (v m n : Value) (k : ℤ)
    → OneOf v (wrap64_hip_allowed_kernels m n (int k))
    → IsU32Kernel v
    → (depth : ℕ) × (k ≡ pos depth) × (depth ≤ 4096)
small_depth v m n k allowed u32 =
    elim (Bool-cases (int_at_least (pos 1) (int k) && int_at_most (pos 4096) (int k))) [
      | inl small ↦ shallow k small
      | inr deep ↦ elim (rw (deep_kernels m n k deep) at allowed) [
        | inl e ↦ absurd (u64-not_u32 (subst IsU32Kernel e u32))
        | inr none_left ↦ absurd none_left
      ]
    ]

-- In a direct-HIP capture that the contract accepts with a kernel of 32-bit accumulators, the sum of
-- `k` products of bytes over the eight byte diagonals is below `2 ^ 32`: no accumulator overflows.
pub wrap64_accumulators_fit :
    (d : Fields) (ctx : Context)
    → Passes (validate_wrap64_contract d ctx)
    → get "backend_selected" d ≡ str "hip-direct"
    → IsU32Kernel (get "selected_kernel" d)
    → (depth : ℕ) × (ctx.k_value ≡ pos depth)
      × (wrap64_low_product_diagonals * (depth * (255 * 255)) < 2 ^ 32)
wrap64_accumulators_fit d ctx h backend u32 =
    let (depth, e, small) = small_depth _ _ _ _ (accepted_kernel d ctx h backend) u32 in
    (depth, e, omega arith)
