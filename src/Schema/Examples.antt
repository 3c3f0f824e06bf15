-- ===== src/Schema/Examples.antt =====
-- Captures that the contracts accept, and the theorems applied to them.
use rns.Prelude.{ℕ, ◌*◌, ◌^◌, ◌<◌, ◌≤◌, ◌≡◌, ◌⊎◌, inl, [], ◌∷◌, String, refl}
use rns.Prelude.Int.{pos}
use rns.Json.{Fields, empty, field, str, int, obj, arr, end, get, get_or, py_eq}
use rns.Outcome.{in_set, Exception, raised}
use rns.Check.{Check, ◌>>=◌, skip, when, when_if, reject, reject_if, require_in, for_each}
use rns.Check.Passes.{Passes, Returns}
use rns.Schema.Kernels.{
  wrap64_hip_u32_kernel, wrap64_low_product_diagonals, wrap64_hip_allowed_kernels, is_prime_modulus,
  is_number,
}
use rns.Schema.Context.{Context}
use rns.Schema.Contract.{
  validate_semantic_contract, check_flags, check_chain_shape, check_independence, dispatch, else_if,
  check_applicable, context,
}
use rns.Schema.Chain.{residue_chain_length, residue_output_mode}
use rns.Schema.Mode.{
  mode_is, benchmark_execution_mode, declared_mode, inferred_mode, is_wrap64_rocwmma_candidate,
  is_vector_alu_runtime_capture,
}
use rns.Trial.{IsPrime, trial}
use rns.Schema.Predicates.{is_finite_oneshot_capture}
use rns.Schema.Finite.{
  validate_finite_u8_contract, check_oneshot, check_modulus, check_autotune_key,
}
use rns.Schema.ExactWide.{
  validate_exact_wide_contract, check_chain, check_limbs, check_status, check_elided, check_kernels,
  check_kernel, check_epilogue_mode,
}
use rns.Schema.ExactWide.Expected.{
  expected_export_kernels, limb_epilogue, expected_status_check, any_nonzero,
  expected_backend_epilogue, mentions_sparse_a,
}
use rns.Schema.Finite.{check_shape as check_finite_shape, check_schedule as check_finite_schedule}
use rns.Schema.ExactWide.{check_shape as check_wide_shape, check_schedule as check_wide_schedule}
use rns.Schema.Wrap64.{validate_wrap64_contract, check_hip_direct, check_layout}
use rns.Schema.Expect.{expect, expect_scope}
use rns.Schema.Contract.Branches.{known_semantics}
use rns.Schema.Contract.Chains.{accepted_chain_shape}
use rns.Schema.Contract.Dispatch.{
  accepted_wrap64_depth, accepted_field_modulus, accepted_semantics, unhashable_semantics_raises,
}
use rns.Json.Laws.{OneOf}
use rns.Schema.Finite.Accepts.{finite_accepts_ring}
use rns.Schema.ExactWide.Accepts.{
  HasStatusCheck, exact_wide_accepts_limbs, exact_wide_accepts_kernel,
}

-- The bounded contract plays no part in these captures.
abbrev no_bounded : Fields → Context → Check Unit
no_bounded d ctx = skip

abbrev wrap64_capture : Fields
wrap64_capture = field "semantics" (str "wrap_u64_mod_2_64") (
    field "backend_selected" (str "hip-direct") (
      field "selected_kernel" (str wrap64_hip_u32_kernel) (
        field "m" (int (pos 16)) (
          field "n" (int (pos 16)) (
            field "k" (int (pos 4096)) (
              field "prefix" (int (pos 0)) (
                field "bound_kind" (str "none") (
                  field "bound" (int (pos 0)) (
                    field "packed_layout_version" (str "byte_limb_v1")
                      (field "epilogue_type" (str "low64_wrap_export") empty))))))))))

wrap64_capture-Passes : Passes (validate_semantic_contract wrap64_capture no_bounded)
unfolding validate_semantic_contract check_flags check_chain_shape check_independence dispatch
    else_if check_applicable residue_chain_length residue_output_mode ◌>>=◌ get_or require_in in_set
    py_eq reject reject_if when when_if for_each mode_is benchmark_execution_mode declared_mode
    inferred_mode is_wrap64_rocwmma_candidate is_vector_alu_runtime_capture validate_wrap64_contract
    wrap64_hip_allowed_kernels check_hip_direct check_layout expect expect_scope
wrap64_capture-Passes = refl

accepted_wrap64_depth_example : wrap64_low_product_diagonals * (4096 * (255 * 255)) < 2 ^ 32
unfolding get_or
accepted_wrap64_depth_example =
    accepted_wrap64_depth wrap64_capture no_bounded 4096 wrap64_capture-Passes refl refl (inl refl)
      refl

-- A finite capture of the reference backend, over a modulus.
abbrev finite_capture : String → ℕ → Fields
finite_capture semantics modulus = field "semantics" (str semantics) (
    field "backend_selected" (str "cpu-reference") (
      field "finite_modulus" (int (pos modulus)) (
        field "prefix" (int (pos 0)) (
          field "bound_kind" (str "none") (
            field "bound" (int (pos 0)) (
              field "epilogue_type" (str "canonical_u8_export")
                (field "input_distribution" (str "u8_binary_0_1") empty)))))))

field_capture-Passes :
    Passes (validate_semantic_contract (finite_capture "finite_field_u8" 7) no_bounded)
unfolding validate_semantic_contract check_flags check_chain_shape check_independence dispatch
    else_if check_applicable residue_chain_length residue_output_mode get_or require_in in_set py_eq
    reject reject_if when when_if for_each ◌>>=◌ mode_is benchmark_execution_mode declared_mode
    inferred_mode is_wrap64_rocwmma_candidate is_vector_alu_runtime_capture expect expect_scope
    validate_finite_u8_contract is_finite_oneshot_capture check_oneshot check_finite_shape
    check_modulus check_autotune_key is_prime_modulus trial check_finite_schedule
field_capture-Passes = refl

accepted_field_modulus_example :
    (p : ℕ) × (get "finite_modulus" (finite_capture "finite_field_u8" 7) ≡ int (pos p))
    × IsPrime p
    × (p ≤ 251)
unfolding get_or
accepted_field_modulus_example =
    accepted_field_modulus (finite_capture "finite_field_u8" 7) no_bounded field_capture-Passes refl

-- An exact-wide capture of the reference backend with three limbs.
abbrev wide_capture : Fields
wide_capture = field "semantics" (str "exact_wide_signed") (
    field "backend_selected" (str "cpu-reference") (
      field "prefix" (int (pos 18)) (
        field "bound_kind" (str "none") (
          field "bound" (int (pos 0)) (
            field "epilogue_type" (str "exact_wide_signed_limb_export") (
              field "exact_wide_limb_count" (int (pos 3)) (
                field "exact_wide_export_status_check"
                  (str "elided_full_width_device_reconstruction")
                  (field "export_variant"
                    (obj (
                      field "selected_kernel" (str "cpu_reference_export_exact_wide_signed_limbs")
                        empty))
                    (field "exact_output_contract"
                      (obj (
                        field "kernel_identity" (str "cpu_reference_export_exact_wide_signed_limbs")
                          empty))
                      empty)))))))))

abbrev wide_context : Context
wide_context = context wide_capture (pos 1) "host_export"

wide_capture-Passes : Passes (validate_exact_wide_contract wide_capture wide_context)
unfolding get_or require_in in_set py_eq reject reject_if when when_if for_each ◌>>=◌ mode_is
    benchmark_execution_mode declared_mode inferred_mode is_wrap64_rocwmma_candidate
    is_vector_alu_runtime_capture expect expect_scope validate_exact_wide_contract check_wide_shape
    check_chain check_limbs check_status check_elided check_kernels check_kernel
    expected_export_kernels limb_epilogue expected_status_check any_nonzero check_wide_schedule
    check_epilogue_mode expected_backend_epilogue mentions_sparse_a is_number
wide_capture-Passes = refl

exact_wide_accepts_limbs_example :
    (n : ℕ) × (get "exact_wide_limb_count" wide_capture ≡ int (pos n))
    × (1 ≤ n)
    × (n ≤ 32)
    × HasStatusCheck wide_capture wide_context n
exact_wide_accepts_limbs_example =
    exact_wide_accepts_limbs wide_capture wide_context wide_capture-Passes

exact_wide_accepts_kernel_example :
    OneOf
      (str "cpu_reference_export_exact_wide_signed_limbs")
      (expected_export_kernels wide_context)
    × (str "cpu_reference_export_exact_wide_signed_limbs"
        ≡ str "cpu_reference_export_exact_wide_signed_limbs")
unfolding get_or
exact_wide_accepts_kernel_example =
    exact_wide_accepts_kernel wide_capture wide_context
      (field "selected_kernel" (str "cpu_reference_export_exact_wide_signed_limbs") empty)
      (field "kernel_identity" (str "cpu_reference_export_exact_wide_signed_limbs") empty)
      wide_capture-Passes refl refl

abbrev ring_context : Context
ring_context = context (finite_capture "finite_ring_u8" 256) (pos 1) "host_export"

ring_capture-Passes :
    Passes (validate_finite_u8_contract (finite_capture "finite_ring_u8" 256) ring_context)
unfolding get_or require_in in_set py_eq reject reject_if when when_if for_each ◌>>=◌ mode_is
    benchmark_execution_mode declared_mode inferred_mode is_wrap64_rocwmma_candidate
    is_vector_alu_runtime_capture expect expect_scope validate_finite_u8_contract
    is_finite_oneshot_capture check_oneshot check_finite_shape check_modulus check_autotune_key
    check_finite_schedule
ring_capture-Passes = refl

finite_accepts_ring_example :
    (q : ℕ) × (get "finite_modulus" (finite_capture "finite_ring_u8" 256) ≡ int (pos q))
    × (2 ≤ q)
    × (q ≤ 256)
unfolding get_or
finite_accepts_ring_example =
    finite_accepts_ring (finite_capture "finite_ring_u8" 256) ring_context ring_capture-Passes refl

accepted_chain_shape_example :
    (n : ℕ) × (mode : String) × Returns (residue_chain_length wrap64_capture) (pos n)
    × Returns (residue_output_mode wrap64_capture) mode
    × (((n ≡ 1) × (mode ≡ "host_export"))
        ⊎ ((2 ≤ n)
            × OneOf
                (get "semantics" wrap64_capture)
                ("bounded_i64" ∷ "bounded_u64" ∷ "exact_wide_signed" ∷ "exact_wide_unsigned" ∷ [])))
accepted_chain_shape_example = accepted_chain_shape wrap64_capture no_bounded wrap64_capture-Passes

accepted_semantics_example : OneOf (get "semantics" wrap64_capture) known_semantics
unfolding get_or
accepted_semantics_example = accepted_semantics wrap64_capture no_bounded wrap64_capture-Passes refl

-- A list as the semantics.
abbrev list_capture : Fields
list_capture = field "semantics" (arr end) empty

unhashable_semantics_raises_example :
    (e : Exception) × ((validate_semantic_contract list_capture no_bounded).0 ≡ raised e)
unfolding get_or
unhashable_semantics_raises_example = unhashable_semantics_raises list_capture no_bounded refl
