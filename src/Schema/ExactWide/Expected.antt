-- ===== src/Schema/ExactWide/Expected.antt =====
-- semantic_exact_wide.py: the kernels, the epilogues and the status check that the contract of
-- exact-wide captures expects.
use text.Mathlib.Text.{find?}
use rns.Prelude.{
  Bool, true, false, not, ◌||◌, List, [], ◌∷◌, String, Option, none, some, if◌then◌else◌,
}
use rns.Prelude.Int.{ℤ, pos, ltb_ℤ}
use rns.Json.{Value, Fields, Items, end, item, empty, field, str, int, arr, obj, py_eq}
use rns.Outcome.{Outcome, ◌and◌, ◌or◌}
use rns.Schema.Kernels.{is_number}
use rns.Schema.Mode.{holds}
use rns.Schema.Context.{Context}

abbrev pub signed_export_kernels : List String
signed_export_kernels =
    "cpu_reference_export_exact_wide_signed_limbs"
    ∷ "hip_direct_export_exact_wide_signed_fixed_prefix18_fixed_limbs_device"
    ∷ "hip_direct_export_exact_wide_signed_fixed_prefix18_variable_limbs_device"
    ∷ "hip_direct_export_exact_wide_signed_fixed_prefix20_fixed_limbs_device"
    ∷ "hip_direct_export_exact_wide_signed_fixed_prefix20_variable_limbs_device"
    ∷ "hip_direct_export_exact_wide_signed_limbs_device"
    ∷ "hip_direct_export_exact_wide_signed_tree_crt_limbs_device" ∷ []

abbrev pub unsigned_export_kernels : List String
unsigned_export_kernels =
    "cpu_reference_export_exact_wide_unsigned_limbs"
    ∷ "hip_direct_export_exact_wide_unsigned_fixed_prefix18_fixed_limbs_device"
    ∷ "hip_direct_export_exact_wide_unsigned_fixed_prefix18_variable_limbs_device"
    ∷ "hip_direct_export_exact_wide_unsigned_fixed_prefix20_fixed_limbs_device"
    ∷ "hip_direct_export_exact_wide_unsigned_fixed_prefix20_variable_limbs_device"
    ∷ "hip_direct_export_exact_wide_unsigned_limbs_device"
    ∷ "hip_direct_export_exact_wide_unsigned_tree_crt_limbs_device" ∷ []

abbrev pub is_signed : Context → Bool
is_signed ctx = py_eq ctx.semantics (str "exact_wide_signed")

unfoldable pub expected_export_kernels : Context → List String
expected_export_kernels ctx =
    if is_signed ctx then signed_export_kernels else unsigned_export_kernels

-- `{semantics}` in a message; this validator is called for two texts only.
abbrev pub semantics_text : Context → String
semantics_text ctx = if is_signed ctx then "exact_wide_signed" else "exact_wide_unsigned"

unfoldable pub limb_epilogue : Context → String
limb_epilogue ctx =
    if is_signed ctx then "exact_wide_signed_limb_export" else "exact_wide_unsigned_limb_export"

unfoldable pub expected_status_check : ℤ → String
expected_status_check limb_count =
    if ltb_ℤ limb_count (pos 3)
    then "required_for_range_check"
    else "elided_full_width_device_reconstruction"

-- `any(_is_number(value) and float(value) != 0.0 for value in values)`
unfoldable pub any_nonzero : Items → Outcome Bool
any_nonzero end = holds false
any_nonzero (item v vs) = (is_number v and holds (not (py_eq v (int (pos 0))))) or any_nonzero vs

-- `"sparse_a" in str(value or "")`. The text of a list or a dict quotes the texts in it, and that of
-- any other value has no such word.
abbrev has_sparse_a : String → Bool
has_sparse_a s = elim (find? s "sparse_a") [ some at ↦ true | none ↦ false ]

unfoldable mutual
  pub mentions_sparse_a : Value → Bool
  mentions_sparse_a (str s) = has_sparse_a s
  mentions_sparse_a (arr xs) = mentions_items xs
  mentions_sparse_a (obj d) = mentions_fields d
  mentions_sparse_a _ = false

  mentions_items : Items → Bool
  mentions_items end = false
  mentions_items (item v vs) = mentions_sparse_a v || mentions_items vs

  mentions_fields : Fields → Bool
  mentions_fields empty = false
  mentions_fields (field k v d) = has_sparse_a k || mentions_sparse_a v || mentions_fields d

-- `expected_epilogues.get(str(backend))`, with the sparse variant.
unfoldable pub expected_backend_epilogue : Value → Value → Option String
expected_backend_epilogue backend selected_kernel =
    if py_eq backend (str "hipblaslt")
    then some "separate_i32_scratch_reduce_rns_output"
    else if py_eq backend (str "ck")
    then some "ck_fused_i32_to_centered_residue_rns_output"
    else if py_eq backend (str "rocwmma")
    then some "rocwmma_fused_i32_to_centered_residue_rns_output"
    else if py_eq backend (str "amdgpu-builtins")
    then (if mentions_sparse_a selected_kernel
        then some "amdgpu_builtin_sparse_a_fused_i32_to_centered_residue_rns_output"
        else some "amdgpu_builtin_fused_i32_to_centered_residue_rns_output")
    else none

-- The text of a value that is known to be a text.
abbrev pub text_value : Value → String
text_value (str s) = s
text_value _ = ""
