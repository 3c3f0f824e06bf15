-- ===== src/Schema/Bounded/Export.antt =====
-- The export kernels that a bounded capture names in three places.
use rns.Prelude.{not, ◌&&◌, List, String, ◌<>◌}
use rns.Json.{Value, Fields, get, py_eq, is_dict, is_none}
use rns.Outcome.{strs}
use rns.Check.{Check, ◌>>◌, when, reject, require_in}
use rns.Schema.Mode.{fields_of}
use rns.Schema.Context.{Context}
use rns.Schema.Bounded.Names.{
  bounded_i64_export_kernels, bounded_u64_export_kernels, by_semantics, semantics_text,
}

abbrev pub expected_export_kernels : Context → List String
expected_export_kernels ctx = by_semantics ctx bounded_i64_export_kernels bounded_u64_export_kernels

module _ (d : Fields) (ctx : Context) where
  -- `kernel_identity` of a part is registered, and it is the exported kernel.
  unfoldable pub check_identity : Value → String → Value → Check Unit
  check_identity part name export_kernel = when (is_dict part) (do
    let kernel = get "kernel_identity" (fields_of part)
    require_in kernel (strs (expected_export_kernels ctx)) (
        semantics_text ctx
        <> " "
        <> name
        <> ".kernel_identity must be a registered bounded export kernel")
    reject (not (is_none export_kernel) && not (py_eq kernel export_kernel))
        (name <> ".kernel_identity must match export_variant.selected_kernel"))

  unfoldable pub check_export_kernels : Check Unit
  unfolding check_identity
  check_export_kernels = do
    let export_variant = get "export_variant" d
    let export_kernel = get "selected_kernel" (fields_of export_variant)
    when (is_dict export_variant) (
        require_in export_kernel (strs (expected_export_kernels ctx)) (
          semantics_text ctx
          <> " export_variant.selected_kernel must be a registered bounded export kernel"))
    check_identity (get "exact_output_contract" d) "exact_output_contract" export_kernel
    check_identity (get "reconstruction_variant" d) "reconstruction_variant" export_kernel
