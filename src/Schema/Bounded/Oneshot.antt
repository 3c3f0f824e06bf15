-- ===== src/Schema/Bounded/Oneshot.antt =====
-- The one-shot captures of bounded products.
use rns.Prelude.{Bool, true, false, not, ◌&&◌, Option, none, some, [], ◌∷◌, String, ◌^◌}
use rns.Prelude.Int.{ℤ, pos, leb_ℤ, ◌*ℤ◌}
use rns.Json.{
  Value, Fields, dyadic, infinite, not_a_number, null, bool, int, float, str, get, get_or, is_dict,
  is_true,
}
use rns.Outcome.{
  Outcome, done, raised, type_error, overflow_error, value_error, strs, negate, ◌and◌,
}
use rns.Check.{Check, ◌>>=◌, ◌>>◌, lift, when, when_if, reject, reject_if, require_in}
use rns.Schema.Mode.{fields_of, is, mode_is}
use rns.Schema.Context.{Context}
use rns.Schema.Expect.{expect, expect_scope}
use rns.Schema.Predicates.{
  is_direct_hip_bounded_native_input_oneshot_capture,
  is_direct_hip_bounded_resident_fallback_oneshot_capture,
}
use rns.Schema.Bounded.Names.{KernelNames, oneshot_native, oneshot_resident_fallback}
use rns.Schema.Bounded.Kinds.{check_single, check_kernel_name, check_backend_names}

-- `int(value) >= 512`; `parse_int` is `int` of a text, none where it raises ValueError.
unfoldable pub at_least_512 : (String → Option ℤ) → Value → Outcome Bool
at_least_512 parse_int (int n) = done (leb_ℤ (pos 512) n)
at_least_512 parse_int (bool b) = done false
at_least_512 parse_int (float (dyadic a m)) = done (leb_ℤ (pos 512 *ℤ pos (2 ^ m)) a)
at_least_512 parse_int (float (infinite plus)) = raised overflow_error
at_least_512 parse_int (float not_a_number) = raised value_error
at_least_512 parse_int (str s) = elim (parse_int s) [
  | some n ↦ done (leb_ℤ (pos 512) n)
  | none ↦ raised value_error
]
at_least_512 parse_int _ = raised type_error

module _ (parse_int : String → Option ℤ) (d : Fields) (ctx : Context) where
  unfoldable pub is_large_oneshot_shape : Outcome Bool
  unfolding at_least_512
  is_large_oneshot_shape =
      at_least_512 parse_int (get_or "m" (int (pos 0)) d)
      and at_least_512 parse_int (get_or "n" (int (pos 0)) d)
      and at_least_512 parse_int (get_or "k" (int (pos 0)) d)

  abbrev pub oneshot_names : (native_input : Bool) (large : Bool) → KernelNames
  oneshot_names true large = oneshot_native large
  oneshot_names false large = oneshot_resident_fallback

  -- The message names the scope in other words than `expect_scope`.
  unfoldable pub check_fallback_scope : Value → Check Unit
  check_fallback_scope metadata =
      when (is_dict metadata && is_true (get "gpu_event_timing" (fields_of metadata))) (
        expect (fields_of metadata) "gpu_event_timing_source_scope"
          (str "direct_hip_oneshot_resident_fallback_default_stream_operation_groups")
          "direct-HIP one-shot captures must use timing_metadata.gpu_event_timing_source_scope=direct_hip_oneshot_resident_fallback_default_stream_operation_groups for resident fallback metadata")

  -- The shape is looked at for a native input only.
  unfoldable pub check_oneshot_hip : Check Unit
  unfolding is_large_oneshot_shape check_kernel_name check_backend_names check_fallback_scope
  check_oneshot_hip = do
    native_input ← lift (is_direct_hip_bounded_native_input_oneshot_capture d)
    resident_fallback ← lift (is_direct_hip_bounded_resident_fallback_oneshot_capture d)
    reject (not native_input && not resident_fallback)
        "direct-HIP one-shot bounded captures must use either prefix-9 native-input metadata or selected-prefix resident fallback metadata"
    large ← lift (done native_input and is_large_oneshot_shape)
    let names = oneshot_names native_input large
    check_kernel_name d ctx "direct-HIP one-shot bounded" names
    when (is_dict ctx.backend_metadata) (
        check_backend_names d ctx "direct-HIP one-shot bounded" names
          (fields_of ctx.backend_metadata))
    when native_input (
        expect_scope (get "timing_metadata" d) "direct_hip_oneshot_default_stream_operation_groups")
    when resident_fallback (check_fallback_scope (get "timing_metadata" d))

  unfoldable pub check_oneshot : Check Unit
  unfolding check_single check_oneshot_hip
  check_oneshot = do
    expect d "benchmark" (str "rns8_bounded_gemm_public_oneshot")
        "one-shot captures must use benchmark=rns8_bounded_gemm_public_oneshot"
    reject_if (negate (mode_is d "public_oneshot_transient_native_inputs"))
        "one-shot captures must use benchmark_execution_mode=public_oneshot_transient_native_inputs"
    require_in (get "backend_selected" d) (strs ("cpu-reference" ∷ "hip-direct" ∷ []))
        "one-shot bounded captures must select cpu-reference or hip-direct"
    require_in (get "backend_requested" d) (strs ("cpu-reference" ∷ "cpu" ∷ "hip-direct" ∷ []))
        "one-shot bounded captures must request cpu or hip-direct"
    check_single d ctx "one-shot bounded"
    reject (is_true (get "reuse_packed_inputs" d))
        "one-shot bounded captures must not use packed-input reuse"
    require_in (get "pack_mode" d) (null ∷ str "per_repeat_repack" ∷ [])
        "one-shot bounded captures must use pack_mode=per_repeat_repack"
    require_in (get "prepack_reuse_strategy" d) (null ∷ str "none" ∷ [])
        "one-shot bounded captures must use prepack_reuse_strategy=none"
    when_if (is (get "backend_selected" d) "hip-direct") check_oneshot_hip
