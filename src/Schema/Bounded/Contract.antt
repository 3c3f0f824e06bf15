-- ===== src/Schema/Bounded/Contract.antt =====
-- `validate_bounded_contract`, the parts one after another.
use rns.Prelude.{String, Option}
use rns.Prelude.Int.{ℤ}
use rns.Json.{Fields}
use rns.Check.{Check, ◌>>=◌, ◌>>◌, lift, when}
use rns.Schema.Context.{Context}
use rns.Schema.Predicates.{
  is_bounded_oneshot_capture, is_direct_hip_bounded_native_a_reuse_b_capture,
  is_streaming_overlap_capture,
}
use rns.Schema.Bounded.Export.{check_export_kernels}
use rns.Schema.Bounded.Kinds.{check_kinds}
use rns.Schema.Bounded.Oneshot.{check_oneshot}
use rns.Schema.Bounded.Chains.{check_chains}
use rns.Schema.Bounded.Tail.{check_epilogue_type, check_bound}

unfoldable pub validate_bounded_contract :
    (parse_int : String → Option ℤ) → Fields → Context → Check Unit
validate_bounded_contract parse_int d ctx = do
  oneshot_capture ← lift (is_bounded_oneshot_capture d)
  native_a_reuse_b_capture ← lift (is_direct_hip_bounded_native_a_reuse_b_capture d)
  streaming_overlap_capture ← lift (is_streaming_overlap_capture d)
  check_export_kernels d ctx
  when oneshot_capture (check_oneshot parse_int d ctx)
  check_kinds d ctx native_a_reuse_b_capture
  check_chains d ctx streaming_overlap_capture
  check_epilogue_type d ctx
  check_bound d ctx oneshot_capture streaming_overlap_capture
