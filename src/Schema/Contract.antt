-- ===== src/Schema/Contract.antt =====
-- semantic_contracts.py: `validate_semantic_contract`, the rules that all contracts share and the
-- choice of a contract by the semantics. The contract of semantic_bounded.py is an argument, which
-- Schema/Bounded fills.
pub mod Chains
pub mod Dispatch
pub mod Branches
use rns.Prelude.{Bool, true, not, ◌&&◌, ◌||◌, List, [], ◌∷◌, String, ◌<>◌, str_eq, if◌then◌else◌}
use rns.Prelude.Int.{ℤ, pos, ltb_ℤ, leb_ℤ, eqb_ℤ}
use rns.Json.{
  Value, Fields, end, null, str, bool, arr, get, get_or, py_eq, is_dict, is_bool, is_true, is_false,
  is_none, is_int,
}
use rns.Outcome.{Outcome, in_set, strs, ◌and◌, ◌or◌, negate}
use rns.Check.{Check, ◌>>=◌, ◌>>◌, lift, skip, error, when, reject, reject_if, require_in}
use rns.Schema.Kernels.{int_at_least}
use rns.Schema.Mode.{fields_of, is, holds, int_value, mode_is, bounded_semantics, finite_semantics}
use rns.Schema.Predicates.{
  is_public_oneshot_capture, is_direct_hip_vector_to_rns_chain_capture, is_host_api_batch_capture,
  is_grouped_dispatch_capture, is_hip_graph_replay_capture, is_streaming_overlap_capture,
}
use rns.Schema.Chain.{residue_chain_length, residue_output_mode}
use rns.Schema.Context.{Context}
use rns.Schema.Expect.{expect}
use rns.Schema.Wrap64.{validate_wrap64_contract}
use rns.Schema.ExactWide.{validate_exact_wide_contract}
use rns.Schema.Finite.{validate_finite_u8_contract}

abbrev pub exact_wide_semantics : List Value
exact_wide_semantics = strs ("exact_wide_signed" ∷ "exact_wide_unsigned" ∷ [])

abbrev pub rns_chain_semantics : List Value
rns_chain_semantics =
    strs ("bounded_i64" ∷ "bounded_u64" ∷ "exact_wide_signed" ∷ "exact_wide_unsigned" ∷ [])

-- `v is not None and not isinstance(v, bool)`
abbrev pub not_flag : Value → Bool
not_flag v = not (is_none v) && not (is_bool v)

-- `int(k) if _is_int(k) and k > 0 else 0`
abbrev pub k_value_of : Value → ℤ
k_value_of k = if int_at_least (pos 1) k then int_value k else pos 0

unfoldable pub unsupported : Value → Check Unit
unsupported (str s) = error ("unsupported benchmark semantics " <> s)
unsupported _ = skip

-- `elif semantics in {…}: …`
unfoldable pub else_if : Outcome Bool → Check Unit → Check Unit → Check Unit
else_if test m rest = lift test >>= λ b. if b then m else rest

module _ (d : Fields) where
  -- The two local values that reading them may report about.
  abbrev pub context : ℤ → String → Context
  context chain mode = record {
    semantics = get "semantics" d;
    prefix = get "prefix" d;
    packed_layout = get "packed_layout_version" d;
    schedule = get "schedule_metadata" d;
    backend_metadata = get "backend_metadata" d;
    k_value = k_value_of (get "k" d);
    bound_mode = get_or "bound_mode" (str "global") d;
    residue_chain_length = chain;
    residue_output_mode = mode;
    status_check = get "exact_wide_export_status_check" d;
    prefix_policy = get "contract_prefix_policy" d;
    metadata = get "timing_metadata" d;
  }

  unfoldable pub check_flags : Check Unit
  check_flags = do
    require_in (get_or "bound_mode" (str "global") d) (strs ("global" ∷ "per_tile" ∷ []))
        "bound_mode must be global or per_tile"
    reject (not_flag (get "residue_chain_final_export" d))
        "residue_chain_final_export must be a boolean"
    reject (not_flag (get "residue_chain_independent_final_export" d))
        "residue_chain_independent_final_export must be a boolean"
    reject_if
        (holds (not (is_none (get "exact_wide_export_status_check" d)))
          and negate (in_set (get "semantics" d) exact_wide_semantics))
        "exact_wide_export_status_check must be null outside exact-wide captures"

  unfoldable pub check_chain_shape : ℤ → String → Check Unit
  check_chain_shape chain mode = do
    reject_if
        (holds (ltb_ℤ (pos 1) chain) and negate (in_set (get "semantics" d) rns_chain_semantics))
        "residue_chain_length > 1 captures must use bounded or exact-wide RNS semantics"
    reject (str_eq mode "residue_current_rns" && leb_ℤ chain (pos 1))
        "residue_output_mode=residue_current_rns requires residue_chain_length > 1"
    reject (eqb_ℤ chain (pos 1) && not (str_eq mode "host_export"))
        "residue_chain_length=1 captures must use residue_output_mode=host_export"
    let final = get "residue_chain_final_export" d
    reject
        (ltb_ℤ (pos 1) chain
          && is_bool final
          && not (py_eq final (bool (str_eq mode "host_export"))))
        "residue_chain_final_export must match residue_output_mode for chain captures"

  -- What a chain of independent products declares.
  unfoldable pub check_independent_metadata : Value → Check Unit
  check_independent_metadata metadata = when (is_dict metadata) (
      reject (not (is_true (get "residue_chain_independent_final_export" (fields_of metadata))))
        "independent final-output residue-chain captures must set timing_metadata.residue_chain_independent_final_export=true"
      >> reject (not (is_true (get "residue_chain_final_export" (fields_of metadata))))
          "independent final-output residue-chain captures must set timing_metadata.residue_chain_final_export=true")

  unfoldable pub check_independent : ℤ → String → Check Unit
  unfolding check_independent_metadata
  check_independent chain mode = do
    require_in (get "semantics" d) rns_chain_semantics
        "independent final-output residue-chain captures require bounded or exact-wide RNS semantics"
    reject (leb_ℤ chain (pos 1) || not (str_eq mode "host_export"))
        "independent final-output residue-chain captures must use host_export residue_chain_length > 1"
    reject (not (is_true (get "residue_chain_final_export" d)))
        "independent final-output residue-chain captures must set residue_chain_final_export=true"
    reject_if (negate (mode_is d "residue_chain_independent_final_host_export"))
        "independent final-output residue-chain captures must use benchmark_execution_mode=residue_chain_independent_final_host_export"
    expect d "pack_mode" (str "per_repeat_repack")
        "independent final-output residue-chain captures must use pack_mode=per_repeat_repack"
    reject (not (is_false (get "reuse_packed_inputs" d)))
        "independent final-output residue-chain captures must not use packed-input reuse"
    let operands = get "prepack_reuse_operands" d
    reject (not (is_none operands) && not (py_eq operands (arr end)))
        "independent final-output residue-chain captures must not declare reused operands"
    require_in (get "prepack_reuse_strategy" d) (null ∷ str "none" ∷ [])
        "independent final-output residue-chain captures must use prepack_reuse_strategy=none"
    check_independent_metadata (get "timing_metadata" d)

  unfoldable pub check_independence : ℤ → String → Check Unit
  unfolding check_independent
  check_independence chain mode =
      if is_true (get "residue_chain_independent_final_export" d)
      then check_independent chain mode
      else reject_if (mode_is d "residue_chain_independent_final_host_export")
          "benchmark_execution_mode=residue_chain_independent_final_host_export requires residue_chain_independent_final_export=true"

  unfoldable pub dispatch : (Fields → Context → Check Unit) → Context → Check Unit
  unfolding else_if
  dispatch bounded ctx =
      else_if (is ctx.semantics "wrap_u64_mod_2_64") (validate_wrap64_contract d ctx) (
        else_if (in_set ctx.semantics bounded_semantics) (bounded d ctx) (
          else_if (in_set ctx.semantics exact_wide_semantics) (validate_exact_wide_contract d ctx) (
            else_if (in_set ctx.semantics finite_semantics) (validate_finite_u8_contract d ctx)
              (unsupported ctx.semantics))))

  unfoldable pub expected_applicable : Value → Value → Outcome Bool
  expected_applicable prefix bound_mode =
      holds (int_at_least (pos 1) prefix)
      and negate (is_public_oneshot_capture d)
      and negate (in_set (get "semantics" d) bounded_semantics and is bound_mode "per_tile")
      and negate (is_direct_hip_vector_to_rns_chain_capture d)
      and negate (is_host_api_batch_capture d)
      and negate (is_grouped_dispatch_capture d)
      and negate (is_hip_graph_replay_capture d)
      and negate (is_streaming_overlap_capture d)
      and negate (is (get "backend_selected" d) "hip-vector-alu-int64")

  unfoldable pub check_applicable : Check Unit
  check_applicable = elim (get "per_modulus_gemm_estimate_applicable" d) [
    | null ↦ skip
    | bool b ↦ when (is_int (get "prefix" d)) (
        lift (expected_applicable (get "prefix" d) (get_or "bound_mode" (str "global") d))
        >>= λ expected.
            reject (not (py_eq (bool b) (bool expected)))
              "per_modulus_gemm_estimate_applicable must match the fixed-prefix contract")
    | _ ↦ error "per_modulus_gemm_estimate_applicable must be a boolean"
  ]

  unfoldable pub validate_semantic_contract : (Fields → Context → Check Unit) → Check Unit
  unfolding check_flags check_chain_shape check_independence dispatch check_applicable
  validate_semantic_contract bounded = do
    chain ← residue_chain_length d
    mode ← residue_output_mode d
    check_flags
    check_chain_shape chain mode
    check_independence chain mode
    dispatch bounded (context chain mode)
    check_applicable
