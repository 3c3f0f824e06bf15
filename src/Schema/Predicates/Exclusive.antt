-- ===== src/Schema/Predicates/Exclusive.antt =====
-- Which predicates of validator_predicates.py exclude each other.
use rns.Prelude.{
  ◌≡◌, Bool, true, false, All, List, [], ◌∷◌, String, str_eq, eq_iff, Option, some, refl, ap, sym,
  ◌∙◌, if◌then◌else◌, ◌⊎◌, inl, inr,
}
use rns.Json.{Fields, get}
use rns.Outcome.{Outcome, done, raised, in_set, ◌and◌, ◌or◌}
use rns.Schema.Mode.{benchmark_execution_mode, mode_is, mode_in, is, bounded_semantics}
use rns.Schema.Predicates.{
  is_direct_hip_native_to_rns_bridge_capture, is_direct_hip_vector_to_rns_chain_capture,
  is_direct_hip_bounded_residue_channel_fusion_capture, is_host_api_batch_capture,
  is_grouped_dispatch_capture, is_hip_graph_replay_capture,
  is_direct_hip_bounded_uniform_small_reuse_a_capture,
  is_direct_hip_bounded_uniform_small_transient_capture,
}

-- The kinds of captures that are told apart by the execution mode.
pub data Kind : Type 0 where
  rns_bridge rns_chain channel_fusion host_batch grouped graph_replay : Kind
  small_reuse_a small_transient : Kind

abbrev chain_modes : List String
chain_modes =
    "vector_native_to_direct_rns_chain" ∷ "vector_native_host_export_repack_direct_rns_chain" ∷ []

abbrev graph_modes : List String
graph_modes =
    "hip_graph_replay_resident_rns_chain" ∷ "hip_graph_replay_bounded_pack_gemm_export"
    ∷ "hip_graph_replay_finite_u8_pack_gemm_export" ∷ "hip_graph_replay_exact_wide_pack_gemm_export"
    ∷ "hip_graph_replay_wrap64_pack_gemm_export" ∷ []

-- The predicate of a kind.
abbrev pub capture_is : Fields → Kind → Outcome Bool
capture_is d rns_bridge = is_direct_hip_native_to_rns_bridge_capture d
capture_is d rns_chain = is_direct_hip_vector_to_rns_chain_capture d
capture_is d channel_fusion = is_direct_hip_bounded_residue_channel_fusion_capture d
capture_is d host_batch = is_host_api_batch_capture d
capture_is d grouped = is_grouped_dispatch_capture d
capture_is d graph_replay = is_hip_graph_replay_capture d
capture_is d small_reuse_a = is_direct_hip_bounded_uniform_small_reuse_a_capture d
capture_is d small_transient = is_direct_hip_bounded_uniform_small_transient_capture d

mode_kind : String → Option Kind
mode_kind m =
    if str_eq m "auto_native_to_rns_bridge"
    then some rns_bridge
    else if str_eq m "vector_native_to_direct_rns_chain"
    then some rns_chain
    else if str_eq m "vector_native_host_export_repack_direct_rns_chain"
    then some rns_chain
    else if str_eq m "residue_channel_fusion_native_inputs"
    then some channel_fusion
    else if str_eq m "benchmark_host_api_batch"
    then some host_batch
    else if str_eq m "benchmark_grouped_dispatch_evidence"
    then some grouped
    else if str_eq m "transient_uniform_small_i8_b_resident_i8_a_reuse"
    then some small_reuse_a
    else if str_eq m "transient_uniform_small_i8_ab_inputs"
    then some small_transient
    else some graph_replay

and_right : (a b : Outcome Bool) → (a and b) ≡ done true → b ≡ done true
and_right (done true) b h = h
and_right a b h = absurd (cc h)

and_left : (a b : Outcome Bool) → (a and b) ≡ done true → a ≡ done true
and_left (done true) b h = refl
and_left a b h = absurd (cc h)

or_cases : (a b : Outcome Bool) → (a or b) ≡ done true → (a ≡ done true) ⊎ (b ≡ done true)
or_cases (done true) b h = inl refl
or_cases (done false) b h = inr h
or_cases (raised e) b h = absurd (cc h)

done_inj : (a b : Bool) → done a ≡ done b → a ≡ b
done_inj a b h = cc h

mode_inj : (m n : String) → done m ≡ done n → m ≡ n
mode_inj m n h = cc h

some_inj : (k l : Kind) → some k ≡ some l → k ≡ l
some_inj k l h = cc h

-- The mode of the capture is of the kind.
HasKind : Fields → Kind → Type 0
HasKind d k = (m : String) × (benchmark_execution_mode d ≡ done m) × (mode_kind m ≡ some k)

module _ (d : Fields) where
  mode_read : (s : String) → mode_is d s ≡ done true → benchmark_execution_mode d ≡ done s
  unfolding mode_is
  mode_read s h = go (benchmark_execution_mode d) h
    where
      go :
          (r : Outcome String)
          → elim r [ done m ↦ done (str_eq m s) | raised e ↦ raised e ] ≡ done true
          → r ≡ done s
      go (done m) e = ap done ((eq_iff m s).0 (done_inj _ _ e))
      go (raised x) e = absurd (cc e)

  mode-HasKind :
      (s : String) (k : Kind) → mode_kind s ≡ some k → mode_is d s ≡ done true → HasKind d k
  unfolding HasKind
  mode-HasKind s k e h = (s, mode_read s h, e)

  mode_in-HasKind :
      (ss : List String) (k : Kind)
      → All (λ s. mode_kind s ≡ some k) ss
      → mode_in d ss ≡ done true
      → HasKind d k
  unfolding mode_in
  mode_in-HasKind [] k e h = absurd (cc h)
  mode_in-HasKind (s ∷ ss) k (e, es) h = elim (or_cases (mode_is d s) (mode_in d ss) h) [
    | inl here ↦ mode-HasKind s k e here
    | inr there ↦ mode_in-HasKind ss k es there
  ]

  -- What follows the tests on the backend and the semantics.
  after_backend :
      (rest : Outcome Bool)
      → (is (get "backend_selected" d) "hip-direct"
          and in_set (get "semantics" d) bounded_semantics
          and rest)
        ≡ done true
      → rest ≡ done true
  after_backend rest h =
      and_right (in_set (get "semantics" d) bounded_semantics) rest
        (and_right (is (get "backend_selected" d) "hip-direct") _ h)

  packed_mode :
      (pack strategy : String) (mode rest : Outcome Bool)
      → (is (get "backend_selected" d) "hip-direct"
          and in_set (get "semantics" d) bounded_semantics
          and is (get "pack_mode" d) pack
          and is (get "prepack_reuse_strategy" d) strategy
          and mode
          and rest)
        ≡ done true
      → mode ≡ done true
  packed_mode pack strategy mode rest h = and_left mode rest (
      and_right (is (get "prepack_reuse_strategy" d) strategy) _
        (and_right (is (get "pack_mode" d) pack) _ (after_backend _ h)))

  capture-HasKind : (k : Kind) → capture_is d k ≡ done true → HasKind d k
  unfolding mode_kind is_direct_hip_native_to_rns_bridge_capture
      is_direct_hip_vector_to_rns_chain_capture is_direct_hip_bounded_residue_channel_fusion_capture
      is_host_api_batch_capture is_grouped_dispatch_capture is_hip_graph_replay_capture
      is_direct_hip_bounded_uniform_small_reuse_a_capture
      is_direct_hip_bounded_uniform_small_transient_capture
  capture-HasKind rns_bridge h =
      mode-HasKind "auto_native_to_rns_bridge" rns_bridge refl (after_backend _ h)
  capture-HasKind rns_chain h =
      mode_in-HasKind chain_modes rns_chain (refl, (refl, tt)) (after_backend _ h)
  capture-HasKind channel_fusion h =
      mode-HasKind "residue_channel_fusion_native_inputs" channel_fusion refl (
        and_left _ _ (
          and_right (is (get "benchmark" d) "rns8_bounded_gemm_residue_channel_fusion_experiment") _
            (after_backend _ h)))
  capture-HasKind host_batch h = mode-HasKind "benchmark_host_api_batch" host_batch refl h
  capture-HasKind grouped h = mode-HasKind "benchmark_grouped_dispatch_evidence" grouped refl h
  capture-HasKind graph_replay h =
      mode_in-HasKind graph_modes graph_replay (refl, (refl, (refl, (refl, (refl, tt))))) h
  capture-HasKind small_reuse_a h =
      mode-HasKind "transient_uniform_small_i8_b_resident_i8_a_reuse" small_reuse_a refl
        (packed_mode "prepacked_reuse_a" "persistent_matrix_residency" _ _ h)
  capture-HasKind small_transient h =
      mode-HasKind "transient_uniform_small_i8_ab_inputs" small_transient refl
        (packed_mode "per_repeat_repack" "none" _ _ h)

  same_kind : (k l : Kind) → HasKind d k → HasKind d l → k ≡ l
  unfolding HasKind
  same_kind k l (m, e, km) (m', e', lm) =
      let same : m ≡ m' = mode_inj m m' (sym e ∙ e') in
      some_inj k l (sym km ∙ ap mode_kind same ∙ lm)

  -- A capture is of at most one of eight kinds: two of these predicates that both answer true are
  -- the same.
  pub capture_kinds_exclude :
      (k l : Kind) → capture_is d k ≡ done true → capture_is d l ≡ done true → k ≡ l
  capture_kinds_exclude k l hk hl = same_kind k l (capture-HasKind k hk) (capture-HasKind l hl)
