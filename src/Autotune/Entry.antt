-- ===== src/Autotune/Entry.antt =====
-- `validate_entry`: its checks in the order of the source, in six parts.
use text.Mathlib.Text.{starts_with}
use rns.Prelude.{
  ℕ, zero, suc, not, ◌&&◌, ◌||◌, none, some, [], ◌∷◌, String, str_eq, ◌<>◌, if◌then◌else◌,
}
use rns.Prelude.Int.{ℤ, pos, ltb_ℤ, eqb_ℤ}
use rns.Python.Decimal.{show_ℕ}
use rns.Json.{
  Value, Fields, obj, str, int, bool, null, bool_int, field, empty, get, get_or, has_key, py_eq,
  is_true,
}
use rns.Dict.{Dict, has}
use rns.Autotune.Result.{
  Result, ok, refuse, refuse_if, only_if, relabel, for_each, Library, ◌>>=◌, ◌>>◌,
}
use rns.Autotune.Split.{key_fields}
use rns.Autotune.Fields.{
  nonempty, require_string, require_int, require_number, require_key_field, require_key_int,
  optional_key_field, optional_key_int,
}
use rns.Autotune.Registry.{
  one_of, reviewed_release_prefix, reviewed_release_status_for_target,
  reviewed_backend_supports_semantic_contract, reviewed_kernel_supported_for_contract,
  reviewed_epilogue_supported_for_contract,
}

-- The texts that the first lines read.
pub record Header : Type 0 where
  pub key : String
  pub selected_backend : String
  pub selected_kernel : String
  pub target_id : String
  pub version : String
  pub semantic_contract : String
  pub layout : String
  pub epilogue : String
  pub kernel_family : String
  pub validation_status : String

unfoldable pub read_header : Fields → Result Header
read_header entry = do
  key ← require_string entry "key"
  selected_backend ← require_string entry "selected_backend"
  selected_kernel ← require_string entry "selected_kernel"
  target_id ← require_string entry "target_id"
  version ← require_string entry "hip_sdk_or_library_version"
  semantic_contract ← require_string entry "semantic_contract"
  layout ← require_string entry "layout"
  _ ← require_string entry "prefix_schedule_hash"
  epilogue ← require_string entry "epilogue"
  kernel_family ← require_string entry "kernel_family"
  validation_status ← require_string entry "validation_status"
  ok (record {
    key = key;
    selected_backend = selected_backend;
    selected_kernel = selected_kernel;
    target_id = target_id;
    version = version;
    semantic_contract = semantic_contract;
    layout = layout;
    epilogue = epilogue;
    kernel_family = kernel_family;
    validation_status = validation_status;
  })

unfoldable pub check_review : Library → Fields → Header → Result (Unit {0})
check_review lib entry h = do
  refuse_if (not (is_true (get "performance_validated" entry))) "performance_validated must be true"
  refuse_if (not (starts_with h.validation_status reviewed_release_prefix))
      "validation_status must start with reviewed_release_"
  let expected = reviewed_release_status_for_target lib h.target_id
  refuse_if (str_eq expected "" || not (str_eq h.validation_status expected))
      "validation_status_target_mismatch"
  version ← require_int entry "schema_version" (pos 0)
  refuse_if (not (eqb_ℤ version (pos 1))) "entry schema_version must be 1"
  refuse_if
      (not (reviewed_backend_supports_semantic_contract h.selected_backend h.semantic_contract))
      "unsupported_autotune_backend_semantic_contract"

pub record Shape : Type 0 where
  pub m : ℤ
  pub n : ℤ
  pub k : ℤ
  pub k_block_size : ℤ
  pub tile_m : ℤ
  pub tile_n : ℤ

-- `if not isinstance(value, dict): raise …`
abbrev pub require_object : Value → String → Result Fields
require_object (obj d) message = ok d
require_object _ message = refuse message

unfoldable pub read_shape : Fields → Result Shape
read_shape entry = do
  shape ← require_object (get "shape" entry) "shape must be an object"
  m ← require_int shape "m" (pos 1)
  n ← require_int shape "n" (pos 1)
  k ← require_int shape "k" (pos 1)
  k_block_size ← require_int entry "k_block_size" (pos 0)
  tile_m ← require_int entry "tile_m" (pos 1)
  tile_n ← require_int entry "tile_n" (pos 1)
  _ ← require_int entry "workspace_bytes" (pos 0)
  ok (record { m = m; n = n; k = k; k_block_size = k_block_size; tile_m = tile_m; tile_n = tile_n })

unfoldable pub check_medians : Fields → Result (Unit {0})
check_medians entry = do
  medians ← require_object (get "measured_medians_us" entry) "measured_medians_us must be an object"
  for_each ("pack" ∷ "rns_gemm" ∷ "crt_export" ∷ "end_to_end" ∷ []) (require_number medians)
  for_each ("pack_a" ∷ "pack_b" ∷ [])
      (λ name. only_if (has_key name medians) (require_number medians name))

unfoldable pub check_key : Library → Header → Shape → Result (Unit {0})
check_key lib h s =
    let fields = key_fields h.key in
    do
      require_key_field fields "backend" h.selected_backend
      require_key_field fields "semantics" h.semantic_contract
      require_key_field fields "kernel" h.selected_kernel
      require_key_field fields "epilogue" h.epilogue
      refuse_if (not (str_eq h.kernel_family h.selected_kernel)) "kernel_family_mismatch"
      require_key_int lib fields "m" s.m
      require_key_int lib fields "n" s.n
      require_key_int lib fields "k" s.k
      require_key_int lib fields "tile_m" s.tile_m
      require_key_int lib fields "tile_n" s.tile_n
      optional_key_int lib fields "k_block_size" s.k_block_size
      require_key_field fields "target_id" h.target_id
      optional_key_field fields "target" h.target_id
      optional_key_field fields "version" h.version
      optional_key_field fields "hip_sdk_or_library_version" h.version
      optional_key_field fields "layout" h.layout

-- `if not isinstance(value, str) or not value: raise …`
abbrev pub require_text : Value → String → Result String
require_text value message = elim (nonempty value) [ some s ↦ ok s | none ↦ refuse message ]

-- The first characters of a text.
unfoldable pub take_text : ℕ → String → String
take_text zero s = ""
take_text (suc n) String.[] = ""
take_text (suc n) (String.◌∷◌ c s) = String.◌∷◌ c (take_text n s)

unfoldable pub selector_key_hash : Library → String → String
unfolding take_text
selector_key_hash lib selector_key = take_text 16 (lib.sha256_hex selector_key)

unfoldable pub check_default_export : Dict String → String → Result (Unit {0})
check_default_export fields cache_scope = do
  refuse_if (not (str_eq cache_scope "runtime_exact_autotune"))
      "default_export_contract_cache_scope_mismatch"
  for_each ("export_variant" ∷ "reconstruction_variant" ∷ "export_selector_hash" ∷ [])
      (λ stale_field.
        refuse_if (has stale_field fields) ("unexpected_default_" <> stale_field <> "_key"))

unfoldable pub check_selected_export :
    Library → Fields → Dict String → String → String → String → Result (Unit {0})
check_selected_export lib entry fields cache_scope export_variant reconstruction_variant = do
  refuse_if (not (str_eq cache_scope "selector_review_only_non_default"))
      "non_default_export_contract_cache_scope_mismatch"
  export_selector_key ← require_text (get "export_selector_key" entry) "missing_export_selector_key"
  let expected = selector_key_hash lib export_selector_key
  refuse_if (not (py_eq (get "export_selector_hash" entry) (str expected)))
      "export_selector_hash_mismatch"
  require_key_field fields "export_variant" export_variant
  require_key_field fields "reconstruction_variant" reconstruction_variant
  require_key_field fields "export_selector_hash" expected

unfoldable pub check_export : Library → Fields → Dict String → Result (Unit {0})
check_export lib entry fields = do
  export_variant ←
      require_text (get_or "export_variant" (str "default") entry)
        "export_variant must be a nonempty string"
  reconstruction_variant ←
      require_text (get_or "reconstruction_variant" (str "default_garner") entry)
        "reconstruction_variant must be a nonempty string"
  cache_scope ←
      require_text (get_or "cache_scope" (str "runtime_exact_autotune") entry)
        "cache_scope must be a nonempty string"
  if str_eq export_variant "default" && str_eq reconstruction_variant "default_garner"
      then check_default_export fields cache_scope
      else check_selected_export lib entry fields cache_scope export_variant reconstruction_variant

-- The value of `finite_modulus`, which the entry keeps as it is, and its number; None counts as 0,
-- and `False` is 0 too.
unfoldable pub modulus_of : Value → Result (Value × ℤ)
modulus_of null = ok (int (pos 0), pos 0)
modulus_of (bool b) = ok (bool b, bool_int b)
modulus_of (int n) =
    if ltb_ℤ n (pos 0) then refuse "finite_modulus must be an integer >= 0" else ok (int n, n)
modulus_of _ = refuse "finite_modulus must be an integer >= 0"

unfoldable pub read_finite_modulus : Fields → Result (Value × ℤ)
unfolding modulus_of
read_finite_modulus entry = modulus_of (get_or "finite_modulus" (int (pos 0)) entry)

unfoldable pub check_finite : Library → Header → Dict String → ℤ → Result (Unit {0})
check_finite lib h fields finite_modulus =
    if one_of h.semantic_contract ("finite_ring_u8" ∷ "finite_field_u8" ∷ [])
    then (refuse_if (eqb_ℤ finite_modulus (pos 0)) "missing_entry_finite_modulus"
        >> require_key_int lib fields "finite_modulus" finite_modulus)
    else if not (eqb_ℤ finite_modulus (pos 0))
    then refuse "unexpected_entry_finite_modulus"
    else refuse_if (has "finite_modulus" fields) "unexpected_key_finite_modulus"

unfoldable pub check_supported : Header → Shape → ℤ → Result (Unit {0})
check_supported h s finite_modulus = do
  refuse_if
      (not (
        reviewed_kernel_supported_for_contract h.selected_backend h.semantic_contract
          h.selected_kernel finite_modulus s.m s.n s.k))
      "unsupported_autotune_kernel_for_contract"
  refuse_if
      (not (
        reviewed_epilogue_supported_for_contract h.selected_backend h.semantic_contract h.epilogue))
      "unsupported_autotune_epilogue_for_contract"

-- `entry[name] = value`
unfoldable pub set_field : String → Value → Fields → Fields
set_field k v empty = field k v empty
set_field k v (field j w d) = if str_eq j k then field j v d else field j w (set_field k v d)

-- The body of the `try`. The entry that it returns is the one it was given, updated.
unfoldable pub check_entry : Library → Fields → Result Fields
unfolding read_header check_review read_shape check_medians check_key check_export
    read_finite_modulus check_finite check_supported set_field
check_entry lib entry = do
  h ← read_header entry
  check_review lib entry h
  s ← read_shape entry
  check_medians entry
  check_key lib h s
  check_export lib entry (key_fields h.key)
  finite ← read_finite_modulus entry
  check_finite lib h (key_fields h.key) finite.1
  check_supported h s finite.1
  ok (set_field "finite_modulus" finite.0 entry)

unfoldable pub validate_entry : Library → Value → String → ℕ → Result Fields
unfolding check_entry
validate_entry lib entry source index =
    let place = source <> ": entry " <> show_ℕ index in
    elim entry [
      | obj d ↦ relabel (λ message. place <> ": " <> message) (check_entry lib d)
      | _ ↦ refuse (place <> " must be an object")
    ]
