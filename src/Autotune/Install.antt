-- ===== src/Autotune/Install.antt =====
-- `install_cache`: existing and reviewed entries merged by key, checked and written.
use rns.Prelude.{
  ℕ, Bool, true, false, not, ◌&&◌, ◌||◌, Option, none, some, List, [], ◌∷◌, ◌++◌, String, ◌<>◌,
  if◌then◌else◌, any, length, count_if,
}
use rns.Json.{Value, Fields, obj, str, get, get_or, py_eq}
use rns.Dict.{Dict, insert, lookup, has, keys}
use rns.Autotune.Result.{
  Result, ok, fail, refuse, refuse_if, relabel, Library, for_each, ◌>>=◌, ◌>>◌,
}
use rns.Autotune.Entry.{take_text}
use rns.Autotune.Registry.{target_class_for_id}
use rns.Autotune.World.{World, read_cache, write_cache}
use rns.Autotune.Ledger.{validate_promotion_ledger_gate, text_of, entry_key, is_empty}
use rns.Autotune.Order.{sorted}
use rns.Autotune.Coverage.{Groups, cache_coverage_summary}

pub record Options : Type 0 where
  pub sources : List String
  pub destination : String
  pub dry_run : Bool
  pub replace_existing : Bool
  pub promotion_ledgers : List String
  pub require_variance_gate : Bool
  pub require_target_validation_gate : Bool
  pub allow_selector_review_cache : Bool

-- An item of `replacement_history`.
pub record Change : Type 0 where
  pub is_replace : Bool
  pub key : String
  pub old_entry_fingerprint : Option String
  pub new_entry_fingerprint : String
  pub selected_backend : Value
  pub selected_kernel : Value
  pub semantic_contract : Value
  pub target_id : Value
  pub target_class : String
  pub export_variant : Value
  pub reconstruction_variant : Value
  pub export_selector_hash : Value
  pub cache_scope : Value
  pub evidence_source : Option String
  pub updated_utc : Value
  pub validation_status : Value
  pub validation_command_family : String

-- The report without the options, which it repeats.
pub record Report : Type 0 where
  pub variance_gate : Bool
  pub source_entries : ℕ
  pub existing_entries : ℕ
  pub installed_entries : ℕ
  pub added_entries : ℕ
  pub replaced_entries : ℕ
  pub replacement_history : List Change
  pub cache_coverage : Groups

unfoldable pub existing_entries_of : Library → World → Options → Result (List Fields)
existing_entries_of lib w o =
    if o.replace_existing
    then ok []
    else relabel
        (λ message.
          o.destination <> ": existing cache failed reviewed-cache validation; "
          <> "rerun with --replace-existing to discard existing entries: " <> message)
        (read_cache lib w o.destination true)

-- `for entry in entries: d[entry["key"]] = entry`
unfoldable pub add_entries : Dict Fields → List Fields → Dict Fields
add_entries d [] = d
add_entries d (entry ∷ entries) = add_entries (insert (entry_key entry) entry d) entries

-- `for entry in entries: source_by_key[entry["key"]] = str(source)`
add_sources : String → Dict String → List Fields → Dict String
add_sources source d [] = d
add_sources source d (entry ∷ entries) =
    add_sources source (insert (entry_key entry) source d) entries

-- The loop over the sources: `reviewed_source_entries` and `source_by_key`.
unfoldable pub read_sources :
    Library → World → List String → List Fields → Dict String → Result (List Fields × Dict String)
unfolding add_sources
read_sources lib w [] reviewed source_by_key = ok (reviewed, source_by_key)
read_sources lib w (source ∷ sources) reviewed source_by_key = do
  entries ← read_cache lib w source false
  read_sources lib w sources (reviewed ++ entries) (add_sources source source_by_key entries)

abbrev scope_of : Fields → Value
scope_of entry = get_or "cache_scope" (str "runtime_exact_autotune") entry

unfoldable pub check_scopes : Bool → List Fields → Result (Unit {0})
unfolding for_each
check_scopes allow_selector_review_cache entries =
    if allow_selector_review_cache
    then ok tt
    else for_each entries (λ entry.
      refuse_if (not (py_eq (scope_of entry) (str "runtime_exact_autotune")))
        ("selector_review_only_cache_entry_not_runtime_installable:" <> entry_key entry))

-- The ledger is asked where one is given, and must be given for an installation.
unfoldable pub check_gates : Library → World → Options → List Fields → Result (Unit {0})
check_gates lib w o reviewed =
    let variance_gate = o.require_variance_gate || not (is_empty o.promotion_ledgers) in
    do
      refuse_if (not o.dry_run && is_empty o.promotion_ledgers)
          "promotion_ledger_required_for_cache_install"
      if not (is_empty o.promotion_ledgers)
          then validate_promotion_ledger_gate lib w reviewed o.promotion_ledgers variance_gate
              o.require_target_validation_gate
          else if variance_gate
          then refuse "--require-variance-gate requires at least one --promotion-ledger"
          else refuse_if o.require_target_validation_gate
              "--require-target-validation-gate requires at least one --promotion-ledger"

unfoldable pub entry_fingerprint : Library → Fields → String
entry_fingerprint lib entry = take_text 16 (lib.sha256_hex (lib.dumps (obj entry)))

abbrev fingerprint_of : Library → Option Fields → Option String
fingerprint_of lib none = none
fingerprint_of lib (some entry) = some (entry_fingerprint lib entry)

abbrev is_some : Option Fields → Bool
is_some none = false
is_some (some entry) = true

unfoldable pub change_of : Library → Bool → Dict String → Option Fields → Fields → Change
change_of lib has_ledgers source_by_key old_entry entry = record {
  is_replace = is_some old_entry;
  key = entry_key entry;
  old_entry_fingerprint = fingerprint_of lib old_entry;
  new_entry_fingerprint = entry_fingerprint lib entry;
  selected_backend = get "selected_backend" entry;
  selected_kernel = get "selected_kernel" entry;
  semantic_contract = get "semantic_contract" entry;
  target_id = get "target_id" entry;
  target_class = target_class_for_id lib (text_of (get "target_id" entry));
  export_variant = get_or "export_variant" (str "default") entry;
  reconstruction_variant = get_or "reconstruction_variant" (str "default_garner") entry;
  export_selector_hash = get "export_selector_hash" entry;
  cache_scope = scope_of entry;
  evidence_source = lookup (entry_key entry) source_by_key;
  updated_utc = get "updated_utc" entry;
  validation_status = get "validation_status" entry;
  validation_command_family =
      if has_ledgers
      then "reviewed_release_with_promotion_ledger"
      else "reviewed_release_cache_validation_only";
}

-- `old_entry != entry`
unfoldable pub changes_entry : Option Fields → Fields → Bool
changes_entry none entry = true
changes_entry (some old) entry = not (py_eq (obj old) (obj entry))

-- The merging loop, with `merged` and `replacement_history`.
unfoldable pub merge_entries :
    Library → Bool → Dict String → Dict Fields → List Fields → Dict Fields × List Change
unfolding change_of changes_entry
merge_entries lib has_ledgers source_by_key merged [] = (merged, [])
merge_entries lib has_ledgers source_by_key merged (entry ∷ entries) =
    let old_entry = lookup (entry_key entry) merged in
    let (final, history) =
      merge_entries lib has_ledgers source_by_key (insert (entry_key entry) entry merged) entries in
    (
      final,
      if changes_entry old_entry entry
          then change_of lib has_ledgers source_by_key old_entry entry ∷ history
          else history,
    )

-- `[merged[key] for key in keys]`, for keys of `merged`.
unfoldable pub pick : List String → Dict Fields → List Fields
pick [] merged = []
pick (key ∷ rest) merged = elim (lookup key merged) [
  | some entry ↦ entry ∷ pick rest merged
  | none ↦ pick rest merged
]

unfoldable pub ordered : Dict Fields → List Fields
unfolding pick sorted
ordered merged = pick (sorted (keys merged)) merged

-- `entry in entries`
unfoldable pub is_listed : List Fields → Option Fields → Bool
is_listed entries none = false
is_listed entries (some entry) = any (λ old. py_eq (obj entry) (obj old)) entries

abbrev new_key : Dict Fields → String → Bool
new_key initial key = not (has key initial)

unfoldable pub added_count : Dict Fields → Dict Fields → ℕ
added_count initial merged = count_if (new_key initial) (keys merged)

replaced_count : Dict Fields → List Fields → Dict Fields → ℕ
unfolding is_listed
replaced_count initial existing merged =
    count_if (λ key. not (is_listed existing (lookup key merged))) (keys initial)

pub record Plan : Type 0 where
  pub existing : List Fields
  pub reviewed : List Fields
  pub source_by_key : Dict String

-- What is read and checked before entries are merged.
unfoldable pub gather : Library → World → Options → Result Plan
unfolding existing_entries_of read_sources check_scopes check_gates
gather lib w o = do
  existing ← existing_entries_of lib w o
  sources ← read_sources lib w o.sources [] []
  check_scopes o.allow_selector_review_cache sources.0
  check_gates lib w o sources.0
  ok (record { existing = existing; reviewed = sources.0; source_by_key = sources.1 })

unfoldable pub merged_of : Library → Options → Plan → Dict Fields × List Change
unfolding add_entries merge_entries
merged_of lib o p =
    merge_entries lib (not (is_empty o.promotion_ledgers)) p.source_by_key
      (add_entries [] p.existing) p.reviewed

unfoldable pub report_of : Library → Options → Plan → Report
unfolding merged_of added_count replaced_count ordered add_entries
report_of lib o p =
    let (merged, history) = merged_of lib o p in
    let initial = add_entries [] p.existing in
    record {
      variance_gate = o.require_variance_gate || not (is_empty o.promotion_ledgers);
      source_entries = length p.reviewed;
      existing_entries = length p.existing;
      installed_entries = length (ordered merged);
      added_entries = added_count initial merged;
      replaced_entries = replaced_count initial p.existing merged;
      replacement_history = history;
      cache_coverage = cache_coverage_summary lib (ordered merged);
    }

unfoldable pub installed : Library → Options → Plan → List Fields
unfolding ordered merged_of
installed lib o p = ordered (merged_of lib o p).0

-- The result, and the files afterwards.
unfoldable pub install_cache : Library → World → Options → Result Report × World
unfolding gather
install_cache lib w o = elim (gather lib w o) [
  | fail e ↦ (fail e, w)
  | ok p ↦ (
    ok (report_of lib o p),
    if o.dry_run then w else write_cache o.destination (installed lib o p) w,
  )
]
