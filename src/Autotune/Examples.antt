-- ===== src/Autotune/Examples.antt =====
-- An installation of one reviewed entry, and the theorems at it.
use Prim.Native.Char.{code}
use rns.Prelude.{
  ℕ, ◌+◌, ◌-◌, ◌*◌, ◌≡◌, ◌≢◌, refl, ap, sym, ◌∙◌, true, false, ◌&&◌, Option, none, some, [], ◌∷◌,
  String, str_eq, ◌<>◌, if◌then◌else◌, leb, map, length, count_if,
}
use rns.Prelude.Int.{ℤ, pos}
use rns.Json.{
  Value, Fields, bool, int, str, arr, obj, end, item, empty, field, get_or, py_eq, has_key,
}
use rns.Dict.{insert, lookup, has, keys}
use rns.Autotune.Result.{ok, Library, for_each}
use rns.Autotune.Fields.{
  require_string, require_int, require_number, require_key_field, require_key_int,
  optional_key_field, optional_key_int,
}
use rns.Autotune.Registry.{
  reviewed_release_status_for_target, reviewed_backend_supports_semantic_contract,
  reviewed_kernel_supported_for_contract, reviewed_epilogue_supported_for_contract,
}
use rns.Autotune.Split.{key_fields}
use rns.Autotune.Entry.{validate_entry, check_default_export}
use rns.Autotune.World.{
  World, missing, document, is_missing, read_cache, write_cache, cache_document, canonical,
  canonical_fields,
}
use rns.Autotune.Ledger.{validate_promotion_ledger_gate, entry_key}
use rns.Autotune.Split.{has_char}
use rns.Autotune.Order.{IsSorted, Distinct}
use rns.Autotune.Coverage.{shape_family, cache_coverage_summary}
use rns.Autotune.Merge.{or_else, last_for, first_for, first_for-installed, installed-IsSorted}
use rns.Autotune.Counts.{is_add, report_of-counts}
use rns.Autotune.Safety.{Permitted, install_cache-changes_file, installed_cache_reloads}
use rns.Autotune.Key.{Describes, validate_entry-Describes}
use rns.Autotune.RoundTrip.{render, key_fields-render}
use rns.Autotune.Grouped.{IsSummary, cache_coverage_summary-IsSummary}
use rns.Autotune.Grouped.Families.{IsFamily, shape_family-IsFamily}
use rns.Autotune.Install.{Options, Plan, gather, install_cache, installed, report_of, add_entries}

-- Digits only, and texts as they are: enough for the entry below.
digits_from : ℕ → String → Option ℤ
digits_from n String.[] = some (pos n)
digits_from n (String.◌∷◌ c s) =
    if leb b'0' (code c) && leb (code c) b'9'
    then digits_from (n * 10 + (code c - b'0')) s
    else none

abbrev library : Library
unfolding digits_from
library = record {
  lower = λ s. s;
  parse_int = digits_from 0;
  sha256_hex = λ s. s;
  dumps = λ v. "";
  str_of = λ v. "";
}

abbrev kernel : String
kernel = "hipblaslt_int8_i32_scratch_reduce_specialized_251_255_256_v2"

abbrev key : String
key =
    "backend=hipblaslt;semantics=bounded_i64;kernel=" <> kernel
    <> ";epilogue=separate_i32_scratch_reduce_then_crt_export;m=64;n=32;k=16;tile_m=8;tile_n=4;target_id=gfx1100"

abbrev entry : Fields
entry = field "key" (str key) (
    field "selected_backend" (str "hipblaslt") (
      field "selected_kernel" (str kernel) (
        field "target_id" (str "gfx1100") (
          field "hip_sdk_or_library_version" (str "6.2") (
            field "semantic_contract" (str "bounded_i64") (
              field "layout" (str "row_major") (
                field "prefix_schedule_hash" (str "p1") (
                  field "epilogue" (str "separate_i32_scratch_reduce_then_crt_export") (
                    field "kernel_family" (str kernel) (
                      field "validation_status"
                        (str "reviewed_release_same_contract_fastest_windows_gfx1100")
                        (field "performance_validated" (bool true)
                          (field "schema_version" (int (pos 1)) rest))))))))))))
  where
    rest : Fields
    rest =
        field "shape"
          (obj
            (field "m" (int (pos 64)) (field "n" (int (pos 32)) (field "k" (int (pos 16)) empty))))
          (field "k_block_size" (int (pos 0)) (
            field "tile_m" (int (pos 8)) (
              field "tile_n" (int (pos 4)) (
                field "workspace_bytes" (int (pos 0)) (
                  field "measured_medians_us"
                    (obj (
                      field "pack" (int (pos 3)) (
                        field "rns_gemm" (int (pos 9)) (
                          field "crt_export" (int (pos 2))
                            (field "end_to_end" (int (pos 14)) empty)))))
                    (field "finite_modulus" (int (pos 0)) empty))))))

accepted : validate_entry library (obj entry) "new.json" 0 ≡ ok entry
unfolding validate_entry key_fields insert has lookup require_string get_or has_key
    reviewed_release_status_for_target library require_int
    reviewed_backend_supports_semantic_contract for_each require_number require_key_field
    require_key_int optional_key_int optional_key_field check_default_export
    reviewed_kernel_supported_for_contract reviewed_epilogue_supported_for_contract py_eq
accepted = refl

abbrev cache_of : Fields → Value
cache_of e =
    obj (field "schema_version" (int (pos 1)) (field "entries" (arr (item (obj e) end)) empty))

abbrev ledger : Value
ledger = obj (
    field "entries"
      (arr (
        item
          (obj (
            field "autotune_key" (str key) (
              field "promotion_blockers" (arr end) (
                field "performance_validated" (bool true) (
                  field "variance_gate_available" (bool true)
                    (field "variance_gate_ready" (bool true) empty))))))
          end))
      empty)

abbrev world : World
world path =
    if str_eq path "new.json"
    then document (cache_of entry)
    else if str_eq path "ledger.json"
    then document ledger
    else missing "no such file"

abbrev options : Options
options = record {
  sources = "new.json" ∷ [];
  destination = "autotune.json";
  dry_run = false;
  replace_existing = false;
  promotion_ledgers = "ledger.json" ∷ [];
  require_variance_gate = false;
  require_target_validation_gate = false;
  allow_selector_review_cache = false;
}

abbrev plan : Plan
plan = record { existing = []; reviewed = entry ∷ []; source_by_key = (key, "new.json") ∷ [] }

gathered : gather library world options ≡ ok plan
unfolding validate_entry gather key_fields insert has lookup require_string get_or has_key
    reviewed_release_status_for_target library require_int
    reviewed_backend_supports_semantic_contract for_each require_number require_key_field
    require_key_int optional_key_int optional_key_field check_default_export
    reviewed_kernel_supported_for_contract reviewed_epilogue_supported_for_contract py_eq keys
    read_cache validate_promotion_ledger_gate
gathered = refl

written : (install_cache library world options).1 "autotune.json" ≢ world "autotune.json"
unfolding install_cache is_missing write_cache
written same = absurd (cc (ap is_missing (sym change ∙ same)))
  where
    change :
        (install_cache library world options).1 "autotune.json"
        ≡ document (canonical (cache_document (installed library options plan)))
    change = rw (gathered, install_cache)

install_cache-changes_file_example :
    ("autotune.json" ≡ options.destination)
    × (options.dry_run ≡ false)
    × Permitted library world options
install_cache-changes_file_example =
    install_cache-changes_file library world options "autotune.json" written

installed_cache_reloads_example :
    read_cache library (install_cache library world options).1 "autotune.json" false
    ≡ ok (map canonical_fields (installed library options plan))
installed_cache_reloads_example = installed_cache_reloads library world options plan gathered refl

first_for-installed_example :
    first_for key (installed library options plan)
    ≡ or_else (last_for key (entry ∷ [])) (last_for key [])
first_for-installed_example = first_for-installed library options plan key

installed-IsSorted_example :
    IsSorted (map entry_key (installed library options plan))
    × Distinct (map entry_key (installed library options plan))
installed-IsSorted_example = installed-IsSorted library options plan

validate_entry-Describes_example : Describes library (key_fields key) entry
unfolding get_or
validate_entry-Describes_example =
    validate_entry-Describes library (obj entry) "new.json" 0 entry accepted

report_of-counts_example :
    ((report_of library options plan).installed_entries
      ≡ length (add_entries [] plan.existing) + (report_of library options plan).added_entries)
    × ((report_of library options plan).added_entries
        ≡ count_if is_add (report_of library options plan).replacement_history)
report_of-counts_example = report_of-counts library options plan

key_fields-render_example :
    key_fields (render (("m", "64") ∷ ("note", "a=b") ∷ [])) ≡ ("m", "64") ∷ ("note", "a=b") ∷ []
unfolding has has_char
key_fields-render_example =
    key_fields-render (("m", "64") ∷ ("note", "a=b") ∷ []) (refl, (refl, tt))
      ((refl, refl, refl, refl), ((refl, refl, refl, refl), tt))

cache_coverage_summary-IsSummary_example :
    IsSummary library (entry ∷ entry ∷ []) (cache_coverage_summary library (entry ∷ entry ∷ []))
cache_coverage_summary-IsSummary_example =
    cache_coverage_summary-IsSummary library (entry ∷ entry ∷ [])

abbrev medium_shape : Fields
medium_shape =
    field "m" (int (pos 128)) (field "n" (int (pos 1024)) (field "k" (int (pos 64)) empty))

shape_family-IsFamily_example :
    IsFamily 128 1024 64 (shape_family (field "shape" (obj medium_shape) empty))
unfolding get_or
shape_family-IsFamily_example =
    shape_family-IsFamily (field "shape" (obj medium_shape) empty) medium_shape 128 1024 64 refl
      refl refl refl
