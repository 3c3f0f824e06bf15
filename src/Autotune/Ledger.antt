-- ===== src/Autotune/Ledger.antt =====
-- The promotion ledger: `read_promotion_ledger` and `validate_promotion_ledger_gate`.
use rns.Prelude.{
  ℕ, suc, Bool, true, false, not, ◌&&◌, ◌||◌, Option, none, some, List, [], ◌∷◌, String, ◌<>◌,
}
use rns.Python.Decimal.{show_ℕ}
use rns.Json.{Value, Items, Fields, obj, str, end, item, get, py_eq, is_true}
use rns.Dict.{Dict, insert, lookup, has}
use rns.Autotune.Result.{
  Result, ok, fail, refuse, decode_error, refuse_if, only_if, for_each, Library, ◌>>=◌, ◌>>◌,
}
use rns.Autotune.Entry.{require_object, require_text}
use rns.Autotune.Registry.{one_of, linux_cdna_targets}
use rns.Autotune.World.{
  World, File, missing, unreadable, undecodable, malformed, document, require_array,
}

unreadable_ledger : String → String → Result Value
unreadable_ledger path text = refuse (path <> ": failed to read promotion ledger: " <> text)

-- The exceptions of the file system and of the parser are caught, that of the decoding is not.
unfoldable pub load_ledger : String → File → Result Value
unfolding unreadable_ledger
load_ledger path (missing text) = unreadable_ledger path text
load_ledger path (unreadable text) = unreadable_ledger path text
load_ledger path (undecodable text) = fail decode_error
load_ledger path (malformed text) = unreadable_ledger path text
load_ledger path (document v) = ok v

-- The loop of `read_promotion_ledger`, with `by_key`.
unfoldable pub ledger_rows : String → Items → ℕ → Dict Fields → Result (Dict Fields)
ledger_rows path end index by_key = ok by_key
ledger_rows path (item v vs) index by_key =
    let place = path <> ": promotion ledger entry " <> show_ℕ index in
    do
      entry ← require_object v (place <> " must be an object")
      key ← require_text (get "autotune_key" entry) (place <> " missing autotune_key")
      refuse_if (has key by_key) (path <> ": duplicate promotion ledger autotune_key " <> key)
      ledger_rows path vs (suc index) (insert key entry by_key)

unfoldable pub read_promotion_ledger : World → String → Result (Dict Fields)
unfolding load_ledger ledger_rows
read_promotion_ledger w path = do
  document_root ← load_ledger path (w path)
  root ← require_object document_root (path <> ": promotion ledger root must be an object")
  entries ←
      require_array (get "entries" root) (path <> ": promotion ledger entries must be an array")
  ledger_rows path entries 0 []

differs : Option Fields → Fields → Bool
differs none entry = false
differs (some old) entry = not (py_eq (obj old) (obj entry))

unfoldable pub add_rows : String → Dict Fields → Dict Fields → Result (Dict Fields)
unfolding differs
add_rows path [] ledgers = ok ledgers
add_rows path ((key, entry) ∷ rows) ledgers = do
  refuse_if (differs (lookup key ledgers) entry)
      (path <> ": conflicting promotion ledger entry for " <> key)
  add_rows path rows (insert key entry ledgers)

unfoldable pub read_ledgers : World → List String → Dict Fields → Result (Dict Fields)
unfolding read_promotion_ledger add_rows
read_ledgers w [] ledgers = ok ledgers
read_ledgers w (path ∷ paths) ledgers = do
  rows ← read_promotion_ledger w path
  ledgers' ← add_rows path rows ledgers
  read_ledgers w paths ledgers'

-- `entry["key"]`, `str(entry.get("target_id") or "")` for entries that `validate_entry` has
-- returned, where both are texts.
abbrev pub text_of : Value → String
text_of (str s) = s
text_of _ = ""

abbrev pub entry_key : Fields → String
entry_key entry = text_of (get "key" entry)

join : Library → Items → String
join lib end = ""
join lib (item v end) = lib.str_of v
join lib (item v (item u vs)) = lib.str_of v <> "," <> join lib (item u vs)

abbrev pub is_end : Items → Bool
is_end end = true
is_end (item v vs) = false

-- `if entry.get(name) is not True: raise …`
abbrev require_true : Fields → String → String → Result (Unit {0})
require_true entry name message = refuse_if (not (is_true (get name entry))) message

unfoldable pub check_row : Library → String → Bool → Bool → Fields → Result (Unit {0})
unfolding join
check_row lib key require_variance_gate target_gate_required row = do
  blockers ←
      require_array (get "promotion_blockers" row) ("promotion_ledger_blockers_malformed:" <> key)
  refuse_if (not (is_end blockers)) ("promotion_ledger_blocked:" <> key <> ":" <> join lib blockers)
  require_true row "performance_validated" ("promotion_ledger_not_performance_validated:" <> key)
  only_if require_variance_gate (
      require_true row "variance_gate_available" ("promotion_ledger_missing_variance_gate:" <> key)
      >> require_true row "variance_gate_ready"
          ("promotion_ledger_variance_gate_not_ready:" <> key))
  only_if target_gate_required (
      require_true row "target_validation_gate_available"
        ("promotion_ledger_missing_target_validation_gate:" <> key)
      >> (require_true row "target_validation_gate_ready"
            ("promotion_ledger_target_validation_gate_not_ready:" <> key)
          >> require_true row "target_cache_eligible"
              ("promotion_ledger_target_cache_not_eligible:" <> key)))

abbrev pub gate_required : Library → Bool → Fields → Bool
gate_required lib require_target_validation_gate entry =
    require_target_validation_gate
    || one_of (lib.lower (text_of (get "target_id" entry))) linux_cdna_targets

unfoldable pub check_cleared : Library → Dict Fields → Bool → Bool → Fields → Result (Unit {0})
unfolding check_row
check_cleared lib ledgers require_variance_gate require_target_validation_gate entry =
    elim (lookup (entry_key entry) ledgers) [
      | none ↦ refuse ("missing_promotion_ledger_entry:" <> entry_key entry)
      | some row ↦
          check_row lib (entry_key entry) require_variance_gate
            (gate_required lib require_target_validation_gate entry) row
    ]

abbrev pub is_empty {ℓ} : {A : Type ℓ} → List A → Bool
is_empty [] = true
is_empty (x ∷ xs) = false

unfoldable pub validate_promotion_ledger_gate :
    Library → World → List Fields → List String → Bool → Bool → Result (Unit {0})
unfolding read_ledgers check_cleared for_each
validate_promotion_ledger_gate lib w source_entries ledger_paths require_variance_gate
      require_target_validation_gate =
    do
      ledgers ← read_ledgers w ledger_paths []
      refuse_if (require_variance_gate && is_empty ledger_paths)
          "--require-variance-gate requires at least one --promotion-ledger"
      for_each source_entries
          (check_cleared lib ledgers require_variance_gate require_target_validation_gate)
