-- ===== src/Autotune/Coverage.antt =====
-- `cache_coverage_summary`: the installed entries counted by contract, shape, backend and variant.
use rns.Prelude.{
  ℕ, zero, suc, Bool, true, false, not, ◌&&◌, Option, some, List, [], ◌∷◌, String, str_eq,
  if◌then◌else◌,
}
use rns.Prelude.Int.{ℤ, pos, leb_ℤ}
use rns.Json.{
  Value, Fields, dyadic, null, bool, int, float, str, arr, obj, end, item, empty, field, get,
}
use rns.Autotune.Result.{Library}
use rns.Autotune.Fields.{as_int}
use rns.Autotune.Order.{text_leb}
use rns.Autotune.Registry.{target_class_for_id}

-- `bool(value)`
abbrev truthy : Value → Bool
truthy null = false
truthy (bool b) = b
truthy (int (pos zero)) = false
truthy (int _) = true
truthy (float (dyadic (pos zero) m)) = false
truthy (float _) = true
truthy (str s) = not (str_eq s "")
truthy (arr end) = false
truthy (arr (item v vs)) = true
truthy (obj empty) = false
truthy (obj (field k v d)) = true

abbrev str_value : Library → Value → String
str_value lib (str s) = s
str_value lib v = lib.str_of v

-- `str(entry.get(name) or default)`
unfoldable pub str_or : Library → Fields → String → String → String
str_or lib entry name default =
    if truthy (get name entry) then str_value lib (get name entry) else default

unfoldable pub max_ℤ : ℤ → ℤ → ℤ
max_ℤ a b = if leb_ℤ b a then a else b

unfoldable pub family_of : Option ℤ → Option ℤ → Option ℤ → String
unfolding max_ℤ
family_of (some m) (some n) (some k) =
    let max_dim = max_ℤ (max_ℤ m n) k in
    if leb_ℤ max_dim (pos 128)
    then "small"
    else if leb_ℤ max_dim (pos 1024)
    then "medium"
    else "large"
family_of _ _ _ = "unknown"

dict_or_empty : Value → Fields
dict_or_empty (obj d) = d
dict_or_empty _ = empty

unfoldable pub shape_family : Fields → String
unfolding family_of dict_or_empty
shape_family entry =
    let shape = dict_or_empty (get "shape" entry) in
    family_of (as_int (get "m" shape)) (as_int (get "n" shape)) (as_int (get "k" shape))

-- The tuples that entries are grouped by are their six texts in order.
unfoldable pub group_key : Library → Fields → List String
unfolding str_or shape_family
group_key lib entry =
    str_or lib entry "semantic_contract" "unknown"
    ∷ shape_family entry
    ∷ str_or lib entry "selected_backend" "unknown"
    ∷ target_class_for_id lib (str_or lib entry "target_id" "unknown")
    ∷ str_or lib entry "export_variant" "default"
    ∷ str_or lib entry "reconstruction_variant" "default_garner"
    ∷ []

unfoldable pub texts_eq : List String → List String → Bool
texts_eq [] [] = true
texts_eq (s ∷ ss) (t ∷ ts) = str_eq s t && texts_eq ss ts
texts_eq _ _ = false

unfoldable pub texts_leb : List String → List String → Bool
texts_leb [] ts = true
texts_leb (s ∷ ss) [] = false
texts_leb (s ∷ ss) (t ∷ ts) = if str_eq s t then texts_leb ss ts else text_leb s t

abbrev pub Groups : Type 0
Groups = List (List String × ℕ)

-- `groups[key] = groups.get(key, 0) + 1`
unfoldable pub count_key : List String → Groups → Groups
unfolding texts_eq
count_key key [] = (key, 1) ∷ []
count_key key ((k, n) ∷ groups) =
    if texts_eq k key then (k, suc n) ∷ groups else (k, n) ∷ count_key key groups

unfoldable pub group_entries : Library → List Fields → Groups → Groups
unfolding count_key group_key
group_entries lib [] groups = groups
group_entries lib (entry ∷ entries) groups =
    group_entries lib entries (count_key (group_key lib entry) groups)

unfoldable pub insert_group : List String × ℕ → Groups → Groups
unfolding texts_leb
insert_group g [] = g ∷ []
insert_group g (h ∷ groups) =
    if texts_leb g.0 h.0 then g ∷ h ∷ groups else h ∷ insert_group g groups

unfoldable pub sort_groups : Groups → Groups
unfolding insert_group
sort_groups [] = []
sort_groups (g ∷ groups) = insert_group g (sort_groups groups)

-- A row keeps its six texts as the list of its key.
unfoldable pub cache_coverage_summary : Library → List Fields → Groups
unfolding group_entries sort_groups
cache_coverage_summary lib entries = sort_groups (group_entries lib entries [])
