-- ===== src/Autotune/Reload/Cache.antt =====
-- A cache that was written is read back: every entry is accepted, in the same order.
use rns.Prelude.{
  ℕ, suc, ◌≡◌, refl, ◌&&◌, Bool, true, false, List, [], ◌∷◌, String, eq_iff, map, All, Bool-cases,
  inl, inr,
}
use rns.Json.{Items, Fields, obj, end, item, get, get_or, py_eq}
use rns.Autotune.Result.{ok, Library, >>=-ok, >>-ok, ok_injective}
use rns.Autotune.Entry.{check_entry, validate_entry, require_object}
use rns.Autotune.World.{
  World, load, canonical, canonical_items, canonical_fields, insert_field, dicts, write_cache,
  validate_entries, read_root, read_cache, is_missing, require_array,
}
use rns.Autotune.Order.{text_leb}
use rns.Autotune.Accepted.{validate_entry-check_entry}
use rns.Autotune.Reload.Entry.{entry_read_again}

-- An entry that `validate_entry` has returned.
abbrev pub IsValid : Library → Fields → Type 0
IsValid lib e = (d : Fields) × (check_entry lib d ≡ ok e)

unfolding_entry :
    (lib : Library) (d e : Fields) (source : String) (index : ℕ)
    → check_entry lib d ≡ ok e
    → validate_entry lib (obj d) source index ≡ ok e
unfolding validate_entry
unfolding_entry lib d e source index h = rw h

entries_read_again :
    (lib : Library) (es : List Fields) (source : String) (index : ℕ)
    → All (IsValid lib) es
    → validate_entries lib (canonical_items (dicts es)) source index ≡ ok (map canonical_fields es)
unfolding validate_entries canonical dicts
entries_read_again lib [] source index h = refl
entries_read_again lib (e ∷ es) source index ((d, first), h) = rw (
  unfolding_entry lib (canonical_fields e) (canonical_fields e) source index
      (entry_read_again lib d e first),
  entries_read_again lib es source (suc index) h,
)

and-false : (b : Bool) → (b && false) ≡ false
and-false true = refl
and-false false = refl

-- Reading back what `write_cache` has written.
pub read_cache-write_cache :
    (lib : Library) (w : World) (path : String) (allow_missing : Bool) (es : List Fields)
    → All (IsValid lib) es
    → read_cache lib (write_cache path es w) path allow_missing ≡ ok (map canonical_fields es)
unfolding read_cache write_cache read_root canonical insert_field text_leb get_or py_eq
read_cache-write_cache lib w path allow_missing es h =
    rw ((eq_iff path path).1 refl)
      (rw (and-false allow_missing) (entries_read_again lib es path 0 h))

validate_entries-IsValid :
    (lib : Library) (items : Items) (source : String) (index : ℕ) (es : List Fields)
    → validate_entries lib items source index ≡ ok es
    → All (IsValid lib) es
unfolding validate_entries
validate_entries-IsValid lib end source index es h = rw (← ok_injective [] es h) tt
validate_entries-IsValid lib (item v vs) source index es h =
    let (e, first, h1) = >>=-ok (validate_entry lib v source index) _ es h in
    let (es', rest, h2) = >>=-ok (validate_entries lib vs source (suc index)) _ es h1 in
    let (d, _, accepted) = validate_entry-check_entry lib v source index e first in
    rw (← ok_injective (e ∷ es') es h2)
      ((d, accepted), validate_entries-IsValid lib vs source (suc index) es' rest)

-- Every entry of a cache that is read is one that was accepted.
pub read_cache-IsValid :
    (lib : Library) (w : World) (path : String) (allow_missing : Bool) (es : List Fields)
    → read_cache lib w path allow_missing ≡ ok es
    → All (IsValid lib) es
unfolding read_cache read_root
read_cache-IsValid lib w path allow_missing es h =
    elim (Bool-cases (allow_missing && is_missing (w path))) [
      | inl e ↦ rw (← ok_injective [] es (rw e at h)) tt
      | inr e ↦
          let (v, _, h1) = >>=-ok (load (w path)) (read_root lib path) es (rw e at h) in
          let (root, _, h2) = >>=-ok (require_object v _) _ es h1 in
          let (_, h3) = >>-ok _ _ es h2 in
          let (items, _, h4) = >>=-ok (require_array (get "entries" root) _) _ es h3 in
          validate_entries-IsValid lib items path 0 es h4
    ]
