-- ===== src/Autotune/World.antt =====
-- The files that the installer reads and writes: `read_cache` and `write_cache`.
use rns.Prelude.{
  ℕ, suc, Bool, true, false, not, ◌&&◌, List, [], ◌∷◌, String, str_eq, ◌<>◌, if◌then◌else◌,
}
use rns.Prelude.Int.{pos}
use rns.Json.{
  Value, Items, Fields, null, bool, int, float, str, arr, obj, end, item, empty, field, get, py_eq,
}
use rns.Autotune.Result.{
  Result, ok, fail, refuse, file_not_found, os_error, decode_error, refuse_if, Library, ◌>>=◌, ◌>>◌,
}
use rns.Autotune.Entry.{validate_entry, require_object}
use rns.Autotune.Order.{text_leb}

-- What reading a path gives: the document that `json.loads` returns, or the exception of the file
-- system, of the decoding or of the parser, with its text.
pub data File : Type 0 where
  missing unreadable undecodable malformed : String → File
  document : Value → File

abbrev pub World : Type 0
World = String → File

-- `json.loads(path.read_text(encoding="utf-8"))`
abbrev pub load : File → Result Value
load (missing text) = fail file_not_found
load (unreadable text) = fail os_error
load (undecodable text) = fail decode_error
load (malformed text) = fail decode_error
load (document v) = ok v

-- `if not isinstance(value, list): raise …`
abbrev pub require_array : Value → String → Result Items
require_array (arr xs) message = ok xs
require_array _ message = refuse message

unfoldable pub validate_entries : Library → Items → String → ℕ → Result (List Fields)
unfolding validate_entry
validate_entries lib end source index = ok []
validate_entries lib (item v vs) source index = do
  entry ← validate_entry lib v source index
  entries ← validate_entries lib vs source (suc index)
  ok (entry ∷ entries)

unfoldable pub read_root : Library → String → Value → Result (List Fields)
unfolding validate_entries
read_root lib path document_root = do
  root ← require_object document_root (path <> ": root must be an object")
  refuse_if (not (py_eq (get "schema_version" root) (int (pos 1))))
      (path <> ": schema_version must be 1")
  entries ← require_array (get "entries" root) (path <> ": entries must be an array")
  validate_entries lib entries path 0

unfoldable pub is_missing : File → Bool
is_missing (missing text) = true
is_missing _ = false

unfoldable pub read_cache : Library → World → String → Bool → Result (List Fields)
unfolding read_root is_missing
read_cache lib w path allow_missing =
    if allow_missing && is_missing (w path) then ok [] else (load (w path) >>= read_root lib path)

-- Before the first field with a greater or the same key.
unfoldable pub insert_field : String → Value → Fields → Fields
insert_field k v empty = field k v empty
insert_field k v (field j w d) =
    if text_leb k j then field k v (field j w d) else field j w (insert_field k v d)

-- What `json.loads` reads where `json.dumps(…, sort_keys=True)` has written: the same values, with
-- the keys of every dict in order.
unfoldable mutual
  unfolding insert_field

  pub canonical : Value → Value
  canonical (arr xs) = arr (canonical_items xs)
  canonical (obj d) = obj (canonical_fields d)
  canonical null = null
  canonical (bool b) = bool b
  canonical (int n) = int n
  canonical (float x) = float x
  canonical (str s) = str s

  pub canonical_items : Items → Items
  canonical_items end = end
  canonical_items (item v vs) = item (canonical v) (canonical_items vs)

  pub canonical_fields : Fields → Fields
  canonical_fields empty = empty
  canonical_fields (field k v d) = insert_field k (canonical v) (canonical_fields d)

-- A list of dicts as a JSON value.
unfoldable pub dicts : List Fields → Items
dicts [] = end
dicts (d ∷ ds) = item (obj d) (dicts ds)

abbrev pub cache_document : List Fields → Value
cache_document entries =
    obj (field "schema_version" (int (pos 1)) (field "entries" (arr (dicts entries)) empty))

-- The temporary file takes the place of the old one at once.
unfoldable pub write_cache : String → List Fields → World → World
unfolding canonical dicts
write_cache path entries w p =
    if str_eq p path then document (canonical (cache_document entries)) else w p
