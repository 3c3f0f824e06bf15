-- ===== src/Autotune/Key.antt =====
-- The key of an accepted entry describes the entry.
pub mod Read
use rns.Prelude.{ℕ, ◌≡◌, refl, ap, ◌∙◌, false, some, String, str_eq, arith}
use rns.Prelude.Int.{ℤ}
use rns.Json.{Value, Fields, obj, str, null, get}
use rns.Dict.{Dict, lookup}
use rns.Autotune.Result.{ok, Library}
use rns.Autotune.Split.{key_fields}
use rns.Autotune.Fields.{as_int}
use rns.Autotune.Ledger.{entry_key}
use rns.Autotune.Entry.{validate_entry, set_field}
use rns.Autotune.Accepted.{check_entry-Accepted, validate_entry-check_entry}
use rns.Autotune.Reload.Canonical.{get_or-set_field}
use rns.Autotune.Key.Read.{read_header-HeaderRead, check_key-KeyRead, read_shape-ShapeRead}

-- A field of the key is the text of a field of the entry.
abbrev pub NamesText : Dict String → Fields → String → String → Type 0
NamesText fields e k name = (s : String) × (lookup k fields ≡ some s) × (get name e ≡ str s)

-- A field of the key is a numeral of an integer of the entry, or of its shape.
abbrev pub NamesInt : Library → Dict String → Fields → String → Type 0
NamesInt lib fields e k =
    (t : String) × (n : ℤ) × (lookup k fields ≡ some t)
    × (lib.parse_int t ≡ some n)
    × (as_int (get k e) ≡ some n)

pub record Describes (lib : Library) (fields : Dict String) (e : Fields) : Type 0 where
  pub backend : NamesText fields e "backend" "selected_backend"
  pub semantics : NamesText fields e "semantics" "semantic_contract"
  pub kernel : NamesText fields e "kernel" "selected_kernel"
  pub family : NamesText fields e "kernel" "kernel_family"
  pub epilogue : NamesText fields e "epilogue" "epilogue"
  pub target : NamesText fields e "target_id" "target_id"
  pub tile_m : NamesInt lib fields e "tile_m"
  pub tile_n : NamesInt lib fields e "tile_n"
  pub shape : Fields
  pub shape_read : get "shape" e ≡ obj shape
  pub m : NamesInt lib fields shape "m"
  pub n : NamesInt lib fields shape "n"
  pub k : NamesInt lib fields shape "k"

-- Fields other than `finite_modulus` are those of the entry that was given.
get-updated :
    (k : String) (v w : Value) (d e : Fields)
    → str_eq "finite_modulus" k ≡ false
    → set_field "finite_modulus" w d ≡ e
    → get k d ≡ v
    → get k e ≡ v
get-updated k v w d e other updated found =
    ground
      (arith, ap (λ (x : Fields). get k x) updated, get_or-set_field k "finite_modulus" null w d)

-- An accepted entry is what its key says: the fields of the key name its backend, contract, kernel,
-- epilogue and target, and the numerals of the key are its shape and its tiles.
pub validate_entry-Describes :
    (lib : Library) (v : Value) (source : String) (index : ℕ) (e : Fields)
    → validate_entry lib v source index ≡ ok e
    → Describes lib (key_fields (entry_key e)) e
validate_entry-Describes lib v source index e accepted =
    let (d, _, checked) = validate_entry-check_entry lib v source index e accepted in
    let a = check_entry-Accepted lib d e checked in
    let h = read_header-HeaderRead d a.header a.header_read in
    let s = read_shape-ShapeRead d a.shape a.shape_read in
    let key = check_key-KeyRead lib a.header a.shape a.keyed in
    let kept = λ (k : String) (u : Value) (other : str_eq "finite_modulus" k ≡ false).
      get-updated k u a.finite.0 d e other a.updated in
    rw (kept "key" (str a.header.key) refl h.key) (record {
      backend = (
        a.header.selected_backend,
        key.backend,
        kept "selected_backend" _ refl h.selected_backend,
      );
      semantics = (
        a.header.semantic_contract,
        key.semantics,
        kept "semantic_contract" _ refl h.semantic_contract,
      );
      kernel =
          (a.header.selected_kernel, key.kernel, kept "selected_kernel" _ refl h.selected_kernel);
      family = (
        a.header.selected_kernel,
        key.kernel,
        kept "kernel_family" _ refl (h.kernel_family ∙ ap str key.family),
      );
      epilogue = (a.header.epilogue, key.epilogue, kept "epilogue" _ refl h.epilogue);
      target = (a.header.target_id, key.target, kept "target_id" _ refl h.target_id);
      tile_m = (
        key.tile_m.0,
        a.shape.tile_m,
        key.tile_m.1,
        key.tile_m.2,
        ap as_int (kept "tile_m" _ refl refl) ∙ s.tile_m,
      );
      tile_n = (
        key.tile_n.0,
        a.shape.tile_n,
        key.tile_n.1,
        key.tile_n.2,
        ap as_int (kept "tile_n" _ refl refl) ∙ s.tile_n,
      );
      shape = s.shape;
      shape_read = kept "shape" _ refl s.shape_read;
      m = (key.m.0, a.shape.m, key.m.1, key.m.2, s.m);
      n = (key.n.0, a.shape.n, key.n.1, key.n.2, s.n);
      k = (key.k.0, a.shape.k, key.k.1, key.k.2, s.k);
    })
