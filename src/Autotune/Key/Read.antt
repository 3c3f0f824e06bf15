-- ===== src/Autotune/Key/Read.antt =====
-- What the readers of an entry and the comparison with its key have found when they succeed.
use rns.Prelude.{◌≡◌, ap, ◌∙◌, some, String, eq_iff, arith, inl, inr, not-false, Option-cases}
use rns.Prelude.Int.{ℤ, pos, eqb_ℤ_iff}
use rns.Json.{Value, Fields, obj, str, get}
use rns.Dict.{Dict, lookup}
use rns.Autotune.Result.{ok, Library, >>=-ok, >>-ok, refuse_if-ok, ok_injective}
use rns.Autotune.Split.{key_fields}
use rns.Autotune.Fields.{
  nonempty, as_int, require_string, require_int, require_key_field, require_key_int,
}
use rns.Autotune.Entry.{Header, Shape, read_header, read_shape, check_key, require_object}

nonempty-str : (v : Value) (s : String) → nonempty v ≡ some s → v ≡ str s
nonempty-str (str t) s h = ground (arith, eq_iff t "")
nonempty-str v s h = absurd (cc h)

require_string-ok : (d : Fields) (k s : String) → require_string d k ≡ ok s → get k d ≡ str s
unfolding require_string
require_string-ok d k s h = nonempty-str (get k d) s (ground arith)

require_int-ok :
    (d : Fields) (k : String) (minimum n : ℤ)
    → require_int d k minimum ≡ ok n
    → as_int (get k d) ≡ some n
unfolding require_int
require_int-ok d k minimum n h = ground arith

require_key_field-ok :
    (fields : Dict String) (k s : String)
    → require_key_field fields k s ≡ ok tt
    → lookup k fields ≡ some s
unfolding require_key_field
require_key_field-ok fields k s h = elim (Option-cases (lookup k fields)) [
  | inl missing ↦ absurd (ground arith)
  | inr (t, found) ↦ ground (arith, eq_iff t s)
]

require_key_int-ok :
    (lib : Library) (fields : Dict String) (k : String) (n : ℤ)
    → require_key_int lib fields k n ≡ ok tt
    → (t : String) × (lookup k fields ≡ some t) × (lib.parse_int t ≡ some n)
unfolding require_key_int
require_key_int-ok lib fields k n h = elim (Option-cases (lookup k fields)) [
  | inl missing ↦ absurd (ground arith)
  | inr (t, found) ↦ elim (Option-cases (lib.parse_int t)) [
    | inl invalid ↦ absurd (ground arith)
    | inr (m, parsed) ↦ (t, found, ground (arith, eqb_ℤ_iff m n))
  ]
]

-- What `read_header` has read.
pub record HeaderRead (d : Fields) (h : Header) : Type 0 where
  pub key : get "key" d ≡ str h.key
  pub selected_backend : get "selected_backend" d ≡ str h.selected_backend
  pub selected_kernel : get "selected_kernel" d ≡ str h.selected_kernel
  pub target_id : get "target_id" d ≡ str h.target_id
  pub semantic_contract : get "semantic_contract" d ≡ str h.semantic_contract
  pub epilogue : get "epilogue" d ≡ str h.epilogue
  pub kernel_family : get "kernel_family" d ≡ str h.kernel_family

pub read_header-HeaderRead : (d : Fields) (h : Header) → read_header d ≡ ok h → HeaderRead d h
unfolding read_header
read_header-HeaderRead d h p =
    let (key, e1, p1) = >>=-ok (require_string d "key") _ h p in
    let (selected_backend, e2, p2) = >>=-ok (require_string d "selected_backend") _ h p1 in
    let (selected_kernel, e3, p3) = >>=-ok (require_string d "selected_kernel") _ h p2 in
    let (target_id, e4, p4) = >>=-ok (require_string d "target_id") _ h p3 in
    let (version, _, p5) = >>=-ok (require_string d "hip_sdk_or_library_version") _ h p4 in
    let (semantic_contract, e6, p6) = >>=-ok (require_string d "semantic_contract") _ h p5 in
    let (layout, _, p7) = >>=-ok (require_string d "layout") _ h p6 in
    let (_, _, p8) = >>=-ok (require_string d "prefix_schedule_hash") _ h p7 in
    let (epilogue, e9, p9) = >>=-ok (require_string d "epilogue") _ h p8 in
    let (kernel_family, e10, p10) = >>=-ok (require_string d "kernel_family") _ h p9 in
    let (validation_status, _, p11) = >>=-ok (require_string d "validation_status") _ h p10 in
    let same = ok_injective _ h p11 in
    let read =
      λ (k : String) (s : String) (e : require_string d k ≡ ok s). require_string-ok d k s e in
    record {
      key = read "key" key e1 ∙ ap (λ (x : Header). str x.key) same;
      selected_backend =
          read "selected_backend" selected_backend e2
          ∙ ap (λ (x : Header). str x.selected_backend) same;
      selected_kernel =
          read "selected_kernel" selected_kernel e3
          ∙ ap (λ (x : Header). str x.selected_kernel) same;
      target_id = read "target_id" target_id e4 ∙ ap (λ (x : Header). str x.target_id) same;
      semantic_contract =
          read "semantic_contract" semantic_contract e6
          ∙ ap (λ (x : Header). str x.semantic_contract) same;
      epilogue = read "epilogue" epilogue e9 ∙ ap (λ (x : Header). str x.epilogue) same;
      kernel_family =
          read "kernel_family" kernel_family e10 ∙ ap (λ (x : Header). str x.kernel_family) same;
    }

-- What `check_key` has compared.
pub record KeyRead (lib : Library) (fields : Dict String) (h : Header) (s : Shape) : Type 0 where
  pub backend : lookup "backend" fields ≡ some h.selected_backend
  pub semantics : lookup "semantics" fields ≡ some h.semantic_contract
  pub kernel : lookup "kernel" fields ≡ some h.selected_kernel
  pub epilogue : lookup "epilogue" fields ≡ some h.epilogue
  pub family : h.kernel_family ≡ h.selected_kernel
  pub target : lookup "target_id" fields ≡ some h.target_id
  pub m : (t : String) × (lookup "m" fields ≡ some t) × (lib.parse_int t ≡ some s.m)
  pub n : (t : String) × (lookup "n" fields ≡ some t) × (lib.parse_int t ≡ some s.n)
  pub k : (t : String) × (lookup "k" fields ≡ some t) × (lib.parse_int t ≡ some s.k)
  pub tile_m : (t : String) × (lookup "tile_m" fields ≡ some t) × (lib.parse_int t ≡ some s.tile_m)
  pub tile_n : (t : String) × (lookup "tile_n" fields ≡ some t) × (lib.parse_int t ≡ some s.tile_n)

pub check_key-KeyRead :
    (lib : Library) (h : Header) (s : Shape)
    → check_key lib h s ≡ ok tt
    → KeyRead lib (key_fields h.key) h s
unfolding check_key
check_key-KeyRead lib h s p =
    let fields = key_fields h.key in
    let (e1, p1) = >>-ok _ _ tt p in
    let (e2, p2) = >>-ok _ _ tt p1 in
    let (e3, p3) = >>-ok _ _ tt p2 in
    let (e4, p4) = >>-ok _ _ tt p3 in
    let (e5, p5) = >>-ok _ _ tt p4 in
    let (e6, p6) = >>-ok _ _ tt p5 in
    let (e7, p7) = >>-ok _ _ tt p6 in
    let (e8, p8) = >>-ok _ _ tt p7 in
    let (e9, p9) = >>-ok _ _ tt p8 in
    let (e10, p10) = >>-ok _ _ tt p9 in
    let (_, p11) = >>-ok _ _ tt p10 in
    let (e12, _) = >>-ok _ _ tt p11 in
    record {
      backend = require_key_field-ok fields "backend" h.selected_backend e1;
      semantics = require_key_field-ok fields "semantics" h.semantic_contract e2;
      kernel = require_key_field-ok fields "kernel" h.selected_kernel e3;
      epilogue = require_key_field-ok fields "epilogue" h.epilogue e4;
      family = (eq_iff h.kernel_family h.selected_kernel).0 (not-false _ (refuse_if-ok _ _ e5));
      target = require_key_field-ok fields "target_id" h.target_id e12;
      m = require_key_int-ok lib fields "m" s.m e6;
      n = require_key_int-ok lib fields "n" s.n e7;
      k = require_key_int-ok lib fields "k" s.k e8;
      tile_m = require_key_int-ok lib fields "tile_m" s.tile_m e9;
      tile_n = require_key_int-ok lib fields "tile_n" s.tile_n e10;
    }

-- What `read_shape` has read.
pub record ShapeRead (d : Fields) (s : Shape) : Type 0 where
  pub shape : Fields
  pub shape_read : get "shape" d ≡ obj shape
  pub m : as_int (get "m" shape) ≡ some s.m
  pub n : as_int (get "n" shape) ≡ some s.n
  pub k : as_int (get "k" shape) ≡ some s.k
  pub tile_m : as_int (get "tile_m" d) ≡ some s.tile_m
  pub tile_n : as_int (get "tile_n" d) ≡ some s.tile_n

require_object-ok :
    (v : Value) (message : String) (d : Fields) → require_object v message ≡ ok d → v ≡ obj d
require_object-ok (obj e) message d h = ap obj (ok_injective e d h)
require_object-ok v message d h = absurd (cc h)

pub read_shape-ShapeRead : (d : Fields) (s : Shape) → read_shape d ≡ ok s → ShapeRead d s
unfolding read_shape
read_shape-ShapeRead d s p =
    let (shape, e0, p0) = >>=-ok (require_object (get "shape" d) "shape must be an object") _ s p in
    let (m, e1, p1) = >>=-ok (require_int shape "m" (pos 1)) _ s p0 in
    let (n, e2, p2) = >>=-ok (require_int shape "n" (pos 1)) _ s p1 in
    let (k, e3, p3) = >>=-ok (require_int shape "k" (pos 1)) _ s p2 in
    let (_, _, p4) = >>=-ok (require_int d "k_block_size" (pos 0)) _ s p3 in
    let (tile_m, e5, p5) = >>=-ok (require_int d "tile_m" (pos 1)) _ s p4 in
    let (tile_n, e6, p6) = >>=-ok (require_int d "tile_n" (pos 1)) _ s p5 in
    let (_, _, p7) = >>=-ok (require_int d "workspace_bytes" (pos 0)) _ s p6 in
    let same = ok_injective _ s p7 in
    record {
      shape = shape;
      shape_read = require_object-ok (get "shape" d) _ shape e0;
      m = require_int-ok shape "m" (pos 1) m e1 ∙ ap (λ (x : Shape). some x.m) same;
      n = require_int-ok shape "n" (pos 1) n e2 ∙ ap (λ (x : Shape). some x.n) same;
      k = require_int-ok shape "k" (pos 1) k e3 ∙ ap (λ (x : Shape). some x.k) same;
      tile_m = require_int-ok d "tile_m" (pos 1) tile_m e5 ∙ ap (λ (x : Shape). some x.tile_m) same;
      tile_n = require_int-ok d "tile_n" (pos 1) tile_n e6 ∙ ap (λ (x : Shape). some x.tile_n) same;
    }
