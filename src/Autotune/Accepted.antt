-- ===== src/Autotune/Accepted.antt =====
-- What the parts of `validate_entry` have returned for an entry that it accepts.
use rns.Prelude.{ℕ, ◌≡◌, refl, String}
use rns.Prelude.Int.{ℤ}
use rns.Json.{Value, Fields, obj}
use rns.Autotune.Result.{ok, Library, >>=-ok, >>-ok, relabel-ok, ok_injective}
use rns.Autotune.Split.{key_fields}
use rns.Autotune.Entry.{
  Header, Shape, read_header, check_review, read_shape, check_medians, check_key, check_export,
  read_finite_modulus, check_finite, check_supported, check_entry, validate_entry, set_field,
}

pub record Accepted (lib : Library) (d : Fields) (e : Fields) : Type 0 where
  pub header : Header
  pub shape : Shape
  pub finite : Value × ℤ
  pub header_read : read_header d ≡ ok header
  pub reviewed : check_review lib d header ≡ ok tt
  pub shape_read : read_shape d ≡ ok shape
  pub timed : check_medians d ≡ ok tt
  pub keyed : check_key lib header shape ≡ ok tt
  pub exported : check_export lib d (key_fields header.key) ≡ ok tt
  pub finite_read : read_finite_modulus d ≡ ok finite
  pub finite_keyed : check_finite lib header (key_fields header.key) finite.1 ≡ ok tt
  pub supported : check_supported header shape finite.1 ≡ ok tt
  pub updated : set_field "finite_modulus" finite.0 d ≡ e

pub check_entry-Accepted :
    (lib : Library) (d e : Fields) → check_entry lib d ≡ ok e → Accepted lib d e
unfolding check_entry
check_entry-Accepted lib d e p =
    let (h, header_read, p1) = >>=-ok (read_header d) _ e p in
    let (reviewed, p2) = >>-ok (check_review lib d h) _ e p1 in
    let (s, shape_read, p3) = >>=-ok (read_shape d) _ e p2 in
    let (timed, p4) = >>-ok (check_medians d) _ e p3 in
    let (keyed, p5) = >>-ok (check_key lib h s) _ e p4 in
    let (exported, p6) = >>-ok (check_export lib d (key_fields h.key)) _ e p5 in
    let (finite, finite_read, p7) = >>=-ok (read_finite_modulus d) _ e p6 in
    let (finite_keyed, p8) = >>-ok (check_finite lib h (key_fields h.key) finite.1) _ e p7 in
    let (supported, p9) = >>-ok (check_supported h s finite.1) _ e p8 in
    record {
      header = h;
      shape = s;
      finite = finite;
      header_read = header_read;
      reviewed = reviewed;
      shape_read = shape_read;
      timed = timed;
      keyed = keyed;
      exported = exported;
      finite_read = finite_read;
      finite_keyed = finite_keyed;
      supported = supported;
      updated = ok_injective (set_field "finite_modulus" finite.0 d) e p9;
    }

-- The parts together accept the entry.
pub Accepted-check_entry :
    (lib : Library) (d e : Fields) → Accepted lib d e → check_entry lib d ≡ ok e
unfolding check_entry
Accepted-check_entry lib d e a = rw (
  a.header_read, a.reviewed, a.shape_read, a.timed, a.keyed, a.exported, a.finite_read,
  a.finite_keyed, a.supported, a.updated,
)

pub validate_entry-check_entry :
    (lib : Library) (v : Value) (source : String) (index : ℕ) (e : Fields)
    → validate_entry lib v source index ≡ ok e
    → (d : Fields) × (v ≡ obj d) × (check_entry lib d ≡ ok e)
unfolding validate_entry
validate_entry-check_entry lib (obj d) source index e h =
    (d, refl, relabel-ok _ (check_entry lib d) e h)
validate_entry-check_entry lib v source index e h = absurd (cc h)
