-- ===== src/Autotune/Reload/Canonical.antt =====
-- The readers of an entry do not see the order of the keys.
use rns.Prelude.{◌≡◌, refl, true, ◌||◌, String, str_eq, eq_iff, if◌then◌else◌, arith}
use rns.Prelude.Int.{ℤ}
use rns.Json.{Value, Fields, null, str, empty, field, get, get_or, has_key, py_eq, is_true}
use rns.Autotune.Fields.{nonempty, as_int, number_of, require_string, require_int, require_number}
use rns.Autotune.Order.{text_leb_refl}
use rns.Autotune.Entry.{set_field}
use rns.Autotune.World.{canonical, canonical_fields, insert_field}

get_or-insert_field :
    (k j : String) (c v : Value) (d : Fields)
    → get_or k c (insert_field j v d) ≡ (if str_eq j k then v else get_or k c d)
unfolding get_or insert_field
get_or-insert_field k j c v empty = refl
get_or-insert_field k j c v (field i w d) =
    ground
      (arith, get_or-insert_field k j c v d, eq_iff j k, eq_iff i k, eq_iff i j, text_leb_refl j)

has_key-insert_field :
    (k j : String) (v : Value) (d : Fields)
    → has_key k (insert_field j v d) ≡ (str_eq j k || has_key k d)
unfolding has_key insert_field
has_key-insert_field k j v empty = refl
has_key-insert_field k j v (field i w d) = ground (arith, has_key-insert_field k j v d)

pub get_or-canonical :
    (k : String) (c : Value) (d : Fields)
    → get_or k (canonical c) (canonical_fields d) ≡ canonical (get_or k c d)
unfolding get_or canonical
get_or-canonical k c empty = refl
get_or-canonical k c (field j v d) = ground (
  arith,
  get_or-insert_field k j (canonical c) (canonical v) (canonical_fields d),
  get_or-canonical k c d,
)

pub has_key-canonical : (k : String) (d : Fields) → has_key k (canonical_fields d) ≡ has_key k d
unfolding has_key canonical
has_key-canonical k empty = refl
has_key-canonical k (field j v d) =
    ground
      (arith, has_key-insert_field k j (canonical v) (canonical_fields d), has_key-canonical k d)

pub get-canonical : (k : String) (d : Fields) → get k (canonical_fields d) ≡ canonical (get k d)
unfolding canonical
get-canonical k d = get_or-canonical k null d

-- A reader of one value that gives the same for a value and for what is read back of it.
abbrev IsStable {ℓ} : {A : Type ℓ} → (Value → A) → Type ℓ
IsStable f = (v : Value) → f (canonical v) ≡ f v

pub nonempty-IsStable : IsStable nonempty
unfolding canonical
nonempty-IsStable null = refl
nonempty-IsStable v = refl

pub as_int-IsStable : IsStable as_int
unfolding canonical
as_int-IsStable null = refl
as_int-IsStable v = refl

pub is_true-IsStable : IsStable is_true
unfolding canonical
is_true-IsStable null = refl
is_true-IsStable v = refl

pub py_eq_str-IsStable : (s : String) → IsStable (λ v. py_eq v (str s))
unfolding canonical py_eq
py_eq_str-IsStable s null = refl
py_eq_str-IsStable s v = refl

pub require_string-canonical :
    (d : Fields) (k : String) → require_string (canonical_fields d) k ≡ require_string d k
unfolding require_string
require_string-canonical d k = ground (arith, get-canonical k d, nonempty-IsStable (get k d))

pub require_int-canonical :
    (d : Fields) (k : String) (n : ℤ) → require_int (canonical_fields d) k n ≡ require_int d k n
unfolding require_int
require_int-canonical d k n = ground (arith, get-canonical k d, as_int-IsStable (get k d))

pub require_number-canonical :
    (d : Fields) (k : String) → require_number (canonical_fields d) k ≡ require_number d k
unfolding require_number number_of canonical
require_number-canonical d k = rw (get-canonical k d) (go (get k d))
  where
    go : (v : Value) → number_of k (canonical v) ≡ number_of k v
    go null = refl
    go v = refl

-- A dict in which one field is set.
pub get_or-set_field :
    (k j : String) (c v : Value) (d : Fields)
    → get_or k c (set_field j v d) ≡ (if str_eq j k then v else get_or k c d)
unfolding get_or set_field
get_or-set_field k j c v empty = refl
get_or-set_field k j c v (field i w d) =
    ground (arith, get_or-set_field k j c v d, eq_iff j k, eq_iff i k, eq_iff i j)

-- Setting a field to the value that it has.
pub set_field_self :
    (k : String) (v : Value) (d : Fields) → has_key k d ≡ true → get k d ≡ v → set_field k v d ≡ d
unfolding get_or set_field has_key
set_field_self k v empty h e = absurd (cc h)
set_field_self k v (field i w d) h e = ground (arith, set_field_self k v d)

pub has_key-set_field : (k : String) (v : Value) (d : Fields) → has_key k (set_field k v d) ≡ true
unfolding has_key set_field
has_key-set_field k v empty = ground (arith, eq_iff k k)
has_key-set_field k v (field i w d) = ground (arith, has_key-set_field k v d, eq_iff i k)
