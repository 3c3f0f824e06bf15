-- ===== src/Json.antt =====
-- The values that `json.load` returns, and what the validators do with them: `==`, `in`, `.get`
-- and the tests on types.
pub mod Laws
use rns.Prelude.{
  ℕ, suc, ◌*◌, ◌^◌, Bool, true, false, not, ◌&&◌, ◌||◌, String, str_eq, ◌==◌, if◌then◌else◌,
}
use rns.Prelude.Int.{ℤ, pos, eqb_ℤ, ◌*ℤ◌}

-- A finite double is an integer over a power of two, so comparisons are exact. The two zeros are
-- equal in every comparison that the code makes, and are one value here.
pub data Double : Type 0 where
  dyadic : ℤ → ℕ → Double
  infinite : Bool → Double
  not_a_number : Double

mutual
  pub data Value : Type 0 where
    null : Value
    bool : Bool → Value
    int : ℤ → Value
    float : Double → Value
    str : String → Value
    arr : Items → Value
    obj : Fields → Value

  pub data Items : Type 0 where
    end : Items
    item : Value → Items → Items

  -- A dict in insertion order; the first field of a key counts.
  pub data Fields : Type 0 where
    empty : Fields
    field : String → Value → Fields → Fields

unfoldable pub has_key : String → Fields → Bool
has_key k empty = false
has_key k (field j v d) = str_eq j k || has_key k d

-- `d.get(k, default)`
unfoldable pub get_or : String → Value → Fields → Value
get_or k default empty = default
get_or k default (field j v d) = if str_eq j k then v else get_or k default d

-- `d.get(k)`
abbrev pub get : String → Fields → Value
get k d = get_or k null d

field_count : Fields → ℕ
field_count empty = 0
field_count (field j v d) = suc (field_count d)

scaled_eq : ℤ → ℕ → ℤ → ℕ → Bool
scaled_eq a m b n = eqb_ℤ (a *ℤ pos (2 ^ n)) (b *ℤ pos (2 ^ m))

double_eq : Double → Double → Bool
double_eq (dyadic a m) (dyadic b n) = scaled_eq a m b n
double_eq (infinite true) (infinite true) = true
double_eq (infinite false) (infinite false) = true
double_eq _ _ = false

abbrev pub bool_int : Bool → ℤ
bool_int true = pos 1
bool_int false = pos 0

both_nan : Value → Value → Bool
both_nan (float not_a_number) (float not_a_number) = true
both_nan _ _ = false

-- Python's `==`: `True == 1 == 1.0`, and values of other types are different. Items of a list
-- and values of a dict are also equal if they are the same object, as the one NaN that
-- `json.load` hands out is.
unfoldable mutual
  unfolding double_eq field_count both_nan scaled_eq

  pub py_eq : Value → Value → Bool
  py_eq null w = elim w [ null ↦ true | _ ↦ false ]
  py_eq (bool a) w = elim w [
    | bool b ↦ eqb_ℤ (bool_int a) (bool_int b)
    | int b ↦ eqb_ℤ (bool_int a) b
    | float d ↦ double_eq (dyadic (bool_int a) 0) d
    | _ ↦ false
  ]
  py_eq (int a) w = elim w [
    | bool b ↦ eqb_ℤ a (bool_int b)
    | int b ↦ eqb_ℤ a b
    | float d ↦ double_eq (dyadic a 0) d
    | _ ↦ false
  ]
  py_eq (float c) w = elim w [
    | bool b ↦ double_eq c (dyadic (bool_int b) 0)
    | int b ↦ double_eq c (dyadic b 0)
    | float d ↦ double_eq c d
    | _ ↦ false
  ]
  py_eq (str s) w = elim w [ str t ↦ str_eq s t | _ ↦ false ]
  py_eq (arr xs) w = elim w [ arr ys ↦ items_eq xs ys | _ ↦ false ]
  py_eq (obj d) w = elim w [
    | obj e ↦ (field_count d == field_count e) && fields_within d e
    | _ ↦ false
  ]

  pub items_eq : Items → Items → Bool
  items_eq end ys = elim ys [ end ↦ true | _ ↦ false ]
  items_eq (item x xs) ys = elim ys [
    | end ↦ false
    | item y ys' ↦ (both_nan x y || py_eq x y) && items_eq xs ys'
  ]

  pub fields_within : Fields → Fields → Bool
  fields_within empty e = true
  fields_within (field k v d) e =
      has_key k e && (both_nan v (get k e) || py_eq v (get k e)) && fields_within d e

abbrev pub is_dict : Value → Bool
is_dict (obj d) = true
is_dict _ = false

abbrev pub is_str : Value → Bool
is_str (str s) = true
is_str _ = false

abbrev pub is_bool : Value → Bool
is_bool (bool b) = true
is_bool _ = false

-- `_is_int`
abbrev pub is_int : Value → Bool
is_int (int n) = true
is_int _ = false

-- `value is True`, `value is False`, `value is None`
abbrev pub is_true : Value → Bool
is_true (bool b) = b
is_true _ = false

abbrev pub is_false : Value → Bool
is_false (bool b) = not b
is_false _ = false

abbrev pub is_none : Value → Bool
is_none null = true
is_none _ = false

-- A list or a dict cannot be looked up in a set.
abbrev pub hashable : Value → Bool
hashable (arr xs) = false
hashable (obj d) = false
hashable _ = true
