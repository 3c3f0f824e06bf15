-- ===== src/Autotune/Fields.antt =====
-- The readers of an entry and of its key: `require_…` and `optional_…`.
use rns.Prelude.{
  Bool, false, not, Option, none, some, String, str_eq, ◌<>◌, if◌then◌else◌, leb, ◌+◌,
}
use rns.Prelude.Int.{ℤ, ltb_ℤ, eqb_ℤ, pos_part, neg_part}
use rns.Python.Decimal.{show}
use rns.Json.{Value, Fields, bool, int, float, str, get, bool_int}
use rns.Schema.Kernels.{float_overflow}
use rns.Dict.{Dict, lookup, has}
use rns.Autotune.Result.{Result, ok, fail, overflow_error, refuse, refuse_if, Library}

-- A text that is not empty.
abbrev pub nonempty : Value → Option String
nonempty (str s) = if str_eq s "" then none else some s
nonempty _ = none

-- `isinstance(value, int)` and its number: `True` and `False` are integers.
abbrev pub as_int : Value → Option ℤ
as_int (int n) = some n
as_int (bool b) = some (bool_int b)
as_int _ = none

unfoldable pub require_string : Fields → String → Result String
require_string item name = elim (nonempty (get name item)) [
  | some value ↦ ok value
  | none ↦ refuse (name <> " must be a nonempty string")
]

unfoldable pub require_int : Fields → String → ℤ → Result ℤ
require_int item name minimum =
    let error = refuse (name <> " must be an integer >= " <> show minimum) in
    elim (as_int (get name item)) [
      | some value ↦ if ltb_ℤ value minimum then error else ok value
      | none ↦ error
    ]

-- `float(value)` raises where the magnitude rounds past the largest double. What it returns is not
-- used.
unfoldable pub to_float : ℤ → Result (Unit {0})
unfolding float_overflow
to_float n = if leb float_overflow (pos_part n + neg_part n) then fail overflow_error else ok tt

unfoldable pub number_of : String → Value → Result (Unit {0})
unfolding to_float
number_of name (int n) = to_float n
number_of name (bool b) = to_float (bool_int b)
number_of name (float d) = ok tt
number_of name _ = refuse (name <> " must be numeric")

unfoldable pub require_number : Fields → String → Result (Unit {0})
unfolding number_of
require_number item name = number_of name (get name item)

abbrev pub is_text : Option String → String → Bool
is_text none expected = false
is_text (some value) expected = str_eq value expected

unfoldable pub require_key_field : Dict String → String → String → Result (Unit {0})
require_key_field fields name expected =
    refuse_if (not (is_text (lookup name fields) expected)) ("key_" <> name <> "_mismatch")

unfoldable pub require_key_int : Library → Dict String → String → ℤ → Result (Unit {0})
require_key_int lib fields name expected = elim (lookup name fields) [
  | none ↦ refuse ("missing_key_" <> name)
  | some value ↦ elim (lib.parse_int value) [
    | none ↦ refuse ("invalid_key_" <> name)
    | some parsed ↦ refuse_if (not (eqb_ℤ parsed expected)) ("key_" <> name <> "_mismatch")
  ]
]

unfoldable pub optional_key_field : Dict String → String → String → Result (Unit {0})
optional_key_field fields name expected = elim (lookup name fields) [
  | none ↦ ok tt
  | some value ↦ refuse_if (not (str_eq value expected)) ("key_" <> name <> "_mismatch")
]

unfoldable pub optional_key_int : Library → Dict String → String → ℤ → Result (Unit {0})
unfolding require_key_int
optional_key_int lib fields name expected =
    if not (has name fields) then ok tt else require_key_int lib fields name expected
