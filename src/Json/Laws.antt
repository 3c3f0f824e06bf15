-- ===== src/Json/Laws.antt =====
-- `==` and `in` against texts and integers.
use rns.Prelude.{
  true, false, List, [], ◌∷◌, String, str_eq, eq_iff, ◌≡◌, refl, ap, arith, ◌⊎◌, inl, inr, any,
  Bool-cases,
}
use rns.Prelude.Int.{ℤ, eqb_ℤ_iff}
use rns.Json.{Value, int, str, py_eq, is_int}
use rns.Outcome.{done, in_set, strs}

pub py_eq-str : (v : Value) (s : String) → py_eq v (str s) ≡ true → v ≡ str s
unfolding py_eq
py_eq-str (str t) s h = ap str ((eq_iff t s).0 h)
py_eq-str v s h = absurd (cc)

pub str-py_eq : (s : String) → py_eq (str s) (str s) ≡ true
unfolding py_eq
str-py_eq s = (eq_iff s s).1 refl

pub py_eq-int : (v : Value) (n : ℤ) → is_int v ≡ true → py_eq v (int n) ≡ true → v ≡ int n
unfolding py_eq
py_eq-int (int m) n i h = ap int ((eqb_ℤ_iff m n).0 h)
py_eq-int v n i h = absurd (cc)

-- The value is one of the texts.
abbrev pub OneOf : Value → List String → Type 0
OneOf v [] = ⊥
OneOf v (s ∷ ss) = (v ≡ str s) ⊎ OneOf v ss

any-OneOf : (v : Value) (ss : List String) → any (λ w. py_eq v w) (strs ss) ≡ true → OneOf v ss
any-OneOf v [] h = cc
any-OneOf v (s ∷ ss) h = elim (Bool-cases (py_eq v (str s))) [
  | inl e ↦ inl (py_eq-str v s e)
  | inr e ↦ inr (any-OneOf v ss (rw e at h))
]

pub in_set-OneOf : (v : Value) (ss : List String) → in_set v (strs ss) ≡ done true → OneOf v ss
unfolding in_set
in_set-OneOf v ss h = any-OneOf v ss (ground arith)

text_of : Value → String
text_of (str s) = s
text_of v = ""

-- Texts that compare as different are different values.
pub str-ne : (s t : String) → str_eq s t ≡ false → str s ≡ str t → ⊥
unfolding text_of
str-ne s t differ e = cc (differ, (eq_iff s t).1 (ap text_of e))
