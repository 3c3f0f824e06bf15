-- ===== src/Outcome.antt =====
-- An expression that may raise: the short-circuit connectives of Python, and the tests on JSON
-- values that can fail.
use rns.Prelude.{Bool, true, false, not, List, [], ◌∷◌, String, any, if◌then◌else◌}
use rns.Json.{Value, str, py_eq, hashable}

-- The exceptions that a capture can provoke: an unhashable value looked up in a set or an order
-- between values of different types, an integer too large for a float, and a text that is no integer.
pub data Exception : Type 0 where
  type_error overflow_error value_error : Exception

pub data Outcome (A : Type 0) : Type 0 where
  done : A → Outcome A
  raised : Exception → Outcome A

infixl 5 ◌>>=◌
abbrev pub ◌>>=◌ : {A B : Type 0} → Outcome A → (A → Outcome B) → Outcome B
done a >>= f = f a
raised e >>= f = raised e

-- `a and b`, `a or b`, `not a`: the second operand is evaluated only where it counts.
infixr 35 ◌and◌
infixr 30 ◌or◌
abbrev pub ◌and◌ : Outcome Bool → Outcome Bool → Outcome Bool
done true and b = b
done false and b = done false
raised e and b = raised e

abbrev pub ◌or◌ : Outcome Bool → Outcome Bool → Outcome Bool
done true or b = done true
done false or b = b
raised e or b = raised e

abbrev pub negate : Outcome Bool → Outcome Bool
negate (done b) = done (not b)
negate (raised e) = raised e

-- `if test: return a` and what follows it.
abbrev pub branch : {A : Type 0} → Outcome Bool → Outcome A → Outcome A → Outcome A
branch (done true) a b = a
branch (done false) a b = b
branch (raised e) a b = raised e

abbrev pub strs : List String → List Value
strs [] = []
strs (s ∷ ss) = str s ∷ strs ss

-- `v in {…}`
unfoldable pub in_set : Value → List Value → Outcome Bool
in_set v set = if hashable v then done (any (λ w. py_eq v w) set) else raised type_error
