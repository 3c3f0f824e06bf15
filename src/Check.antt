-- ===== src/Check.antt =====
-- A validator method: it may append messages to `self.errors`, and it may raise. What was appended
-- before an exception stays appended. No method reads `self.errors`, so the list is only written.
-- A message is kept without the prefix `{self.path}: `, which is the same for all of them.
pub mod Passes
use rns.Prelude.{Bool, true, false, not, List, [], ◌∷◌, ◌++◌, String}
use rns.Json.{Value}
use rns.Outcome.{Outcome, done, raised, in_set}

abbrev pub Check : Type 0 → Type 0
Check A = Outcome A × List String

module _ {A B : Type 0} where
  abbrev continue : Outcome A → List String → (A → Check B) → Check B
  continue (done a) es f = let (r, es') = f a in (r, es ++ es')
  continue (raised e) es f = (raised e, es)

  infixl 5 ◌>>=◌
  unfoldable pub ◌>>=◌ : Check A → (A → Check B) → Check B
  ◌>>=◌ (r, es) f = continue r es f

module _ {B : Type 0} where
  infixl 5 ◌>>◌
  abbrev pub ◌>>◌ : Check (Unit {0}) → Check B → Check B
  m >> k = m >>= λ _. k

abbrev pub pure : {A : Type 0} → A → Check A
pure a = (done a, [])

abbrev pub skip : Check (Unit {0})
skip = (done tt, [])

-- An expression in a method's body.
abbrev pub lift : {A : Type 0} → Outcome A → Check A
lift r = (r, [])

-- `self._error(message)`
abbrev pub error : String → Check (Unit {0})
error message = (done tt, message ∷ [])

-- `if test: …`
unfoldable pub when : Bool → Check (Unit {0}) → Check (Unit {0})
when true m = m
when false m = skip

-- `if test: self._error(message)`
unfoldable pub reject : Bool → String → Check (Unit {0})
reject true message = error message
reject false message = skip

-- `if <expression>: self._error(message)`
unfoldable pub reject_if : Outcome Bool → String → Check (Unit {0})
unfolding ◌>>=◌ reject
reject_if test message = lift test >>= λ b. reject b message

unfoldable pub when_if : Outcome Bool → Check (Unit {0}) → Check (Unit {0})
unfolding ◌>>=◌ when
when_if test m = lift test >>= λ b. when b m

-- `if v not in {…}: self._error(message)`
unfoldable pub require_in : Value → List Value → String → Check (Unit {0})
unfolding ◌>>=◌ reject
require_in v set message = lift (in_set v set) >>= λ b. reject (not b) message

-- `for key in […]: …`
unfoldable pub for_each : {A : Type 0} → List A → (A → Check (Unit {0})) → Check (Unit {0})
unfolding ◌>>=◌
for_each [] body = skip
for_each (x ∷ xs) body = body x >> for_each xs body
