-- ===== src/Check/Passes.antt =====
-- A method that returns and adds no message, taken apart by the shape of its body.
use rns.Prelude.{
  Bool, true, false, not, List, [], ◌∷◌, ◌++◌, String, ◌≡◌, refl, ap, All, ◌∙◌, not-false,
}
use rns.Json.{Value}
use rns.Outcome.{Outcome, Exception, done, raised, in_set}
use rns.Check.{Check, ◌>>=◌, ◌>>◌, when, reject, reject_if, when_if, require_in, for_each, lift}

-- The method returns `a` and appends nothing.
abbrev pub Returns : {A : Type 0} → Check A → A → Type 0
Returns m a = m ≡ (done a, [])

abbrev pub Passes : Check (Unit {0}) → Type 0
Passes m = m ≡ (done tt, [])

append-nil-left : (xs ys : List String) → xs ++ ys ≡ [] → (xs ≡ []) × (ys ≡ [])
append-nil-left [] ys h = (refl, h)
append-nil-left (x ∷ xs) ys h = absurd (cc)

module _ {A B : Type 0} where
  pub bind_passes :
      (m : Check A) (f : A → Check B) (b : B)
      → Returns (m >>= f) b
      → (a : A) × (Returns m a) × (Returns (f a) b)
  unfolding ◌>>=◌
  bind_passes (done a, es) f b h =
      let (quiet, rest) = append-nil-left es (f a).1 (ap (λ (p : Check B). p.1) h) in
      let result = ap (λ (p : Check B). p.0) h in
      (a, ap (λ (t : List String). (done a, t)) quiet, λ i. (result i, rest i))
  bind_passes (raised e, es) f b h = absurd (cc (ap (λ (p : Check B). p.0) h))

  pub lift_passes :
      (r : Outcome A) (f : A → Check B) (b : B)
      → Returns (lift r >>= f) b
      → (a : A) × (r ≡ done a) × (Returns (f a) b)
  lift_passes r f b h =
      let (a, e, k) = bind_passes (lift r) f b h in (a, ap (λ (p : Check A). p.0) e, k)

module _ {A : Type 0} where
  -- The method ends with an exception.
  abbrev pub Raises : Check A → Type 0
  Raises m = (e : Exception) × (m.0 ≡ raised e)

module _ {A B : Type 0} where
  -- A method raises if what follows raises whatever it returns.
  pub bind-Raises : (m : Check A) (f : A → Check B) → ((a : A) → Raises (f a)) → Raises (m >>= f)
  unfolding ◌>>=◌
  bind-Raises (done a, es) f h = let (e, raises) = h a in (e, cc raises)
  bind-Raises (raised e, es) f h = (e, refl)

  pub raised-Raises : (m : Check A) (f : A → Check B) → Raises m → Raises (m >>= f)
  unfolding ◌>>=◌
  raised-Raises (done a, es) f (e, h) = absurd (cc h)
  raised-Raises (raised e', es) f h = (e', refl)

module _ {B : Type 0} where
  pub then-Passes :
      (m : Check (Unit {0})) (k : Check B) (b : B) → Returns (m >> k) b → Passes m × Returns k b
  then-Passes m k b h = let (tt', first, rest) = bind_passes m (λ _. k) b h in (first, rest)

pub reject-Passes : (b : Bool) (message : String) → Passes (reject b message) → b ≡ false
unfolding reject
reject-Passes true message h = absurd (cc (ap (λ (p : Check Unit). p.1) h))
reject-Passes false message h = refl

pub when-Passes : (b : Bool) (m : Check Unit) → Passes (when b m) → b ≡ true → Passes m
unfolding when
when-Passes true m h e = h
when-Passes false m h e = absurd (cc e)

pub reject_if-Passes :
    (r : Outcome Bool) (message : String) → Passes (reject_if r message) → r ≡ done false
unfolding reject_if
reject_if-Passes r message h =
    let (b, e, k) = lift_passes r (λ b. reject b message) tt h in
    e ∙ ap done (reject-Passes b message k)

pub when_if-Passes :
    (r : Outcome Bool) (m : Check Unit) → Passes (when_if r m) → r ≡ done true → Passes m
unfolding when_if
when_if-Passes r m h e =
    let (b, e', k) = lift_passes r (λ b. when b m) tt h in when-Passes b m k (cc)

pub require_in-Passes :
    (v : Value) (set : List Value) (message : String)
    → Passes (require_in v set message)
    → in_set v set ≡ done true
unfolding require_in
require_in-Passes v set message h =
    let (b, e, k) = lift_passes (in_set v set) (λ b. reject (not b) message) tt h in
    e ∙ ap done (not-false b (reject-Passes (not b) message k))

pub for_each-Passes :
    {A : Type 0} (xs : List A) (body : A → Check Unit)
    → Passes (for_each xs body)
    → All (λ x. Passes (body x)) xs
unfolding for_each
for_each-Passes [] body h = tt
for_each-Passes (x ∷ xs) body h =
    let (first, rest) = then-Passes (body x) (for_each xs body) tt h in
    (first, for_each-Passes xs body rest)
