-- ===== src/Autotune/Result.antt =====
-- What a function of the installer gives, and the functions of Python's library that it calls.
use rns.Prelude.{◌≡◌, refl, ap, Bool, true, false, Option, List, [], String, ◌∷◌}
use rns.Prelude.Int.{ℤ}
use rns.Json.{Value}

-- `AutotuneCacheInstallError` with its message, and the exceptions of other classes.
pub data Failure : Type 0 where
  install_error : String → Failure
  file_not_found os_error decode_error overflow_error : Failure

pub data Result {ℓ} (A : Type ℓ) : Type ℓ where
  ok : A → Result A
  fail : Failure → Result A

infixl 5 ◌>>=◌ ◌>>◌
abbrev pub ◌>>=◌ {ℓ κ} : {A : Type ℓ} {B : Type κ} → Result A → (A → Result B) → Result B
ok a >>= f = f a
fail e >>= f = fail e

abbrev pub ◌>>◌ {ℓ} : {B : Type ℓ} → Result (Unit {0}) → Result B → Result B
m >> k = m >>= λ _. k

-- `raise AutotuneCacheInstallError(message)`
abbrev pub refuse {ℓ} : {A : Type ℓ} → String → Result A
refuse message = fail (install_error message)

-- `if test: raise AutotuneCacheInstallError(message)`
abbrev pub refuse_if : Bool → String → Result (Unit {0})
refuse_if true message = refuse message
refuse_if false message = ok tt

-- `if test: …`
abbrev pub only_if : Bool → Result (Unit {0}) → Result (Unit {0})
only_if true m = m
only_if false m = ok tt

-- `except AutotuneCacheInstallError as exc: raise AutotuneCacheInstallError(f"…{exc}")`
abbrev pub relabel {ℓ} : {A : Type ℓ} → (String → String) → Result A → Result A
relabel f (ok a) = ok a
relabel f (fail (install_error message)) = refuse (f message)
relabel f (fail e) = fail e

-- `for x in xs: …`
unfoldable pub for_each {ℓ} : {A : Type ℓ} → List A → (A → Result (Unit {0})) → Result (Unit {0})
for_each [] body = ok tt
for_each (x ∷ xs) body = body x >> for_each xs body

-- Functions of Python's library: `str.lower`, `int(text, 10)`, the hexadecimal SHA-256 of a text in
-- UTF-8, `json.dumps` with sorted keys and the short separators, and `str` of a JSON value.
pub record Library : Type 0 where
  pub lower : String → String
  pub parse_int : String → Option ℤ
  pub sha256_hex : String → String
  pub dumps : Value → String
  pub str_of : Value → String

module _ {ℓ κ} {A : Type ℓ} {B : Type κ} where
  -- A chain that returns, taken apart.
  pub >>=-ok :
      (m : Result A) (f : A → Result B) (b : B)
      → (m >>= f) ≡ ok b
      → (a : A) × (m ≡ ok a) × (f a ≡ ok b)
  >>=-ok (ok a) f b h = (a, refl, h)
  >>=-ok (fail e) f b h = absurd (cc h)

module _ {ℓ} {B : Type ℓ} where
  pub >>-ok :
      (m : Result (Unit {0})) (k : Result B) (b : B) → (m >> k) ≡ ok b → (m ≡ ok tt) × (k ≡ ok b)
  >>-ok (ok tt) k b h = (refl, h)
  >>-ok (fail e) k b h = absurd (cc h)

pub refuse_if-ok : (b : Bool) (message : String) → refuse_if b message ≡ ok tt → b ≡ false
refuse_if-ok true message h = absurd (cc h)
refuse_if-ok false message h = refl

pub only_if-ok : (b : Bool) (m : Result (Unit {0})) → only_if b m ≡ ok tt → b ≡ true → m ≡ ok tt
only_if-ok true m h e = h
only_if-ok false m h e = absurd (cc e)

pub relabel-ok {ℓ} :
    {A : Type ℓ} (f : String → String) (m : Result A) (a : A) → relabel f m ≡ ok a → m ≡ ok a
relabel-ok f (ok a') a h = h
relabel-ok f (fail (install_error message)) a h = absurd (cc h)
relabel-ok f (fail file_not_found) a h = absurd (cc h)
relabel-ok f (fail os_error) a h = absurd (cc h)
relabel-ok f (fail decode_error) a h = absurd (cc h)
relabel-ok f (fail overflow_error) a h = absurd (cc h)

ok_of {ℓ} : {A : Type ℓ} → A → Result A → A
ok_of default (ok a) = a
ok_of default (fail e) = default

pub ok_injective {ℓ} : {A : Type ℓ} (a b : A) → ok a ≡ ok b → a ≡ b
unfolding ok_of
ok_injective a b h = ap (ok_of a) h
