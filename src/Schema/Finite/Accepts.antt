-- ===== src/Schema/Finite/Accepts.antt =====
-- What a capture without errors satisfies.
use rns.Prelude.{ℕ, ◌≤◌, ◌≡◌, refl, arith, or_false, not-false, ap, ◌∙◌}
use rns.Prelude.Int.{ℤ, pos, negsuc, ltb_ℤ}
use rns.Trial.{IsPrime}
use rns.Json.{Value, Fields, str, int, get, py_eq}
use rns.Check.{Check}
use rns.Check.Passes.{Passes, then-Passes, lift_passes, reject-Passes}
use rns.Schema.Kernels.{is_prime_modulus}
use rns.Schema.Primes.{is_prime_modulus_iff}
use rns.Schema.Context.{Context}
use rns.Schema.Finite.{check_modulus, check_shape, validate_finite_u8_contract}

-- The parts that the theorems below are about.
contract_parts :
    (d : Fields) (ctx : Context)
    → Passes (validate_finite_u8_contract d ctx)
    → Passes (check_shape d ctx) × Passes (check_modulus ctx.semantics (get "finite_modulus" d))
unfolding validate_finite_u8_contract
contract_parts d ctx h =
    let (oneshot, e, h1) = lift_passes _ _ tt h in
    let (_, h2) = then-Passes _ _ tt h1 in
    let (shape, h3) = then-Passes _ _ tt h2 in
    let (modulus, _) = then-Passes _ _ tt h3 in (shape, modulus)

is_int-modulus : (semantics v : Value) → Passes (check_modulus semantics v) → (m : ℤ) × (v ≡ int m)
unfolding check_modulus
is_int-modulus semantics (int m) h = (m, refl)
is_int-modulus semantics v h = absurd (cc (ap (λ (p : Check Unit). p.1) h))

field_modulus :
    (m : ℤ)
    → Passes (check_modulus (str "finite_field_u8") (int m))
    → (p : ℕ) × (m ≡ pos p) × IsPrime p × (p ≤ 251)
unfolding check_modulus py_eq
field_modulus (pos p) h =
    let (prime, fits) = (is_prime_modulus_iff p).0 (not-false _ (reject-Passes _ _ h)) in
    (p, refl, prime, fits)
field_modulus (negsuc p) h =
    absurd (
      unfold is_prime_modulus in cc (not-false (is_prime_modulus (negsuc p)) (reject-Passes _ _ h)))

ring_modulus :
    (m : ℤ)
    → Passes (check_modulus (str "finite_ring_u8") (int m))
    → (q : ℕ) × (m ≡ pos q) × (2 ≤ q) × (q ≤ 256)
unfolding check_modulus py_eq
ring_modulus (pos q) h =
    let (low, high) =
      or_false (ltb_ℤ (pos q) (pos 2)) (ltb_ℤ (pos 256) (pos q)) (reject-Passes _ _ h) in
    (q, refl, ground arith, ground arith)
ring_modulus (negsuc q) h =
    let (low, high) =
      or_false (ltb_ℤ (negsuc q) (pos 2)) (ltb_ℤ (pos 256) (negsuc q)) (reject-Passes _ _ h) in
    absurd (ground arith)

-- A field capture that `validate_finite_u8_contract` accepts has a prime modulus up to 251.
pub finite_accepts_field :
    (d : Fields) (ctx : Context)
    → Passes (validate_finite_u8_contract d ctx)
    → ctx.semantics ≡ str "finite_field_u8"
    → (p : ℕ) × (get "finite_modulus" d ≡ int (pos p)) × IsPrime p × (p ≤ 251)
finite_accepts_field d ctx h field =
    let (_, modulus) = contract_parts d ctx h in
    let (m, e) = is_int-modulus _ _ modulus in
    let (p, e', prime, fits) = field_modulus m (rw (← field, ← e) modulus) in
    (p, e ∙ ap int e', prime, fits)

-- A ring capture that `validate_finite_u8_contract` accepts has a modulus from 2 through 256.
pub finite_accepts_ring :
    (d : Fields) (ctx : Context)
    → Passes (validate_finite_u8_contract d ctx)
    → ctx.semantics ≡ str "finite_ring_u8"
    → (q : ℕ) × (get "finite_modulus" d ≡ int (pos q)) × (2 ≤ q) × (q ≤ 256)
finite_accepts_ring d ctx h ring =
    let (_, modulus) = contract_parts d ctx h in
    let (m, e) = is_int-modulus _ _ modulus in
    let (q, e', low, high) = ring_modulus m (rw (← ring, ← e) modulus) in
    (q, e ∙ ap int e', low, high)
