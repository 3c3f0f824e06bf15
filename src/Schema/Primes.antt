-- ===== src/Schema/Primes.antt =====
-- `_is_prime_modulus` decides primality up to 251.
use rns.Prelude.{ℕ, ◌+◌, ◌%◌, ◌≤◌, ◌<◌, ◌≡◌, ◌≢◌, ◌↔◌, true, false, arith, dec_lt, ◌⊎◌, inl, inr}
use rns.Prelude.Int.{pos}
use rns.Trial.{IsPrime, NoSmall, IsPrime-iff, trial, trial_sound, trial_complete}
use rns.Schema.Kernels.{is_prime_modulus}

no_gap : (v d e : ℕ) → Unit {0} → d < e → e < d + 1 → v % e ≢ 0
no_gap v d e t lo hi = absurd (omega arith)

loop : (v : ℕ) → (trial v 1 v 2 ≡ true) ↔ NoSmall v
loop v = (
  trial_sound 1 v (omega arith) (λ d. Unit {0}) (λ d t. tt) (no_gap v) v 2 (omega arith) tt
      (λ e lo hi. absurd (omega arith)),
  trial_complete 1 v (omega arith) (λ d. Unit {0}) (λ d t. tt) (no_gap v) v 2 (omega arith),
)

outside : (v : ℕ) → (v < 2) ⊎ (251 < v) → is_prime_modulus (pos v) ≡ false
unfolding is_prime_modulus
outside v h = ground arith

inside : (v : ℕ) → 2 ≤ v → v ≤ 251 → is_prime_modulus (pos v) ≡ trial v 1 v 2
unfolding is_prime_modulus
inside v lo hi = ground arith

-- Of the integers from 0 on, `is_prime_modulus` passes exactly the primes up to 251.
pub is_prime_modulus_iff : (v : ℕ) → (is_prime_modulus (pos v) ≡ true) ↔ (IsPrime v × (v ≤ 251))
is_prime_modulus_iff v = elim (dec_lt v 2) [
  | yes small ↦ rw (outside v (inl small)) (λ h. cc, λ p. absurd (omega (arith, p.0.0)))
  | no large ↦ elim (dec_lt 251 v) [
    | yes huge ↦ rw (outside v (inr huge)) (λ h. cc, λ p. absurd (omega (arith, p.1)))
    | no fits ↦
        let prime = IsPrime-iff v (omega arith) in
        rw (inside v (omega arith) (omega arith))
          (λ h. (prime.0 ((loop v).0 h), omega arith), λ p. (loop v).1 (prime.1 p.0))
  ]
]
