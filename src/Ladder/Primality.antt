-- ===== src/Ladder/Primality.antt =====
-- `is_prime` decides primality.
use native.Mathlib.Nat
use rns.Prelude.{
  ℕ, ◌+◌, ◌%◌, ◌<◌, ◌≤◌, ◌∣◌, zero, suc, ◌≡◌, ◌≢◌, ◌↔◌, ◌⊎◌, inl, inr, true, false, arith, dec_lt,
  ap, sym, refl, ℕ_discrete,
}
use rns.Trial.{IsPrime, NoSmall, IsPrime-iff, trial, trial_sound, trial_complete}
use rns.Ladder.Moduli.{is_prime}

-- An even number divides no odd one.
even-ne : (v e : ℕ) → v % 2 ≡ 1 → e % 2 ≡ 0 → v % e ≢ 0
even-ne v e odd even hit = absurd (
    omega
      (arith, Nat.mod-mod_of_dvd 2 v (Nat.dvd_of_mod-eq-zero 2 even), ap (λ (t : ℕ). t % 2) hit))

odd_gap : (v : ℕ) → v % 2 ≡ 1 → (d e : ℕ) → d % 2 ≡ 1 → d < e → e < d + 2 → v % e ≢ 0
odd_gap v odd d e t lo hi = even-ne v e odd (omega arith)

odd_loop : (v : ℕ) → 2 < v → v % 2 ≡ 1 → (trial v 2 v 3 ≡ true) ↔ NoSmall v
odd_loop v big odd = (
  trial_sound 2 v (omega arith) (λ d. d % 2 ≡ 1) (λ d t. omega arith) (odd_gap v odd) v 3
      (omega arith) (omega arith) two_misses,
  trial_complete 2 v (omega arith) (λ d. d % 2 ≡ 1) (λ d t. omega arith) (odd_gap v odd) v 3
      (omega arith),
)
  where
    two_misses : (e : ℕ) → 2 ≤ e → e < 3 → v % e ≢ 0
    two_misses e lo hi = let same : e ≡ 2 = omega arith in rw same (omega arith)

two-IsPrime : IsPrime 2
two-IsPrime = (omega arith, λ d div. small d (Nat.le_of_dvd (omega arith) div) div)
  where
    small : (d : ℕ) → d ≤ 2 → d ∣ 2 → (d ≡ 1) ⊎ (d ≡ 2)
    small zero h div = inr (sym (Nat.eq-zero_of_zero-dvd div))
    small (suc zero) h div = inl refl
    small (suc (suc d)) h div = inr (omega arith)

is_prime_small : (v : ℕ) → v < 2 → is_prime v ≡ false
unfolding is_prime
is_prime_small v h = ground arith

is_prime_even : (v : ℕ) → 2 < v → v % 2 ≢ 1 → is_prime v ≡ false
unfolding is_prime
is_prime_even v h e = ground arith

is_prime_odd : (v : ℕ) → 2 < v → v % 2 ≡ 1 → is_prime v ≡ trial v 2 v 3
unfolding is_prime
is_prime_odd v h e = ground arith

even-not-IsPrime : (v : ℕ) → 2 < v → v % 2 ≢ 1 → ¬ IsPrime v
even-not-IsPrime v h e (two, only) = elim (only 2 (Nat.dvd_of_mod-eq-zero 2 (omega arith))) [
  | inl p ↦ omega arith
  | inr p ↦ omega arith
]

-- `is_prime` answers true exactly for the numbers from 2 on whose only divisors are 1 and the
-- number itself.
pub is_prime_iff : (value : ℕ) → (is_prime value ≡ true) ↔ IsPrime value
is_prime_iff v = elim (dec_lt v 2) [
  | yes small ↦ rw (is_prime_small v small) (λ h. cc, λ p. absurd (omega (arith, p.0)))
  | no large ↦ elim (ℕ_discrete v 2) [
    | yes two ↦ rw two (λ h. two-IsPrime, λ h. unfold is_prime in refl)
    | no other ↦ elim (ℕ_discrete (v % 2) 1) [
      | no even ↦
          rw (is_prime_even v (omega arith) even)
            (λ h. cc, λ p. absurd (even-not-IsPrime v (omega arith) even p))
      | yes odd ↦
          let loop = odd_loop v (omega arith) odd in
          let prime = IsPrime-iff v (omega arith) in
          rw (is_prime_odd v (omega arith) odd) (λ h. prime.0 (loop.0 h), λ p. loop.1 (prime.1 p))
    ]
  ]
]
