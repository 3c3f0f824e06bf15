-- ===== src/Trial.antt =====
-- Trial division, the loop that tools/modulus_set_search.py (`is_prime`) and
-- tools/benchmark_schema/core_shared.py (`_is_prime_modulus`) each contain: divisors grow by a
-- step until their square passes the value.
use native.Mathlib.Nat
use rns.Prelude.{
  ℕ, zero, suc, ◌+◌, ◌*◌, ◌/◌, ◌%◌, ◌<◌, ◌≤◌, ◌∣◌, ◌≡◌, ◌≢◌, refl, ◌⊎◌, inl, inr, Bool, true, false,
  ◌↔◌, arith, leb, ◌==◌, dec_lt,
}

-- One more than `fuel` rounds are never needed: `trial_iff` and its uses give the bound.
unfoldable pub trial : ℕ → ℕ → ℕ → ℕ → Bool
trial zero step value divisor = true
trial (suc fuel) step value divisor = elim (leb (divisor * divisor) value) [
  | false ↦ true
  | true ↦ elim (value % divisor == 0) [
    | true ↦ false
    | false ↦ trial fuel step value (divisor + step)
  ]
]

abbrev pub IsPrime : ℕ → Type 0
IsPrime v = (2 ≤ v) × ((d : ℕ) → d ∣ v → (d ≡ 1) ⊎ (d ≡ v))

-- No divisor from 2 up to the square root.
abbrev pub NoSmall : ℕ → Type 0
NoSmall v = (e : ℕ) → 2 ≤ e → e * e ≤ v → v % e ≢ 0

abbrev Below : ℕ → ℕ → Type 0
Below v d = (e : ℕ) → 2 ≤ e → e < d → v % e ≢ 0

-- `Gap` says which numbers between two tested divisors the loop may pass over.
module _ (step v : ℕ) (grows : 0 < step) (Tested : ℕ → Type 0)
    (onward : (d : ℕ) → Tested d → Tested (d + step))
    (gap : (d e : ℕ) → Tested d → d < e → e < d + step → v % e ≢ 0) where
  round_on :
      (fuel d : ℕ)
      → trial (suc fuel) step v d ≡ true
      → d * d ≤ v
      → (v % d ≢ 0) × (trial fuel step v (d + step) ≡ true)
  unfolding trial
  round_on fuel d h sq = ground arith

  further : (d : ℕ) → Tested d → Below v d → v % d ≢ 0 → Below v (d + step)
  further d t b miss e two lt = elim (dec_lt e d) [
    | yes p ↦ b e two p
    | no p ↦ elim (dec_lt d e) [
      | yes q ↦ gap d e t q lt
      | no q ↦ let same : e ≡ d = omega arith in rw same miss
    ]
  ]

  pub trial_sound :
      (fuel d : ℕ) → v < d + fuel → Tested d → Below v d → trial fuel step v d ≡ true → NoSmall v
  trial_sound zero d enough t b h = λ e two sq. b e two (grind arith)
  trial_sound (suc fuel) d enough t b h = elim (dec_lt v (d * d)) [
    | yes done ↦ λ e two sq. b e two (grind arith)
    | no more ↦
        let (miss, rest) = round_on fuel d h (omega arith) in
        trial_sound fuel (d + step) (omega arith) (onward d t) (further d t b miss) rest
  ]

  pub trial_complete : (fuel d : ℕ) → 2 ≤ d → NoSmall v → trial fuel step v d ≡ true
  unfolding trial
  trial_complete zero d two n = refl
  trial_complete (suc fuel) d two n = ground (arith, n d, trial_complete fuel (d + step))

-- A number from 2 on is prime exactly if it has no divisor up to its square root.
NoSmall-of_prime : (v : ℕ) → IsPrime v → NoSmall v
NoSmall-of_prime v (two, only) e e2 sq hit = elim (only e (Nat.dvd_of_mod-eq-zero e hit)) [
  | inl one ↦ omega arith
  | inr same ↦ grind arith
]

-- The larger of two cofactors is the value, where no number up to the square root divides it.
cofactor : (v d q : ℕ) → 2 ≤ v → NoSmall v → d * q ≡ v → (d ≡ 1) ⊎ (d ≡ v)
cofactor v zero q two n e = absurd (omega arith)
cofactor v (suc zero) q two n e = inl refl
cofactor v d zero two n e = absurd (omega arith)
cofactor v d (suc zero) two n e = inr (omega arith)
cofactor v (suc (suc d)) (suc (suc q)) two n e = absurd (elim (dec_lt d q) [
  | yes p ↦ n (suc (suc d)) (omega arith) (grind arith) (rw (← e) (Nat.mul-mod_right _ _))
  | no p ↦ n (suc (suc q)) (omega arith) (grind arith) (rw (← e) (Nat.mul-mod_left _ _))
])

IsPrime-of_NoSmall : (v : ℕ) → 2 ≤ v → NoSmall v → IsPrime v
IsPrime-of_NoSmall v two n = (two, λ d div. cofactor v d (v / d) two n (Nat.mul-div_cancel' d div))

pub IsPrime-iff : (v : ℕ) → 2 ≤ v → NoSmall v ↔ IsPrime v
IsPrime-iff v two = (IsPrime-of_NoSmall v two, NoSmall-of_prime v)
