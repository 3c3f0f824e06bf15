-- ===== src/Ladder/Coprime.antt =====
-- `is_coprime_set` decides pairwise coprimality.
use native.Mathlib.Nat
use rns.Prelude.{
  ℕ, zero, suc, ◌<◌, ◌∣◌, ◌≡◌, ◌↔◌, refl, true, arith, subst, List, [], ◌∷◌, get_elem?, some, all,
  ◌==◌, and_true,
}
use rns.Python.Gcd.{gcd, gcd_divides, dvd-gcd}
use rns.Ladder.Moduli.{is_coprime_set}

-- Moduli at two positions have no common divisor but 1.
abbrev pub PairwiseCoprime : List ℕ → Type 0
PairwiseCoprime xs =
    (i j a b : ℕ)
    → i < j
    → get_elem? xs i ≡ some a
    → get_elem? xs j ≡ some b
    → (d : ℕ) → d ∣ a
    → d ∣ b
    → d ≡ 1

abbrev Coprime : ℕ → ℕ → Type 0
Coprime a b = (d : ℕ) → d ∣ a → d ∣ b → d ≡ 1

gcd-Coprime : (a b : ℕ) → gcd a b ≡ 1 → Coprime a b
gcd-Coprime a b e d ha hb = Nat.eq-one_of_dvd-one (subst (◌∣◌ d) e (dvd-gcd d a b ha hb))

Coprime-gcd : (a b : ℕ) → Coprime a b → gcd a b ≡ 1
Coprime-gcd a b c = c (gcd a b) (gcd_divides a b).0 (gcd_divides a b).1

pub with_rest_sound :
    (a : ℕ) (xs : List ℕ)
    → all (λ b. gcd a b == 1) xs ≡ true
    → (j b : ℕ) → get_elem? xs j ≡ some b
    → gcd a b ≡ 1
with_rest_sound a [] h j b e = cc
with_rest_sound a (x ∷ xs) h zero b e = ground arith
with_rest_sound a (x ∷ xs) h (suc j) b e = with_rest_sound a xs (and_true _ _ h).1 j b e

with_rest_complete :
    (a : ℕ) (xs : List ℕ)
    → ((j b : ℕ) → get_elem? xs j ≡ some b → gcd a b ≡ 1)
    → all (λ b. gcd a b == 1) xs ≡ true
with_rest_complete a [] h = refl
with_rest_complete a (x ∷ xs) h = ground (arith, h 0 x, with_rest_complete a xs (λ j. h (suc j)))

sound : (xs : List ℕ) → is_coprime_set xs ≡ true → PairwiseCoprime xs
unfolding is_coprime_set
sound [] h i j a b lt ea eb = cc
sound (x ∷ xs) h zero zero a b lt ea eb = absurd (omega arith)
sound (x ∷ xs) h zero (suc j) a b lt ea eb =
    let same : x ≡ a = cc in
    rw same at (gcd-Coprime x b (with_rest_sound x xs (and_true _ _ h).0 j b eb))
sound (x ∷ xs) h (suc i) zero a b lt ea eb = absurd (omega arith)
sound (x ∷ xs) h (suc i) (suc j) a b lt ea eb =
    sound xs (and_true _ _ h).1 i j a b (omega arith) ea eb

complete : (xs : List ℕ) → PairwiseCoprime xs → is_coprime_set xs ≡ true
unfolding is_coprime_set
complete [] h = refl
complete (x ∷ xs) h = ground (
  arith,
  with_rest_complete x xs (λ j b e. Coprime-gcd x b (h 0 (suc j) x b (omega arith) refl e)),
  complete xs (λ i j a b lt. h (suc i) (suc j) a b (omega arith)),
)

-- The test passes exactly if the moduli at any two positions have no common divisor but 1.
pub is_coprime_set_iff : (values : List ℕ) → (is_coprime_set values ≡ true) ↔ PairwiseCoprime values
is_coprime_set_iff values = (sound values, complete values)
