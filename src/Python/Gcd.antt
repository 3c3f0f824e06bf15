-- ===== src/Python/Gcd.antt =====
-- `math.gcd` on numbers that are not negative: Euclid's algorithm, with the facts on common
-- divisors that the ladder needs.
use mathlib.Core.WellFounded.{Acc}
use native.Mathlib.Nat
use rns.Prelude.{
  ℕ, zero, suc, ◌+◌, ◌*◌, ◌/◌, ◌%◌, ◌<◌, ◌∣◌, ◌≡◌, sym, ap, subst, ◌∙◌, ◌⊎◌, inl, inr, arith,
}
use rns.Prelude.Order.{lt_wf}

pub rest-lt : (a c : ℕ) → a % suc c < suc c
rest-lt a c = omega arith

gcd_loop : (a b : ℕ) → Acc ◌<◌ b → ℕ
gcd_loop a b (Acc.intro zero _) = a
gcd_loop a b (Acc.intro (suc c) below) = gcd_loop (suc c) (a % suc c) (below _ (rest-lt a c))

unfoldable pub gcd : ℕ → ℕ → ℕ
unfolding gcd_loop lt_wf
gcd a b = gcd_loop a b (lt_wf.apply b)

-- A common divisor of two products with one factor divides the product with the result.
split_product : (a c d : ℕ) → a * d ≡ suc c * (a / suc c * d) + a % suc c * d
split_product a c d = omega (arith, ap (λ (t : ℕ). t * d) (Nat.div-add-mod a (suc c)))

rest-dvd : (k a c d : ℕ) → k ∣ a * d → k ∣ suc c * d → k ∣ a % suc c * d
rest-dvd k a c d ha hc = (Nat.dvd-add_iff_right k whole).1 (subst (◌∣◌ k) (split_product a c d) ha)
  where
    shuffle : (q s t : ℕ) → s * t * q ≡ s * (q * t)
    shuffle q s t = omega arith

    whole : k ∣ suc c * (a / suc c * d)
    whole =
        subst (◌∣◌ k) (shuffle (a / suc c) (suc c) d) (Nat.dvd-mul_right_of_dvd k hc (a / suc c))

gcd_loop-dvd_mul : (k d a b : ℕ) (w : Acc ◌<◌ b) → k ∣ a * d → k ∣ b * d → k ∣ gcd_loop a b w * d
unfolding gcd_loop
gcd_loop-dvd_mul k d a b (Acc.intro zero _) ha hb = ha
gcd_loop-dvd_mul k d a b (Acc.intro (suc c) below) ha hb =
    gcd_loop-dvd_mul k d (suc c) (a % suc c) (below _ (rest-lt a c)) hb (rest-dvd k a c d ha hb)

pub dvd-gcd_mul : (k d a b : ℕ) → k ∣ a * d → k ∣ b * d → k ∣ gcd a b * d
unfolding gcd
dvd-gcd_mul k d a b ha hb = gcd_loop-dvd_mul k d a b (lt_wf.apply b) ha hb

-- A number that divides a product, and has no common factor with one side, divides the other.
pub dvd_of_coprime_mul : (a b d : ℕ) → gcd a b ≡ 1 → a ∣ b * d → a ∣ d
dvd_of_coprime_mul a b d e h =
    rw Nat.one-mul at (rw e at (dvd-gcd_mul a d a b (Nat.dvd-mul_right a d) h))

gcd_loop-divides : (a b : ℕ) (w : Acc ◌<◌ b) → (gcd_loop a b w ∣ a) × (gcd_loop a b w ∣ b)
unfolding gcd_loop
gcd_loop-divides a b (Acc.intro zero _) = (Nat.dvd_refl a, Nat.dvd-zero a)
gcd_loop-divides a b (Acc.intro (suc c) below) =
    let (hl, hr) = gcd_loop-divides (suc c) (a % suc c) (below _ (rest-lt a c)) in
    ((Nat.dvd-mod_iff _ hl).0 hr, hl)

pub gcd_divides : (a b : ℕ) → (gcd a b ∣ a) × (gcd a b ∣ b)
unfolding gcd
gcd_divides a b = gcd_loop-divides a b (lt_wf.apply b)

pub dvd-gcd : (k a b : ℕ) → k ∣ a → k ∣ b → k ∣ gcd a b
dvd-gcd k a b ha hb =
    rw Nat.mul-one at
      (dvd-gcd_mul k 1 a b (Nat.dvd-mul_right_of_dvd k ha 1) (Nat.dvd-mul_right_of_dvd k hb 1))

pub gcd_comm : (a b : ℕ) → gcd a b ≡ gcd b a
gcd_comm a b =
    Nat.dvd_antisymm (dvd-gcd _ b a (gcd_divides a b).1 (gcd_divides a b).0)
      (dvd-gcd _ a b (gcd_divides b a).1 (gcd_divides b a).0)

-- Two coprime divisors of a number: their product divides it.
pub mul-dvd_of_coprime : (a b z : ℕ) → gcd a b ≡ 1 → a ∣ z → b ∣ z → a * b ∣ z
mul-dvd_of_coprime a b z e ha hb =
    subst (◌∣◌ (a * b)) (Nat.mul-div_cancel' a ha)
      (Nat.mul-dvd-mul_left b a (dvd_of_coprime_mul b a (z / a) (gcd_comm b a ∙ e) back))
  where
    back : b ∣ a * (z / a)
    back = subst (◌∣◌ b) (sym (Nat.mul-div_cancel' a ha)) hb

-- A number that is coprime to both factors is coprime to the product.
pub coprime_mul : (a b m : ℕ) → gcd a m ≡ 1 → gcd b m ≡ 1 → gcd (a * b) m ≡ 1
coprime_mul a b m ea eb =
    Nat.eq-one_of_dvd-one (subst (◌∣◌ g) eb (dvd-gcd g b m divides_b (gcd_divides (a * b) m).1))
  where
    g : ℕ
    g = gcd (a * b) m

    alone : gcd g a ≡ 1
    alone = Nat.eq-one_of_dvd-one (
        subst (◌∣◌ (gcd g a)) ea (
          dvd-gcd _ a m (gcd_divides g a).1
            (Nat.dvd_trans _ (gcd_divides g a).0 (gcd_divides (a * b) m).1)))

    divides_b : g ∣ b
    divides_b = dvd_of_coprime_mul g a b alone (gcd_divides (a * b) m).0

-- The greatest common divisor is a difference of multiples, one way round or the other.
abbrev Bezout : ℕ → ℕ → ℕ → Type 0
Bezout g a b = ((x : ℕ) × (y : ℕ) × (a * x ≡ g + b * y)) ⊎ ((x : ℕ) × (y : ℕ) × (b * x ≡ g + a * y))

Bezout-step : (g a c : ℕ) → Bezout g (suc c) (a % suc c) → Bezout g a (suc c)
Bezout-step g a c (inl (x, y, e)) =
    inr (x + a / suc c * y, y, omega (arith, e, ap (λ (t : ℕ). t * y) (Nat.div-add-mod a (suc c))))
Bezout-step g a c (inr (x, y, e)) =
    inl (x, y + a / suc c * x, omega (arith, e, ap (λ (t : ℕ). t * x) (Nat.div-add-mod a (suc c))))

gcd_loop-Bezout : (a b : ℕ) (w : Acc ◌<◌ b) → Bezout (gcd_loop a b w) a b
unfolding gcd_loop
gcd_loop-Bezout a b (Acc.intro zero _) = inl (1, 0, omega arith)
gcd_loop-Bezout a b (Acc.intro (suc c) below) =
    Bezout-step _ a c (gcd_loop-Bezout (suc c) (a % suc c) (below _ (rest-lt a c)))

pub gcd-Bezout : (a b : ℕ) → Bezout (gcd a b) a b
unfolding gcd
gcd-Bezout a b = gcd_loop-Bezout a b (lt_wf.apply b)
