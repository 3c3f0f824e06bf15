-- ===== src/Ladder/Residues.antt =====
-- What a coprime ladder promises: below the product a number is determined by its residues, and
-- from the product on it is not.
use native.Mathlib.Nat
use rns.Prelude.{
  ℕ, ◌-◌, ◌*◌, ◌/◌, ◌%◌, ◌^◌, ◌<◌, ◌≤◌, ◌∣◌, ◌≡◌, ◌≢◌, true, arith, sym, ◌∙◌, subst, List, [], ◌∷◌,
  ◌++◌, All, All-map, all, and_true, dec_lt, ◌==◌,
}
use rns.Python.Gcd.{gcd, gcd_divides, gcd_comm, mul-dvd_of_coprime, coprime_mul}
use rns.Python.BitLength.{pow-le_of_bit_length, lt-pow-bit_length}
use rns.Ladder.Moduli.{is_coprime_set, product, product_bits, product_loop}

-- The product from the right.
abbrev pub prod : List ℕ → ℕ
prod [] = 1
prod (x ∷ xs) = x * prod xs

product_loop-prod : (r : ℕ) (xs : List ℕ) → product_loop r xs ≡ r * prod xs
unfolding product_loop
product_loop-prod r [] = omega arith
product_loop-prod r (x ∷ xs) = product_loop-prod (r * x) xs ∙ omega arith

pub product-eq-prod : (xs : List ℕ) → product xs ≡ prod xs
unfolding product
product-eq-prod xs = product_loop-prod 1 xs ∙ omega arith

pub prod-append : (xs ys : List ℕ) → prod (xs ++ ys) ≡ prod xs * prod ys
prod-append [] ys = omega arith
prod-append (x ∷ xs) ys = rw (prod-append xs ys) (omega arith)

-- Two numbers that no modulus of the list tells apart.
abbrev pub SameResidues : ℕ → ℕ → List ℕ → Type 0
SameResidues x y moduli = All (λ m. x % m ≡ y % m) moduli

difference-dvd : (m x y : ℕ) → x ≤ y → x % m ≡ y % m → m ∣ y - x
difference-dvd m x y le e =
    subst (◌∣◌ m) same (Nat.dvd-sub m (Nat.dvd-mul_right m (y / m)) (Nat.dvd-mul_right m (x / m)))
  where
    same : m * (y / m) - m * (x / m) ≡ y - x
    same = omega (arith, e, Nat.div-add-mod x m, Nat.div-add-mod y m)

coprime_prod : (m : ℕ) (xs : List ℕ) → all (λ x. gcd m x == 1) xs ≡ true → gcd m (prod xs) ≡ 1
coprime_prod m [] h = Nat.eq-one_of_dvd-one (gcd_divides m 1).1
coprime_prod m (x ∷ xs) h =
    gcd_comm m (x * prod xs)
    ∙ coprime_mul x (prod xs) m (gcd_comm x m ∙ ground arith)
        (gcd_comm (prod xs) m ∙ coprime_prod m xs (and_true _ _ h).1)

prod-dvd : (xs : List ℕ) (z : ℕ) → is_coprime_set xs ≡ true → All (λ m. m ∣ z) xs → prod xs ∣ z
unfolding is_coprime_set
prod-dvd [] z h d = Nat.one-dvd z
prod-dvd (x ∷ xs) z h (d, ds) =
    mul-dvd_of_coprime x (prod xs) z (coprime_prod x xs (and_true _ _ h).0) d
      (prod-dvd xs z (and_true _ _ h).1 ds)

ordered :
    (xs : List ℕ) (x y : ℕ)
    → is_coprime_set xs ≡ true
    → SameResidues x y xs
    → x ≤ y
    → y < prod xs
    → x ≡ y
ordered xs x y h same le lt = elim (dec_lt x y) [
  | no p ↦ omega arith
  | yes p ↦ absurd (
      omega (
        arith,
        Nat.le_of_dvd (omega arith)
            (prod-dvd xs (y - x) h (All-map _ _ xs (λ m. difference-dvd m x y le) same)),
      ))
]

-- The contract of residue storage: for a list that `is_coprime_set` passes, two numbers below
-- `product` with the same residue for every modulus are equal.
pub residues_determine :
    (moduli : List ℕ) (x y : ℕ)
    → is_coprime_set moduli ≡ true
    → SameResidues x y moduli
    → x < product moduli
    → y < product moduli
    → x ≡ y
residues_determine moduli x y h same lx ly = elim (dec_lt x y) [
  | yes p ↦ ordered moduli x y h same (omega arith) (omega (arith, product-eq-prod moduli))
  | no p ↦ sym (
      ordered moduli y x h (All-map _ _ moduli (λ m e. sym e) same) (omega arith)
        (omega (arith, product-eq-prod moduli)))
]

-- `product_bits` brackets the product between two powers of two.
pub product_bits_bounds :
    (moduli : List ℕ) (b : ℕ)
    → ((b < product_bits moduli) → (2 ^ b ≤ product moduli))
      × (product_bits moduli ≤ b → product moduli < 2 ^ b)
unfolding product_bits
product_bits_bounds moduli b = (
  pow-le_of_bit_length (product moduli) b,
  λ h.
      omega
        (arith, lt-pow-bit_length (product moduli), Nat.pow-le-pow_right {n = 2} (omega arith) h),
)

-- One bit more than the values have is enough: a coprime list whose `product_bits` exceeds `b`
-- tells all numbers below `2 ^ b` apart.
pub bits_suffice :
    (moduli : List ℕ) (b x y : ℕ)
    → is_coprime_set moduli ≡ true
    → b < product_bits moduli
    → SameResidues x y moduli
    → x < 2 ^ b
    → y < 2 ^ b
    → x ≡ y
bits_suffice moduli b x y h enough same lx ly =
    let room = (product_bits_bounds moduli b).0 enough in
    residues_determine moduli x y h same (omega arith) (omega arith)

zero_residues : (xs : List ℕ) (z : ℕ) → prod xs ∣ z → SameResidues 0 z xs
zero_residues [] z h = tt
zero_residues (x ∷ xs) z h = (
  Nat.zero-mod x
      ∙ sym (Nat.mod-eq-zero_of_dvd x (Nat.dvd_trans x (Nat.dvd-mul_right x (prod xs)) h)),
  zero_residues xs z (Nat.dvd_trans (prod xs) (Nat.dvd-mul_left (prod xs) x) h),
)

prod-pos : (xs : List ℕ) → All (λ m. 0 < m) xs → 0 < prod xs
prod-pos [] h = omega arith
prod-pos (x ∷ xs) (h, hs) = Nat.mul-pos h (prod-pos xs hs)

-- A list of positive moduli whose `product_bits` is at most `b` has two different numbers below
-- `2 ^ b` with the same residues.
pub bits_needed :
    (moduli : List ℕ) (b : ℕ)
    → All (λ m. 0 < m) moduli
    → product_bits moduli ≤ b
    → (x : ℕ) × (y : ℕ) × (x < 2 ^ b) × (y < 2 ^ b) × (x ≢ y) × SameResidues x y moduli
bits_needed moduli b pos h =
    let whole = product-eq-prod moduli in
    let positive = prod-pos moduli pos in
    let small = (product_bits_bounds moduli b).1 h in
    (
      0,
      prod moduli,
      omega arith,
      omega arith,
      λ e. omega arith,
      zero_residues moduli (prod moduli) (Nat.dvd_refl _),
    )
