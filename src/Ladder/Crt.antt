-- ===== src/Ladder/Crt.antt =====
-- The constants of `crt_prefix_constants` are those of the mixed-radix reconstruction.
use native.Mathlib.Nat
use rns.Prelude.{
  ℕ, zero, suc, ◌+◌, ◌*◌, ◌/◌, ◌%◌, ◌<◌, ◌≡◌, refl, true, arith, ap, ◌∙◌, List, [], ◌∷◌, All, all,
  ◌==◌, and_true, get_elem?, take, some, ◌∣◌,
}
use rns.Python.Gcd.{gcd, gcd_divides, dvd-gcd, coprime_mul}
use rns.Python.Inverse.{mod_inverse, mod_inverse_sound, mod_inverse_exists}
use rns.Ladder.Moduli.{is_coprime_set, product}
use rns.Ladder.Prefixes.{CrtConstant, crt_constant, crt_rows, crt_prefix_constants}
use rns.Ladder.Residues.{prod, product-eq-prod}

gcd-mod : (a m : ℕ) → gcd (a % m) m ≡ gcd a m
gcd-mod a m =
    Nat.dvd_antisymm (dvd-gcd _ a m ((Nat.dvd-mod_iff _ right).0 (gcd_divides (a % m) m).0) right) (
      dvd-gcd _ (a % m) m ((Nat.dvd-mod_iff _ (gcd_divides a m).1).1 (gcd_divides a m).0)
        (gcd_divides a m).1)
  where
    right : gcd (a % m) m ∣ m
    right = (gcd_divides (a % m) m).1

-- What a row says of its modulus and of the product of the moduli before it.
pub record IsInverseRow (c : CrtConstant) (index prior m : ℕ) : Type 0 where
  pub at_prefix : c.prefix ≡ index + 1
  pub of_modulus : c.modulus ≡ m
  pub inverse : ℕ
  pub present : c.inverse_prior_product_mod_modulus ≡ some inverse
  pub reduced : inverse < m
  pub inverts : prior * inverse % m ≡ 1 % m

unreduced : (prior m z : ℕ) → prior * z ≡ prior % m * z + m * (prior / m * z)
unreduced prior m z = omega (arith, ap (λ (t : ℕ). t * z) (Nat.div-add-mod prior m))

later_row :
    (index prior m z : ℕ)
    → gcd (prior % m) m ≡ 1
    → mod_inverse (prior % m) m ≡ some z
    → IsInverseRow (crt_constant (suc index) prior m) (suc index) prior m
unfolding crt_constant
later_row index prior m z co found =
    let (bound, inverts) = mod_inverse_sound (prior % m) m z found in
    record {
      at_prefix = ground arith;
      of_modulus = ground arith;
      inverse = z;
      present = ground arith;
      reduced = bound;
      inverts =
          ap (λ t. t % m) (unreduced prior m z)
          ∙ Nat.add-mul-mod_self_left (prior % m * z) m (prior / m * z)
          ∙ inverts;
    }

first_row : (m : ℕ) → 1 < m → IsInverseRow (crt_constant 0 1 m) 0 1 m
unfolding crt_constant
first_row m h = record {
  at_prefix = refl;
  of_modulus = refl;
  inverse = 1 % m;
  present = refl;
  reduced = omega arith;
  inverts = let one : 1 * (1 % m) ≡ 1 % m = omega arith in ap (λ t. t % m) one ∙ Nat.mod-mod 1 m;
}

module _ (prior m : ℕ) (bound : 1 < m) (co : gcd prior m ≡ 1) where
  -- The inverse that the row holds exists.
  any_row :
      (index : ℕ)
      → (index ≡ 0 → prior ≡ 1)
      → IsInverseRow (crt_constant index prior m) index prior m
  any_row zero start = rw (start refl) (first_row m bound)
  any_row (suc index) start =
      let reduced = gcd-mod prior m ∙ co in
      let (z, found) = mod_inverse_exists (prior % m) m bound reduced in
      later_row index prior m z reduced found

extend_coprime :
    (prior x : ℕ) (xs : List ℕ)
    → all (λ y. gcd x y == 1) xs ≡ true
    → All (λ y. gcd prior y ≡ 1) xs
    → All (λ y. gcd (prior * x) y ≡ 1) xs
extend_coprime prior x [] h co = tt
extend_coprime prior x (y ∷ xs) h (c, co) =
    (coprime_mul prior x y c (ground arith), extend_coprime prior x xs (and_true _ _ h).1 co)

abbrev RowAt : List CrtConstant → ℕ → ℕ → ℕ → ℕ → Type 0
RowAt rs j index prior m =
    (c : CrtConstant) × (get_elem? rs j ≡ some c) × IsInverseRow c index prior m

rows :
    (index prior : ℕ) (xs : List ℕ) (j m : ℕ)
    → (index ≡ 0 → prior ≡ 1)
    → is_coprime_set xs ≡ true
    → All (λ x. 1 < x) xs
    → All (λ x. gcd prior x ≡ 1) xs
    → get_elem? xs j ≡ some m
    → RowAt (crt_rows index prior xs) j (index + j) (prior * prod (take j xs)) m
unfolding crt_rows is_coprime_set
rows index prior [] j m start h b co e = absurd (cc)
rows index prior (x ∷ xs) zero m start h b co e =
    let same : x ≡ m = cc in
    let no_shift : index + 0 ≡ index = omega arith in
    let no_factor : prior * 1 ≡ prior = omega arith in
    rw (no_shift, no_factor, ← same)
      (crt_constant index prior x, refl, any_row prior x b.0 co.0 index start)
rows index prior (x ∷ xs) (suc j) m start h b co e =
    let shift : index + suc j ≡ index + 1 + j = omega arith in
    let factors : prior * (x * prod (take j xs)) ≡ prior * x * prod (take j xs) = omega arith in
    rw (shift, factors)
      (rows (index + 1) (prior * x) xs j m (λ z. absurd (omega arith)) (and_true _ _ h).1 b.1
        (extend_coprime prior x xs (and_true _ _ h).0 co.1) e)

All-coprime_one : (xs : List ℕ) → All (λ x. gcd 1 x ≡ 1) xs
All-coprime_one [] = tt
All-coprime_one (x ∷ xs) = (Nat.eq-one_of_dvd-one (gcd_divides 1 x).0, All-coprime_one xs)

-- For a list that `is_coprime_set` passes, of moduli above 1, the row of each modulus holds an
-- inverse below the modulus of the product of all moduli before it.
pub crt_constants_invert :
    (moduli : List ℕ) (j m : ℕ)
    → is_coprime_set moduli ≡ true
    → All (λ x. 1 < x) moduli
    → get_elem? moduli j ≡ some m
    → (c : CrtConstant) × (get_elem? (crt_prefix_constants moduli) j ≡ some c)
      × IsInverseRow c j (product (take j moduli)) m
unfolding crt_prefix_constants
crt_constants_invert moduli j m h b e =
    let from_one : product (take j moduli) ≡ 1 * prod (take j moduli) =
      product-eq-prod (take j moduli) ∙ omega arith in
    let at_zero : 0 + j ≡ j = omega arith in
    rw from_one (rw at_zero at (rows 0 1 moduli j m (λ _. refl) h b (All-coprime_one moduli) e))
