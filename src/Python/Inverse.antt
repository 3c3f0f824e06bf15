-- ===== src/Python/Inverse.antt =====
-- `pow(a, -1, m)`: the inverse of `a` modulo `m`, as the least `x` below `m` with `a * x` one
-- modulo `m`. Python raises `ValueError` where there is none, here `none`.
use native.Mathlib.Nat
use rns.Prelude.{
  ℕ, zero, suc, ◌+◌, ◌-◌, ◌*◌, ◌/◌, ◌%◌, ◌<◌, ◌≤◌, ◌≡◌, inl, inr, ap, Option, none, some, true,
  false, arith, Bool-cases, sym, ◌∙◌, ◌==◌,
}
use rns.Python.Gcd.{gcd, gcd-Bezout}

-- The search from `x` through the next `n` numbers.
inverse_from : ℕ → ℕ → ℕ → ℕ → Option ℕ
inverse_from zero x a m = none
inverse_from (suc n) x a m = elim (a * x % m == 1 % m) [
  | true ↦ some x
  | false ↦ inverse_from n (x + 1) a m
]

unfoldable pub mod_inverse : ℕ → ℕ → Option ℕ
unfolding inverse_from
mod_inverse a m = inverse_from m 0 a m

inverse_from_sound :
    (n x a m y : ℕ) → inverse_from n x a m ≡ some y → (y < x + n) × (a * y % m ≡ 1 % m)
unfolding inverse_from
inverse_from_sound zero x a m y h = ground arith
inverse_from_sound (suc n) x a m y h = ground (arith, inverse_from_sound n (x + 1) a m y)

-- What is found lies below the modulus and is an inverse.
pub mod_inverse_sound : (a m y : ℕ) → mod_inverse a m ≡ some y → (y < m) × (a * y % m ≡ 1 % m)
unfolding mod_inverse
mod_inverse_sound a m y h =
    let (bound, inverse) = inverse_from_sound m 0 a m y h in (omega arith, inverse)

inverse_from_finds :
    (n x a m y : ℕ)
    → x ≤ y
    → y < x + n
    → a * y % m ≡ 1 % m
    → (z : ℕ) × (inverse_from n x a m ≡ some z)
unfolding inverse_from
inverse_from_finds zero x a m y lo hi h = absurd (omega arith)
inverse_from_finds (suc n) x a m y lo hi h = elim (Bool-cases (a * x % m == 1 % m)) [
  | inl found ↦ (x, rw (found, inverse_from))
  | inr other ↦
      rw (other, inverse_from) (inverse_from_finds n (x + 1) a m y (ground arith) (omega arith) h)
]

-- A multiple that is one more than a multiple of the modulus, of a positive modulus.
residue_inverse : (a m x y : ℕ) → 0 < m → a * x ≡ 1 + m * y → a * (x % m) % m ≡ 1 % m
residue_inverse a m x y h e =
    sym (Nat.add-mul-mod_self_left (a * (x % m)) m (a * (x / m)))
    ∙ ap (λ t. t % m) (omega (arith, ap (λ (t : ℕ). a * t) (Nat.div-add-mod x m)))
    ∙ ap (λ t. t % m) e
    ∙ Nat.add-mul-mod_self_left 1 m y

flip_bezout :
    (a m x y : ℕ) → m * x ≡ 1 + a * y → 1 < m → a * (y * (m - 1)) ≡ 1 + m * (x * (m - 1) - 1)
flip_bezout a zero x y e h = absurd (omega arith)
flip_bezout a (suc m) zero y e h = absurd (omega arith)
flip_bezout a (suc zero) (suc x) y e h = absurd (omega arith)
flip_bezout a (suc (suc m)) (suc x) y e h =
    let less : suc (suc m) - 1 ≡ suc m = omega arith in
    let product : suc x * suc m - 1 ≡ x * suc m + m = omega arith in
    rw (less, product) (omega (arith, ap (λ (t : ℕ). t * suc m) e))

-- Where there is an inverse it is found.
pub mod_inverse_exists : (a m : ℕ) → 1 < m → gcd a m ≡ 1 → (z : ℕ) × (mod_inverse a m ≡ some z)
unfolding mod_inverse
mod_inverse_exists a m h e = elim (gcd-Bezout a m) [
  | inl (x, y, p) ↦
      inverse_from_finds m 0 a m (x % m) (omega arith) (omega arith)
        (residue_inverse a m x y (omega arith) (omega arith))
  | inr (x, y, p) ↦ inverse_from_finds m 0 a m (y * (m - 1) % m) (omega arith) (omega arith) (
      residue_inverse a m (y * (m - 1)) (x * (m - 1) - 1) (omega arith)
        (flip_bezout a m x y (omega arith) h))
]
