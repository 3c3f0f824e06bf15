-- ===== src/Python/BitLength.antt =====
-- `int.bit_length` on numbers that are not negative: how often the number can be halved before it
-- is zero.
use mathlib.Core.WellFounded.{Acc}
use native.Mathlib.Nat
use rns.Prelude.{ℕ, zero, suc, ◌*◌, ◌/◌, ◌^◌, ◌<◌, ◌≤◌, ◌≡◌, arith, dec_lt}
use rns.Prelude.Order.{lt_wf}

pub half-lt : (n : ℕ) → suc n / 2 < suc n
half-lt n = omega arith

bit_count : (n : ℕ) → Acc ◌<◌ n → ℕ
bit_count zero _ = 0
bit_count (suc n) (Acc.intro _ below) = suc (bit_count (suc n / 2) (below _ (half-lt n)))

unfoldable pub bit_length : ℕ → ℕ
unfolding bit_count lt_wf
bit_length n = bit_count n (lt_wf.apply n)

doubled : (n : ℕ) → 2 ^ suc n ≡ 2 * 2 ^ n
doubled n = simp Nat.two-pow-succ (omega arith)

bit_count-lt : (n : ℕ) (w : Acc ◌<◌ n) → n < 2 ^ bit_count n w
unfolding bit_count
bit_count-lt zero w = omega arith
bit_count-lt (suc n) (Acc.intro _ below) = omega (
  arith,
  doubled (bit_count (suc n / 2) (below _ (half-lt n))),
  bit_count-lt (suc n / 2) (below _ (half-lt n)),
)

bit_count-le : (n : ℕ) (w : Acc ◌<◌ n) (b : ℕ) → n < 2 ^ b → bit_count n w ≤ b
unfolding bit_count
bit_count-le zero w b h = omega arith
bit_count-le (suc n) (Acc.intro _ below) zero h = absurd (omega arith)
bit_count-le (suc n) (Acc.intro _ below) (suc b) h =
    omega (arith, bit_count-le (suc n / 2) (below _ (half-lt n)) b (omega (arith, doubled b)))

-- A number is below the power of two of its length.
pub lt-pow-bit_length : (n : ℕ) → n < 2 ^ bit_length n
unfolding bit_length
lt-pow-bit_length n = bit_count-lt n (lt_wf.apply n)

-- The length is the least such exponent.
pub bit_length-le : (n b : ℕ) → n < 2 ^ b → bit_length n ≤ b
unfolding bit_length
bit_length-le n b h = bit_count-le n (lt_wf.apply n) b h

-- A number that has at least `b + 1` bits is at least `2 ^ b`.
pub pow-le_of_bit_length : (n b : ℕ) → b < bit_length n → 2 ^ b ≤ n
pow-le_of_bit_length n b h = elim (dec_lt n (2 ^ b)) [
  | yes p ↦ absurd (omega (arith, bit_length-le n b p))
  | no p ↦ omega arith
]
