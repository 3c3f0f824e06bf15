-- ===== src/Python/Decimal.antt =====
-- `str(n)` for an integer, as an f-string writes it.
use mathlib.Core.WellFounded.{Acc}
use rns.Prelude.{ℕ, zero, suc, ◌/◌, ◌%◌, ◌<◌, String, ◌<>◌, arith, ◌≡◌, refl}
use rns.Prelude.Int.{ℤ, pos, negsuc}
use rns.Prelude.Order.{lt_wf}

digit : ℕ → String
digit zero = "0"
digit (suc zero) = "1"
digit (suc (suc zero)) = "2"
digit (suc (suc (suc zero))) = "3"
digit (suc (suc (suc (suc zero)))) = "4"
digit (suc (suc (suc (suc (suc zero))))) = "5"
digit (suc (suc (suc (suc (suc (suc zero)))))) = "6"
digit (suc (suc (suc (suc (suc (suc (suc zero))))))) = "7"
digit (suc (suc (suc (suc (suc (suc (suc (suc zero)))))))) = "8"
digit _ = "9"

pub tenth-lt : (n : ℕ) → suc n / 10 < suc n
tenth-lt n = omega arith

-- The digits before the last one, nothing for zero.
leading : (n : ℕ) → Acc ◌<◌ n → String
leading zero _ = ""
leading (suc n) (Acc.intro _ below) =
    leading (suc n / 10) (below _ (tenth-lt n)) <> digit (suc n % 10)

unfoldable pub show_ℕ : ℕ → String
unfolding digit leading lt_wf
show_ℕ zero = "0"
show_ℕ (suc n) = leading (suc n) (lt_wf.apply (suc n))

unfoldable pub show : ℤ → String
unfolding show_ℕ
show (pos n) = show_ℕ n
show (negsuc n) = "-" <> show_ℕ (suc n)

show_test : show (negsuc 1049) ≡ "-1050"
unfolding show
show_test = refl
