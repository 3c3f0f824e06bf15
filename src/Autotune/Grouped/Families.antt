-- ===== src/Autotune/Grouped/Families.antt =====
-- The families of shapes that the coverage summary groups by.
use rns.Prelude.{
  ℕ, ◌≤◌, ◌<◌, ◌≡◌, ◌⊎◌, true, false, some, String, refl, arith, inl, inr, if◌then◌else◌,
  Bool-cases, dec_lt, ◌∙◌,
}
use rns.Prelude.Int.{pos, leb_ℤ}
use rns.Json.{Fields, int, obj, get}
use rns.Autotune.Coverage.{shape_family, family_of, max_ℤ}

-- The families by the three dimensions: all at most 128, all at most 1024, or one above.
pub data IsFamily (m n k : ℕ) : String → Type 0 where
  small : m ≤ 128 → n ≤ 128 → k ≤ 128 → IsFamily m n k "small"
  medium :
      m ≤ 1024 → n ≤ 1024 → k ≤ 1024 → (128 < m) ⊎ (128 < n) ⊎ (128 < k) → IsFamily m n k "medium"
  large : (1024 < m) ⊎ (1024 < n) ⊎ (1024 < k) → IsFamily m n k "large"

-- The larger of two natural numbers, as `max` finds it among integers.
max-pos :
    (a b : ℕ) → (c : ℕ) × (max_ℤ (pos a) (pos b) ≡ pos c) × (a ≤ c) × (b ≤ c) × ((c ≡ a) ⊎ (c ≡ b))
unfolding max_ℤ
max-pos a b = elim (Bool-cases (leb_ℤ (pos b) (pos a))) [
  | inl e ↦ (a, rw e refl, omega arith, ground arith, inl refl)
  | inr e ↦ (b, rw e refl, ground arith, omega arith, inr refl)
]

one_above :
    (limit t m n k : ℕ)
    → limit < t
    → (t ≡ m) ⊎ (t ≡ n) ⊎ (t ≡ k)
    → (limit < m) ⊎ (limit < n) ⊎ (limit < k)
one_above limit t m n k h (inl e) = inl (omega arith)
one_above limit t m n k h (inr (inl e)) = inr (inl (omega arith))
one_above limit t m n k h (inr (inr e)) = inr (inr (omega arith))

-- The family by the largest dimension.
by_largest :
    (t m n k : ℕ)
    → m ≤ t
    → n ≤ t
    → k ≤ t
    → (t ≡ m) ⊎ (t ≡ n) ⊎ (t ≡ k)
    → IsFamily m n k (
        if leb_ℤ (pos t) (pos 128)
        then "small"
        else if leb_ℤ (pos t) (pos 1024)
        then "medium"
        else "large")
by_largest t m n k hm hn hk which = elim (dec_lt 128 t) [
  | no few ↦
      let low : leb_ℤ (pos t) (pos 128) ≡ true = ground arith in
      rw low (small (omega arith) (omega arith) (omega arith))
  | yes more ↦
      let high : leb_ℤ (pos t) (pos 128) ≡ false = ground arith in
      elim (dec_lt 1024 t) [
        | no few ↦
            let low : leb_ℤ (pos t) (pos 1024) ≡ true = ground arith in
            rw (high, low)
              (medium (omega arith) (omega arith) (omega arith) (one_above 128 t m n k more which))
        | yes most ↦
            let top : leb_ℤ (pos t) (pos 1024) ≡ false = ground arith in
            rw (high, top) (large (one_above 1024 t m n k most which))
      ]
]

either : {a b c m n : ℕ} → (c ≡ a) ⊎ (c ≡ b) → (a ≡ m) ⊎ (a ≡ n) → (c ≡ m) ⊎ (c ≡ n) ⊎ (c ≡ b)
either (inl e) (inl e') = inl (e ∙ e')
either (inl e) (inr e') = inr (inl (e ∙ e'))
either (inr e) h = inr (inr e)

family_of-IsFamily :
    (m n k : ℕ) → IsFamily m n k (family_of (some (pos m)) (some (pos n)) (some (pos k)))
unfolding family_of
family_of-IsFamily m n k =
    let (a, ea, ma, na, wa) = max-pos m n in
    let (c, ec, ac, kc, wc) = max-pos a k in
    rw (ea, ec) (by_largest c m n k (omega arith) (omega arith) kc (either wc wa))

-- An entry whose shape has natural numbers as its three dimensions is counted as small where all are
-- at most 128, as large where one is above 1024, and as medium otherwise.
pub shape_family-IsFamily :
    (entry shape : Fields) (m n k : ℕ)
    → get "shape" entry ≡ obj shape
    → get "m" shape ≡ int (pos m)
    → get "n" shape ≡ int (pos n)
    → get "k" shape ≡ int (pos k)
    → IsFamily m n k (shape_family entry)
unfolding shape_family
shape_family-IsFamily entry shape m n k e em en ek = rw (e, em, en, ek) (family_of-IsFamily m n k)
