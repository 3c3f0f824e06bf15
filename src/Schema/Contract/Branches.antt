-- ===== src/Schema/Contract/Branches.antt =====
-- How an `elif` passes, and which tests on the semantics hold.
use rns.Prelude.{
  ℕ, ◌≡◌, Bool, true, false, String, List, [], ◌∷◌, refl, arith, inl, inr, ap, sym, ◌∙◌, subst, ◌⊎◌,
  Bool-cases, if◌then◌else◌,
}
use rns.Prelude.Int.{pos}
use rns.Json.{Value, str, int, arr, obj, py_eq, is_str, hashable}
use rns.Json.Laws.{OneOf, in_set-OneOf}
use rns.Outcome.{Outcome, done, in_set}
use rns.Check.{Check}
use rns.Check.Passes.{Passes, lift_passes}
use rns.Schema.Mode.{is, bounded_semantics, finite_semantics}
use rns.Schema.Contract.{else_if, unsupported, k_value_of, exact_wide_semantics}

-- The two ways through an `elif`.
pub else_if-Passes :
    (test : Outcome Bool) (m rest : Check Unit)
    → Passes (else_if test m rest)
    → ((test ≡ done true) × Passes m) ⊎ ((test ≡ done false) × Passes rest)
unfolding else_if
else_if-Passes test m rest h =
    let (b, e, k) = lift_passes test (λ b. if b then m else rest) tt h in
    elim (Bool-cases b) [
      | inl yes_case ↦ inl (e ∙ ap done yes_case, rw yes_case at k)
      | inr no_case ↦ inr (e ∙ ap done no_case, rw no_case at k)
    ]

pub past :
    (test : Outcome Bool) (m rest : Check Unit)
    → test ≡ done false
    → Passes (else_if test m rest)
    → Passes rest
past test m rest e h = elim (else_if-Passes test m rest h) [
  | inl (yes_case, _) ↦ absurd (cc)
  | inr (_, k) ↦ k
]

pub taken :
    (test : Outcome Bool) (m rest : Check Unit)
    → test ≡ done true
    → Passes (else_if test m rest)
    → Passes m
taken test m rest e h = elim (else_if-Passes test m rest h) [
  | inl (_, k) ↦ k
  | inr (no_case, _) ↦ absurd (cc)
]

-- A text of the last contract is in none of the earlier ones.
pub field_tests :
    (v : Value)
    → v ≡ str "finite_field_u8"
    → (is v "wrap_u64_mod_2_64" ≡ done false)
      × (in_set v bounded_semantics ≡ done false)
      × (in_set v exact_wide_semantics ≡ done false)
      × (in_set v finite_semantics ≡ done true)
unfolding in_set py_eq
field_tests v e =
    subst
      (λ w.
        (is w "wrap_u64_mod_2_64" ≡ done false)
        × (in_set w bounded_semantics ≡ done false)
        × (in_set w exact_wide_semantics ≡ done false)
        × (in_set w finite_semantics ≡ done true))
      (sym e) (refl, refl, refl, refl)

pub pos_inj : (a b : ℕ) → pos a ≡ pos b → a ≡ b
pos_inj a b e = cc e

pub k_value_lem : (k : ℕ) → k_value_of (int (pos k)) ≡ pos k
k_value_lem k = ground arith

-- The semantics that have a contract.
abbrev pub known_semantics : List String
known_semantics =
    "wrap_u64_mod_2_64" ∷ "bounded_i64" ∷ "bounded_u64" ∷ "exact_wide_signed"
    ∷ "exact_wide_unsigned" ∷ "finite_ring_u8" ∷ "finite_field_u8" ∷ []

pub done_eq : (a b : Bool) → done a ≡ done b → a ≡ b
done_eq a b h = cc h

pub supported : (v : Value) → is_str v ≡ true → Passes (unsupported v) → ⊥
unfolding unsupported
supported (str s) text h = cc (ap (λ (p : Check Unit). p.1) h)
supported v text h = absurd (cc)

pub in_bounded :
    (v : Value)
    → in_set v bounded_semantics ≡ done true
    → OneOf v (
        "bounded_i64" ∷ "bounded_u64" ∷ "exact_wide_signed" ∷ "exact_wide_unsigned"
        ∷ "finite_ring_u8" ∷ "finite_field_u8" ∷ [])
in_bounded v e = elim (in_set-OneOf v ("bounded_i64" ∷ "bounded_u64" ∷ []) e) [
  | inl i ↦ inl i
  | inr (inl i) ↦ inr (inl i)
  | inr (inr i) ↦ absurd i
]

pub in_exact_wide :
    (v : Value)
    → in_set v exact_wide_semantics ≡ done true
    → OneOf v
        ("exact_wide_signed" ∷ "exact_wide_unsigned" ∷ "finite_ring_u8" ∷ "finite_field_u8" ∷ [])
in_exact_wide v e = elim (in_set-OneOf v ("exact_wide_signed" ∷ "exact_wide_unsigned" ∷ []) e) [
  | inl i ↦ inl i
  | inr (inl i) ↦ inr (inl i)
  | inr (inr i) ↦ absurd i
]

pub unhashable-ne : (v : Value) (s : String) → hashable v ≡ false → py_eq v (str s) ≡ false
unfolding py_eq
unhashable-ne (arr xs) s h = refl
unhashable-ne (obj d) s h = refl
unhashable-ne v s h = absurd (cc)
