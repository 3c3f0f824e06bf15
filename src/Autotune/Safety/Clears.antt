-- ===== src/Autotune/Safety/Clears.antt =====
-- What the gate of the promotion ledgers has checked.
use rns.Prelude.{
  ◌≡◌, refl, ap, subst, ◌∙◌, Bool, true, false, not, ◌&&◌, ◌||◌, Option, none, some, List, [], ◌∷◌,
  String, ◌<>◌, if◌then◌else◌, arith, All, All-map,
}
use rns.Json.{Value, Items, Fields, bool, arr, end, item, get, is_true}
use rns.Dict.{Dict, lookup}
use rns.Autotune.Result.{
  Result, ok, Library, for_each, refuse, >>=-ok, >>-ok, refuse_if-ok, only_if-ok, ok_injective,
}
use rns.Autotune.World.{World, require_array}
use rns.Autotune.Ledger.{
  entry_key, is_empty, is_end, check_row, check_cleared, gate_required, read_ledgers,
  validate_promotion_ledger_gate,
}
use rns.Autotune.Install.{Options, check_gates}

pub for_each-ok :
    {A : Type 0} (xs : List A) (body : A → Result (Unit {0}))
    → for_each xs body ≡ ok tt
    → All (λ x. body x ≡ ok tt) xs
unfolding for_each
for_each-ok [] body h = tt
for_each-ok (x ∷ xs) body h =
    let (first, rest) = >>-ok (body x) (for_each xs body) tt h in (first, for_each-ok xs body rest)

-- A field of the row is `true`.
abbrev pub Holds : Fields → String → Type 0
Holds row name = get name row ≡ bool true

is_true-eq : (v : Value) → not (is_true v) ≡ false → v ≡ bool true
is_true-eq (bool true) h = refl
is_true-eq (bool false) h = absurd (cc h)
is_true-eq v h = absurd (cc h)

is_end-eq : (xs : Items) → not (is_end xs) ≡ false → xs ≡ end
is_end-eq end h = refl
is_end-eq (item v vs) h = absurd (cc h)

require_array-eq :
    (v : Value) (message : String) (xs : Items) → require_array v message ≡ ok xs → v ≡ arr xs
require_array-eq (arr ys) message xs h = ap arr (ok_injective ys xs h)
require_array-eq v message xs h = absurd (cc h)

-- The row of the ledger lets an entry be installed.
pub record Clears (target_gate : Bool) (row : Fields) : Type 0 where
  pub unblocked : get "promotion_blockers" row ≡ arr end
  pub performance : Holds row "performance_validated"
  pub variance_available : Holds row "variance_gate_available"
  pub variance_ready : Holds row "variance_gate_ready"
  pub target_available : target_gate ≡ true → Holds row "target_validation_gate_available"
  pub target_ready : target_gate ≡ true → Holds row "target_validation_gate_ready"
  pub target_eligible : target_gate ≡ true → Holds row "target_cache_eligible"

pub check_row-Clears :
    (lib : Library) (key : String) (gate : Bool) (row : Fields)
    → check_row lib key true gate row ≡ ok tt
    → Clears gate row
unfolding check_row
check_row-Clears lib key gate row h =
    let (blockers, listed, h1) = >>=-ok (require_array (get "promotion_blockers" row) _) _ tt h in
    let (none_left, h2) = >>-ok _ _ tt h1 in
    let (performance, h3) = >>-ok _ _ tt h2 in
    let (variance, target) = >>-ok _ _ tt h3 in
    let (available, ready) = >>-ok _ _ tt variance in
    let open_gate = λ (g : gate ≡ true). >>-ok _ _ tt (only_if-ok gate _ target g) in
    record {
      unblocked =
          require_array-eq _ _ blockers listed
          ∙ ap arr (is_end-eq blockers (refuse_if-ok _ _ none_left));
      performance = is_true-eq _ (refuse_if-ok _ _ performance);
      variance_available = is_true-eq _ (refuse_if-ok _ _ available);
      variance_ready = is_true-eq _ (refuse_if-ok _ _ ready);
      target_available = λ g. is_true-eq _ (refuse_if-ok _ _ (open_gate g).0);
      target_ready = λ g. is_true-eq _ (refuse_if-ok _ _ (>>-ok _ _ tt (open_gate g).1).0);
      target_eligible = λ g. is_true-eq _ (refuse_if-ok _ _ (>>-ok _ _ tt (open_gate g).1).1);
    }

-- The ledger has a row for the entry, and the row clears it.
abbrev pub IsCleared : Library → Bool → Dict Fields → Fields → Type 0
IsCleared lib target_validation ledgers entry =
    (row : Fields) × (lookup (entry_key entry) ledgers ≡ some row)
    × Clears (gate_required lib target_validation entry) row

check_cleared-IsCleared :
    (lib : Library) (ledgers : Dict Fields) (target_validation : Bool) (entry : Fields)
    → check_cleared lib ledgers true target_validation entry ≡ ok tt
    → IsCleared lib target_validation ledgers entry
unfolding check_cleared
check_cleared-IsCleared lib ledgers target_validation entry h =
    go (lookup (entry_key entry) ledgers) refl h
  where
    go :
        (found : Option Fields)
        → lookup (entry_key entry) ledgers ≡ found
        → (elim found as (λ _. Result (Unit {0})) [
          | none ↦ refuse ("missing_promotion_ledger_entry:" <> entry_key entry)
          | some row ↦
              check_row lib (entry_key entry) true (gate_required lib target_validation entry) row
        ])
          ≡ ok tt
        → IsCleared lib target_validation ledgers entry
    go none e h = absurd (cc h)
    go (some row) e h = (
      row,
      e,
      check_row-Clears lib (entry_key entry) (gate_required lib target_validation entry) row h,
    )

not_empty : (dry empty : Bool) → dry ≡ false → (not dry && empty) ≡ false → empty ≡ false
not_empty dry empty d h = ground arith

either_true : (a empty : Bool) → empty ≡ false → (a || not empty) ≡ true
either_true a empty h = ground arith

then_branch :
    (b : Bool) (x y : Result (Unit {0})) → b ≡ true → (if b then x else y) ≡ ok tt → x ≡ ok tt
then_branch true x y e h = h
then_branch false x y e h = absurd (cc e)

-- An installation that is no dry run has been given a ledger, and the ledger clears every entry.
pub check_gates-IsCleared :
    (lib : Library) (w : World) (o : Options) (reviewed : List Fields)
    → check_gates lib w o reviewed ≡ ok tt
    → o.dry_run ≡ false
    → (ledgers : Dict Fields) × (read_ledgers w o.promotion_ledgers [] ≡ ok ledgers)
      × All (IsCleared lib o.require_target_validation_gate ledgers) reviewed
unfolding check_gates validate_promotion_ledger_gate
check_gates-IsCleared lib w o reviewed h wet =
    let variance = o.require_variance_gate || not (is_empty o.promotion_ledgers) in
    let tv = o.require_target_validation_gate in
    let (given, h1) = >>-ok _ _ tt h in
    let present : is_empty o.promotion_ledgers ≡ false =
      not_empty o.dry_run (is_empty o.promotion_ledgers) wet (refuse_if-ok _ _ given) in
    let strict : variance ≡ true = either_true o.require_variance_gate _ present in
    let h2 = then_branch (not (is_empty o.promotion_ledgers)) _ _ (ap not present) h1 in
    let (ledgers, ledgers_read, h3) = >>=-ok (read_ledgers w o.promotion_ledgers []) _ tt h2 in
    let (_, h4) = >>-ok _ _ tt h3 in
    (
      ledgers,
      ledgers_read,
      All-map _ _ reviewed
          (λ entry checked.
            check_cleared-IsCleared lib ledgers tv entry
              (subst (λ b. check_cleared lib ledgers b tv entry ≡ ok tt) strict checked))
          (for_each-ok reviewed (check_cleared lib ledgers variance tv) h4),
    )
