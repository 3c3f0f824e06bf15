-- ===== src/Schema/Adaptive/Accepts.antt =====
-- What a per-tile capture whose schedule passes satisfies.
use rns.Prelude.{
  ℕ, ◌≤◌, ◌<◌, ◌≡◌, Bool, true, false, not, ◌&&◌, ◌⊎◌, inl, inr, refl, arith, String, not-false,
}
use rns.Prelude.Int.{pos, negsuc}
use rns.Json.{Value, Fields, bool, obj, int, get, py_eq, is_bool, is_true, is_int}
use rns.Check.{reject}
use rns.Schema.Schedule.{check_schedule_fields, check_field_types, check_prefix_order}
use rns.Check.Passes.{Passes, then-Passes, reject-Passes, when-Passes, for_each-Passes}
use rns.Schema.Kernels.{int_at_least, int_at_most}
use rns.Schema.Mode.{ints_less}
use rns.Schema.Adaptive.{check_prefixes, check_schedule, validate_v4_adaptive_schedule}

-- A flag that is given as a boolean and passes the comparison with what it stands for.
flag_sound :
    (v : Value) (b : Bool)
    → (is_bool v && not (py_eq v (bool b))) ≡ false
    → is_true v ≡ true
    → b ≡ true
unfolding py_eq
flag_sound (bool true) true h e = refl
flag_sound (bool true) false h e = absurd (cc h)
flag_sound v b h e = absurd (cc)

one_active : (a b : Bool) → (not a && not b) ≡ false → (a ≡ true) ⊎ (b ≡ true)
one_active true b h = inl refl
one_active a true h = inr refl
one_active false false h = absurd (cc)

within : (p b : ℕ) → ints_less (int (pos p)) (int (pos b)) ≡ false → b ≤ p
within p b h = ground arith

grouped : (g : ℕ) → int_at_least (pos 2) (int (pos g)) ≡ true → 2 ≤ g
grouped g h = ground arith

skipping : (b p : ℕ) → ints_less (int (pos b)) (int (pos p)) ≡ true → b < p
skipping b p h = ground arith

-- An integer that is above zero.
natural :
    (v : Value)
    → is_int v ≡ true
    → int_at_most (pos 0) v ≡ false
    → (n : ℕ) × (v ≡ int (pos n)) × (1 ≤ n)
natural (int (pos n)) i h = (n, refl, ground arith)
natural (int (negsuc n)) i h = absurd (ground arith)
natural v i h = absurd (cc i)

-- An integer that is at least a natural number.
above :
    (low : ℕ) (v : Value)
    → is_int v ≡ true
    → ints_less v (int (pos low)) ≡ false
    → (n : ℕ) × (v ≡ int (pos n)) × (low ≤ n)
above low (int (pos n)) i h = (n, refl, ground arith)
above low (int (negsuc n)) i h = absurd (ground arith)
above low v i h = absurd (cc i)

module _ (d schedule : Fields) (p : ℕ) where
  -- What `check_prefixes` has tested.
  record Tested : Type 0 where
    group : int_at_most (pos 0) (get "prefix_group_count" schedule) ≡ false
    least : int_at_most (pos 0) (get "min_selected_prefix" schedule) ≡ false
    most : ints_less (int (pos p)) (get "max_selected_prefix" schedule) ≡ false
    saves :
        (int_at_least (pos 2) (get "prefix_group_count" schedule) ≡ true)
        ⊎ (ints_less (get "max_selected_prefix" schedule) (int (pos p)) ≡ true)

  check_prefixes-Tested : Passes (check_prefixes d (int (pos p)) schedule) → Tested
  unfolding check_prefixes
  check_prefixes-Tested h =
      let (active, h1) = then-Passes _ _ tt h in
      let (skip_flag, h2) = then-Passes _ _ tt h1 in
      let (group, h3) = then-Passes _ _ tt h2 in
      let (least, h4) = then-Passes _ _ tt h3 in
      let (most, h5) = then-Passes _ _ tt h4 in
      record {
        group = reject-Passes _ _ group;
        least = reject-Passes _ _ least;
        most = reject-Passes _ _ most;
        saves = elim (one_active _ _ (reject-Passes _ _ h5)) [
          | inl on ↦ inl (flag_sound _ _ (reject-Passes _ _ active) on)
          | inr on ↦ inr (flag_sound _ _ (reject-Passes _ _ skip_flag) on)
        ];
      }

  checked :
      Passes (check_schedule d (int (pos p)) schedule)
      → Passes (check_prefixes d (int (pos p)) schedule)
  unfolding check_schedule
  checked h =
      let (_, h1) = then-Passes _ _ tt h in
      let (_, h2) = then-Passes _ _ tt h1 in let (prefixes, _) = then-Passes _ _ tt h2 in prefixes

  selected_order :
      Passes (check_schedule_fields d schedule)
      → (is_int (get "prefix_group_count" schedule) ≡ true)
        × (is_int (get "min_selected_prefix" schedule) ≡ true)
        × (is_int (get "max_selected_prefix" schedule) ≡ true)
        × (ints_less (get "max_selected_prefix" schedule) (get "min_selected_prefix" schedule)
            ≡ false)
  unfolding check_schedule_fields check_field_types check_prefix_order
  selected_order h =
      let (types, h1) = then-Passes _ _ tt h in
      let (_, order) = then-Passes _ _ tt h1 in
      let (ints, _) = then-Passes _ _ tt types in
      let (_, (_, (_, (_, (_, (_, (_, (low, (high, (groups, _)))))))))) =
        for_each-Passes _ _ ints in
      let (_, selected) = then-Passes _ _ tt order in
      let is_integer =
        λ (v : Value) (message : String) (q : Passes (reject (not (is_int v)) message)).
          not-false _ (reject-Passes _ _ q) in
      (is_integer _ _ groups, is_integer _ _ low, is_integer _ _ high, reject-Passes _ _ selected)

  -- A per-tile schedule that the tests of `_validate_schedule_metadata` on types, tiles and order and
  -- `_validate_v4_adaptive_schedule` both accept, for a capture whose prefix is a natural number,
  -- selects prefixes from a least to a largest one, between 1 and the prefix of the capture; and it
  -- does save work: it has two groups of prefixes or more, or its largest prefix is shorter than the
  -- one of the capture.
  pub adaptive_schedule_accepts :
      Passes (check_schedule_fields d schedule)
      → Passes (validate_v4_adaptive_schedule d (int (pos p)) (obj schedule))
      → (groups : ℕ) × (low : ℕ) × (high : ℕ) × (get "prefix_group_count" schedule
          ≡ int (pos groups))
        × (get "min_selected_prefix" schedule ≡ int (pos low))
        × (get "max_selected_prefix" schedule ≡ int (pos high))
        × (1 ≤ low)
        × (low ≤ high)
        × (high ≤ p)
        × ((2 ≤ groups) ⊎ ((1 ≤ groups) × (high < p)))
  unfolding validate_v4_adaptive_schedule
  adaptive_schedule_accepts fields h =
      let t = check_prefixes-Tested (checked (when-Passes _ _ h refl)) in
      let (groups_int, low_int, high_int, order) = selected_order fields in
      let (groups, eg, some_group) = natural _ groups_int t.group in
      let (low, el, one) = natural _ low_int t.least in
      let (high, eh, ordered) = above low _ high_int (rw el at order) in
      (
        groups,
        low,
        high,
        eg,
        el,
        eh,
        one,
        ordered,
        within p high (rw eh at t.most),
        elim t.saves [
          | inl many ↦ inl (grouped groups (rw eg at many))
          | inr short ↦ inr (some_group, skipping high p (rw eh at short))
        ],
      )
