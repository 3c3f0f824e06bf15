-- ===== src/Autotune/Grouped/Rows.antt =====
-- Rows of groups: counted, ordered, with no key twice.
use rns.Prelude.{
  ℕ, suc, ◌+◌, ◌≤◌, ◌≡◌, refl, ap, ◌∙◌, true, false, List, [], ◌∷◌, String, str_eq, eq_iff,
  if◌then◌else◌, arith, Bool-cases, inl, inr, count_if, and_true, All, length,
}
use rns.Json.{Fields}
use rns.Autotune.Result.{Library}
use rns.Autotune.Order.{text_leb_total}
use rns.Autotune.Coverage.{
  Groups, texts_eq, texts_leb, group_key, count_key, group_entries, insert_group, sort_groups,
}

pub texts_eq-eq : (ss ts : List String) → texts_eq ss ts ≡ true → ss ≡ ts
unfolding texts_eq
texts_eq-eq [] [] h = refl
texts_eq-eq [] (t ∷ ts) h = absurd (cc h)
texts_eq-eq (s ∷ ss) [] h = absurd (cc h)
texts_eq-eq (s ∷ ss) (t ∷ ts) h =
    let (first, rest) = and_true (str_eq s t) (texts_eq ss ts) h in
    λ i. (eq_iff s t).0 first i ∷ texts_eq-eq ss ts rest i

-- The sum of the counts of the rows with the key.
abbrev pub count_of : List String → Groups → ℕ
count_of key [] = 0
count_of key ((k, n) ∷ groups) = (if texts_eq k key then n else 0) + count_of key groups

count_of-count_key :
    (key k : List String) (groups : Groups)
    → count_of key (count_key k groups) ≡ (if texts_eq k key then 1 else 0) + count_of key groups
unfolding count_key
count_of-count_key key k [] = refl
count_of-count_key key k ((j, n) ∷ groups) = elim (Bool-cases (texts_eq j k)) [
  | inl same ↦
      rw same (ground (arith, ap (λ (t : List String). texts_eq t key) (texts_eq-eq j k same)))
  | inr other ↦ rw other (omega (arith, count_of-count_key key k groups))
]

count_of-insert_group :
    (key : List String) (g : List String × ℕ) (groups : Groups)
    → count_of key (insert_group g groups) ≡ count_of key (g ∷ groups)
unfolding insert_group
count_of-insert_group key g [] = refl
count_of-insert_group key g (h ∷ groups) = ground (arith, count_of-insert_group key g groups)

pub count_of-sort_groups :
    (key : List String) (groups : Groups) → count_of key (sort_groups groups) ≡ count_of key groups
unfolding sort_groups
count_of-sort_groups key [] = refl
count_of-sort_groups key (g ∷ groups) =
    omega (arith, count_of-insert_group key g (sort_groups groups), count_of-sort_groups key groups)

pub count_of-group_entries :
    (lib : Library) (key : List String) (es : List Fields) (groups : Groups)
    → count_of key (group_entries lib es groups)
      ≡ count_if (λ e. texts_eq (group_key lib e) key) es + count_of key groups
unfolding group_entries
count_of-group_entries lib key [] groups = omega arith
count_of-group_entries lib key (e ∷ es) groups = ground (
  arith,
  count_of-group_entries lib key es (count_key (group_key lib e) groups),
  count_of-count_key key (group_key lib e) groups,
)

texts_eq_refl : (ss : List String) → texts_eq ss ss ≡ true
unfolding texts_eq
texts_eq_refl [] = refl
texts_eq_refl (s ∷ ss) = ground (arith, texts_eq_refl ss, eq_iff s s)

texts_eq_sym : (ss ts : List String) → texts_eq ss ts ≡ texts_eq ts ss
unfolding texts_eq
texts_eq_sym [] [] = refl
texts_eq_sym [] (t ∷ ts) = refl
texts_eq_sym (s ∷ ss) [] = refl
texts_eq_sym (s ∷ ss) (t ∷ ts) = ground (arith, texts_eq_sym ss ts, eq_iff s t, eq_iff t s)

texts_leb_total : (ss ts : List String) → texts_leb ss ts ≡ false → texts_leb ts ss ≡ true
unfolding texts_leb
texts_leb_total [] ts h = absurd (cc h)
texts_leb_total (s ∷ ss) [] h = refl
texts_leb_total (s ∷ ss) (t ∷ ts) h =
    ground (arith, texts_leb_total ss ts, text_leb_total s t, eq_iff s t, eq_iff t s)

-- No row has the key.
abbrev pub IsNew : List String → Groups → Type 0
IsNew key groups = All (λ (g : List String × ℕ). texts_eq key g.0 ≡ false) groups

-- No two rows have the same key.
abbrev pub IsUnique : Groups → Type 0
IsUnique [] = Unit {0}
IsUnique (g ∷ groups) = IsNew g.0 groups × IsUnique groups

-- The key of each row is at most that of the next.
abbrev pub IsOrdered : Groups → Type 0
IsOrdered [] = Unit {0}
IsOrdered (g ∷ []) = Unit {0}
IsOrdered (g ∷ h ∷ groups) = (texts_leb g.0 h.0 ≡ true) × IsOrdered (h ∷ groups)

-- Each row counts an entry or more.
abbrev pub IsCounting : Groups → Type 0
IsCounting groups = All (λ (g : List String × ℕ). 1 ≤ g.1) groups

-- The entries that the rows count in all.
abbrev pub total : Groups → ℕ
total [] = 0
total (g ∷ groups) = g.1 + total groups

count_key-IsNew :
    (j k : List String) (groups : Groups)
    → texts_eq j k ≡ false
    → IsNew j groups
    → IsNew j (count_key k groups)
unfolding count_key
count_key-IsNew j k [] other h = (other, tt)
count_key-IsNew j k ((i, n) ∷ groups) other (first, h) = elim (Bool-cases (texts_eq i k)) [
  | inl e ↦ rw e (first, h)
  | inr e ↦ rw e (first, count_key-IsNew j k groups other h)
]

count_key-IsUnique :
    (k : List String) (groups : Groups) → IsUnique groups → IsUnique (count_key k groups)
unfolding count_key
count_key-IsUnique k [] h = (tt, tt)
count_key-IsUnique k ((i, n) ∷ groups) (new, h) = elim (Bool-cases (texts_eq i k)) [
  | inl e ↦ rw e (new, h)
  | inr e ↦ rw e (count_key-IsNew i k groups e new, count_key-IsUnique k groups h)
]

count_key-IsCounting :
    (k : List String) (groups : Groups) → IsCounting groups → IsCounting (count_key k groups)
unfolding count_key
count_key-IsCounting k [] h = (omega arith, tt)
count_key-IsCounting k ((i, n) ∷ groups) (first, h) = elim (Bool-cases (texts_eq i k)) [
  | inl e ↦ rw e (omega arith, h)
  | inr e ↦ rw e (first, count_key-IsCounting k groups h)
]

total-count_key :
    (k : List String) (groups : Groups) → total (count_key k groups) ≡ suc (total groups)
unfolding count_key
total-count_key k [] = refl
total-count_key k ((i, n) ∷ groups) = ground (arith, total-count_key k groups)

-- What counting keeps of the rows.
pub record IsGrouped (counted : ℕ) (groups : Groups) : Type 0 where
  pub unique : IsUnique groups
  pub counting : IsCounting groups
  pub all_counted : total groups ≡ counted

pub group_entries-IsGrouped :
    (lib : Library) (es : List Fields) (n : ℕ) (groups : Groups)
    → IsGrouped n groups
    → IsGrouped (n + length es) (group_entries lib es groups)
unfolding group_entries
group_entries-IsGrouped lib [] n groups h = record {
  unique = h.unique;
  counting = h.counting;
  all_counted = omega (arith, h.all_counted);
}
group_entries-IsGrouped lib (e ∷ es) n groups h =
    let key = group_key lib e in
    let rest = group_entries-IsGrouped lib es (suc n) (count_key key groups) (record {
      unique = count_key-IsUnique key groups h.unique;
      counting = count_key-IsCounting key groups h.counting;
      all_counted = omega (arith, total-count_key key groups, h.all_counted);
    }) in
    record {
      unique = rest.unique;
      counting = rest.counting;
      all_counted = omega (arith, rest.all_counted);
    }

All-insert_group :
    (P : List String × ℕ → Type 0) (g : List String × ℕ) (groups : Groups)
    → P g
    → All P groups
    → All P (insert_group g groups)
unfolding insert_group
All-insert_group P g [] p h = (p, tt)
All-insert_group P g (i ∷ groups) p (first, h) = elim (Bool-cases (texts_leb g.0 i.0)) [
  | inl e ↦ rw e (p, (first, h))
  | inr e ↦ rw e (first, All-insert_group P g groups p h)
]

insert_group-IsUnique :
    (g : List String × ℕ) (groups : Groups)
    → IsNew g.0 groups
    → IsUnique groups
    → IsUnique (insert_group g groups)
unfolding insert_group
insert_group-IsUnique g [] new h = (tt, tt)
insert_group-IsUnique g (i ∷ groups) (other, new) (first, h) =
    elim (Bool-cases (texts_leb g.0 i.0)) [
      | inl e ↦ rw e ((other, new), (first, h))
      | inr e ↦ rw e (
        All-insert_group (λ r. texts_eq i.0 r.0 ≡ false) g groups (texts_eq_sym i.0 g.0 ∙ other)
            first,
        insert_group-IsUnique g groups new h,
      )
    ]

total-insert_group :
    (g : List String × ℕ) (groups : Groups) → total (insert_group g groups) ≡ g.1 + total groups
unfolding insert_group
total-insert_group g [] = refl
total-insert_group g (i ∷ groups) = ground (arith, total-insert_group g groups)

insert_group-IsOrdered :
    (g : List String × ℕ) (groups : Groups) → IsOrdered groups → IsOrdered (insert_group g groups)
unfolding insert_group
insert_group-IsOrdered g [] h = tt
insert_group-IsOrdered g (i ∷ []) h = elim (Bool-cases (texts_leb g.0 i.0)) [
  | inl e ↦ rw e (e, tt)
  | inr e ↦ rw e (texts_leb_total g.0 i.0 e, tt)
]
insert_group-IsOrdered g (i ∷ j ∷ groups) (first, h) =
    let rest = insert_group-IsOrdered g (j ∷ groups) h in
    elim (Bool-cases (texts_leb g.0 i.0)) [
      | inl e ↦ rw e (e, (first, h))
      | inr e ↦ elim (Bool-cases (texts_leb g.0 j.0)) [
        | inl e' ↦ rw (e, e') (texts_leb_total g.0 i.0 e, (e', h))
        | inr e' ↦ rw (e, e') (first, rw e' at rest)
      ]
    ]

All-sort_groups :
    (P : List String × ℕ → Type 0) (groups : Groups) → All P groups → All P (sort_groups groups)
unfolding sort_groups
All-sort_groups P [] h = tt
All-sort_groups P (g ∷ groups) (first, h) =
    All-insert_group P g (sort_groups groups) first (All-sort_groups P groups h)

pub sort_groups-IsOrdered : (groups : Groups) → IsOrdered (sort_groups groups)
unfolding sort_groups
sort_groups-IsOrdered [] = tt
sort_groups-IsOrdered (g ∷ groups) =
    insert_group-IsOrdered g (sort_groups groups) (sort_groups-IsOrdered groups)

sort_groups-IsUnique : (groups : Groups) → IsUnique groups → IsUnique (sort_groups groups)
unfolding sort_groups
sort_groups-IsUnique [] h = tt
sort_groups-IsUnique (g ∷ groups) (new, h) =
    insert_group-IsUnique g (sort_groups groups)
      (All-sort_groups (λ r. texts_eq g.0 r.0 ≡ false) groups new) (sort_groups-IsUnique groups h)

total-sort_groups : (groups : Groups) → total (sort_groups groups) ≡ total groups
unfolding sort_groups
total-sort_groups [] = refl
total-sort_groups (g ∷ groups) =
    omega (arith, total-insert_group g (sort_groups groups), total-sort_groups groups)

pub sort_groups-IsGrouped :
    (n : ℕ) (groups : Groups) → IsGrouped n groups → IsGrouped n (sort_groups groups)
sort_groups-IsGrouped n groups h = record {
  unique = sort_groups-IsUnique groups h.unique;
  counting = All-sort_groups (λ r. 1 ≤ r.1) groups h.counting;
  all_counted = total-sort_groups groups ∙ h.all_counted;
}

count_of-IsNew : (key : List String) (groups : Groups) → IsNew key groups → count_of key groups ≡ 0
count_of-IsNew key [] h = refl
count_of-IsNew key ((k, n) ∷ groups) (first, h) =
    rw (texts_eq_sym k key ∙ first) (omega (arith, count_of-IsNew key groups h))

-- Rows below a row with another key are counted as without it.
below :
    (g : List String × ℕ) (all rows : Groups)
    → IsNew g.0 rows
    → All (λ (r : List String × ℕ). r.1 ≡ count_of r.0 all) rows
    → All (λ (r : List String × ℕ). r.1 ≡ count_of r.0 (g ∷ all)) rows
below g all [] new h = tt
below g all (r ∷ rows) (other, new) (first, h) =
    (rw other (omega (arith, first)), below g all rows new h)

-- A row of rows with no key twice has all that is counted for its key.
pub rows-count_of :
    (groups : Groups)
    → IsUnique groups
    → All (λ (r : List String × ℕ). r.1 ≡ count_of r.0 groups) groups
rows-count_of [] h = tt
rows-count_of (g ∷ groups) (new, h) = (
  rw (texts_eq_refl g.0) (omega (arith, count_of-IsNew g.0 groups new)),
  below g groups groups new (rows-count_of groups h),
)
