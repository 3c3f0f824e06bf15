-- ===== src/Autotune/Counts.antt =====
-- The numbers in the report of an installation agree with the cache and with the history.
use rns.Prelude.{
  ℕ, suc, ◌+◌, ◌≡◌, refl, ap, sym, ◌∙◌, Bool, true, not, List, [], ◌∷◌, String, eq_iff,
  if◌then◌else◌, map, arith, Bool-cases, inl, inr, length, count_if,
}
use rns.Json.{Fields}
use rns.Dict.{Dict, insert, has, keys, length-insert, has-insert, has-lookup, lookup-has}
use rns.Autotune.Result.{Library}
use rns.Autotune.Ledger.{entry_key, is_empty}
use rns.Autotune.Order.{sorted, insert_text}
use rns.Autotune.Install.{
  Change, Plan, Options, add_entries, merge_entries, changes_entry, change_of, ordered, merged_of,
  added_count, report_of,
}
use rns.Autotune.Merge.{map-ordered, merged-IsKeyed, merge_entries-add_entries}

abbrev pub is_add : Change → Bool
is_add c = not c.is_replace

-- The history has one addition for each key that was not there.
adds_counted :
    (lib : Library) (b : Bool) (s : Dict String) (d : Dict Fields) (es : List Fields)
    → count_if is_add (merge_entries lib b s d es).1 + length d
      ≡ length (merge_entries lib b s d es).0
unfolding merge_entries changes_entry change_of
adds_counted lib b s d [] = omega arith
adds_counted lib b s d (e ∷ es) = elim (Bool-cases (has (entry_key e) d)) [
  | inl old ↦
      let (entry, found) = has-lookup (entry_key e) d old in
      ground (
        arith,
        found,
        length-insert (entry_key e) e d,
        adds_counted lib b s (insert (entry_key e) e d) es,
      )
  | inr new ↦ ground (
    arith,
    lookup-has (entry_key e) d new,
    length-insert (entry_key e) e d,
    adds_counted lib b s (insert (entry_key e) e d) es,
  )
]

module _ (initial : Dict Fields) where
  abbrev new_keys : Dict Fields → ℕ
  new_keys d = count_if (λ k. not (has k initial)) (keys d)

  new_keys-insert :
      (k : String) (e : Fields) (d : Dict Fields)
      → new_keys (insert k e d)
        ≡ (if has k d then new_keys d else if has k initial then new_keys d else suc (new_keys d))
  unfolding insert keys has
  new_keys-insert k e [] = ground arith
  new_keys-insert k e ((j, w) ∷ d) = ground (arith, eq_iff j k, new_keys-insert k e d)

  abbrev Extends : Dict Fields → Type 0
  Extends d = (k : String) → has k initial ≡ true → has k d ≡ true

  insert-Extends : (k : String) (e : Fields) (d : Dict Fields) → Extends d → Extends (insert k e d)
  insert-Extends k e d h j old = ground (arith, has-insert k j e d, h j old)

  -- Every key of the merged dict is an initial one or a new one.
  new_keys_counted :
      (d : Dict Fields) (es : List Fields)
      → Extends d
      → length d ≡ length initial + new_keys d
      → length (add_entries d es) ≡ length initial + new_keys (add_entries d es)
  unfolding add_entries
  new_keys_counted d [] h e = e
  new_keys_counted d (entry ∷ es) h e =
      new_keys_counted (insert (entry_key entry) entry d) es
        (insert-Extends (entry_key entry) entry d h)
        (ground (
          arith,
          h (entry_key entry),
          length-insert (entry_key entry) entry d,
          new_keys-insert (entry_key entry) entry d,
        ))

no_new_keys :
    (initial d : Dict Fields)
    → ((k : String) → has k d ≡ true → has k initial ≡ true)
    → new_keys initial d ≡ 0
unfolding keys has
no_new_keys initial [] h = refl
no_new_keys initial ((j, e) ∷ d) h =
    ground (arith, h j, eq_iff j j, no_new_keys initial d (λ k old. h k (ground (arith))))

length-insert_text : (s : String) (ts : List String) → length (insert_text s ts) ≡ suc (length ts)
unfolding insert_text
length-insert_text s [] = refl
length-insert_text s (t ∷ ts) = ground (arith, length-insert_text s ts)

length-sorted : (ts : List String) → length (sorted ts) ≡ length ts
unfolding sorted
length-sorted [] = refl
length-sorted (t ∷ ts) = ground (arith, length-insert_text t (sorted ts), length-sorted ts)

length-map : {A B : Type 0} (f : A → B) (xs : List A) → length (map f xs) ≡ length xs
length-map f [] = refl
length-map f (x ∷ xs) = ap suc (length-map f xs)

length-keys : (d : Dict Fields) → length (keys d) ≡ length d
unfolding keys
length-keys [] = refl
length-keys ((k, e) ∷ d) = ap suc (length-keys d)

length-ordered :
    (existing reviewed : List Fields)
    → let merged = add_entries (add_entries [] existing) reviewed in
      length (ordered merged) ≡ length merged
length-ordered existing reviewed =
    let merged = add_entries (add_entries [] existing) reviewed in
    sym (length-map entry_key (ordered merged))
    ∙ ap length (map-ordered merged (merged-IsKeyed existing reviewed))
    ∙ length-sorted (keys merged)
    ∙ length-keys merged

-- The report counts what was installed: the installed entries are the distinct existing keys and
-- the added ones, and an entry was added for each addition in the history.
pub report_of-counts :
    (lib : Library) (o : Options) (p : Plan)
    → ((report_of lib o p).installed_entries
        ≡ length (add_entries [] p.existing) + (report_of lib o p).added_entries)
      × ((report_of lib o p).added_entries
          ≡ count_if is_add (report_of lib o p).replacement_history)
unfolding report_of added_count merged_of
report_of-counts lib o p =
    let initial = add_entries [] p.existing in
    let merged = add_entries initial p.reviewed in
    let total =
      new_keys_counted initial initial p.reviewed (λ k h. h)
        (omega (arith, no_new_keys initial initial (λ k h. h))) in
    let adds =
      adds_counted lib (not (is_empty o.promotion_ledgers)) p.source_by_key initial p.reviewed in
    let same' =
      merge_entries-add_entries lib (not (is_empty o.promotion_ledgers)) p.source_by_key initial
        p.reviewed in
    rw same' (
      omega (arith, total, length-ordered p.existing p.reviewed),
      omega (arith, total, adds, ap (λ (d : Dict Fields). length d) same'),
    )
