-- ===== src/Autotune/Grouped.antt =====
-- The coverage summary counts each entry in the row of its group.
pub mod Rows
pub mod Families
use rns.Prelude.{ℕ, ◌≡◌, ◌∙◌, refl, List, [], String, arith, subst, count_if, All, All-map, length}
use rns.Json.{Fields}
use rns.Autotune.Result.{Library}
use rns.Autotune.Coverage.{
  Groups, texts_eq, group_key, group_entries, sort_groups, cache_coverage_summary,
}
use rns.Autotune.Grouped.Rows.{
  IsOrdered, IsGrouped, count_of, count_of-sort_groups, count_of-group_entries, rows-count_of,
  sort_groups-IsOrdered, group_entries-IsGrouped, sort_groups-IsGrouped,
}

count_of-cache_coverage_summary :
    (lib : Library) (key : List String) (es : List Fields)
    → count_of key (cache_coverage_summary lib es)
      ≡ count_if (λ e. texts_eq (group_key lib e) key) es
unfolding cache_coverage_summary
count_of-cache_coverage_summary lib key es = omega (
  arith,
  count_of-sort_groups key (group_entries lib es []),
  count_of-group_entries lib key es [],
)

-- A summary of entries.
pub record IsSummary (lib : Library) (es : List Fields) (groups : Groups) : Type 0 where
  pub ordered : IsOrdered groups
  pub grouped : IsGrouped (length es) groups
  pub counts :
      All (λ (r : List String × ℕ). r.1 ≡ count_if (λ e. texts_eq (group_key lib e) r.0) es) groups

-- The rows of the coverage summary stand in the order of their keys, no key occurs twice, each row
-- counts exactly the entries of its group, of which there is one or more, and the rows count all
-- entries.
pub cache_coverage_summary-IsSummary :
    (lib : Library) (es : List Fields) → IsSummary lib es (cache_coverage_summary lib es)
unfolding cache_coverage_summary
cache_coverage_summary-IsSummary lib es =
    let groups = group_entries lib es [] in
    let counted : IsGrouped (length es) groups =
      subst (λ n. IsGrouped n groups) (omega arith)
        (group_entries-IsGrouped lib es 0 []
          (record { unique = tt; counting = tt; all_counted = refl })) in
    let whole = sort_groups-IsGrouped (length es) groups counted in
    record {
      ordered = sort_groups-IsOrdered groups;
      grouped = whole;
      counts =
          All-map _ _ (sort_groups groups) (λ r e. e ∙ count_of-cache_coverage_summary lib r.0 es)
            (rows-count_of (sort_groups groups) whole.unique);
    }
