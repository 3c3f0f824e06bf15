-- ===== src/Sweep/Counts.antt =====
-- The counters of a sweep: every entry is counted once, and the budget is kept and used up.
pub mod Entry
use rns.Prelude.{
  ℕ, suc, ◌+◌, ◌≡◌, refl, subst, Option, none, some, List, [], ◌∷◌, String, length, arith,
}
use rns.Json.{Fields}
use rns.Check.{Check}
use rns.Autotune.World.{World}
use rns.Sweep.Dedupe.{SweepCommand}
use rns.Sweep.Run.{
  Machine, Arguments, Sweep, Progress, going, stopped, execute_entry, execute_entries, fresh,
  execute_sweep_entries,
}
use rns.Sweep.Counts.Entry.{Then, WithinBudget, IsCounted, execute_entry-IsCounted}

module _ (validate_v4 : Fields → Check (Unit {0})) (m : Machine) (a : Arguments) (paths : ℕ) where
  execute_entries-IsCounted :
      (n : ℕ) (entries : List SweepCommand) (s : Sweep)
      → IsCounted a.max_new_captures paths n s
      → Then
          (IsCounted a.max_new_captures paths (n + length entries))
          (execute_entries validate_v4 m a entries s)
  unfolding execute_entries
  execute_entries-IsCounted n [] s h = record {
    all_counted = omega (arith, h.all_counted);
    listed = h.listed;
    succeeded = h.succeeded;
    budgeted = h.budgeted;
  }
  execute_entries-IsCounted n (entry ∷ entries) s h =
      go (execute_entries-IsCounted (suc n) entries) (execute_entry validate_v4 m a entry s)
        (execute_entry-IsCounted validate_v4 m a paths n entry s h)
    where
      go :
          ((t : Sweep)
            → IsCounted a.max_new_captures paths (suc n) t
            → Then
                (IsCounted a.max_new_captures paths (suc n + length entries))
                (execute_entries validate_v4 m a entries t))
          → (p : Progress) → Then (IsCounted a.max_new_captures paths (suc n)) p
          → Then
              (IsCounted a.max_new_captures paths (n + suc (length entries)))
              (elim p as (λ _. Progress) [
                | stopped e t ↦ stopped e t
                | going t ↦ execute_entries validate_v4 m a entries t
              ])
      go rec (stopped e t) h' = tt
      go rec (going t) h' =
          subst
            (λ k.
              Then (IsCounted a.max_new_captures paths k)
                (execute_entries validate_v4 m a entries t))
            (omega arith) (rec t h')

fresh-WithinBudget : (budget : Option ℕ) → WithinBudget budget 0 0
fresh-WithinBudget none = refl
fresh-WithinBudget (some limit) = omega arith

-- When no exception ends a sweep, each of its entries is counted once, as skipped, as copied, as
-- attempted or as deferred; the paths listed are those given and one for each entry skipped, copied
-- or completed; no more entries are completed than attempted; and with a budget no more entries are
-- attempted than it allows, and none is deferred before it is used up.
pub execute_sweep_entries-IsCounted :
    (validate_v4 : Fields → Check (Unit {0})) (m : Machine) (a : Arguments)
    (entries : List SweepCommand) (files : World) (capture_paths : List String) (s : Sweep)
    → execute_sweep_entries validate_v4 m a entries files capture_paths ≡ going s
    → IsCounted a.max_new_captures (length capture_paths) (length entries) s
unfolding execute_sweep_entries
execute_sweep_entries-IsCounted validate_v4 m a entries files capture_paths s h =
    subst (Then (IsCounted a.max_new_captures (length capture_paths) (length entries))) h (
      subst
        (λ n.
          Then (IsCounted a.max_new_captures (length capture_paths) n)
            (execute_entries validate_v4 m a entries start))
        (omega arith)
        (execute_entries-IsCounted validate_v4 m a (length capture_paths) 0 entries start (record {
          all_counted = refl;
          listed = omega arith;
          succeeded = omega arith;
          budgeted = fresh-WithinBudget a.max_new_captures;
        })))
  where
    start : Sweep
    start = fresh validate_v4 m a files capture_paths
