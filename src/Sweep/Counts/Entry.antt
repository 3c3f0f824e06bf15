-- ===== src/Sweep/Counts/Entry.antt =====
-- The counters after one entry of a sweep.
use rns.Prelude.{
  ℕ, suc, ◌+◌, ◌≤◌, ◌<◌, ◌≡◌, refl, Bool, true, false, Option, none, some, [], ◌∷◌, ◌++◌, String,
  length, length-append, arith, if◌then◌else◌,
}
use rns.Json.{Fields}
use rns.Check.{Check}
use rns.Autotune.World.{World}
use rns.Sweep.Capture.{
  Attempt, got, halt, ◌>>=◌, annotate_scenario_metadata, existing_capture_valid, copy_capture,
}
use rns.Sweep.Dedupe.{SweepCommand, cpu_reference_dedupe_key, reusable, complete}
use rns.Sweep.Run.{
  Machine, Arguments, Sweep, Progress, going, stopped, run_command, record_capture, skip_entry,
  dedupe_entry, attempt_entry, new_entry, execute_entry, is_spent, resume,
}

-- A statement about the state that a step goes on with.
abbrev pub Then : (Sweep → Type 0) → Progress → Type 0
Then P (going t) = P t
Then P (stopped e t) = Unit {0}

-- How the attempts stand to the budget: they keep within it, and nothing is deferred before it is
-- used up.
abbrev pub WithinBudget : Option ℕ → (attempted deferred : ℕ) → Type 0
WithinBudget none attempted deferred = deferred ≡ 0
WithinBudget (some limit) attempted deferred =
    (attempted ≤ limit) × (0 < deferred → attempted ≡ limit)

-- After `entries` entries, when `paths` captures were listed before the first.
pub record IsCounted (budget : Option ℕ) (paths entries : ℕ) (s : Sweep) : Type 0 where
  pub all_counted : s.skipped + s.deduped + s.attempted + s.deferred ≡ entries
  pub listed : length s.capture_paths ≡ paths + s.skipped + s.deduped + s.completed
  pub succeeded : s.completed ≤ s.attempted
  pub budgeted : WithinBudget budget s.attempted s.deferred

module _ (validate_v4 : Fields → Check (Unit {0})) (m : Machine) (a : Arguments)
    (paths entries : ℕ) where
  abbrev Before : Sweep → Type 0
  Before = IsCounted a.max_new_captures paths entries

  abbrev After : Sweep → Type 0
  After = IsCounted a.max_new_captures paths (suc entries)

  skip_entry-IsCounted :
      (entry : SweepCommand) (s : Sweep)
      → Before s
      → Then After (skip_entry validate_v4 m a entry s)
  unfolding skip_entry record_capture
  skip_entry-IsCounted entry s h =
      go (annotate_scenario_metadata validate_v4 m.disk entry.output entry.scenario s.files)
    where
      go :
          (r : Attempt World)
          → Then After (
              resume s (
                (r >>= λ files.
                got (record s {
                  files = files;
                  capture_paths = s.capture_paths ++ entry.output ∷ [];
                }))
                >>= λ t. got (record t {
                  skipped = suc t.skipped;
                  cpu_captures =
                      complete (cpu_reference_dedupe_key entry) entry.output t.cpu_captures;
                })))
      go (halt e) = tt
      go (got files) = record {
        all_counted = omega (arith, h.all_counted);
        listed = omega (arith, h.listed, length-append s.capture_paths (entry.output ∷ []));
        succeeded = h.succeeded;
        budgeted = h.budgeted;
      }

  dedupe_entry-IsCounted :
      (entry : SweepCommand) (source : String) (s : Sweep)
      → Before s
      → Then After (dedupe_entry validate_v4 m a entry source s)
  unfolding dedupe_entry record_capture
  dedupe_entry-IsCounted entry source s h = copied (copy_capture m.disk source entry.output s.files)
    where
      annotated :
          (files : World) (r : Attempt World)
          → Then After (
              resume
                (record s { files = files })
                ((r >>= λ files'. got (record s {
                  files = files';
                  capture_paths = s.capture_paths ++ entry.output ∷ [];
                }))
                  >>= λ t. got (record t { deduped = suc t.deduped })))
      annotated files (halt e) = tt
      annotated files (got files') = record {
        all_counted = omega (arith, h.all_counted);
        listed = omega (arith, h.listed, length-append s.capture_paths (entry.output ∷ []));
        succeeded = h.succeeded;
        budgeted = h.budgeted;
      }

      copied :
          (r : Attempt World)
          → Then After (elim r as (λ _. Progress) [
            | halt e ↦ stopped e s
            | got files ↦
                let s' = record s { files = files } in
                resume s' (
                  record_capture validate_v4 m a entry s' >>= λ t.
                  got (record t { deduped = suc t.deduped }))
          ])
      copied (halt e) = tt
      copied (got files) =
          annotated files
            (annotate_scenario_metadata validate_v4 m.disk entry.output entry.scenario files)

  budget_left :
      (budget : Option ℕ) (attempted deferred : ℕ)
      → WithinBudget budget attempted deferred
      → is_spent validate_v4 m a budget attempted ≡ false
      → WithinBudget budget (suc attempted) deferred
  budget_left none attempted deferred h left = h
  budget_left (some limit) attempted deferred (within, used) left = ground arith

  budget_spent :
      (budget : Option ℕ) (attempted deferred : ℕ)
      → WithinBudget budget attempted deferred
      → is_spent validate_v4 m a budget attempted ≡ true
      → WithinBudget budget attempted (suc deferred)
  budget_spent none attempted deferred h spent = absurd (cc spent)
  budget_spent (some limit) attempted deferred (within, used) spent = ground arith

  attempt_entry-IsCounted :
      (entry : SweepCommand) (s : Sweep)
      → Before s
      → is_spent validate_v4 m a a.max_new_captures s.attempted ≡ false
      → Then After (attempt_entry validate_v4 m a entry s)
  unfolding attempt_entry record_capture
  attempt_entry-IsCounted entry s h left = ran (run_command m s.attempted entry s.files)
    where
      kept : WithinBudget a.max_new_captures (suc s.attempted) s.deferred
      kept = budget_left a.max_new_captures s.attempted s.deferred h.budgeted left

      annotated :
          (ran : Sweep) (files : World) (r : Attempt World)
          → Then After (
              resume ran (
                (r >>= λ files'. got (record s {
                  files = files';
                  attempted = suc s.attempted;
                  capture_paths = s.capture_paths ++ entry.output ∷ [];
                }))
                >>= λ t. got (record t {
                  completed = suc t.completed;
                  cpu_captures =
                      complete (cpu_reference_dedupe_key entry) entry.output t.cpu_captures;
                })))
      annotated ran files (halt e) = tt
      annotated ran files (got files') = record {
        all_counted = omega (arith, h.all_counted);
        listed = omega (arith, h.listed, length-append s.capture_paths (entry.output ∷ []));
        succeeded = omega (arith, h.succeeded);
        budgeted = kept;
      }

      ran :
          (r : Attempt (Bool × World))
          → Then After (elim r as (λ _. Progress) [
            | halt e ↦ stopped e (record s { attempted = suc s.attempted })
            | got (false, files) ↦ going (record s { attempted = suc s.attempted; files = files })
            | got (true, files) ↦
                let ran = record s { attempted = suc s.attempted; files = files } in
                resume ran (
                  record_capture validate_v4 m a entry ran >>= λ t. got (record t {
                    completed = suc t.completed;
                    cpu_captures =
                        complete (cpu_reference_dedupe_key entry) entry.output t.cpu_captures;
                  }))
          ])
      ran (halt e) = tt
      ran (got (false, files)) = record {
        all_counted = omega (arith, h.all_counted);
        listed = h.listed;
        succeeded = omega (arith, h.succeeded);
        budgeted = kept;
      }
      ran (got (true, files)) =
          annotated _ files
            (annotate_scenario_metadata validate_v4 m.disk entry.output entry.scenario files)

  new_entry-IsCounted :
      (entry : SweepCommand) (s : Sweep) → Before s → Then After (new_entry validate_v4 m a entry s)
  unfolding new_entry
  new_entry-IsCounted entry s h = go (reusable (cpu_reference_dedupe_key entry) s.cpu_captures)
    where
      spent :
          (b : Bool)
          → is_spent validate_v4 m a a.max_new_captures s.attempted ≡ b
          → Then After (
              if b
              then going (record s { deferred = suc s.deferred })
              else attempt_entry validate_v4 m a entry s)
      spent true e = record {
        all_counted = omega (arith, h.all_counted);
        listed = h.listed;
        succeeded = h.succeeded;
        budgeted = budget_spent a.max_new_captures s.attempted s.deferred h.budgeted e;
      }
      spent false e = attempt_entry-IsCounted entry s h e

      go :
          (r : Option String)
          → Then After (elim r as (λ _. Progress) [
            | some source ↦ dedupe_entry validate_v4 m a entry source s
            | none ↦
                if is_spent validate_v4 m a a.max_new_captures s.attempted
                then going (record s { deferred = suc s.deferred })
                else attempt_entry validate_v4 m a entry s
          ])
      go (some source) = dedupe_entry-IsCounted entry source s h
      go none = spent (is_spent validate_v4 m a a.max_new_captures s.attempted) refl

  pub execute_entry-IsCounted :
      (entry : SweepCommand) (s : Sweep)
      → Before s
      → Then After (execute_entry validate_v4 m a entry s)
  unfolding execute_entry
  execute_entry-IsCounted entry s h =
      go a.skip_existing (existing_capture_valid validate_v4 entry.output (s.files entry.output))
    where
      existing :
          (r : Attempt Bool)
          → Then After (elim r as (λ _. Progress) [
            | halt e ↦ stopped e s
            | got true ↦ skip_entry validate_v4 m a entry s
            | got false ↦ new_entry validate_v4 m a entry s
          ])
      existing (halt e) = tt
      existing (got true) = skip_entry-IsCounted entry s h
      existing (got false) = new_entry-IsCounted entry s h

      go :
          (b : Bool) (r : Attempt Bool)
          → Then After (
              if b
              then (elim r as (λ _. Progress) [
                | halt e ↦ stopped e s
                | got true ↦ skip_entry validate_v4 m a entry s
                | got false ↦ new_entry validate_v4 m a entry s
              ])
              else new_entry validate_v4 m a entry s)
      go true r = existing r
      go false r = new_entry-IsCounted entry s h
