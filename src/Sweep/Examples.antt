-- ===== src/Sweep/Examples.antt =====
-- Three entries, two of them the same CPU reference, captured one in a sweep.
use rns.Prelude.{◌≡◌, refl, true, none, some, List, [], ◌∷◌, String, ◌<>◌, arith, inl, inr}
use rns.Prelude.Int.{pos}
use rns.Json.{Fields, int, obj, empty, field, get, str, py_eq, get_or, has_key}
use rns.Check.{Check, reject}
use rns.Autotune.World.{World, missing, document, is_missing}
use rns.Autotune.Entry.{set_field}
use rns.Autotune.Order.{mem}
use rns.Sweep.Capture.{existing_capture_valid}
use rns.Schema.Mode.{fields_of}
use rns.Sweep.Dedupe.{SweepCommand}
use rns.Sweep.Run.{
  Machine, success, Arguments, Sweep, Progress, going, stopped, execute_entry,
  execute_sweep_entries,
}
use rns.Sweep.Counts.{execute_sweep_entries-IsCounted}
use rns.Sweep.Counts.Entry.{IsCounted}
use rns.Sweep.Resume.Step.Files.{IsAccepted, Suits, IsHealthy}
use rns.Sweep.Resume.Loop.Pending.{pending}
use rns.Sweep.Resume.Finish.{sweep_again, IsComplete, IsOneOf, sweep_again-IsComplete}

-- A validator that reads the scenario: a capture must not be put forward for promotion.
abbrev validate_v4 : Fields → Check (Unit {0})
validate_v4 d =
    reject
      (py_eq (get "promotion_eligibility" (fields_of (get "scenario_metadata" d))) (str "eligible"))
      "the capture must not be eligible for promotion"

abbrev capture : Fields
capture = field "schema_version" (int (pos 4)) empty

abbrev machine : Machine
machine = record {
  process = λ n entry. success (document (obj capture));
  failed_path = λ path. path <> ".failed.json";
  disk = record { makes_parent = λ path. true; writes = λ path. true };
}

abbrev scenario : Fields
scenario = field "promotion_eligibility" (str "diagnostic_only") empty

abbrev entry_of : String → String → SweepCommand
entry_of backend output = record {
  name = output;
  command = "rns8-bench" ∷ "--backend" ∷ backend ∷ [];
  output = output;
  scenario = some scenario;
  env = none;
}

abbrev entries : List SweepCommand
entries = entry_of "cpu" "a.json" ∷ entry_of "cpu" "b.json" ∷ entry_of "ck" "c.json" ∷ []

accepted_plain : IsAccepted validate_v4 capture
unfolding get_or has_key py_eq reject
accepted_plain = record { versioned = refl; version_four = refl; passes = refl }

accepted_annotated : IsAccepted validate_v4 (set_field "scenario_metadata" (obj scenario) capture)
unfolding get_or has_key py_eq reject set_field
accepted_annotated = record { versioned = refl; version_four = refl; passes = refl }

suits : (command : List String) → Suits validate_v4 (IsOneOf entries) command capture
suits command = record {
  accepted = accepted_plain;
  annotates = λ entry listed same. elim listed [
    | inl e ↦ rw e accepted_annotated
    | inr (inl e) ↦ rw e accepted_annotated
    | inr (inr (inl e)) ↦ rw e accepted_annotated
    | inr (inr (inr e)) ↦ absurd e
  ];
}

healthy : IsHealthy validate_v4 (IsOneOf entries) machine
healthy = record {
  makes_parent = λ entry listed. refl;
  writes = λ entry listed. refl;
  succeeds = λ n entry listed. (capture, refl, suits entry.command);
}

abbrev arguments : Arguments
arguments = record { skip_existing = true; max_new_captures = some 1 }

abbrev no_files : World
no_files path = missing "no such file"

sweep_again-IsComplete_example :
    (after : World) × (sweep_again validate_v4 machine arguments entries 3 no_files ≡ some after)
    × IsComplete validate_v4 machine arguments entries after
unfolding mem existing_capture_valid is_missing pending
sweep_again-IsComplete_example =
    sweep_again-IsComplete validate_v4 machine arguments entries healthy 1 3 no_files refl refl
      (refl, (refl, (refl, tt))) (inl refl, (inl refl, (inl refl, tt))) (omega arith)

-- The first sweep runs the first entry, copies its capture and defers the third.
abbrev first_sweep : Progress
first_sweep = execute_sweep_entries validate_v4 machine arguments entries no_files []

abbrev state_of : Progress → Sweep
state_of (going s) = s
state_of (stopped e s) = s

goes : first_sweep ≡ going (state_of first_sweep)
unfolding execute_sweep_entries execute_entry is_missing has_key get_or reject py_eq
goes = refl

execute_sweep_entries-IsCounted_example : IsCounted (some 1) 0 3 (state_of first_sweep)
execute_sweep_entries-IsCounted_example =
    execute_sweep_entries-IsCounted validate_v4 machine arguments entries no_files []
      (state_of first_sweep) goes

counted :
    ((state_of first_sweep).attempted ≡ 1)
    × ((state_of first_sweep).deduped ≡ 1)
    × ((state_of first_sweep).deferred ≡ 1)
unfolding execute_sweep_entries execute_entry is_missing has_key get_or reject py_eq
counted = (refl, refl, refl)
