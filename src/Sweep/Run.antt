-- ===== src/Sweep/Run.antt =====
-- `run_command` and `execute_sweep_entries`: the processes are those of a machine.
use rns.Prelude.{
  ℕ, suc, Bool, true, false, Option, none, some, List, [], ◌∷◌, ◌++◌, String, leb, if◌then◌else◌,
}
use rns.Json.{Value, Fields}
use rns.Check.{Check}
use rns.Autotune.World.{World, File, document}
use rns.Sweep.Capture.{
  Halt, os_error, Attempt, got, halt, ◌>>=◌, Disk, write_text, existing_capture_valid,
  annotate_scenario_metadata, copy_capture,
}
use rns.Sweep.Dedupe.{SweepCommand, Completed, cpu_reference_dedupe_key, complete, reusable}

-- What starting a process comes to: it cannot be started, it ends with a nonzero code or by the
-- timeout and leaves a record of the failure, or it succeeds and prints the file.
pub data Process : Type 0 where
  not_started : Process
  failure : Value → Process
  success : File → Process

-- The processes, by the number of those that the sweep has started before,
-- `output.with_suffix(".failed.json")`, and the disk that files are written to.
pub record Machine : Type 0 where
  pub process : ℕ → SweepCommand → Process
  pub failed_path : String → String
  pub disk : Disk

pub record Arguments : Type 0 where
  pub skip_existing : Bool
  pub max_new_captures : Option ℕ

-- The state of the loop: the files, the paths of captures, the counters and the CPU captures.
pub record Sweep : Type 0 where
  pub files : World
  pub capture_paths : List String
  pub skipped : ℕ
  pub attempted : ℕ
  pub completed : ℕ
  pub deduped : ℕ
  pub deferred : ℕ
  pub cpu_captures : Completed

-- The loop goes on, or an exception has ended it.
pub data Progress : Type 0 where
  going : Sweep → Progress
  stopped : Halt → Sweep → Progress

-- The files after `run_command`, and whether it returns True.
unfoldable pub run_command : Machine → ℕ → SweepCommand → World → Attempt (Bool × World)
unfolding write_text
run_command m n entry files =
    if m.disk.makes_parent entry.output
    then (elim (m.process n entry) [
      | not_started ↦ halt os_error
      | failure report ↦
          write_text m.disk (m.failed_path entry.output) (document report) files >>= λ files.
          got (false, files)
      | success file ↦ write_text m.disk entry.output file files >>= λ files. got (true, files)
    ])
    else halt os_error

abbrev pub resume : Sweep → Attempt Sweep → Progress
resume s (got s') = going s'
resume s (halt e) = stopped e s

module _ (validate_v4 : Fields → Check (Unit {0})) (m : Machine) (a : Arguments) where
  -- The scenario is added and the path recorded.
  unfoldable pub record_capture : SweepCommand → Sweep → Attempt Sweep
  unfolding annotate_scenario_metadata
  record_capture entry s =
      annotate_scenario_metadata validate_v4 m.disk entry.output entry.scenario s.files >>= λ files.
      got (record s { files = files; capture_paths = s.capture_paths ++ entry.output ∷ [] })

  unfoldable pub skip_entry : SweepCommand → Sweep → Progress
  unfolding record_capture cpu_reference_dedupe_key complete
  skip_entry entry s = resume s (
      record_capture entry s >>= λ t. got (record t {
        skipped = suc t.skipped;
        cpu_captures = complete (cpu_reference_dedupe_key entry) entry.output t.cpu_captures;
      }))

  unfoldable pub dedupe_entry : SweepCommand → String → Sweep → Progress
  unfolding record_capture copy_capture
  dedupe_entry entry source s = elim (copy_capture m.disk source entry.output s.files) [
    | halt e ↦ stopped e s
    | got files ↦
        let s' = record s { files = files } in
        resume s' (record_capture entry s' >>= λ t. got (record t { deduped = suc t.deduped }))
  ]

  unfoldable pub attempt_entry : SweepCommand → Sweep → Progress
  unfolding record_capture run_command cpu_reference_dedupe_key complete
  attempt_entry entry s =
      let started = record s { attempted = suc s.attempted } in
      elim (run_command m s.attempted entry s.files) [
        | halt e ↦ stopped e started
        | got (false, files) ↦ going (record started { files = files })
        | got (true, files) ↦
            let ran = record started { files = files } in
            resume ran (
              record_capture entry ran >>= λ t. got (record t {
                completed = suc t.completed;
                cpu_captures =
                    complete (cpu_reference_dedupe_key entry) entry.output t.cpu_captures;
              }))
      ]

  -- `max_new is not None and stats["new_captures_attempted"] >= max_new`
  abbrev pub is_spent : Option ℕ → ℕ → Bool
  is_spent none attempted = false
  is_spent (some limit) attempted = leb limit attempted

  -- An entry whose capture is not there yet.
  unfoldable pub new_entry : SweepCommand → Sweep → Progress
  unfolding dedupe_entry attempt_entry cpu_reference_dedupe_key reusable
  new_entry entry s = elim (reusable (cpu_reference_dedupe_key entry) s.cpu_captures) [
    | some source ↦ dedupe_entry entry source s
    | none ↦
        if is_spent a.max_new_captures s.attempted
        then going (record s { deferred = suc s.deferred })
        else attempt_entry entry s
  ]

  unfoldable pub execute_entry : SweepCommand → Sweep → Progress
  unfolding new_entry skip_entry existing_capture_valid
  execute_entry entry s =
      if a.skip_existing
      then elim (existing_capture_valid validate_v4 entry.output (s.files entry.output)) [
        | halt e ↦ stopped e s
        | got true ↦ skip_entry entry s
        | got false ↦ new_entry entry s
      ]
      else new_entry entry s

  unfoldable pub execute_entries : List SweepCommand → Sweep → Progress
  execute_entries [] s = going s
  execute_entries (entry ∷ entries) s = elim (execute_entry entry s) [
    | stopped e t ↦ stopped e t
    | going t ↦ execute_entries entries t
  ]

  -- The state before the first entry, and the whole loop.
  abbrev pub fresh : World → List String → Sweep
  fresh files capture_paths = record {
    files = files;
    capture_paths = capture_paths;
    skipped = 0;
    attempted = 0;
    completed = 0;
    deduped = 0;
    deferred = 0;
    cpu_captures = [];
  }

  unfoldable pub execute_sweep_entries : List SweepCommand → World → List String → Progress
  unfolding execute_entries
  execute_sweep_entries entries files capture_paths =
      execute_entries entries (fresh files capture_paths)
