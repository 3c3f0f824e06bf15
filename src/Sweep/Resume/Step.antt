-- ===== src/Sweep/Resume/Step.antt =====
-- One entry of a sweep on a machine whose benchmarks succeed.
pub mod Files
use rns.Prelude.{
  ℕ, suc, ◌+◌, ◌≤◌, ◌≡◌, refl, subst, ◌∙◌, true, false, ◌⊎◌, some, [], ◌∷◌, ◌++◌, String, eq_iff,
  arith, Bool-cases, inl, inr, All, Option-cases, some_injective, List, and_true,
}
use rns.Json.{Fields, obj}
use rns.Check.{Check}
use rns.Autotune.World.{World, document}
use rns.Autotune.Coverage.{texts_eq}
use rns.Autotune.Grouped.Rows.{texts_eq-eq}
use rns.Sweep.Capture.{write_text, got, write_file, copy_capture, existing_capture_valid}
use rns.Sweep.Dedupe.{
  SweepCommand, Completed, DedupeKey, cpu_reference_dedupe_key, reusable, completed_path, complete,
  key_eq,
}
use rns.Sweep.Run.{
  Machine, success, Arguments, Sweep, going, run_command, record_capture, skip_entry, dedupe_entry,
  attempt_entry, new_entry, execute_entry, is_spent,
}
use rns.Sweep.Resume.Step.Files.{
  Suits, IsSuited, IsHealthy, existing-IsSuited, Captured, annotate-Captured,
}

module _ (validate_v4 : Fields → Check (Unit {0})) (planned : SweepCommand → Type 0) (m : Machine)
    (healthy : IsHealthy validate_v4 planned m) where
  -- A step that leaves an accepted capture at the entry's output, with at most `new` new attempts.
  pub record Advanced (new : ℕ) (entry : SweepCommand) (s t : Sweep) : Type 0 where
    pub files : Captured validate_v4 planned entry s.files t.files
    pub attempts : t.attempted ≤ s.attempted + new
    pub same_deferred : t.deferred ≡ s.deferred
    pub cpu :
        (t.cpu_captures ≡ s.cpu_captures)
        ⊎ (t.cpu_captures ≡ complete (cpu_reference_dedupe_key entry) entry.output s.cpu_captures)

  -- A step that leaves the entry for later.
  pub record Deferred (s t : Sweep) : Type 0 where
    pub same_files : t.files ≡ s.files
    pub same_attempts : t.attempted ≡ s.attempted
    pub one_deferred : t.deferred ≡ suc s.deferred
    pub same_cpu : t.cpu_captures ≡ s.cpu_captures

  module _ (a : Arguments) (entry : SweepCommand) (s : Sweep) (listed : planned entry) where
    skip-Advanced :
        IsSuited validate_v4 planned entry.command (s.files entry.output)
        → (t : Sweep) × (skip_entry validate_v4 m a entry s ≡ going t) × Advanced 0 entry s t
    unfolding skip_entry record_capture
    skip-Advanced h =
        let (after, annotated, captured) =
          annotate-Captured validate_v4 planned m.disk entry s.files listed
            (healthy.writes entry listed) h in
        (
          record s {
            files = after;
            capture_paths = s.capture_paths ++ entry.output ∷ [];
            skipped = suc s.skipped;
            cpu_captures = complete (cpu_reference_dedupe_key entry) entry.output s.cpu_captures;
          },
          rw annotated,
          record { files = captured; attempts = omega arith; same_deferred = refl; cpu = inr refl },
        )

    -- A write before the annotation.
    written-Captured :
        (d : Fields) (after : World)
        → Captured validate_v4 planned entry
            (write_file entry.output (document (obj d)) s.files)
            after
        → Captured validate_v4 planned entry s.files after
    unfolding write_file
    written-Captured d after c = record {
      captured = c.captured;
      elsewhere = λ p other. c.elsewhere p other ∙ rw other;
    }

    written-IsSuited :
        (d : Fields)
        → Suits validate_v4 planned entry.command d
        → IsSuited validate_v4 planned entry.command
            (write_file entry.output (document (obj d)) s.files entry.output)
    unfolding write_file
    written-IsSuited d h = (d, rw ((eq_iff entry.output entry.output).1 refl), h)

    copied :
        (source : String) (d : Fields)
        → s.files source ≡ document (obj d)
        → copy_capture m.disk source entry.output s.files
          ≡ got (write_file entry.output (document (obj d)) s.files)
    unfolding copy_capture write_text
    copied source d e =
        rw (e, healthy.makes_parent entry listed, healthy.writes entry listed, copy_capture)

    ran :
        (d : Fields)
        → m.process s.attempted entry ≡ success (document (obj d))
        → run_command m s.attempted entry s.files
          ≡ got (true, write_file entry.output (document (obj d)) s.files)
    unfolding run_command write_text
    ran d e = rw (e, healthy.makes_parent entry listed, healthy.writes entry listed, run_command)

    dedupe-Advanced :
        (source : String)
        → IsSuited validate_v4 planned entry.command (s.files source)
        → (t : Sweep) × (dedupe_entry validate_v4 m a entry source s ≡ going t)
          × Advanced 0 entry s t
    unfolding dedupe_entry record_capture
    dedupe-Advanced source (d, e, h) =
        let files = write_file entry.output (document (obj d)) s.files in
        let (after, annotated, captured) =
          annotate-Captured validate_v4 planned m.disk entry files listed
            (healthy.writes entry listed) (written-IsSuited d h) in
        (
          record s {
            files = after;
            capture_paths = s.capture_paths ++ entry.output ∷ [];
            deduped = suc s.deduped;
          },
          rw (copied source d e, dedupe_entry) (rw annotated),
          record {
            files = written-Captured d after captured;
            attempts = omega arith;
            same_deferred = refl;
            cpu = inl refl;
          },
        )

    attempt-Advanced :
        (t : Sweep) × (attempt_entry validate_v4 m a entry s ≡ going t) × Advanced 1 entry s t
    unfolding attempt_entry record_capture
    attempt-Advanced =
        let (d, succeeds, h) = healthy.succeeds s.attempted entry listed in
        let files = write_file entry.output (document (obj d)) s.files in
        let (after, annotated, captured) =
          annotate-Captured validate_v4 planned m.disk entry files listed
            (healthy.writes entry listed) (written-IsSuited d h) in
        (
          record s {
            files = after;
            attempted = suc s.attempted;
            capture_paths = s.capture_paths ++ entry.output ∷ [];
            completed = suc s.completed;
            cpu_captures = complete (cpu_reference_dedupe_key entry) entry.output s.cpu_captures;
          },
          rw (ran d succeeds, attempt_entry) (rw annotated),
          record {
            files = written-Captured d after captured;
            attempts = omega arith;
            same_deferred = refl;
            cpu = inr refl;
          },
        )

-- Every completed CPU capture has the property, with the command of its key and its path.
abbrev pub CpuPaths : (List String → String → Type 0) → Completed → Type 0
CpuPaths P c = All (λ (kp : DedupeKey × String). P kp.0.0 kp.1) c

key_eq-command : (j k : DedupeKey) → key_eq j k ≡ true → j.0 ≡ k.0
unfolding key_eq
key_eq-command j k h = texts_eq-eq j.0 k.0 (and_true (texts_eq j.0 k.0) _ h).0

-- The key of an entry names its command.
pub dedupe_key-command :
    (entry : SweepCommand) (k : DedupeKey)
    → cpu_reference_dedupe_key entry ≡ some k
    → k.0 ≡ entry.command
unfolding cpu_reference_dedupe_key
dedupe_key-command entry k h = ground arith

pub reusable-CpuPaths :
    (P : List String → String → Type 0) (k : DedupeKey) (c : Completed) (path : String)
    → CpuPaths P c
    → completed_path k c ≡ some path
    → P k.0 path
unfolding completed_path
reusable-CpuPaths P k [] path h e = absurd (cc e)
reusable-CpuPaths P k ((j, p) ∷ c) path (first, h) e = elim (Bool-cases (key_eq j k)) [
  | inl same ↦
      subst (λ q. P k.0 q) (some_injective p path (rw same at e))
        (subst (λ command. P command p) (key_eq-command j k same) first)
  | inr other ↦ reusable-CpuPaths P k c path h (rw other at e)
]

-- A capture that is reused runs the command of the entry.
reused :
    (P : List String → String → Type 0) (entry : SweepCommand) (c : Completed) (path : String)
    → CpuPaths P c
    → reusable (cpu_reference_dedupe_key entry) c ≡ some path
    → P entry.command path
unfolding reusable
reused P entry c path h e = elim (Option-cases (cpu_reference_dedupe_key entry)) [
  | inl none_there ↦ absurd (cc (rw none_there at e))
  | inr (k, key) ↦
      subst (λ command. P command path) (dedupe_key-command entry k key)
        (reusable-CpuPaths P k c path h (rw key at e))
]

module _ (validate_v4 : Fields → Check (Unit {0})) (planned : SweepCommand → Type 0) (m : Machine)
    (healthy : IsHealthy validate_v4 planned m) (a : Arguments) (entry : SweepCommand) (s : Sweep)
    (listed : planned entry) where
  -- Whether the entry is still to be captured.
  abbrev pub IsPending : World → Type 0
  IsPending files = existing_capture_valid validate_v4 entry.output (files entry.output) ≡ got false

  abbrev Progressed : Sweep → Type 0
  Progressed t =
      Advanced validate_v4 planned m healthy 1 entry s t
      ⊎ (Deferred validate_v4 planned m healthy s t
          × (is_spent validate_v4 m a a.max_new_captures s.attempted ≡ true))

  new_entry-Progressed :
      CpuPaths (λ command p. IsSuited validate_v4 planned command (s.files p)) s.cpu_captures
      → (t : Sweep) × (new_entry validate_v4 m a entry s ≡ going t) × Progressed t
  unfolding new_entry
  new_entry-Progressed cpu =
      elim (Option-cases (reusable (cpu_reference_dedupe_key entry) s.cpu_captures)) [
        | inr (source, found) ↦
            let captured =
              reused (λ command p. IsSuited validate_v4 planned command (s.files p)) entry
                s.cpu_captures source cpu found in
            let (t, goes, advanced) =
              dedupe-Advanced validate_v4 planned m healthy a entry s listed source captured in
            (t, rw (found, new_entry) goes, inl (one_more t advanced))
        | inl absent ↦ elim (Bool-cases (is_spent validate_v4 m a a.max_new_captures s.attempted)) [
          | inl spent ↦ (
            record s { deferred = suc s.deferred },
            rw (absent, new_entry) (rw spent),
            inr (
              record {
                same_files = refl;
                same_attempts = refl;
                one_deferred = refl;
                same_cpu = refl;
              },
              spent,
            ),
          )
          | inr left ↦
              let (t, goes, advanced) =
                attempt-Advanced validate_v4 planned m healthy a entry s listed in
              (t, rw (absent, new_entry) (rw left goes), inl advanced)
        ]
      ]
    where
      one_more :
          (t : Sweep)
          → Advanced validate_v4 planned m healthy 0 entry s t
          → Advanced validate_v4 planned m healthy 1 entry s t
      one_more t h = record {
        files = h.files;
        attempts = omega (arith, h.attempts);
        same_deferred = h.same_deferred;
        cpu = h.cpu;
      }

  -- A pending entry is captured now or left for later.
  pub execute_pending :
      a.skip_existing ≡ true
      → CpuPaths (λ command p. IsSuited validate_v4 planned command (s.files p)) s.cpu_captures
      → IsPending s.files
      → (t : Sweep) × (execute_entry validate_v4 m a entry s ≡ going t) × Progressed t
  unfolding execute_entry
  execute_pending skip cpu pending =
      let (t, goes, progressed) = new_entry-Progressed cpu in
      (t, simp (skip, pending) goes, progressed)

  -- A captured entry is skipped.
  pub execute_captured :
      a.skip_existing ≡ true
      → IsSuited validate_v4 planned entry.command (s.files entry.output)
      → (t : Sweep) × (execute_entry validate_v4 m a entry s ≡ going t)
        × Advanced validate_v4 planned m healthy 0 entry s t
  unfolding execute_entry
  execute_captured skip h =
      let (t, goes, advanced) = skip-Advanced validate_v4 planned m healthy a entry s listed h in
      (
        t,
        simp
            (
              skip,
              existing-IsSuited validate_v4 planned entry.output entry.command
                  (s.files entry.output) h,
            )
            goes,
        advanced,
      )
