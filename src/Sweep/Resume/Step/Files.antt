-- ===== src/Sweep/Resume/Step/Files.antt =====
-- Accepted captures in files, and the annotation that keeps them.
use rns.Prelude.{
  ℕ, ◌≡◌, refl, true, false, Option, none, some, String, str_eq, eq_iff, List, ◌⊎◌, inl, inr, sym,
  subst, arith,
}
use rns.Prelude.Int.{pos}
use rns.Json.{Value, Fields, empty, field, int, obj, get, has_key}
use rns.Check.{Check}
use rns.Check.Passes.{Passes}
use rns.Schema.Core.{validate_capture_iff}
use rns.Autotune.World.{World, File, document, is_missing}
use rns.Autotune.Entry.{set_field}
use rns.Sweep.Capture.{
  got, load_capture, check_capture, Disk, write_file, write_text, annotate_scenario_metadata,
  existing_capture_valid,
}
use rns.Sweep.Dedupe.{SweepCommand}
use rns.Sweep.Run.{Machine, success}

-- A capture that the validator accepts, by `validate_capture_iff`.
pub record IsAccepted (validate_v4 : Fields → Check (Unit {0})) (d : Fields) : Type 0 where
  pub versioned : has_key "schema_version" d ≡ true
  pub version_four : get "schema_version" d ≡ int (pos 4)
  pub passes : Passes (validate_v4 d)

-- The file holds an accepted capture.
abbrev pub IsCapture : (Fields → Check (Unit {0})) → File → Type 0
IsCapture validate_v4 file = (d : Fields) × (file ≡ document (obj d)) × IsAccepted validate_v4 d

-- The capture with the scenario of an entry, if the entry has one.
abbrev pub with_scenario : Option Fields → Fields → Fields
with_scenario none d = d
with_scenario (some scenario) d = set_field "scenario_metadata" (obj scenario) d

-- A capture that is accepted, also with the scenario of each planned entry that runs the command.
pub record Suits (validate_v4 : Fields → Check (Unit {0})) (planned : SweepCommand → Type 0)
    (command : List String) (d : Fields) : Type 0 where
  pub accepted : IsAccepted validate_v4 d
  pub annotates :
      (entry : SweepCommand)
      → planned entry
      → entry.command ≡ command
      → IsAccepted validate_v4 (with_scenario entry.scenario d)

-- The file holds a capture that suits the command.
abbrev pub IsSuited :
    (Fields → Check (Unit {0})) → (SweepCommand → Type 0) → List String → File → Type 0
IsSuited validate_v4 planned command file =
    (d : Fields) × (file ≡ document (obj d)) × Suits validate_v4 planned command d

-- The output of every planned entry can be written, and its benchmark succeeds with a capture that
-- suits its command.
pub record IsHealthy (validate_v4 : Fields → Check (Unit {0})) (planned : SweepCommand → Type 0)
    (m : Machine) : Type 0 where
  pub makes_parent :
      (entry : SweepCommand) → planned entry → m.disk.makes_parent entry.output ≡ true
  pub writes : (entry : SweepCommand) → planned entry → m.disk.writes entry.output ≡ true
  pub succeeds :
      (n : ℕ) (entry : SweepCommand)
      → planned entry
      → (d : Fields) × (m.process n entry ≡ success (document (obj d)))
        × Suits validate_v4 planned entry.command d

-- The last of two values that are set stays.
set_field_twice :
    (k : String) (v w : Value) (d : Fields) → set_field k v (set_field k w d) ≡ set_field k v d
unfolding set_field
set_field_twice k v w empty = ground (arith, eq_iff k k)
set_field_twice k v w (field j u d) = ground (arith, set_field_twice k v w d, eq_iff j k)

-- A scenario takes the place of the one that was there.
with_scenario_twice :
    (a b : Option Fields) (d : Fields)
    → (with_scenario a (with_scenario b d) ≡ with_scenario a d)
      ⊎ (with_scenario a (with_scenario b d) ≡ with_scenario b d)
with_scenario_twice none b d = inr refl
with_scenario_twice (some s) none d = inl refl
with_scenario_twice (some s) (some t) d =
    inl (set_field_twice "scenario_metadata" (obj s) (obj t) d)

module _ (validate_v4 : Fields → Check (Unit {0})) (planned : SweepCommand → Type 0) where
  with_scenario-Suits :
      (entry : SweepCommand) (d : Fields)
      → planned entry
      → Suits validate_v4 planned entry.command d
      → Suits validate_v4 planned entry.command (with_scenario entry.scenario d)
  with_scenario-Suits entry d listed h = record {
    accepted = h.annotates entry listed refl;
    annotates = λ other there same. elim (with_scenario_twice other.scenario entry.scenario d) [
      | inl e ↦ subst (IsAccepted validate_v4) (sym e) (h.annotates other there same)
      | inr e ↦ subst (IsAccepted validate_v4) (sym e) (h.annotates entry listed refl)
    ];
  }

  check-IsAccepted :
      (path : String) (d : Fields)
      → IsAccepted validate_v4 d
      → check_capture validate_v4 path d ≡ got tt
  unfolding check_capture
  check-IsAccepted path d h = rw (
      (validate_capture_iff d path validate_v4 (pos 4)).1
        (refl, h.versioned, h.version_four, h.passes))

  -- An accepted capture is found.
  pub existing-IsSuited :
      (path : String) (command : List String) (file : File)
      → IsSuited validate_v4 planned command file
      → existing_capture_valid validate_v4 path file ≡ got true
  unfolding existing_capture_valid load_capture is_missing
  existing-IsSuited path command file (d, e, h) = rw e (rw (check-IsAccepted path d h.accepted))

  -- The files differ at the entry's output only, which holds a capture that suits its command.
  pub record Captured (entry : SweepCommand) (before after : World) : Type 0 where
    pub captured : IsSuited validate_v4 planned entry.command (after entry.output)
    pub elsewhere : (p : String) → str_eq p entry.output ≡ false → after p ≡ before p

  pub annotate-Captured :
      (disk : Disk) (entry : SweepCommand) (files : World)
      → planned entry
      → disk.writes entry.output ≡ true
      → IsSuited validate_v4 planned entry.command (files entry.output)
      → (after : World) × (annotate_scenario_metadata validate_v4 disk entry.output entry.scenario
            files
          ≡ got after)
        × Captured entry files after
  unfolding annotate_scenario_metadata load_capture write_text write_file
  annotate-Captured disk entry files listed writable (d, e, h) = go entry.scenario refl
    where
      go :
          (scenario : Option Fields)
          → entry.scenario ≡ scenario
          → (after : World) × (annotate_scenario_metadata validate_v4 disk entry.output scenario
                files
              ≡ got after)
            × Captured entry files after
      go none same = (files, refl, record { captured = (d, e, h); elsewhere = λ p other. refl })
      go (some scenario) same =
          let d' = set_field "scenario_metadata" (obj scenario) d in
          let h' : Suits validate_v4 planned entry.command d' =
            subst
              (λ (s : Option Fields). Suits validate_v4 planned entry.command (with_scenario s d))
              same (with_scenario-Suits entry d listed h) in
          (
            write_file entry.output (document (obj d')) files,
            rw e (rw (check-IsAccepted entry.output d' h'.accepted, writable)),
            record {
              captured = (d', rw ((eq_iff entry.output entry.output).1 refl), h');
              elsewhere = λ p other. rw other;
            },
          )
