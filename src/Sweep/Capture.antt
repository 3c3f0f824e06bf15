-- ===== src/Sweep/Capture.antt =====
-- Captures in files: `load_capture` of benchmark_schema/core.py, `existing_capture_valid`,
-- `annotate_scenario_metadata` and `_copy_capture`.
use rns.Prelude.{
  Bool, true, false, Option, none, some, List, [], ◌∷◌, String, str_eq, ◌<>◌, if◌then◌else◌,
}
use rns.Json.{Fields, obj}
use rns.Outcome.{Exception}
use rns.Check.{Check}
use rns.Schema.Core.{Verdict, accepted, rejected, failed, validate_capture}
use rns.Autotune.World.{
  World, File, missing, unreadable, undecodable, malformed, document, is_missing,
}
use rns.Autotune.Entry.{set_field}

-- What ends a sweep: a BenchmarkSchemaError with its message, a UnicodeDecodeError, an exception of
-- the operating system, or one of a method of the validator.
pub data Halt : Type 0 where
  schema_error : String → Halt
  decode_error os_error : Halt
  method_error : Exception → Halt

pub data Attempt (A : Type 0) : Type 0 where
  got : A → Attempt A
  halt : Halt → Attempt A

infixl 5 ◌>>=◌
abbrev pub ◌>>=◌ : {A B : Type 0} → Attempt A → (A → Attempt B) → Attempt B
got a >>= f = f a
halt e >>= f = halt e

read_failure : String → String → Attempt Fields
read_failure path text = halt (schema_error (path <> ": failed to read benchmark JSON: " <> text))

unfoldable pub load_capture : String → File → Attempt Fields
unfolding read_failure
load_capture path (missing text) = read_failure path text
load_capture path (unreadable text) = read_failure path text
load_capture path (undecodable text) = halt decode_error
load_capture path (malformed text) = read_failure path text
load_capture path (document (obj d)) = got d
load_capture path (document _) =
    halt (schema_error (path <> ": benchmark JSON root must be an object"))

-- `"\n".join(errors)`
join_lines : List String → String
join_lines [] = ""
join_lines (e ∷ []) = e
join_lines (e ∷ f ∷ es) = e <> "\n" <> join_lines (f ∷ es)

-- The validator as it leaves a capture: it raises or lets the capture pass.
abbrev verdict_of : Verdict → Attempt (Unit {0})
unfolding join_lines
verdict_of (accepted version) = got tt
verdict_of (rejected es) = halt (schema_error (join_lines es))
verdict_of (failed e) = halt (method_error e)

-- The files after a write that succeeds.
unfoldable pub write_file : String → File → World → World
write_file path file files p = if str_eq p path then file else files p

-- `source.read_text(encoding="utf-8")`, which the parser does not see.
abbrev read_text : File → Attempt File
read_text (missing text) = halt os_error
read_text (unreadable text) = halt os_error
read_text (undecodable text) = halt decode_error
read_text (malformed text) = got (malformed text)
read_text (document v) = got (document v)

-- Which parents `output.parent.mkdir(…)` leaves as directories, and which paths can be written.
pub record Disk : Type 0 where
  pub makes_parent : String → Bool
  pub writes : String → Bool

-- `path.write_text(…)`, or its OSError. A file that is cut short by an error is not distinguished
-- from one that is left as it was.
unfoldable pub write_text : Disk → String → File → World → Attempt World
unfolding write_file
write_text disk path file files =
    if disk.writes path then got (write_file path file files) else halt os_error

unfoldable pub copy_capture : Disk → String → String → World → Attempt World
unfolding write_text
copy_capture disk source destination files =
    if disk.makes_parent destination
    then (read_text (files source) >>= λ file. write_text disk destination file files)
    else halt os_error

module _ (validate_v4 : Fields → Check (Unit {0})) where
  unfoldable pub check_capture : String → Fields → Attempt (Unit {0})
  unfolding verdict_of validate_capture
  check_capture path d = verdict_of (validate_capture d path validate_v4)

  -- `except (BenchmarkSchemaError, OSError, json.JSONDecodeError): return False`
  abbrev caught : Attempt (Unit {0}) → Attempt Bool
  caught (got u) = got true
  caught (halt (schema_error message)) = got false
  caught (halt os_error) = got false
  caught (halt decode_error) = halt decode_error
  caught (halt (method_error e)) = halt (method_error e)

  unfoldable pub existing_capture_valid : String → File → Attempt Bool
  unfolding load_capture check_capture
  existing_capture_valid path file =
      if is_missing file
      then got false
      else caught (load_capture path file >>= λ d. check_capture path d)

  unfoldable pub annotate_scenario_metadata : Disk → String → Option Fields → World → Attempt World
  unfolding load_capture check_capture write_text set_field
  annotate_scenario_metadata disk path none files = got files
  annotate_scenario_metadata disk path (some scenario) files = do
    d ← load_capture path (files path)
    let annotated = set_field "scenario_metadata" (obj scenario) d
    _ ← check_capture path annotated
    write_text disk path (document (obj annotated)) files
