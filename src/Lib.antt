-- ===== src/Lib.antt =====
-- The tools of RNS8 that decide what may be claimed and used: the search for ladders of moduli, the
-- validator of benchmark captures, the loop of a benchmark sweep and the installer of autotune caches,
-- modelled as executable functions and proved to do what they are for. RNS8 stores integers by their residues for a ladder of pairwise coprime moduli of a byte. Paths
-- are from the root of the repository.
--
-- Parts. The search (tools/modulus_set_search.py) reads no state: it computes a report for each
-- candidate ladder. The validator (tools/benchmark_schema) is a class whose methods read one capture, a
-- JSON object, and append messages to a list. core.py checks the version and calls the validation of
-- version 4; that calls validate_semantic_contract in semantic_contracts.py, which hands a context to
-- the validator of one contract; all of them use the predicates of validator_predicates.py. The
-- installer (tools/install_autotune_cache.py) reads caches and promotion ledgers, merges the entries by
-- key and writes one cache; its state is the files, a function from paths to what reading them gives.
-- The sweep (tools/benchmark_sweep_lib/execution.py) runs a benchmark for each entry of a plan and
-- validates captures with validate_capture; its state is the files, the counters and the captures that
-- other entries may copy.
--
--   Prelude          the names shared by all files: Boolean tests, lists and integers on native numbers
--   Python           the parts of Python's library that the tools use: math.gcd, pow(x, -1, m),
--                    int.bit_length, str of an integer
--   Trial            the loop of trial division that two primality tests share
--   Ladder           tools/modulus_set_search.py. Moduli: the tests on a list of moduli. Prefixes: the
--                    prefixes, required ranges and mixed-radix constants. Search: candidates and the
--                    report. The other files prove what these give.
--   Json, Outcome    the values of a capture with Python's == and in, and expressions that may raise
--   Check            a validator method: messages that are appended, and an exception that stops it.
--                    Check/Passes: what a method that appends nothing has checked.
--   Schema/Kernels   tools/benchmark_schema/core_shared.py: constants and tests
--   Schema/Core      core.py: validate, validation_errors, validate_capture
--   Schema/Mode, Schema/Predicates, Schema/Chain
--                    validator_predicates.py and the residue chains of validator_schedule.py
--   Schema/Contract, Schema/Context
--                    semantic_contracts.py: the common rules and the choice of a contract
--   Schema/Wrap64, Schema/Finite, Schema/ExactWide
--                    semantic_wrap64.py, semantic_finite.py, semantic_exact_wide.py
--   Schema/Bounded   semantic_bounded.py, which stands for the bounded contract that Schema/Contract takes
--                    as an argument
--   Schema/Schedule, Schema/TileBounds, Schema/Adaptive
--                    a part of _validate_schedule_metadata, _validate_v4_tile_bounds and
--                    _validate_v4_adaptive_schedule of validator_schedule.py
--   Schema/Output    output_policies.py
--   Schema/Events    gpu_events.py
--   Dict             a Python dict keyed by texts
--   Autotune         tools/install_autotune_cache.py. Result: results and the functions of Python's
--                    library that are parameters. Split, Fields: the key and the readers of fields.
--                    Registry: targets, kernels and epilogues. Entry: validate_entry. World: files,
--                    read_cache, write_cache. Ledger: the promotion gate. Coverage: the summary.
--                    Install: install_cache. The other files prove what these give.
--   Sweep            execution.py. Capture: captures in files, with load_capture of core.py. Dedupe: the key
--                    of CPU captures. Run: run_command and execute_sweep_entries. Counts and Resume prove
--                    what they give.
--
-- A function keeps the name that it has in Python. A method that is long is a chain of parts, named
-- check_..., in the order of the source. A message is kept without the path of the capture, which
-- validation_errors puts in front. Texts of kernels, modes and messages are those of the source.
--
-- Loops. Loops over lists are recursion on the list. Trial division and the loop of transform lengths
-- run on fuel, the number that is tested and the limit of the lengths; that this is enough is part of
-- the equivalences with primality and of the theorem on the lengths. The greatest common divisor and
-- the decimal digits are recursions on a decreasing number.
--
-- Not modelled. _validate_v4 is an argument of the definitions that call it, and the bounded
-- contract one of the choice of a contract, which Schema/Bounded fills. Reading captures, writing
-- reports and the command lines are input and output. A report is the list of its candidates,
-- without the constant fields of its header. The search for a label by regular expressions, the
-- checks of timings and of the other metadata, the planning and review of sweeps, the evidence
-- database, the report tools and the C++ and HIP library are left out. Of the installer, str.lower,
-- int of a text, SHA-256, json.dumps for fingerprints and str of a JSON value are parameters
-- (Library), and int of a text one of the bounded contract too; a written cache is the document
-- that json.load reads from it, with the keys of every dict in order; that it is written to a
-- temporary file first, and the errors of writing it, which leave the destination as it was, are
-- left out, as are the choice of the default path and the command line. A process of a sweep is
-- what it comes to, given by a machine: that it cannot be started, the record of its failure, or
-- the file that it prints. A sweep that fails to make a directory or to write a file ends with an
-- OSError, by a disk that says for which paths; a file that was cut short is not told from one that
-- was left. Moduli are natural numbers; parse_moduli admits only moduli above 1, so the remainder
-- by zero, which stops Python, does not arise. A JSON number with a point is an exact dyadic
-- fraction, an infinity or not a number.
pub mod Prelude
pub mod Python
pub mod Trial
pub mod Ladder
pub mod Json
pub mod Outcome
pub mod Check
pub mod Dict
pub mod Schema
pub mod Autotune
pub mod Sweep
