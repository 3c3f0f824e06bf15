-- ===== src/Sweep/Resume/Finish.antt =====
-- Sweeps that are run again and again capture everything.
use rns.Prelude.{
  ℕ, zero, suc, ◌+◌, ◌*◌, ◌≤◌, ◌≡◌, refl, subst, true, ◌⊎◌, Option, none, some, List, [], ◌∷◌,
  arith, inl, inr, All, dec_lt,
}
use rns.Json.{Fields}
use rns.Check.{Check}
use rns.Autotune.World.{World}
use rns.Autotune.Order.{Distinct}
use rns.Sweep.Dedupe.{SweepCommand}
use rns.Sweep.Run.{Machine, Arguments, Sweep, going, stopped, fresh, execute_sweep_entries}
use rns.Sweep.Counts.{execute_sweep_entries-IsCounted}
use rns.Sweep.Counts.Entry.{WithinBudget}
use rns.Sweep.Resume.Step.Files.{IsCapture, IsHealthy}
use rns.Sweep.Resume.Loop.{execute_entries-Ran}
use rns.Sweep.Resume.Loop.Pending.{outputs, pending, is_absent, IsTidy, IsAbsent}

module _ (validate_v4 : Fields → Check (Unit {0})) (m : Machine) (a : Arguments)
    (entries : List SweepCommand) where
  -- The sweep, `rounds` times, each on the files that the last one left.
  pub sweep_again : ℕ → World → Option World
  sweep_again zero files = some files
  sweep_again (suc rounds) files = elim (execute_sweep_entries validate_v4 m a entries files []) [
    | going t ↦ sweep_again rounds t.files
    | stopped e t ↦ none
  ]

  -- Every entry has an accepted capture.
  abbrev pub IsComplete : World → Type 0
  IsComplete files = All (λ (e : SweepCommand). IsCapture validate_v4 (files e.output)) entries

pending-IsComplete :
    (validate_v4 : Fields → Check (Unit {0})) (planned : SweepCommand → Type 0) (files : World)
    (entries : List SweepCommand)
    → IsTidy validate_v4 planned files entries
    → pending validate_v4 files entries ≡ 0
    → All (λ (e : SweepCommand). IsCapture validate_v4 (files e.output)) entries
unfolding pending is_absent
pending-IsComplete validate_v4 planned files [] tidy h = tt
pending-IsComplete validate_v4 planned files (e ∷ entries) (inl absent, tidy) h =
    absurd (one_left absent h)
  where
    one_left : IsAbsent validate_v4 files e → pending validate_v4 files (e ∷ entries) ≡ 0 → ⊥
    one_left missing none_left = omega (arith, rw missing at none_left)
pending-IsComplete validate_v4 planned files (e ∷ entries) (inr (d, e', h'), tidy) h =
    ((d, e', h'.accepted), pending-IsComplete validate_v4 planned files entries tidy (omega arith))

-- The entry is one of the entries.
abbrev pub IsOneOf : List SweepCommand → SweepCommand → Type 0
IsOneOf [] e = ⊥
IsOneOf (first ∷ entries) e = (e ≡ first) ⊎ IsOneOf entries e

all_planned :
    (planned : SweepCommand → Type 0) (entries : List SweepCommand)
    → ((e : SweepCommand) → IsOneOf entries e → planned e)
    → All planned entries
all_planned planned [] h = tt
all_planned planned (e ∷ entries) h =
    (h e (inl refl), all_planned planned entries (λ e' i. h e' (inr i)))

module _ (validate_v4 : Fields → Check (Unit {0})) (m : Machine) (a : Arguments)
    (entries : List SweepCommand) (healthy : IsHealthy validate_v4 (IsOneOf entries) m) where
  -- One sweep captures all that is pending, or as much as its budget allows.
  sweep_progress :
      (limit : ℕ) (files : World)
      → a.skip_existing ≡ true
      → a.max_new_captures ≡ some limit
      → Distinct (outputs entries)
      → IsTidy validate_v4 (IsOneOf entries) files entries
      → (t : Sweep) × (execute_sweep_entries validate_v4 m a entries files [] ≡ going t)
        × IsTidy validate_v4 (IsOneOf entries) t.files entries
        × ((pending validate_v4 t.files entries ≡ 0)
            ⊎ (pending validate_v4 t.files entries + limit ≤ pending validate_v4 files entries))
  unfolding execute_sweep_entries
  sweep_progress limit files skip budget distinct tidy =
      let start = fresh validate_v4 m a files [] in
      let (t, goes, ran) =
        execute_entries-Ran validate_v4 (IsOneOf entries) m healthy a skip entries start
          (all_planned (IsOneOf entries) entries (λ e i. i)) distinct tidy tt in
      let counted = execute_sweep_entries-IsCounted validate_v4 m a entries files [] t goes in
      (
        t,
        goes,
        ran.tidy,
        used t (subst (λ b. WithinBudget b t.attempted t.deferred) budget counted.budgeted)
            ran.left_over ran.accounted,
      )
    where
      used :
          (t : Sweep)
          → WithinBudget (some limit) t.attempted t.deferred
          → pending validate_v4 t.files entries + 0 ≤ t.deferred
          → t.attempted + t.deferred ≤ 0 + 0 + pending validate_v4 files entries
          → (pending validate_v4 t.files entries ≡ 0)
            ⊎ (pending validate_v4 t.files entries + limit ≤ pending validate_v4 files entries)
      used t (within, spent) left accounted = elim (dec_lt 0 t.deferred) [
        | yes some_deferred ↦ inr (omega (arith, spent some_deferred))
        | no none_deferred ↦ inl (omega arith)
      ]

  -- Where existing captures are skipped, the outputs of the entries are distinct files that can be
  -- written, and each benchmark succeeds with a capture that is accepted, also with the scenario of
  -- each entry of the same command; and where each output holds such a capture or nothing that counts
  -- as one: there `rounds` sweeps of at most `limit` new captures each end without an exception and
  -- leave an accepted capture at every output, if the pending entries are at most `rounds * limit`.
  pub sweep_again-IsComplete :
      (limit rounds : ℕ) (files : World)
      → a.skip_existing ≡ true
      → a.max_new_captures ≡ some limit
      → Distinct (outputs entries)
      → IsTidy validate_v4 (IsOneOf entries) files entries
      → pending validate_v4 files entries ≤ rounds * limit
      → (after : World) × (sweep_again validate_v4 m a entries rounds files ≡ some after)
        × IsComplete validate_v4 m a entries after
  unfolding sweep_again
  sweep_again-IsComplete limit zero files skip budget distinct tidy enough = (
    files,
    refl,
    pending-IsComplete validate_v4 (IsOneOf entries) files entries tidy (omega arith),
  )
  sweep_again-IsComplete limit (suc rounds) files skip budget distinct tidy enough =
      let (t, goes, tidy', progress) = sweep_progress limit files skip budget distinct tidy in
      let (after, rest, complete) =
        sweep_again-IsComplete limit rounds t.files skip budget distinct tidy' (elim progress [
          | inl done ↦ omega (arith)
          | inr step ↦ fewer (pending validate_v4 t.files entries) step
        ]) in
      (after, rw (goes, sweep_again) rest, complete)
    where
      fewer : (n : ℕ) → n + limit ≤ pending validate_v4 files entries → n ≤ rounds * limit
      fewer n step = omega arith
