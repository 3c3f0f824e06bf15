-- ===== src/Sweep/Resume/Loop/Pending.antt =====
-- The entries of a sweep that are still to be captured.
use rns.Prelude.{
  ℕ, ◌+◌, ◌≡◌, refl, Bool, true, false, ◌⊎◌, List, [], ◌∷◌, String, str_eq, eq_iff, arith,
  if◌then◌else◌, map, All, or_false,
}
use rns.Json.{Fields}
use rns.Check.{Check}
use rns.Autotune.World.{World}
use rns.Autotune.Order.{mem}
use rns.Sweep.Capture.{Attempt, got, existing_capture_valid}
use rns.Sweep.Dedupe.{SweepCommand}
use rns.Sweep.Resume.Step.Files.{IsSuited}

abbrev pub outputs : List SweepCommand → List String
outputs entries = map (λ (e : SweepCommand). e.output) entries

unfoldable pub is_absent : Attempt Bool → Bool
is_absent (got false) = true
is_absent _ = false

module _ (validate_v4 : Fields → Check (Unit {0})) where
  abbrev pub IsAbsent : World → SweepCommand → Type 0
  IsAbsent files e = existing_capture_valid validate_v4 e.output (files e.output) ≡ got false

  -- Each output holds a capture that suits its command, or something that `existing_capture_valid`
  -- refuses.
  abbrev pub IsTidy : (SweepCommand → Type 0) → World → List SweepCommand → Type 0
  IsTidy planned files entries =
      All
        (λ (e : SweepCommand).
          IsAbsent files e ⊎ IsSuited validate_v4 planned e.command (files e.output))
        entries

  -- How many entries are still to be captured.
  unfoldable pub pending : World → List SweepCommand → ℕ
  unfolding is_absent
  pending files [] = 0
  pending files (e ∷ entries) =
      (if is_absent (existing_capture_valid validate_v4 e.output (files e.output)) then 1 else 0)
      + pending files entries

  pub pending-nil : (files : World) → pending files [] ≡ 0
  unfolding pending
  pending-nil files = refl

  -- Two states of the files have the same outputs.
  abbrev pub Agree : World → World → List SweepCommand → Type 0
  Agree f g entries = All (λ (e : SweepCommand). g e.output ≡ f e.output) entries

  pub IsTidy-Agree :
      (planned : SweepCommand → Type 0) (f g : World) (entries : List SweepCommand)
      → Agree f g entries
      → IsTidy planned f entries
      → IsTidy planned g entries
  IsTidy-Agree planned f g [] same h = tt
  IsTidy-Agree planned f g (e ∷ entries) (first, same) (h, hs) =
      (rw first h, IsTidy-Agree planned f g entries same hs)

  pub pending-Agree :
      (f g : World) (entries : List SweepCommand)
      → Agree f g entries
      → pending g entries ≡ pending f entries
  unfolding pending
  pending-Agree f g [] same = refl
  pending-Agree f g (e ∷ entries) (first, same) = rw (first, pending-Agree f g entries same)

  -- A path that is no output is different from each output.
  pub other_path :
      (p : String) (entries : List SweepCommand)
      → mem p (outputs entries) ≡ false
      → All (λ (e : SweepCommand). str_eq e.output p ≡ false) entries
  unfolding mem
  other_path p [] h = tt
  other_path p (e ∷ entries) h =
      let (first, rest) = or_false (str_eq e.output p) (mem p (outputs entries)) h in
      (first, other_path p entries rest)

pub mem_parts :
    (p q : String) (ps : List String)
    → mem p (q ∷ ps) ≡ false
    → (str_eq p q ≡ false) × (mem p ps ≡ false)
unfolding mem
mem_parts p q ps h =
    let (first, rest) = or_false (str_eq q p) (mem p ps) h in
    (ground (arith, eq_iff p q, eq_iff q p), rest)
