-- ===== src/Sweep/Resume/Loop.antt =====
-- A whole sweep on a machine whose benchmarks succeed, and the sweeps that follow it.
pub mod Pending
use rns.Prelude.{
  ℕ, ◌+◌, ◌≤◌, ◌≡◌, refl, ap, sym, subst, ◌∙◌, true, false, ◌⊎◌, Option, none, some, List, [], ◌∷◌,
  String, str_eq, arith, inl, inr, All, All-map,
}
use rns.Json.{Fields}
use rns.Check.{Check}
use rns.Autotune.World.{World}
use rns.Autotune.Order.{mem, Distinct}
use rns.Sweep.Dedupe.{SweepCommand, DedupeKey, cpu_reference_dedupe_key, complete}
use rns.Sweep.Run.{Machine, Arguments, Sweep, going, execute_entry, execute_entries}
use rns.Sweep.Resume.Step.{
  Advanced, Deferred, CpuPaths, dedupe_key-command, execute_pending, execute_captured,
}
use rns.Sweep.Resume.Step.Files.{IsSuited, IsHealthy, existing-IsSuited}
use rns.Sweep.Resume.Loop.Pending.{
  outputs, is_absent, IsAbsent, IsTidy, pending, pending-nil, Agree, IsTidy-Agree, pending-Agree,
  other_path, mem_parts,
}

module _ (validate_v4 : Fields → Check (Unit {0})) (planned : SweepCommand → Type 0) (m : Machine)
    (healthy : IsHealthy validate_v4 planned m) (a : Arguments)
    (skip : a.skip_existing ≡ true) where
  -- What a run over the entries does to the state.
  pub record Ran (entries : List SweepCommand) (s t : Sweep) : Type 0 where
    pub elsewhere : (p : String) → mem p (outputs entries) ≡ false → t.files p ≡ s.files p
    pub tidy : IsTidy validate_v4 planned t.files entries
    pub left_over : pending validate_v4 t.files entries + s.deferred ≤ t.deferred
    pub accounted :
        t.attempted + t.deferred ≤ s.attempted + s.deferred + pending validate_v4 s.files entries

  -- The CPU captures are accepted ones, and at none of the outputs to come.
  abbrev CpuOk : Sweep → List SweepCommand → Type 0
  CpuOk s entries =
      CpuPaths
        (λ command p.
          IsSuited validate_v4 planned command (s.files p) × (mem p (outputs entries) ≡ false))
        s.cpu_captures

  -- One entry, whichever way it goes.
  record Stepped (entry : SweepCommand) (s t : Sweep) : Type 0 where
    elsewhere : (p : String) → str_eq p entry.output ≡ false → t.files p ≡ s.files p
    tidy :
        IsAbsent validate_v4 t.files entry
        ⊎ IsSuited validate_v4 planned entry.command (t.files entry.output)
    left_over : pending validate_v4 t.files (entry ∷ []) + s.deferred ≤ t.deferred
    accounted :
        t.attempted + t.deferred
        ≤ s.attempted + s.deferred + pending validate_v4 s.files (entry ∷ [])
    cpu :
        (t.cpu_captures ≡ s.cpu_captures)
        ⊎ ((t.cpu_captures ≡ complete (cpu_reference_dedupe_key entry) entry.output s.cpu_captures)
            × IsSuited validate_v4 planned entry.command (t.files entry.output))

  pending_captured :
      (entry : SweepCommand) (files : World)
      → IsSuited validate_v4 planned entry.command (files entry.output)
      → pending validate_v4 files (entry ∷ []) ≡ 0
  unfolding pending is_absent
  pending_captured entry files h =
      rw (existing-IsSuited validate_v4 planned entry.output entry.command (files entry.output) h)
        (omega arith)

  pending_absent :
      (entry : SweepCommand) (files : World)
      → IsAbsent validate_v4 files entry
      → pending validate_v4 files (entry ∷ []) ≡ 1
  unfolding pending is_absent
  pending_absent entry files h = rw h (omega arith)

  Advanced-Stepped :
      (new : ℕ) (entry : SweepCommand) (s t : Sweep)
      → new ≤ pending validate_v4 s.files (entry ∷ [])
      → Advanced validate_v4 planned m healthy new entry s t
      → Stepped entry s t
  Advanced-Stepped new entry s t enough h =
      let kept = h.files.captured in
      record {
        elsewhere = h.files.elsewhere;
        tidy = inr kept;
        left_over = omega (arith, pending_captured entry t.files kept, h.same_deferred);
        accounted = omega (arith, h.attempts, h.same_deferred);
        cpu = elim h.cpu [ inl e ↦ inl e | inr e ↦ inr (e, kept) ];
      }

  Deferred-Stepped :
      (entry : SweepCommand) (s t : Sweep)
      → IsAbsent validate_v4 s.files entry
      → Deferred validate_v4 planned m healthy s t
      → Stepped entry s t
  Deferred-Stepped entry s t absent h =
      let absent' : IsAbsent validate_v4 t.files entry = rw (h.same_files) absent in
      record {
        elsewhere = λ p other. ap (λ (w : World). w p) h.same_files;
        tidy = inl absent';
        left_over = omega (arith, pending_absent entry t.files absent', h.one_deferred);
        accounted =
            omega (arith, pending_absent entry s.files absent, h.one_deferred, h.same_attempts);
        cpu = inl h.same_cpu;
      }

  execute_entry-Stepped :
      (entry : SweepCommand) (s : Sweep)
      → planned entry
      → (IsAbsent validate_v4 s.files entry
          ⊎ IsSuited validate_v4 planned entry.command (s.files entry.output))
      → CpuPaths (λ command p. IsSuited validate_v4 planned command (s.files p)) s.cpu_captures
      → (t : Sweep) × (execute_entry validate_v4 m a entry s ≡ going t) × Stepped entry s t
  execute_entry-Stepped entry s listed (inl absent) cpu =
      let (t, goes, progressed) =
        execute_pending validate_v4 planned m healthy a entry s listed skip cpu absent in
      (
        t,
        goes,
        elim progressed [
          | inl h ↦
              Advanced-Stepped 1 entry s t (omega (arith, pending_absent entry s.files absent)) h
          | inr (h, spent) ↦ Deferred-Stepped entry s t absent h
        ],
      )
  execute_entry-Stepped entry s listed (inr captured) cpu =
      let (t, goes, h) =
        execute_captured validate_v4 planned m healthy a entry s listed skip captured in
      (t, goes, Advanced-Stepped 0 entry s t (omega arith) h)

  pending-cons :
      (files : World) (entry : SweepCommand) (entries : List SweepCommand)
      → pending validate_v4 files (entry ∷ entries)
        ≡ pending validate_v4 files (entry ∷ []) + pending validate_v4 files entries
  unfolding pending
  pending-cons files entry entries = omega arith

  -- The state between an entry and those that follow it.
  module _ (entry : SweepCommand) (entries : List SweepCommand) (s t : Sweep)
      (h : Stepped entry s t) (fresh_output : mem entry.output (outputs entries) ≡ false) where
    rest_agrees : Agree validate_v4 s.files t.files entries
    rest_agrees =
        All-map _ _ entries (λ e other. h.elsewhere e.output other)
          (other_path validate_v4 entry.output entries fresh_output)

    rest_CpuOk : CpuOk s (entry ∷ entries) → CpuOk t entries
    unfolding complete
    rest_CpuOk cpu = elim h.cpu [
      | inl same ↦ rw same old
      | inr (new, captured) ↦
          rw new (added (cpu_reference_dedupe_key entry) (dedupe_key-command entry) captured)
    ]
      where
        moved :
            (command : List String) (p : String)
            → IsSuited validate_v4 planned command (s.files p)
              × (mem p (outputs (entry ∷ entries)) ≡ false)
            → IsSuited validate_v4 planned command (t.files p) × (mem p (outputs entries) ≡ false)
        moved command p (captured, out) =
            let (other, rest) = mem_parts p (entry.output) (outputs entries) out in
            (
              subst (IsSuited validate_v4 planned command) (sym (h.elsewhere p other)) captured,
              rest,
            )

        old :
            CpuPaths
              (λ command p.
                IsSuited validate_v4 planned command (t.files p)
                × (mem p (outputs entries) ≡ false))
              s.cpu_captures
        old = All-map _ _ s.cpu_captures (λ kp ok. moved kp.0.0 kp.1 ok) cpu

        added :
            (k : Option DedupeKey)
            → ((j : DedupeKey) → k ≡ some j → j.0 ≡ entry.command)
            → IsSuited validate_v4 planned entry.command (t.files entry.output)
            → CpuPaths
                (λ command p.
                  IsSuited validate_v4 planned command (t.files p)
                  × (mem p (outputs entries) ≡ false))
                (complete k entry.output s.cpu_captures)
        added none command captured = old
        added (some k) command captured = (
          (
            subst (λ c. IsSuited validate_v4 planned c (t.files entry.output))
                (sym (command k refl)) captured,
            fresh_output,
          ),
          old,
        )

    -- The entry and a run over the others.
    joined : (u : Sweep) → Ran entries t u → Ran (entry ∷ entries) s u
    joined u r =
        let same : u.files entry.output ≡ t.files entry.output =
          r.elsewhere entry.output fresh_output in
        let kept : pending validate_v4 u.files (entry ∷ [])
            ≡ pending validate_v4 t.files (entry ∷ []) =
          pending-Agree validate_v4 t.files u.files (entry ∷ []) (same, tt) in
        let between = pending-Agree validate_v4 s.files t.files entries rest_agrees in
        record {
          elsewhere = λ p out.
              let (other, rest) = mem_parts p entry.output (outputs entries) out in
              r.elsewhere p rest ∙ h.elsewhere p other;
          tidy = (
            (IsTidy-Agree validate_v4 planned t.files u.files (entry ∷ []) (same, tt)
                (h.tidy, tt)).0,
            r.tidy,
          );
          left_over =
              omega (arith, pending-cons u.files entry entries, kept, h.left_over, r.left_over);
          accounted =
              omega (arith, pending-cons s.files entry entries, between, h.accounted, r.accounted);
        }

  -- The loop ends, with no exception.
  pub execute_entries-Ran :
      (entries : List SweepCommand) (s : Sweep)
      → All planned entries
      → Distinct (outputs entries)
      → IsTidy validate_v4 planned s.files entries
      → CpuOk s entries
      → (t : Sweep) × (execute_entries validate_v4 m a entries s ≡ going t) × Ran entries s t
  unfolding execute_entries
  execute_entries-Ran [] s listed distinct tidy cpu = (
    s,
    refl,
    record {
      elsewhere = λ p out. refl;
      tidy = tt;
      left_over = omega (arith, pending-nil validate_v4 s.files);
      accounted = omega (arith, pending-nil validate_v4 s.files);
    },
  )
  execute_entries-Ran (entry ∷ entries) s (listed, others) (new, distinct) (first, tidy) cpu =
      let (t, goes, stepped) =
        execute_entry-Stepped entry s listed first
          (All-map _ _ s.cpu_captures (λ kp ok. ok.0) cpu) in
      let (u, goes_on, ran) =
        execute_entries-Ran entries t others distinct
          (IsTidy-Agree validate_v4 planned s.files t.files entries
            (rest_agrees entry entries s t stepped new) tidy)
          (rest_CpuOk entry entries s t stepped new cpu) in
      (u, rw (goes, execute_entries) goes_on, joined entry entries s t stepped new u ran)
