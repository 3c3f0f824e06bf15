-- ===== src/Autotune/Safety.antt =====
-- When an installation may write, and what it has checked by then.
pub mod Clears
pub mod Valid
use rns.Prelude.{
  ◌≡◌, ◌≢◌, refl, subst, Bool, true, false, List, [], String, str_eq, eq_iff, if◌then◌else◌, map,
  Bool-cases, inl, inr, All, All-map, not-false,
}
use rns.Json.{Fields, str, get_or}
use rns.Json.Laws.{py_eq-str}
use rns.Dict.{Dict}
use rns.Autotune.Result.{Result, ok, fail, Library, refuse_if-ok}
use rns.Autotune.World.{World, read_cache, write_cache, canonical_fields}
use rns.Autotune.Ledger.{read_ledgers}
use rns.Autotune.Install.{
  Plan, Options, Report, check_scopes, gather, install_cache, installed, report_of,
}
use rns.Autotune.Reload.Cache.{read_cache-write_cache}
use rns.Autotune.Safety.Clears.{for_each-ok, IsCleared, check_gates-IsCleared}
use rns.Autotune.Safety.Valid.{gather-Gathered, installed-IsValid}

-- No entry is kept for the review of selectors only.
abbrev pub IsRuntime : Fields → Type 0
IsRuntime entry =
    get_or "cache_scope" (str "runtime_exact_autotune") entry ≡ str "runtime_exact_autotune"

check_scopes-IsRuntime :
    (reviewed : List Fields) → check_scopes false reviewed ≡ ok tt → All IsRuntime reviewed
unfolding check_scopes
check_scopes-IsRuntime reviewed h =
    All-map _ _ reviewed (λ entry checked. py_eq-str _ _ (not-false _ (refuse_if-ok _ _ checked)))
      (for_each-ok reviewed _ h)

-- What has been checked before a file is written.
pub record Permitted (lib : Library) (w : World) (o : Options) : Type 0 where
  pub plan : Plan
  pub gathered : gather lib w o ≡ ok plan
  pub ledgers : Dict Fields
  pub ledgers_read : read_ledgers w o.promotion_ledgers [] ≡ ok ledgers
  pub cleared : All (IsCleared lib o.require_target_validation_gate ledgers) plan.reviewed
  pub runtime : o.allow_selector_review_cache ≡ false → All IsRuntime plan.reviewed

gather-Permitted :
    (lib : Library) (w : World) (o : Options) (p : Plan)
    → gather lib w o ≡ ok p
    → o.dry_run ≡ false
    → Permitted lib w o
gather-Permitted lib w o p h wet =
    let g = gather-Gathered lib w o p h in
    let (ledgers, ledgers_read, cleared) = check_gates-IsCleared lib w o p.reviewed g.gated wet in
    record {
      plan = p;
      gathered = h;
      ledgers = ledgers;
      ledgers_read = ledgers_read;
      cleared = cleared;
      runtime = λ strict.
          check_scopes-IsRuntime p.reviewed
            (subst (λ b. check_scopes b p.reviewed ≡ ok tt) strict g.scoped);
    }

written_file :
    (dry : Bool) (destination path : String) (es : List Fields) (w : World)
    → (if dry then w else write_cache destination es w) path ≢ w path
    → (path ≡ destination) × (dry ≡ false)
unfolding write_cache
written_file true destination path es w differs = absurd (differs refl)
written_file false destination path es w differs = elim (Bool-cases (str_eq path destination)) [
  | inl e ↦ ((eq_iff path destination).0 e, refl)
  | inr e ↦ absurd (differs (rw e))
]

-- A file changes only if it is the destination, the installation is no dry run, and every entry of
-- the sources is cleared: a row of the ledgers has its key, names no blocker, is validated for
-- performance and variance, and for a CDNA target passes the gates of the target. Unless the options
-- allow it, no source entry is then one for review only.
pub install_cache-changes_file :
    (lib : Library) (w : World) (o : Options) (path : String)
    → (install_cache lib w o).1 path ≢ w path
    → (path ≡ o.destination) × (o.dry_run ≡ false) × Permitted lib w o
unfolding install_cache
install_cache-changes_file lib w o path changed = go (gather lib w o) refl changed
  where
    go :
        (g : Result Plan)
        → gather lib w o ≡ g
        → (elim g as (λ _. Result Report × World) [
          | fail e ↦ (fail e, w)
          | ok p ↦ (
            ok (report_of lib o p),
            if o.dry_run then w else write_cache o.destination (installed lib o p) w,
          )
        ]).1
            path
          ≢ w path
        → (path ≡ o.destination) × (o.dry_run ≡ false) × Permitted lib w o
    go (fail e) gathered differs = absurd (differs refl)
    go (ok p) gathered differs =
        let (same, wet) = written_file o.dry_run o.destination path (installed lib o p) w differs in
        (same, wet, gather-Permitted lib w o p gathered wet)

-- An installation that succeeds and is no dry run leaves a cache at the destination that is read
-- back without an error: its entries are the installed ones, in the same order, with the keys of
-- every dict sorted.
pub installed_cache_reloads :
    (lib : Library) (w : World) (o : Options) (p : Plan)
    → gather lib w o ≡ ok p
    → o.dry_run ≡ false
    → read_cache lib (install_cache lib w o).1 o.destination false
      ≡ ok (map canonical_fields (installed lib o p))
unfolding install_cache installed
installed_cache_reloads lib w o p gathered wet =
    rw (gathered, install_cache)
      (rw wet (
        read_cache-write_cache lib w o.destination false (installed lib o p)
          (installed-IsValid lib w o p gathered)))
