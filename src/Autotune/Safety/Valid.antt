-- ===== src/Autotune/Safety/Valid.antt =====
-- The entries that are installed have all been accepted.
use rns.Prelude.{
  ◌≡◌, subst, sym, ◌∙◌, Bool, true, false, some, List, [], ◌∷◌, ◌++◌, String, str_eq, if◌then◌else◌,
  Bool-cases, inl, inr, All, All-append, Option-cases, some_injective,
}
use rns.Json.{Fields}
use rns.Dict.{Dict, lookup, insert, lookup-insert}
use rns.Autotune.Result.{ok, Library, >>=-ok, >>-ok, ok_injective, relabel-ok}
use rns.Autotune.World.{World, read_cache}
use rns.Autotune.Ledger.{entry_key}
use rns.Autotune.Install.{
  Plan, Options, existing_entries_of, read_sources, check_scopes, check_gates, gather, installed,
  pick, ordered, add_entries,
}
use rns.Autotune.Merge.{merged_of-add_entries}
use rns.Autotune.Reload.Cache.{IsValid, read_cache-IsValid}

-- What `gather` has read and checked.
pub record Gathered (lib : Library) (w : World) (o : Options) (p : Plan) : Type 0 where
  pub existing_read : existing_entries_of lib w o ≡ ok p.existing
  pub sources_read : read_sources lib w o.sources [] [] ≡ ok (p.reviewed, p.source_by_key)
  pub scoped : check_scopes o.allow_selector_review_cache p.reviewed ≡ ok tt
  pub gated : check_gates lib w o p.reviewed ≡ ok tt

pub gather-Gathered :
    (lib : Library) (w : World) (o : Options) (p : Plan)
    → gather lib w o ≡ ok p
    → Gathered lib w o p
unfolding gather
gather-Gathered lib w o p h =
    let (existing, existing_read, h1) = >>=-ok (existing_entries_of lib w o) _ p h in
    let (sources, sources_read, h2) = >>=-ok (read_sources lib w o.sources [] []) _ p h1 in
    let (scoped, h3) = >>-ok (check_scopes o.allow_selector_review_cache sources.0) _ p h2 in
    let (gated, h4) = >>-ok (check_gates lib w o sources.0) _ p h3 in
    rw
      (← ok_injective
        (record { existing = existing; reviewed = sources.0; source_by_key = sources.1 }) p h4)
      (record {
        existing_read = existing_read;
        sources_read = sources_read;
        scoped = scoped;
        gated = gated;
      })

-- The installed entries have all been accepted, whether they come from the old cache or from a source.
existing-IsValid :
    (lib : Library) (w : World) (o : Options) (es : List Fields)
    → existing_entries_of lib w o ≡ ok es
    → All (IsValid lib) es
unfolding existing_entries_of
existing-IsValid lib w o es h = elim (Bool-cases o.replace_existing) [
  | inl e ↦ rw (← ok_injective [] es (rw e at h)) tt
  | inr e ↦ read_cache-IsValid lib w o.destination true es (relabel-ok _ _ es (rw e at h))
]

sources-IsValid :
    (lib : Library) (w : World) (sources : List String) (reviewed : List Fields)
    (by_key : Dict String) (r : List Fields × Dict String)
    → read_sources lib w sources reviewed by_key ≡ ok r
    → All (IsValid lib) reviewed
    → All (IsValid lib) r.0
unfolding read_sources
sources-IsValid lib w [] reviewed by_key r h valid =
    subst (λ (q : List Fields × Dict String). All (IsValid lib) q.0)
      (ok_injective (reviewed, by_key) r h) valid
sources-IsValid lib w (source ∷ sources) reviewed by_key r h valid =
    let (es, read, h1) = >>=-ok (read_cache lib w source false) _ r h in
    sources-IsValid lib w sources (reviewed ++ es) _ r h1
      (All-append (IsValid lib) reviewed es valid (read_cache-IsValid lib w source false es read))

-- Every entry of a dict satisfies `P`.
abbrev Values : (Fields → Type 0) → Dict Fields → Type 0
Values P d = (k : String) (e : Fields) → lookup k d ≡ some e → P e

add_entries-Values :
    (P : Fields → Type 0) (d : Dict Fields) (es : List Fields)
    → Values P d
    → All P es
    → Values P (add_entries d es)
unfolding add_entries
add_entries-Values P d [] h all = h
add_entries-Values P d (e ∷ es) h (first, all) =
    add_entries-Values P (insert (entry_key e) e d) es
      (λ k e' found.
        go k e' (str_eq (entry_key e) k) (sym (lookup-insert (entry_key e) k e d) ∙ found))
      all
  where
    go : (k : String) (e' : Fields) (b : Bool) → (if b then some e else lookup k d) ≡ some e' → P e'
    go k e' true found = subst P (some_injective e e' found) first
    go k e' false found = h k e' found

pick-All :
    (P : Fields → Type 0) (ks : List String) (d : Dict Fields) → Values P d → All P (pick ks d)
unfolding pick
pick-All P [] d h = tt
pick-All P (k ∷ ks) d h = elim (Option-cases (lookup k d)) [
  | inl absent ↦ rw (absent, All) (pick-All P ks d h)
  | inr (e, found) ↦ rw (found, All) (h k e found, pick-All P ks d h)
]

pub installed-IsValid :
    (lib : Library) (w : World) (o : Options) (p : Plan)
    → gather lib w o ≡ ok p
    → All (IsValid lib) (installed lib o p)
unfolding installed ordered lookup
installed-IsValid lib w o p h =
    let g = gather-Gathered lib w o p h in
    let valid = IsValid lib in
    rw (merged_of-add_entries lib o p) (
      pick-All valid _ _ (
        add_entries-Values valid (add_entries [] p.existing) p.reviewed
          (add_entries-Values valid [] p.existing (λ k e found. absurd (cc found))
            (existing-IsValid lib w o p.existing g.existing_read))
          (sources-IsValid lib w o.sources [] [] (p.reviewed, p.source_by_key) g.sources_read tt)))
