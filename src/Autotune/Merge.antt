-- ===== src/Autotune/Merge.antt =====
-- What merging existing and reviewed entries gives, key by key.
use rns.Prelude.{
  ◌≡◌, refl, ap, sym, ◌∙◌, Bool, true, Option, none, some, List, [], ◌∷◌, String, str_eq, eq_iff,
  if◌then◌else◌, map, arith, All,
}
use rns.Json.{Fields}
use rns.Dict.{
  Dict, insert, lookup, has, keys, IsDict, lookup-insert, has-lookup, lookup-has, insert-IsDict,
}
use rns.Autotune.Result.{Library}
use rns.Autotune.Ledger.{entry_key}
use rns.Autotune.Order.{
  mem, mem-sorted, sorted, Distinct, sorted-Distinct, sorted-IsSorted, IsSorted,
}
use rns.Autotune.Install.{
  Plan, Options, add_entries, merge_entries, pick, ordered, installed, merged_of,
}

-- The first of two, if it is there.
abbrev pub or_else {ℓ} : {A : Type ℓ} → Option A → Option A → Option A
or_else none b = b
or_else (some a) b = some a

abbrev keyed : String → Fields → Option Fields
keyed k entry = if str_eq (entry_key entry) k then some entry else none

-- The last entry with the key.
unfoldable pub last_for : String → List Fields → Option Fields
last_for k [] = none
last_for k (entry ∷ entries) = or_else (last_for k entries) (keyed k entry)

-- The first entry with the key: what a reader of a cache finds.
unfoldable pub first_for : String → List Fields → Option Fields
first_for k [] = none
first_for k (entry ∷ entries) = or_else (keyed k entry) (first_for k entries)

pub lookup-add_entries :
    (k : String) (d : Dict Fields) (entries : List Fields)
    → lookup k (add_entries d entries) ≡ or_else (last_for k entries) (lookup k d)
unfolding add_entries last_for
lookup-add_entries k d [] = refl
lookup-add_entries k d (entry ∷ entries) = ground (
  arith,
  lookup-add_entries k (insert (entry_key entry) entry d) entries,
  lookup-insert (entry_key entry) k entry d,
)

pub merge_entries-add_entries :
    (lib : Library) (b : Bool) (s : Dict String) (d : Dict Fields) (entries : List Fields)
    → (merge_entries lib b s d entries).0 ≡ add_entries d entries
unfolding merge_entries add_entries
merge_entries-add_entries lib b s d [] = refl
merge_entries-add_entries lib b s d (entry ∷ entries) =
    merge_entries-add_entries lib b s (insert (entry_key entry) entry d) entries

pub add_entries-IsDict :
    (d : Dict Fields) (entries : List Fields) → IsDict d → IsDict (add_entries d entries)
unfolding add_entries
add_entries-IsDict d [] h = h
add_entries-IsDict d (entry ∷ entries) h =
    add_entries-IsDict (insert (entry_key entry) entry d) entries
      (insert-IsDict (entry_key entry) entry d h)

-- Every entry stands under its own key.
abbrev pub IsKeyed : Dict Fields → Type 0
IsKeyed d = (k : String) (entry : Fields) → lookup k d ≡ some entry → entry_key entry ≡ k

insert-IsKeyed :
    (entry : Fields) (d : Dict Fields) → IsKeyed d → IsKeyed (insert (entry_key entry) entry d)
insert-IsKeyed entry d h k e found =
    ground (arith, h k e, lookup-insert (entry_key entry) k entry d, eq_iff (entry_key entry) k)

pub add_entries-IsKeyed :
    (d : Dict Fields) (entries : List Fields) → IsKeyed d → IsKeyed (add_entries d entries)
unfolding add_entries
add_entries-IsKeyed d [] h = h
add_entries-IsKeyed d (entry ∷ entries) h =
    add_entries-IsKeyed (insert (entry_key entry) entry d) entries (insert-IsKeyed entry d h)

has-mem : (k : String) (d : Dict Fields) → mem k (keys d) ≡ has k d
unfolding mem keys has
has-mem k [] = refl
has-mem k ((j, e) ∷ d) = ground (arith, has-mem k d)

keys-Distinct : (d : Dict Fields) → IsDict d → Distinct (keys d)
unfolding keys
keys-Distinct [] h = tt
keys-Distinct ((j, e) ∷ d) (new, h) = (has-mem j d ∙ new, keys-Distinct d h)

-- All of the keys are keys of the dict.
abbrev Within : List String → Dict Fields → Type 0
Within ks d = All (λ k. has k d ≡ true) ks

map-pick :
    (ks : List String) (d : Dict Fields) → Within ks d → IsKeyed d → map entry_key (pick ks d) ≡ ks
unfolding pick
map-pick [] d h keyed = refl
map-pick (k ∷ ks) d (first, h) keyed =
    let (entry, found) = has-lookup k d first in
    ground (arith, found, keyed k entry, map-pick ks d h keyed)

first_for-pick :
    (k : String) (ks : List String) (d : Dict Fields)
    → Within ks d
    → IsKeyed d
    → first_for k (pick ks d) ≡ (if mem k ks then lookup k d else none)
unfolding pick first_for mem
first_for-pick k [] d h keyed = refl
first_for-pick k (j ∷ ks) d (first, h) keyed =
    let (entry, found) = has-lookup j d first in
    ground (arith, found, keyed j entry, first_for-pick k ks d h keyed, eq_iff j k)

Within-mem :
    (ks : List String) (d : Dict Fields)
    → ((k : String) → mem k ks ≡ true → has k d ≡ true)
    → Within ks d
unfolding mem
Within-mem [] d h = tt
Within-mem (k ∷ ks) d h =
    (h k (ground (arith, eq_iff k k)), Within-mem ks d (λ j e. h j (ground (arith))))

sorted-Within : (d : Dict Fields) → Within (sorted (keys d)) d
sorted-Within d =
    Within-mem (sorted (keys d)) d (λ k e. sym (has-mem k d) ∙ sym (mem-sorted k (keys d)) ∙ e)

pub map-ordered : (d : Dict Fields) → IsKeyed d → map entry_key (ordered d) ≡ sorted (keys d)
unfolding ordered
map-ordered d h = map-pick (sorted (keys d)) d (sorted-Within d) h

pub first_for-ordered :
    (k : String) (d : Dict Fields) → IsKeyed d → first_for k (ordered d) ≡ lookup k d
unfolding ordered
first_for-ordered k d h = ground (
  arith,
  first_for-pick k (sorted (keys d)) d (sorted-Within d) h,
  mem-sorted k (keys d),
  has-mem k d,
  lookup-has k d,
)

-- The dict that is written out.
pub merged_of-add_entries :
    (lib : Library) (o : Options) (p : Plan)
    → (merged_of lib o p).0 ≡ add_entries (add_entries [] p.existing) p.reviewed
unfolding merged_of
merged_of-add_entries lib o p =
    merge_entries-add_entries lib _ p.source_by_key (add_entries [] p.existing) p.reviewed

pub merged-IsKeyed :
    (existing reviewed : List Fields) → IsKeyed (add_entries (add_entries [] existing) reviewed)
unfolding lookup
merged-IsKeyed existing reviewed =
    add_entries-IsKeyed (add_entries [] existing) reviewed
      (add_entries-IsKeyed [] existing (λ k entry h. absurd (cc h)))

pub merged-IsDict :
    (existing reviewed : List Fields) → IsDict (add_entries (add_entries [] existing) reviewed)
merged-IsDict existing reviewed =
    add_entries-IsDict (add_entries [] existing) reviewed (add_entries-IsDict [] existing tt)

-- For each key, the installed cache has the last reviewed entry with the key in the order of the
-- sources, and if there is none the last existing one.
pub first_for-installed :
    (lib : Library) (o : Options) (p : Plan) (k : String)
    → first_for k (installed lib o p) ≡ or_else (last_for k p.reviewed) (last_for k p.existing)
unfolding installed lookup
first_for-installed lib o p k =
    ap (λ d. first_for k (ordered d)) (merged_of-add_entries lib o p)
    ∙ first_for-ordered k _ (merged-IsKeyed p.existing p.reviewed)
    ∙ lookup-add_entries k (add_entries [] p.existing) p.reviewed
    ∙ ap (or_else (last_for k p.reviewed))
        (lookup-add_entries k [] p.existing ∙ or_else-none (last_for k p.existing))
  where
    or_else-none : (a : Option Fields) → or_else a none ≡ a
    or_else-none none = refl
    or_else-none (some e) = refl

-- The installed entries stand in the order of their keys, and no key occurs twice.
pub installed-IsSorted :
    (lib : Library) (o : Options) (p : Plan)
    → IsSorted (map entry_key (installed lib o p)) × Distinct (map entry_key (installed lib o p))
unfolding installed
installed-IsSorted lib o p =
    let merged = add_entries (add_entries [] p.existing) p.reviewed in
    rw (merged_of-add_entries lib o p) (
      rw (map-ordered merged (merged-IsKeyed p.existing p.reviewed)) (
        sorted-IsSorted (keys merged),
        sorted-Distinct (keys merged) (keys-Distinct merged (merged-IsDict p.existing p.reviewed)),
      ))
