-- ===== src/Sweep/Dedupe.antt =====
-- `_command_option` and `_cpu_reference_dedupe_key`, and the dict of completed CPU captures.
use rns.Prelude.{
  ◌≡◌, refl, Bool, true, false, ◌&&◌, ◌||◌, Option, none, some, List, [], ◌∷◌, String, str_eq,
  if◌then◌else◌,
}
use rns.Json.{Fields}
use rns.Dict.{Dict}
use rns.Autotune.Coverage.{texts_eq}
use rns.Autotune.Order.{text_leb}

pub record SweepCommand : Type 0 where
  pub name : String
  pub command : List String
  pub output : String
  pub scenario : Option Fields
  pub env : Option (Dict String)

first_of : List String → Option String
first_of [] = none
first_of (s ∷ ss) = some s

-- What follows the first occurrence of the option.
unfoldable pub command_option : List String → String → Option String
unfolding first_of
command_option [] option = none
command_option (s ∷ ss) option = if str_eq s option then first_of ss else command_option ss option

abbrev pub DedupeKey : Type 0
DedupeKey = List String × Dict String

insert_item : String × String → Dict String → Dict String
insert_item f [] = f ∷ []
insert_item f (g ∷ d) = if text_leb f.0 g.0 then f ∷ g ∷ d else g ∷ insert_item f d

-- `sorted((env or {}).items())`; a dict has no key twice, so the values are not compared.
sorted_items : Option (Dict String) → Dict String
unfolding insert_item
sorted_items none = []
sorted_items (some []) = []
sorted_items (some (f ∷ d)) = insert_item f (sorted_items (some d))

abbrev is_cpu : Option String → Bool
is_cpu none = false
is_cpu (some backend) =
    let backend' = if str_eq backend "cpu-reference" then "cpu" else backend in
    str_eq backend' "cpu" || str_eq backend' "wrap64-byte-limb"

unfoldable pub cpu_reference_dedupe_key : SweepCommand → Option DedupeKey
unfolding command_option sorted_items
cpu_reference_dedupe_key entry =
    if is_cpu (command_option entry.command "--backend")
    then some (entry.command, sorted_items entry.env)
    else none

items_eq : Dict String → Dict String → Bool
items_eq [] [] = true
items_eq ((j, v) ∷ d) ((k, w) ∷ e) = str_eq j k && str_eq v w && items_eq d e
items_eq _ _ = false

unfoldable pub key_eq : DedupeKey → DedupeKey → Bool
unfolding items_eq texts_eq
key_eq (c, e) (c', e') = texts_eq c c' && items_eq e e'

abbrev pub Completed : Type 0
Completed = List (DedupeKey × String)

-- `completed_cpu_captures.get(key)`
unfoldable pub completed_path : DedupeKey → Completed → Option String
unfolding key_eq
completed_path k [] = none
completed_path k ((j, path) ∷ c) = if key_eq j k then some path else completed_path k c

-- `if dedupe_key is not None: completed_cpu_captures[dedupe_key] = path`. The newest entry stands
-- first and hides the others.
unfoldable pub complete : Option DedupeKey → String → Completed → Completed
complete none path c = c
complete (some k) path c = (k, path) ∷ c

-- `dedupe_key is not None and dedupe_key in completed_cpu_captures`, with the path.
unfoldable pub reusable : Option DedupeKey → Completed → Option String
unfolding completed_path
reusable none c = none
reusable (some k) c = completed_path k c

key_test :
    cpu_reference_dedupe_key (record {
      name = "a";
      command = "bench" ∷ "--backend" ∷ "cpu-reference" ∷ [];
      output = "a.json";
      scenario = none;
      env = some (("B", "1") ∷ ("A", "2") ∷ []);
    })
    ≡ some ("bench" ∷ "--backend" ∷ "cpu-reference" ∷ [], ("A", "2") ∷ ("B", "1") ∷ [])
unfolding cpu_reference_dedupe_key text_leb
key_test = refl
