-- ===== src/Autotune/RoundTrip.antt =====
-- `key_fields` reads back the fields that a key is written from.
use rns.Prelude.{
  ℕ, ◌≡◌, refl, ap, sym, ◌∙◌, Bool, true, false, ◌||◌, List, [], ◌∷◌, ◌++◌, String, str_eq, eq_iff,
  ◌<>◌, arith, Bool-cases, inl, inr, All,
}
use mathlib.Core.List.{append_assoc}
use text.Mathlib.TextLemmas.{nil-append, cons-append}
use rns.Dict.{Dict, insert, has, IsDict}
use rns.Autotune.Split.{partition, has_char, split_parts, split, add_part, add_parts, key_fields}

-- `name=value`
abbrev pub part_of : String × String → String
part_of (name, value) = name <> ("=" <> value)

-- The fields joined with semicolons.
unfoldable pub render : Dict String → String
render [] = ""
render (f ∷ []) = part_of f
render (f ∷ g ∷ fields) = part_of f <> (";" <> render (g ∷ fields))

-- A name is not empty, and no separator stands in a name or a value.
abbrev pub IsClean : String × String → Type 0
IsClean (name, value) =
    (str_eq name "" ≡ false)
    × (has_char b'=' name ≡ false)
    × (has_char b';' name ≡ false)
    × (has_char b';' value ≡ false)

semicolon : (t : String) → (";" <> t) ≡ String.◌∷◌ ";" t
semicolon t = cons-append ";" "" t ∙ ap (String.◌∷◌ ";") (nil-append t)

equals : (t : String) → ("=" <> t) ≡ String.◌∷◌ "=" t
equals t = cons-append "=" "" t ∙ ap (String.◌∷◌ "=") (nil-append t)

has_char-append : (c : ℕ) (s t : String) → has_char c (s <> t) ≡ (has_char c s || has_char c t)
unfolding has_char
has_char-append c String.[] t = rw (nil-append t)
has_char-append c (String.◌∷◌ x s) t =
    rw (cons-append x s t) (ground (arith, has_char-append c s t))

split_parts-none : (c : ℕ) (s : String) → has_char c s ≡ false → split_parts c s ≡ (s, [])
unfolding split_parts has_char
split_parts-none c String.[] h = refl
split_parts-none c (String.◌∷◌ x s) h = ground (arith, split_parts-none c s)

split_parts-append :
    (s t : String)
    → has_char b';' s ≡ false
    → split_parts b';' (s <> (";" <> t)) ≡ (s, split b';' t)
unfolding split_parts has_char split
split_parts-append String.[] t h = rw (nil-append (";" <> t), semicolon t)
split_parts-append (String.◌∷◌ x s) t h =
    rw (cons-append x s (";" <> t)) (ground (arith, split_parts-append s t))

partition-append :
    (s t : String) → has_char b'=' s ≡ false → partition b'=' (s <> ("=" <> t)) ≡ (s, t)
unfolding partition has_char
partition-append String.[] t h = rw (nil-append ("=" <> t), equals t)
partition-append (String.◌∷◌ x s) t h =
    rw (cons-append x s ("=" <> t)) (ground (arith, partition-append s t))

-- The parts of a key.
parts : Dict String → List String
parts [] = "" ∷ []
parts (f ∷ []) = part_of f ∷ []
parts (f ∷ g ∷ fields) = part_of f ∷ parts (g ∷ fields)

clean_part : (f : String × String) → IsClean f → has_char b';' (part_of f) ≡ false
unfolding has_char
clean_part (name, value) (_, _, c, v) =
    has_char-append b';' name ("=" <> value) ∙ ground (arith, has_char-append b';' "=" value)

split-render :
    (fields : Dict String) → All IsClean fields → split b';' (render fields) ≡ parts fields
unfolding split render parts split_parts
split-render [] h = refl
split-render (f ∷ []) (c, h) = rw (split_parts-none b';' (part_of f) (clean_part f c))
split-render (f ∷ g ∷ fields) (c, h) =
    rw (split_parts-append (part_of f) (render (g ∷ fields)) (clean_part f c))
      (ap (λ (ps : List String). part_of f ∷ ps) (split-render (g ∷ fields) h))

is_blank : String → Bool
is_blank String.[] = true
is_blank (String.◌∷◌ x s) = false

text_continues : (s t : String) → str_eq s "" ≡ false → str_eq (s <> t) "" ≡ false
unfolding is_blank
text_continues String.[] t h = absurd (cc h)
text_continues (String.◌∷◌ x s) t h = elim (Bool-cases (str_eq (String.◌∷◌ x s <> t) "")) [
  | inl e ↦
      absurd (cc (ap is_blank (sym (cons-append x s t) ∙ (eq_iff (String.◌∷◌ x s <> t) "").0 e)))
  | inr e ↦ e
]

has_equals : (name value : String) → has_char b'=' (name <> ("=" <> value)) ≡ true
unfolding has_char
has_equals name value =
    has_char-append b'=' name ("=" <> value) ∙ ground (arith, has_char-append b'=' "=" value)

add_part-clean :
    (acc : Dict String) (f : String × String)
    → IsClean f
    → add_part acc (part_of f) ≡ insert f.0 f.1 acc
unfolding add_part
add_part-clean acc (name, value) (some_name, e, _, _) = rw (
  text_continues name ("=" <> value) some_name,
  has_equals name value,
  partition-append name value e,
  some_name,
)

insert-new : (k v : String) (d : Dict String) → has k d ≡ false → insert k v d ≡ d ++ (k, v) ∷ []
unfolding insert has
insert-new k v [] h = refl
insert-new k v ((j, w) ∷ d) h = ground (arith, insert-new k v d)

-- No field stands in the dict already, or twice in the list.
abbrev Fresh : Dict String → Dict String → Type 0
Fresh acc [] = Unit {0}
Fresh acc ((k, v) ∷ d) = (has k acc ≡ false) × Fresh (acc ++ (k, v) ∷ []) d

add_parts-parts :
    (acc : Dict String) (f : String × String) (fields : Dict String)
    → All IsClean (f ∷ fields)
    → Fresh acc (f ∷ fields)
    → add_parts acc (parts (f ∷ fields)) ≡ acc ++ f ∷ fields
unfolding add_parts parts
add_parts-parts acc f [] (c, _) (new, _) = add_part-clean acc f c ∙ insert-new f.0 f.1 acc new
add_parts-parts acc f (g ∷ fields) (c, h) (new, fresh) =
    ap (λ (d : Dict String). add_parts d (parts (g ∷ fields)))
      (add_part-clean acc f c ∙ insert-new f.0 f.1 acc new)
    ∙ add_parts-parts (acc ++ f ∷ []) g fields h fresh
    ∙ append_assoc acc (f ∷ []) (g ∷ fields)

has-append : (k : String) (d e : Dict String) → has k (d ++ e) ≡ (has k d || has k e)
unfolding has
has-append k [] e = refl
has-append k ((j, v) ∷ d) e = ground (arith, has-append k d e)

-- Where no key is listed twice and none is in the dict, the fields are new one after the other.
IsDict-Fresh :
    (acc d : Dict String)
    → IsDict d
    → All (λ (f : String × String). has f.0 acc ≡ false) d
    → Fresh acc d
unfolding has
IsDict-Fresh acc [] h new = tt
IsDict-Fresh acc ((k, v) ∷ d) (fresh, h) (first, new) =
    (first, IsDict-Fresh (acc ++ (k, v) ∷ []) d h (still_new d fresh new))
  where
    still_new :
        (e : Dict String)
        → has k e ≡ false
        → All (λ (f : String × String). has f.0 acc ≡ false) e
        → All (λ (f : String × String). has f.0 (acc ++ (k, v) ∷ []) ≡ false) e
    still_new [] absent old = tt
    still_new ((j, w) ∷ e) absent (o, old) = (
      has-append j acc ((k, v) ∷ []) ∙ ground (arith, eq_iff k j, eq_iff j k),
      still_new e (ground (arith)) old,
    )

none_there : (d : Dict String) → All (λ (f : String × String). has {V = String} f.0 [] ≡ false) d
unfolding has
none_there [] = tt
none_there (f ∷ d) = (refl, none_there d)

key_fields_empty : key_fields (render []) ≡ []
unfolding key_fields render
key_fields_empty = refl

-- A key that is written from fields is read back as these fields: names are distinct and not empty,
-- no name has a `=` or a `;` in it, and no value has a `;`.
pub key_fields-render :
    (fields : Dict String)
    → IsDict fields
    → All IsClean fields
    → key_fields (render fields) ≡ fields
unfolding key_fields
key_fields-render [] h clean = key_fields_empty
key_fields-render (f ∷ fields) h clean =
    ap (add_parts []) (split-render (f ∷ fields) clean)
    ∙ add_parts-parts [] f fields clean (IsDict-Fresh [] (f ∷ fields) h (none_there (f ∷ fields)))
