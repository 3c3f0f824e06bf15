-- ===== src/Autotune/Split.antt =====
-- `key_fields`: the `name=value` parts of an autotune key, and the text operations it uses.
use Prim.Native.Char.{code}
use rns.Prelude.{
  ℕ, ◌≡◌, refl, Bool, false, not, ◌||◌, List, [], ◌∷◌, String, str_eq, ◌==◌, if◌then◌else◌,
}
use rns.Dict.{Dict, insert}

-- What precedes the first character `c`, and what follows it.
unfoldable pub partition : ℕ → String → String × String
partition c String.[] = ("", "")
partition c (String.◌∷◌ x s) =
    let (before, after) = partition c s in
    if code x == c then ("", s) else (String.◌∷◌ x before, after)

-- `c in text`
unfoldable pub has_char : ℕ → String → Bool
has_char c String.[] = false
has_char c (String.◌∷◌ x s) = code x == c || has_char c s

-- `text.split(c)`: the first part and the others.
unfoldable pub split_parts : ℕ → String → String × List String
split_parts c String.[] = ("", [])
split_parts c (String.◌∷◌ x s) =
    let (first, rest) = split_parts c s in
    if code x == c then ("", first ∷ rest) else (String.◌∷◌ x first, rest)

unfoldable pub split : ℕ → String → List String
unfolding split_parts
split c s = let (first, rest) = split_parts c s in first ∷ rest

-- One turn of the loop.
unfoldable pub add_part : Dict String → String → Dict String
unfolding has_char partition
add_part fields part =
    if str_eq part "" || not (has_char b'=' part)
    then fields
    else let (name, value) = partition b'=' part in
      if str_eq name "" then fields else insert name value fields

unfoldable pub add_parts : Dict String → List String → Dict String
add_parts fields [] = fields
add_parts fields (part ∷ parts) = add_parts (add_part fields part) parts

unfoldable pub key_fields : String → Dict String
unfolding add_parts add_part split
key_fields key = add_parts [] (split b';' key)

key_fields_test : key_fields "m=12;;x;=4;n=3=4;m=7" ≡ ("m", "7") ∷ ("n", "3=4") ∷ []
unfolding key_fields insert
key_fields_test = refl
