-- ===== src/Autotune/Order.antt =====
-- Python's order on texts, by code points, and `sorted` on lists of texts without repeats.
use Prim.Native.Char.{code}
use rns.Prelude.{
  ◌≡◌, refl, Bool, true, false, List, [], ◌∷◌, String, if◌then◌else◌, ◌==◌, ltb, arith, All, eq_iff,
  str_eq, ◌||◌, Bool-cases, inl, inr, ◌∙◌,
}

unfoldable pub text_leb : String → String → Bool
text_leb String.[] t = true
text_leb (String.◌∷◌ c s) String.[] = false
text_leb (String.◌∷◌ c s) (String.◌∷◌ d t) =
    if code c == code d then text_leb s t else ltb (code c) (code d)

pub text_leb_total : (s t : String) → text_leb s t ≡ false → text_leb t s ≡ true
unfolding text_leb
text_leb_total String.[] t h = absurd (cc h)
text_leb_total (String.◌∷◌ c s) String.[] h = refl
text_leb_total (String.◌∷◌ c s) (String.◌∷◌ d t) h = ground (arith, text_leb_total s t)

pub text_leb_refl : (s : String) → text_leb s s ≡ true
unfolding text_leb
text_leb_refl String.[] = refl
text_leb_refl (String.◌∷◌ c s) = ground (arith, text_leb_refl s)

unfoldable pub insert_text : String → List String → List String
insert_text s [] = s ∷ []
insert_text s (t ∷ ts) = if text_leb s t then s ∷ t ∷ ts else t ∷ insert_text s ts

unfoldable pub sorted : List String → List String
unfolding insert_text
sorted [] = []
sorted (s ∷ ss) = insert_text s (sorted ss)

-- Each text is at most those that follow it.
abbrev pub IsSorted : List String → Type 0
IsSorted [] = Unit {0}
IsSorted (s ∷ ss) = All (λ t. text_leb s t ≡ true) ss × IsSorted ss

-- `s in texts`
unfoldable pub mem : String → List String → Bool
mem s [] = false
mem s (t ∷ ts) = str_eq t s || mem s ts

mem-insert_text : (s t : String) (ts : List String) → mem s (insert_text t ts) ≡ mem s (t ∷ ts)
unfolding mem insert_text
mem-insert_text s t [] = refl
mem-insert_text s t (u ∷ ts) = ground (arith, mem-insert_text s t ts)

pub mem-sorted : (s : String) (ts : List String) → mem s (sorted ts) ≡ mem s ts
unfolding mem sorted
mem-sorted s [] = refl
mem-sorted s (t ∷ ts) = ground (arith, mem-insert_text s t (sorted ts), mem-sorted s ts)

-- No text is listed twice.
abbrev pub Distinct : List String → Type 0
Distinct [] = Unit {0}
Distinct (s ∷ ss) = (mem s ss ≡ false) × Distinct ss

insert_text-Distinct :
    (s : String) (ts : List String) → mem s ts ≡ false → Distinct ts → Distinct (insert_text s ts)
unfolding insert_text mem
insert_text-Distinct s [] new h = (refl, tt)
insert_text-Distinct s (t ∷ ts) new (fresh, h) =
    ground (arith, eq_iff s t, eq_iff t s, mem-insert_text t s ts, insert_text-Distinct s ts)

pub sorted-Distinct : (ts : List String) → Distinct ts → Distinct (sorted ts)
unfolding sorted
sorted-Distinct [] h = tt
sorted-Distinct (t ∷ ts) (new, h) =
    insert_text-Distinct t (sorted ts) (mem-sorted t ts ∙ new) (sorted-Distinct ts h)

text_leb_trans : (s t u : String) → text_leb s t ≡ true → text_leb t u ≡ true → text_leb s u ≡ true
unfolding text_leb
text_leb_trans String.[] t u h k = refl
text_leb_trans (String.◌∷◌ c s) String.[] u h k = absurd (cc h)
text_leb_trans (String.◌∷◌ c s) (String.◌∷◌ d t) String.[] h k = absurd (cc k)
text_leb_trans (String.◌∷◌ c s) (String.◌∷◌ d t) (String.◌∷◌ e u) h k =
    ground (arith, text_leb_trans s t u)

abbrev Above : String → List String → Type 0
Above s ts = All (λ t. text_leb s t ≡ true) ts

Above-trans : (s t : String) (ts : List String) → text_leb s t ≡ true → Above t ts → Above s ts
Above-trans s t [] e h = tt
Above-trans s t (u ∷ ts) e (first, h) = (text_leb_trans s t u e first, Above-trans s t ts e h)

insert_text-Above :
    (s t : String) (ts : List String)
    → text_leb s t ≡ true
    → Above s ts
    → Above s (insert_text t ts)
unfolding insert_text
insert_text-Above s t [] e h = (e, tt)
insert_text-Above s t (u ∷ ts) e h = ground (arith, insert_text-Above s t ts)

insert_text-IsSorted : (s : String) (ts : List String) → IsSorted ts → IsSorted (insert_text s ts)
unfolding insert_text
insert_text-IsSorted s [] h = (tt, tt)
insert_text-IsSorted s (t ∷ ts) (first, h) = elim (Bool-cases (text_leb s t)) [
  | inl e ↦ rw e ((e, Above-trans s t ts e first), (first, h))
  | inr e ↦
      rw e (insert_text-Above t s ts (text_leb_total s t e) first, insert_text-IsSorted s ts h)
]

pub sorted-IsSorted : (ts : List String) → IsSorted (sorted ts)
unfolding sorted
sorted-IsSorted [] = tt
sorted-IsSorted (t ∷ ts) = insert_text-IsSorted t (sorted ts) (sorted-IsSorted ts)
