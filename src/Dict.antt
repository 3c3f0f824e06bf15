-- ===== src/Dict.antt =====
-- A Python dict keyed by texts, in insertion order, as an association list.
use rns.Prelude.{
  suc, ◌≡◌, refl, Bool, true, false, Option, none, some, List, [], ◌∷◌, String, str_eq, eq_iff,
  arith, if◌then◌else◌, length, ◌||◌, Bool-cases, inl, inr,
}

abbrev pub Dict {ℓ} : Type ℓ → Type ℓ
Dict V = List (String × V)

module _ {ℓ} {V : Type ℓ} where
  -- `d.get(k)`
  unfoldable pub lookup : String → Dict V → Option V
  lookup k [] = none
  lookup k ((j, v) ∷ d) = if str_eq j k then some v else lookup k d

  -- `k in d`
  unfoldable pub has : String → Dict V → Bool
  has k [] = false
  has k ((j, v) ∷ d) = str_eq j k || has k d

  -- `d[k] = v`
  unfoldable pub insert : String → V → Dict V → Dict V
  insert k v [] = (k, v) ∷ []
  insert k v ((j, w) ∷ d) = if str_eq j k then (k, v) ∷ d else (j, w) ∷ insert k v d

  -- `list(d)`
  unfoldable pub keys : Dict V → List String
  keys [] = []
  keys ((j, v) ∷ d) = j ∷ keys d

  -- No key is listed twice.
  abbrev pub IsDict : Dict V → Type 0
  IsDict [] = Unit {0}
  IsDict ((j, v) ∷ d) = (has j d ≡ false) × IsDict d

  pub lookup-insert :
      (k j : String) (v : V) (d : Dict V)
      → lookup j (insert k v d) ≡ (if str_eq k j then some v else lookup j d)
  unfolding lookup insert
  lookup-insert k j v [] = refl
  lookup-insert k j v ((i, w) ∷ d) =
      ground (arith, eq_iff k j, eq_iff i k, eq_iff i j, lookup-insert k j v d)

  pub has-insert :
      (k j : String) (v : V) (d : Dict V) → has j (insert k v d) ≡ (str_eq k j || has j d)
  unfolding has insert
  has-insert k j v [] = refl
  has-insert k j v ((i, w) ∷ d) =
      ground (arith, eq_iff k j, eq_iff i k, eq_iff i j, has-insert k j v d)

  pub insert-IsDict : (k : String) (v : V) (d : Dict V) → IsDict d → IsDict (insert k v d)
  unfolding insert has
  insert-IsDict k v [] h = (refl, tt)
  insert-IsDict k v ((i, w) ∷ d) (new, h) =
      ground (arith, eq_iff i k, eq_iff k i, has-insert k i v d, insert-IsDict k v d h)

  pub length-insert :
      (k : String) (v : V) (d : Dict V)
      → length (insert k v d) ≡ (if has k d then length d else suc (length d))
  unfolding insert has
  length-insert k v [] = refl
  length-insert k v ((i, w) ∷ d) = ground (arith, length-insert k v d)

  pub has-lookup : (k : String) (d : Dict V) → has k d ≡ true → (v : V) × (lookup k d ≡ some v)
  unfolding has lookup
  has-lookup k [] h = absurd (cc h)
  has-lookup k ((j, w) ∷ d) h = elim (Bool-cases (str_eq j k)) [
    | inl e ↦ (w, rw e)
    | inr e ↦ let (v, found) = has-lookup k d (rw e at h) in (v, rw e found)
  ]

  pub lookup-has : (k : String) (d : Dict V) → has k d ≡ false → lookup k d ≡ none
  unfolding has lookup
  lookup-has k [] h = refl
  lookup-has k ((j, w) ∷ d) h = ground (arith, lookup-has k d)
