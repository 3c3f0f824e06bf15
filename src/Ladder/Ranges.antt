-- ===== src/Ladder/Ranges.antt =====
-- `required_prefixes` finds the shortest prefix of each required range.
use mathlib.Core.List.{append_assoc}
use rns.Prelude.{
  ℕ, zero, suc, ◌+◌, ◌<◌, ◌≤◌, ◌≡◌, refl, arith, List, [], ◌∷◌, ◌++◌, take, length, String, str_eq,
  eq_iff, Option, some, none, leb, leb→le, Bool-cases, inl, inr,
}
use rns.Ladder.Moduli.{product_bits}
use rns.Ladder.Prefixes.{
  Dict, lookup, satisfied, PrefixRow, prefix_rows, prefix_products, row_passes, first_prefix,
  first_prefixes, required_prefixes,
}

lookup-satisfied :
    (name : String) (bits n : ℕ) (d : Dict ℕ)
    → lookup name d ≡ some n
    → lookup name (satisfied bits d) ≡ some (leb n bits)
unfolding lookup satisfied
lookup-satisfied name bits n [] h = cc
lookup-satisfied name bits n ((j, r) ∷ d) h = ground (arith, lookup-satisfied name bits n d)

lookup-first_prefixes :
    (name : String) (n : ℕ) (d : Dict ℕ) (rows : List PrefixRow)
    → lookup name d ≡ some n
    → lookup name (first_prefixes d rows) ≡ some (first_prefix name rows)
unfolding lookup first_prefixes
lookup-first_prefixes name n [] rows h = cc
lookup-first_prefixes name n ((j, r) ∷ d) rows h = elim (Bool-cases (str_eq j name)) [
  | inl same ↦ rw (same, (eq_iff j name).0 same) refl
  | inr other ↦ rw other (lookup-first_prefixes name n d rows (rw other at h))
]

-- The answer for one name, over the moduli that follow `running`.
abbrev Answer : List ℕ → List ℕ → ℕ → ℕ → Option ℕ → Type 0
Answer running moduli index n none =
    (q : ℕ) → q < length moduli → product_bits (running ++ take (suc q) moduli) < n
Answer running moduli index n (some p) =
    (k : ℕ) × (p ≡ index + k)
    × (k < length moduli)
    × (n ≤ product_bits (running ++ take (suc k) moduli))
    × ((q : ℕ) → q < k → product_bits (running ++ take (suc q) moduli) < n)

row_passes-leb :
    (name : String) (n bits : ℕ) (d : Dict ℕ) (index last : ℕ)
    → lookup name d ≡ some n
    → row_passes name
        (record { prefix = index; last_modulus = last; bits = bits; satisfies = satisfied bits d })
      ≡ leb n bits
unfolding row_passes
row_passes-leb name n bits d index last h = rw (lookup-satisfied name bits n d h, row_passes)

module _ (running xs : List ℕ) (x index n : ℕ) where
  same_bits :
      (q : ℕ)
      → product_bits ((running ++ x ∷ []) ++ take (suc q) xs)
        ≡ product_bits (running ++ x ∷ take (suc q) xs)
  same_bits q = rw (append_assoc running (x ∷ []) (take (suc q) xs))

  short_head :
      (k : ℕ)
      → product_bits (running ++ x ∷ []) < n
      → ((q : ℕ) → q < k → product_bits ((running ++ x ∷ []) ++ take (suc q) xs) < n)
      → (q : ℕ) → q < suc k
      → product_bits (running ++ x ∷ take q xs) < n
  short_head k short rest zero h = short
  short_head k short rest (suc q) h = rw same_bits at (rest q (omega arith))

  prepend :
      (o : Option ℕ)
      → product_bits (running ++ x ∷ []) < n
      → Answer (running ++ x ∷ []) xs (index + 1) n o
      → Answer running (x ∷ xs) index n o
  prepend none short h = short_head (length xs) short h
  prepend (some p) short (k, e, inside, enough, rest) =
      (suc k, omega arith, omega arith, rw same_bits at enough, short_head k short rest)

module _ (name : String) (n : ℕ) (d : Dict ℕ) (known : lookup name d ≡ some n) where
  least :
      (index : ℕ) (running moduli : List ℕ)
      → Answer running moduli index n (first_prefix name (prefix_rows index running moduli d))
  unfolding first_prefix prefix_rows
  least index running [] = λ q h. absurd (omega arith)
  least index running (x ∷ xs) = elim (Bool-cases (leb n (product_bits (running ++ x ∷ [])))) [
    | inl enough ↦
        rw (row_passes-leb name n _ d index x known, enough)
          (0, omega arith, omega arith, leb→le _ _ enough, λ q h. absurd (omega arith))
    | inr short ↦
        rw (row_passes-leb name n _ d index x known, short)
          (prepend running xs x index n _ (ground arith) (least (index + 1) (running ++ x ∷ []) xs))
  ]

-- A prefix of at least one modulus that reaches the bits, with none shorter.
pub record IsLeastPrefix (moduli : List ℕ) (bits p : ℕ) : Type 0 where
  pub nonempty : 1 ≤ p
  pub within : p ≤ length moduli
  pub reaches : bits ≤ product_bits (take p moduli)
  pub least_prefix : (q : ℕ) → 1 ≤ q → q < p → product_bits (take q moduli) < bits

-- The answer that `required_prefixes` may give for a number of bits.
abbrev pub IsAnswer : List ℕ → ℕ → Option ℕ → Type 0
IsAnswer moduli bits none =
    (q : ℕ) → 1 ≤ q → q ≤ length moduli → product_bits (take q moduli) < bits
IsAnswer moduli bits (some p) = IsLeastPrefix moduli bits p

-- The same facts, counted by the length of the prefix.
by_length :
    (moduli : List ℕ) (n k : ℕ)
    → ((q : ℕ) → q < k → product_bits (take (suc q) moduli) < n)
    → (q : ℕ) → 1 ≤ q
    → q < suc k
    → product_bits (take q moduli) < n
by_length moduli n k rest zero lo hi = absurd (omega arith)
by_length moduli n k rest (suc q) lo hi = rest q (omega arith)

from_Answer :
    (moduli : List ℕ) (n : ℕ) (o : Option ℕ) → Answer [] moduli 1 n o → IsAnswer moduli n o
from_Answer moduli n none h = λ q lo hi. by_length moduli n (length moduli) h q lo (omega arith)
from_Answer moduli n (some p) (k, e, inside, enough, rest) =
    let shape : p ≡ suc k = omega arith in
    rw shape (record {
      nonempty = omega arith;
      within = inside;
      reaches = enough;
      least_prefix = by_length moduli n k rest;
    })

-- For every name of `required_bits` the report gives the shortest prefix whose product has that
-- many bits, and `None` exactly where no prefix has.
pub required_prefixes_least :
    (moduli : List ℕ) (required_bits : Dict ℕ) (name : String) (bits : ℕ)
    → lookup name required_bits ≡ some bits
    → (o : Option ℕ) × (lookup name (required_prefixes moduli required_bits) ≡ some o)
      × IsAnswer moduli bits o
unfolding required_prefixes
required_prefixes_least moduli required_bits name bits known = (
  first_prefix name (prefix_products moduli required_bits),
  lookup-first_prefixes name bits required_bits _ known,
  from_Answer moduli bits _ (least name bits required_bits known 1 [] moduli),
)
