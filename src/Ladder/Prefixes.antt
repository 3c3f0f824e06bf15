-- ===== src/Ladder/Prefixes.antt =====
-- The products of a ladder's prefixes, the shortest prefix for each required range, and the
-- constants of the mixed-radix (Garner) reconstruction.
use rns.Prelude.{
  ℕ, ◌+◌, ◌*◌, ◌%◌, Bool, List, [], ◌∷◌, ◌++◌, Option, none, some, String, leb, ◌==◌, str_eq,
  if◌then◌else◌,
}
use rns.Python.Gcd.{gcd}
use rns.Python.Inverse.{mod_inverse}
use rns.Ladder.Moduli.{product_bits}

-- A dict as the list of its items; the first item of a key counts.
abbrev pub Dict {ℓ} : Type ℓ → Type ℓ
Dict V = List (String × V)

unfoldable pub lookup {ℓ} : {V : Type ℓ} → String → Dict V → Option V
lookup k [] = none
lookup k ((j, v) ∷ d) = if str_eq j k then some v else lookup k d

-- DEFAULT_REQUIRED_BITS
abbrev pub default_required_bits : Dict ℕ
default_required_bits =
    ("bounded_i64_full_signed", 65)
    ∷ ("bounded_u64_full_unsigned", 64)
    ∷ ("exact_wide_signed_512", 137)
    ∷ ("exact_wide_unsigned_512", 138)
    ∷ ("exact_wide_signed_1024", 138)
    ∷ ("exact_wide_unsigned_1024", 139)
    ∷ ("exact_wide_signed_2048", 139)
    ∷ ("exact_wide_unsigned_2048", 140)
    ∷ []

pub record PrefixRow : Type 0 where
  pub prefix : ℕ
  pub last_modulus : ℕ
  pub bits : ℕ
  pub satisfies : Dict Bool

unfoldable pub satisfied : ℕ → Dict ℕ → Dict Bool
satisfied bits [] = []
satisfied bits ((name, required) ∷ rest) = (name, leb required bits) ∷ satisfied bits rest

-- The loop of `prefix_products`; `running` holds the moduli so far.
unfoldable pub prefix_rows : ℕ → List ℕ → List ℕ → Dict ℕ → List PrefixRow
prefix_rows index running [] required_bits = []
prefix_rows index running (modulus ∷ moduli) required_bits =
    let running' = running ++ modulus ∷ [] in
    let bits = product_bits running' in
    record {
      prefix = index;
      last_modulus = modulus;
      bits = bits;
      satisfies = satisfied bits required_bits;
    }
    ∷ prefix_rows (index + 1) running' moduli required_bits

unfoldable pub prefix_products : List ℕ → Dict ℕ → List PrefixRow
unfolding prefix_rows satisfied
prefix_products moduli required_bits = prefix_rows 1 [] moduli required_bits

-- `row["satisfies"][name]`; every row has every name.
unfoldable pub row_passes : String → PrefixRow → Bool
unfolding lookup
row_passes name row = elim (lookup name row.satisfies) [ some passed ↦ passed | none ↦ Bool.false ]

-- `next((row["prefix"] for row in rows if row["satisfies"][name]), None)`
unfoldable pub first_prefix : String → List PrefixRow → Option ℕ
first_prefix name [] = none
first_prefix name (row ∷ rows) =
    if row_passes name row then some row.prefix else first_prefix name rows

unfoldable pub first_prefixes : Dict ℕ → List PrefixRow → Dict (Option ℕ)
first_prefixes [] rows = []
first_prefixes ((name, _) ∷ rest) rows = (name, first_prefix name rows) ∷ first_prefixes rest rows

unfoldable pub required_prefixes : List ℕ → Dict ℕ → Dict (Option ℕ)
unfolding prefix_products row_passes first_prefix first_prefixes
required_prefixes moduli required_bits =
    first_prefixes required_bits (prefix_products moduli required_bits)

pub record CrtConstant : Type 0 where
  pub prefix : ℕ
  pub modulus : ℕ
  pub prior_product_mod_modulus : ℕ
  pub inverse_prior_product_mod_modulus : Option ℕ

-- One round of the loop over `enumerate(moduli)`.
unfoldable pub crt_constant : ℕ → ℕ → ℕ → CrtConstant
crt_constant index prefix_product modulus =
    if index == 0
    then record {
      prefix = 1;
      modulus = modulus;
      prior_product_mod_modulus = 1 % modulus;
      inverse_prior_product_mod_modulus = some (1 % modulus);
    }
    else let prior_mod = prefix_product % modulus in
      record {
        prefix = index + 1;
        modulus = modulus;
        prior_product_mod_modulus = prior_mod;
        inverse_prior_product_mod_modulus =
            if gcd prior_mod modulus == 1 then mod_inverse prior_mod modulus else none;
      }

unfoldable pub crt_rows : ℕ → ℕ → List ℕ → List CrtConstant
crt_rows index prefix_product [] = []
crt_rows index prefix_product (modulus ∷ moduli) =
    crt_constant index prefix_product modulus
    ∷ crt_rows (index + 1) (prefix_product * modulus) moduli

unfoldable pub crt_prefix_constants : List ℕ → List CrtConstant
unfolding crt_constant crt_rows
crt_prefix_constants moduli = crt_rows 0 1 moduli
