-- ===== src/Ladder/Reported.antt =====
-- What the reported prefixes are good for: the prefix of an entry tells the numbers of its range
-- apart, where the entry asks for a bit more than the range has.
use rns.Prelude.{
  ℕ, zero, suc, ◌^◌, ◌<◌, ◌≤◌, ◌≡◌, ◌≢◌, refl, true, arith, List, [], ◌∷◌, take, String, some, All,
  all, and_true, sym, ◌∙◌, subst, ◌==◌, Bool,
}
use rns.Python.Gcd.{gcd}
use rns.Ladder.Moduli.{is_coprime_set, product_bits}
use rns.Ladder.Prefixes.{Dict, lookup, required_prefixes, default_required_bits}
use rns.Ladder.Residues.{SameResidues, bits_suffice, bits_needed}
use rns.Ladder.Ranges.{IsAnswer, IsLeastPrefix, required_prefixes_least}

all-take :
    {A : Type 0} (f : A → Bool) (n : ℕ) (xs : List A) → all f xs ≡ true → all f (take n xs) ≡ true
all-take f zero xs h = refl
all-take f (suc n) [] h = refl
all-take f (suc n) (x ∷ xs) h =
    let (head, tail) = and_true (f x) (all f xs) h in rw (head, all-take f n xs tail) refl

All-take : {A : Type 0} (P : A → Type 0) (n : ℕ) (xs : List A) → All P xs → All P (take n xs)
All-take P zero xs h = tt
All-take P (suc n) [] h = tt
All-take P (suc n) (x ∷ xs) (h, hs) = (h, All-take P n xs hs)

is_coprime_set-take :
    (n : ℕ) (moduli : List ℕ) → is_coprime_set moduli ≡ true → is_coprime_set (take n moduli) ≡ true
unfolding is_coprime_set
is_coprime_set-take zero moduli h = refl
is_coprime_set-take (suc n) [] h = refl
is_coprime_set-take (suc n) (x ∷ xs) h =
    let (head, tail) = and_true (all (λ y. gcd x y == 1) xs) (is_coprime_set xs) h in
    rw (all-take (λ y. gcd x y == 1) n xs head, is_coprime_set-take n xs tail) refl

some_inj : {A : Type 0} (a b : A) → some a ≡ some b → a ≡ b
some_inj a b h = cc h

reported :
    (moduli : List ℕ) (required_bits : Dict ℕ) (name : String) (bits p : ℕ)
    → lookup name required_bits ≡ some bits
    → lookup name (required_prefixes moduli required_bits) ≡ some (some p)
    → IsLeastPrefix moduli bits p
reported moduli required_bits name bits p known answer =
    let (o, given, least) = required_prefixes_least moduli required_bits name bits known in
    subst (IsAnswer moduli bits) (some_inj o (some p) (sym given ∙ answer)) least

-- In a ladder that is pairwise coprime, the prefix reported for an entry of `b + 1` bits tells all
-- numbers below `2 ^ b` apart.
pub reported_prefix_suffices :
    (moduli : List ℕ) (required_bits : Dict ℕ) (name : String) (b p x y : ℕ)
    → is_coprime_set moduli ≡ true
    → lookup name required_bits ≡ some (suc b)
    → lookup name (required_prefixes moduli required_bits) ≡ some (some p)
    → SameResidues x y (take p moduli)
    → x < 2 ^ b
    → y < 2 ^ b
    → x ≡ y
reported_prefix_suffices moduli required_bits name b p x y coprime known answer same lx ly =
    let least = reported moduli required_bits name (suc b) p known answer in
    let room : suc b ≤ product_bits (take p moduli) = least.reaches in
    bits_suffice (take p moduli) b x y (is_coprime_set-take p moduli coprime) (omega arith) same lx
      ly

u64_bits : lookup "bounded_u64_full_unsigned" default_required_bits ≡ some 64
unfolding lookup
u64_bits = refl

-- The prefix that the default requirements report for `bounded_u64_full_unsigned` is too short
-- wherever its product has no more than the 64 bits asked for: two different numbers below `2 ^ 64`
-- have the same residues.
pub u64_prefix_aliases :
    (moduli : List ℕ) (p : ℕ)
    → All (λ m. 0 < m) moduli
    → lookup "bounded_u64_full_unsigned" (required_prefixes moduli default_required_bits)
      ≡ some (some p)
    → product_bits (take p moduli) ≤ 64
    → (product_bits (take p moduli) ≡ 64)
      × (x : ℕ) × (y : ℕ) × (x < 2 ^ 64)
      × (y < 2 ^ 64)
      × (x ≢ y)
      × SameResidues x y (take p moduli)
u64_prefix_aliases moduli p positive answer tight =
    let least =
      reported moduli default_required_bits "bounded_u64_full_unsigned" 64 p u64_bits answer in
    let room : 64 ≤ product_bits (take p moduli) = least.reaches in
    let (x, y, lx, ly, differ, same) =
      bits_needed (take p moduli) 64 (All-take _ p moduli positive) tight in
    (omega arith, x, y, lx, ly, differ, same)
