-- ===== src/Ladder/Examples.antt =====
-- The theorems on ladders, applied to small ladders and to the default one.
use rns.Prelude.{
  ℕ, ◌-◌, ◌*◌, ◌%◌, ◌^◌, ◌<◌, ◌≤◌, ◌≡◌, ◌≢◌, ◌↔◌, true, false, refl, arith, List, [], ◌∷◌, take,
  length, get_elem?, All, any, all, and_true, ltb, ltb→lt, ◌==◌, Option, some,
}
use rns.Trial.{IsPrime}
use rns.Python.Gcd.{gcd}
use rns.Python.BitLength.{bit_length}
use rns.Ladder.Moduli.{
  default_moduli, is_coprime_set, is_prime, product, product_loop, product_bits,
  ntt_friendly_lengths,
}
use rns.Ladder.Prefixes.{
  Dict, lookup, required_prefixes, default_required_bits, CrtConstant, crt_prefix_constants,
  prefix_products, prefix_rows, first_prefix, first_prefixes, row_passes, satisfied,
}
use rns.Ladder.Search.{
  candidate_disposition, candidate_ready_for_benchmark, reducer_cost_summary, build_report,
  greedy_coprime,
}
use rns.Ladder.Coprime.{PairwiseCoprime, is_coprime_set_iff}
use rns.Ladder.Primality.{is_prime_iff}
use rns.Ladder.Residues.{SameResidues, residues_determine, bits_suffice, bits_needed}
use rns.Ladder.Crt.{IsInverseRow, crt_constants_invert}
use rns.Ladder.Ranges.{IsAnswer, required_prefixes_least}
use rns.Ladder.Reported.{reported_prefix_suffices, u64_prefix_aliases}
use rns.Ladder.Review.{IsSound, ready_iff, build_report-IsSound}
use rns.Ladder.Generated.{IsFriendly, greedy_coprime_lem, ntt_friendly_lengths_lem}

abbrev pair : List ℕ
pair = 256 ∷ 255 ∷ []

pair-is_coprime_set : is_coprime_set pair ≡ true
unfolding is_coprime_set gcd
pair-is_coprime_set = refl

residues_determine_example : ◌≡◌ {A = ℕ} 7 7
unfolding product product_loop
residues_determine_example =
    residues_determine pair 7 7 pair-is_coprime_set (refl, (refl, tt)) (omega arith) (omega arith)

is_coprime_set_iff_example : (is_coprime_set pair ≡ true) ↔ PairwiseCoprime pair
is_coprime_set_iff_example = is_coprime_set_iff pair

is_prime_iff_example : (is_prime 251 ≡ true) ↔ IsPrime 251
is_prime_iff_example = is_prime_iff 251

crt_constants_invert_example :
    (c : CrtConstant) × (get_elem? (crt_prefix_constants pair) 1 ≡ some c)
    × IsInverseRow c 1 (product (take 1 pair)) 255
crt_constants_invert_example =
    crt_constants_invert pair 1 255 pair-is_coprime_set (omega arith, (omega arith, tt)) refl

required_prefixes_least_example :
    (o : Option ℕ) × (lookup "bounded_i64_full_signed"
        (required_prefixes default_moduli default_required_bits)
      ≡ some o)
    × IsAnswer default_moduli 65 o
unfolding lookup
required_prefixes_least_example =
    required_prefixes_least default_moduli default_required_bits "bounded_i64_full_signed" 65 refl

abbrev two_bits : Dict ℕ
two_bits = ("pair", 9) ∷ []

reported_prefix_suffices_example : ◌≡◌ {A = ℕ} 200 200
unfolding lookup required_prefixes prefix_products prefix_rows first_prefix first_prefixes
    row_passes satisfied product_bits bit_length product product_loop
reported_prefix_suffices_example =
    reported_prefix_suffices pair two_bits "pair" 8 1 200 200 pair-is_coprime_set refl refl
      (refl, tt) (omega arith) (omega arith)

positive : (xs : List ℕ) → all (λ m. ltb 0 m) xs ≡ true → All (λ m. 0 < m) xs
positive [] h = tt
positive (x ∷ xs) h =
    let (head, tail) = and_true (ltb 0 x) (all (λ m. ltb 0 m) xs) h in
    (ltb→lt 0 x head, positive xs tail)

default-positive : All (λ m. 0 < m) default_moduli
default-positive = positive default_moduli refl

default_u64_prefix :
    lookup "bounded_u64_full_unsigned" (required_prefixes default_moduli default_required_bits)
    ≡ some (some 8)
unfolding lookup required_prefixes prefix_products prefix_rows first_prefix first_prefixes
    row_passes satisfied product_bits bit_length product product_loop
default_u64_prefix = refl

u64_prefix_aliases_example :
    (product_bits (take 8 default_moduli) ≡ 64)
    × (x : ℕ) × (y : ℕ) × (x < 2 ^ 64)
    × (y < 2 ^ 64)
    × (x ≢ y)
    × SameResidues x y (take 8 default_moduli)
unfolding product_bits bit_length product product_loop
u64_prefix_aliases_example =
    u64_prefix_aliases default_moduli 8 default-positive default_u64_prefix (omega arith)

bits_suffice_example : ◌≡◌ {A = ℕ} 200 200
unfolding product_bits bit_length product product_loop
bits_suffice_example =
    bits_suffice pair 15 200 200 pair-is_coprime_set (omega arith) (refl, (refl, tt)) (omega arith)
      (omega arith)

bits_needed_example :
    (x : ℕ) × (y : ℕ) × (x < 2 ^ 16) × (y < 2 ^ 16) × (x ≢ y) × SameResidues x y pair
unfolding product_bits bit_length product product_loop
bits_needed_example = bits_needed pair 16 (omega arith, (omega arith, tt)) (omega arith)

ready_iff_example :
    (candidate_disposition
        (is_coprime_set default_moduli)
        (product_bits default_moduli)
        (reducer_cost_summary default_moduli)
        65
      ≡ candidate_ready_for_benchmark)
    ↔ ((is_coprime_set default_moduli ≡ true)
        × (65 ≤ product_bits default_moduli)
        × All (λ m. m ≤ 256) default_moduli)
ready_iff_example = ready_iff default_moduli 65

build_report-IsSound_example :
    All (IsSound 65) (build_report (("current_default", default_moduli) ∷ []) 65 true)
build_report-IsSound_example =
    build_report-IsSound (("current_default", default_moduli) ∷ []) 65 true

greedy_coprime_lem_example :
    (is_coprime_set (greedy_coprime 2 [] (6 ∷ 4 ∷ 5 ∷ [])) ≡ true)
    × (length (greedy_coprime 2 [] (6 ∷ 4 ∷ 5 ∷ [])) ≤ 2)
unfolding is_coprime_set
greedy_coprime_lem_example = greedy_coprime_lem 2 [] (6 ∷ 4 ∷ 5 ∷ []) refl (omega arith)

ntt_friendly_lengths_lem_example :
    All (IsFriendly 193 32) (ntt_friendly_lengths 193 32)
    × ((j : ℕ)
        → is_prime 193 ≡ true
        → 2 ^ j ≤ 32
        → (193 - 1) % (2 * 2 ^ j) ≡ 0
        → any (λ len. len == 2 ^ j) (ntt_friendly_lengths 193 32) ≡ true)
    × (is_prime 193 ≡ false → ntt_friendly_lengths 193 32 ≡ [])
ntt_friendly_lengths_lem_example = ntt_friendly_lengths_lem 193 32
