-- ===== src/Ladder/Search.antt =====
-- The candidates of the search, the report on each, and their disposition.
use rns.Prelude.{
  ℕ, zero, suc, ◌%◌, Bool, true, false, not, ◌&&◌, ◌||◌, List, [], ◌∷◌, ◌++◌, map, length, take,
  count_if, all, any, String, str_eq, leb, ltb, ◌==◌, if◌then◌else◌, Option,
}
use rns.Python.Gcd.{gcd}
use rns.Ladder.Moduli.{
  default_moduli, is_hot_reducer, is_coprime_set, is_prime, product_bits, ReducerHint,
  generic_prime_reciprocal_candidate, single_byte_modulus_reciprocal_candidate, reducer_cost_hint,
  ntt_friendly_lengths,
}
use rns.Ladder.Prefixes.{
  Dict, default_required_bits, PrefixRow, prefix_products, required_prefixes, CrtConstant,
  crt_prefix_constants,
}

pub record ReducerSummary : Type 0 where
  pub hot_reducer_count : ℕ
  pub byte_modulus_count : ℕ
  pub prime_count : ℕ
  pub generic_reciprocal_count : ℕ
  pub non_byte_modulus_count : ℕ

-- `"reciprocal" in hint`
has_reciprocal : ReducerHint → Bool
has_reciprocal generic_prime_reciprocal_candidate = true
has_reciprocal single_byte_modulus_reciprocal_candidate = true
has_reciprocal _ = false

unfoldable pub reducer_cost_summary : List ℕ → ReducerSummary
unfolding has_reciprocal
reducer_cost_summary moduli = record {
  hot_reducer_count = count_if is_hot_reducer moduli;
  byte_modulus_count = count_if (λ value. leb 2 value && leb value 256) moduli;
  prime_count = count_if is_prime moduli;
  generic_reciprocal_count = count_if (λ value. has_reciprocal (reducer_cost_hint value)) moduli;
  non_byte_modulus_count = count_if (λ value. ltb 256 value) moduli;
}

unfoldable pub maximum : ℕ → List ℕ → ℕ
maximum best [] = best
maximum best (x ∷ xs) = maximum (if ltb best x then x else best) xs

pub record NttSummary : Type 0 where
  pub max_power2_length : ℕ
  pub per_modulus_power2_lengths : List (ℕ × List ℕ)

per_modulus : ℕ → List ℕ → List (ℕ × List ℕ)
per_modulus max_ntt_length [] = []
per_modulus max_ntt_length (value ∷ moduli) =
    let rest = per_modulus max_ntt_length moduli in
    let lengths = ntt_friendly_lengths value max_ntt_length in
    if length lengths == 0 then rest else (value, lengths) ∷ rest

longest : ℕ → List (ℕ × List ℕ) → ℕ
longest best [] = best
longest best ((_, lengths) ∷ rest) = longest (maximum best lengths) rest

-- The dict is keyed by `str(value)`; a modulus that occurs twice has two items here, with the
-- same lengths, where the dict has one.
unfoldable pub ntt_summary : List ℕ → ℕ → NttSummary
unfolding maximum per_modulus longest
ntt_summary moduli max_ntt_length =
    let table = per_modulus max_ntt_length moduli in
    record { max_power2_length = longest 0 table; per_modulus_power2_lengths = table }

-- The strings that `candidate_disposition` returns.
pub data Disposition : Type 0 where
  reject_not_pairwise_coprime reject_insufficient_range_bits : Disposition
  keep_research_non_byte_modulus candidate_ready_for_benchmark : Disposition

unfoldable pub candidate_disposition : Bool → ℕ → ReducerSummary → ℕ → Disposition
candidate_disposition pairwise_coprime bits summary min_bits =
    if not pairwise_coprime
    then reject_not_pairwise_coprime
    else if ltb bits min_bits
    then reject_insufficient_range_bits
    else if ltb 0 summary.non_byte_modulus_count
    then keep_research_non_byte_modulus
    else candidate_ready_for_benchmark

-- The report on one candidate, less its constant texts. `reducer_cost_hints` is a dict keyed by
-- the modulus; one that occurs twice has two equal items here.
pub record Candidate : Type 0 where
  pub name : String
  pub moduli : List ℕ
  pub prefix_count : ℕ
  pub bits : ℕ
  pub pairwise_coprime : Bool
  pub reducer_cost_hints : List (ℕ × ReducerHint)
  pub summary : ReducerSummary
  pub prefixes : Dict (Option ℕ)
  pub products : List PrefixRow
  pub crt_constants : List CrtConstant
  pub ntt_friendliness : NttSummary
  pub promotion_eligible : Bool
  pub runtime_selectable : Bool
  pub disposition : Disposition

unfoldable pub candidate_report : List ℕ → String → Candidate
candidate_report moduli name =
    let bits = product_bits moduli in
    let coprime = is_coprime_set moduli in
    let summary = reducer_cost_summary moduli in
    record {
      name = name;
      moduli = moduli;
      prefix_count = length moduli;
      bits = bits;
      pairwise_coprime = coprime;
      reducer_cost_hints = map (λ value. (value, reducer_cost_hint value)) moduli;
      summary = summary;
      prefixes = required_prefixes moduli default_required_bits;
      products = prefix_products moduli default_required_bits;
      crt_constants = crt_prefix_constants moduli;
      ntt_friendliness = ntt_summary moduli 128;
      promotion_eligible = false;
      runtime_selectable = false;
      disposition = candidate_disposition coprime bits summary 72;
    }

-- `range(top, 1, -1)`
down_to_two : ℕ → List ℕ
down_to_two zero = []
down_to_two (suc zero) = []
down_to_two (suc (suc n)) = suc (suc n) ∷ down_to_two (suc n)

keep : (ℕ → Bool) → List ℕ → List ℕ
keep test [] = []
keep test (x ∷ xs) = let rest = keep test xs in if test x then x ∷ rest else rest

-- `sorted(..., key=(longest length, value), reverse=True)`: larger keys come first.
key_before : ℕ → ℕ → Bool
key_before a b =
    let la = maximum 0 (ntt_friendly_lengths a 128) in
    let lb = maximum 0 (ntt_friendly_lengths b 128) in ltb lb la || (la == lb && ltb b a)

insert_key : ℕ → List ℕ → List ℕ
insert_key a [] = a ∷ []
insert_key a (b ∷ rest) = if key_before b a then b ∷ insert_key a rest else a ∷ b ∷ rest

sort_keys : List ℕ → List ℕ
sort_keys [] = []
sort_keys (a ∷ rest) = insert_key a (sort_keys rest)

-- One round of the greedy loop of `coprime_desc`.
unfoldable pub choose : ℕ → List ℕ → List ℕ
choose value chosen =
    if all (λ existing. gcd value existing == 1) chosen then chosen ++ value ∷ [] else chosen

-- The loop, which stops when the list is as long as the default ladder.
unfoldable pub greedy_coprime : ℕ → List ℕ → List ℕ → List ℕ
greedy_coprime size chosen [] = chosen
greedy_coprime size chosen (value ∷ values) =
    let more = greedy_coprime size (choose value chosen) values in
    if leb size (length (choose value chosen)) then choose value chosen else more

unfoldable pub generated_candidates : List (String × List ℕ)
unfolding down_to_two keep maximum key_before insert_key sort_keys choose greedy_coprime
generated_candidates =
    ("default", default_moduli)
    ∷ ("default-prefix9", take 9 default_moduli)
    ∷ ("default-prefix20", take 20 default_moduli)
    ∷ ("prime-ntt-front-byte", 256 ∷ take 27 (sort_keys (keep is_prime (down_to_two 251))))
    ∷ (
      "coprime-desc-byte",
      greedy_coprime (length default_moduli) (256 ∷ [])
          (keep (λ value. value % 2 == 1) (down_to_two 255)),
    )
    ∷ ("hot-four-anchor", take 4 default_moduli)
    ∷ []

has_name : String → List (String × List ℕ) → Bool
has_name name candidates = any (λ (other, _). str_eq other name) candidates

add_missing : List (String × List ℕ) → List (String × List ℕ) → List (String × List ℕ)
add_missing existing [] = []
add_missing existing ((name, values) ∷ rest) =
    let more = add_missing existing rest in
    if has_name name existing then more else (name, values) ∷ more

pub record SearchItem : Type 0 where
  pub candidate : Candidate
  pub satisfies_min_bits : Bool

unfoldable pub review_item : ℕ → (String × List ℕ) → SearchItem
review_item min_bits (name, values) =
    let item = candidate_report values name in
    record {
      candidate = record item {
        disposition = candidate_disposition item.pairwise_coprime item.bits item.summary min_bits;
      };
      satisfies_min_bits = leb min_bits item.bits && item.pairwise_coprime;
    }

unfoldable pub build_report : List (String × List ℕ) → ℕ → Bool → List SearchItem
unfolding has_name add_missing review_item
build_report candidates min_bits include_generated =
    let all_candidates =
      if include_generated || length candidates == 0
      then candidates ++ add_missing candidates generated_candidates
      else candidates in
    map (review_item min_bits) all_candidates
