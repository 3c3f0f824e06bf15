-- ===== src/Ladder/Review.antt =====
-- What a candidate's disposition and the report promise.
use rns.Prelude.{
  ℕ, ◌^◌, ◌<◌, ◌≤◌, ◌≡◌, ◌↔◌, refl, true, false, arith, List, [], ◌∷◌, map, All, ◌&&◌, leb, ltb,
  String, count_if, Bool,
}
use rns.Ladder.Moduli.{is_coprime_set, product_bits}
use rns.Ladder.Search.{
  SearchItem, candidate_ready_for_benchmark, candidate_disposition, reducer_cost_summary,
  candidate_report, build_report, review_item,
}
use rns.Ladder.Residues.{SameResidues, bits_suffice}

none_above :
    (limit : ℕ) (xs : List ℕ)
    → (count_if (λ value. ltb limit value) xs ≡ 0) ↔ All (λ m. m ≤ limit) xs
none_above limit [] = (λ h. tt, λ h. refl)
none_above limit (x ∷ xs) =
    (λ h. ground (arith, none_above limit xs), λ h. ground (arith, none_above limit xs))

-- A candidate is ready for the benchmark exactly if its moduli are pairwise coprime, their product
-- has the required bits, and each fits a byte's range of 256 values.
pub ready_iff :
    (moduli : List ℕ) (min_bits : ℕ)
    → (candidate_disposition
          (is_coprime_set moduli)
          (product_bits moduli)
          (reducer_cost_summary moduli)
          min_bits
        ≡ candidate_ready_for_benchmark)
      ↔ ((is_coprime_set moduli ≡ true)
          × (min_bits ≤ product_bits moduli)
          × All (λ m. m ≤ 256) moduli)
unfolding candidate_disposition reducer_cost_summary
ready_iff moduli min_bits =
    (λ h. ground (arith, none_above 256 moduli), λ h. ground (arith, none_above 256 moduli))

All-mapped {ℓ κ μ} :
    {A : Type ℓ} {B : Type κ} (P : B → Type μ) (f : A → B) (xs : List A)
    → ((x : A) → P (f x))
    → All P (map f xs)
All-mapped P f [] h = tt
All-mapped P f (x ∷ xs) h = (h x, All-mapped P f xs h)

-- What an item of the report says is true of its moduli.
pub record IsSound (min_bits : ℕ) (item : SearchItem) : Type 0 where
  pub unselectable : item.candidate.runtime_selectable ≡ false
  pub unpromoted : item.candidate.promotion_eligible ≡ false
  pub flag : (item.satisfies_min_bits ≡ true) ↔ (
      (min_bits ≤ product_bits item.candidate.moduli)
      × (is_coprime_set item.candidate.moduli ≡ true))
  pub ready :
      item.candidate.disposition ≡ candidate_ready_for_benchmark
      → (b x y : ℕ) → b < min_bits
      → SameResidues x y item.candidate.moduli
      → x < 2 ^ b
      → y < 2 ^ b
      → x ≡ y

module _ (min_bits : ℕ) (name : String) (moduli : List ℕ) where
  flag_iff :
      ((leb min_bits (product_bits moduli) && is_coprime_set moduli) ≡ true)
      ↔ ((min_bits ≤ product_bits moduli) × (is_coprime_set moduli ≡ true))
  flag_iff = (λ h. ground arith, λ h. ground arith)

  review_item-IsSound : IsSound min_bits (review_item min_bits (name, moduli))
  unfolding review_item candidate_report
  review_item-IsSound = record {
    unselectable = refl;
    unpromoted = refl;
    flag = flag_iff;
    ready = λ h b x y enough same lx ly.
        let (co, bits, bytes) = (ready_iff moduli min_bits).0 h in
        bits_suffice moduli b x y co (omega arith) same lx ly;
  }

-- Every item of the report is evidence only: it is neither selectable at run time nor eligible for
-- promotion. Its flag says that the product has the bits and the moduli are coprime. A
-- candidate that is ready tells all numbers of fewer bits apart by their residues.
pub build_report-IsSound :
    (candidates : List (String × List ℕ)) (min_bits : ℕ) (include_generated : Bool)
    → All (IsSound min_bits) (build_report candidates min_bits include_generated)
unfolding build_report
build_report-IsSound candidates min_bits include_generated =
    All-mapped (IsSound min_bits) (review_item min_bits) _
      λ (name, moduli). review_item-IsSound min_bits name moduli
