-- ===== src/Schema/Events/Lengths.antt =====
-- The number of phases that a backend reports.
use rns.Prelude.{
  ℕ, zero, suc, ◌+◌, ◌*◌, ◌≡◌, Bool, true, false, List, [], ◌∷◌, String, length, length-append,
  refl, arith, ap, ◌∙◌, if◌then◌else◌,
}
use rns.Schema.Events.{
  each_prefix, prefix_event_labels, ck_deep_gpu_event_phases, rocwmma_deep_gpu_event_phases,
}

length-prefix_event_labels :
    (prefix : String) (index : ℕ) (suffixes : List String)
    → length (prefix_event_labels prefix index suffixes) ≡ length suffixes
length-prefix_event_labels prefix index [] = refl
length-prefix_event_labels prefix index (s ∷ ss) =
    ap suc (length-prefix_event_labels prefix index ss)

length-each_prefix :
    (prefix : String) (suffixes : List String) (index count : ℕ)
    → length (each_prefix prefix suffixes index count) ≡ count * length suffixes
unfolding each_prefix
length-each_prefix prefix suffixes index zero = omega arith
length-each_prefix prefix suffixes index (suc count) =
    length-append (prefix_event_labels prefix index suffixes)
      (each_prefix prefix suffixes (suc index) count)
    ∙ omega (
      arith,
      length-prefix_event_labels prefix index suffixes,
      length-each_prefix prefix suffixes (suc index) count,
    )

-- The CK backend reports five phases, one more where it clears output tiles, and five for each
-- prefix.
pub length-ck_deep_gpu_event_phases :
    (prefix_count : ℕ) (zero_output_tiles : Bool)
    → length (ck_deep_gpu_event_phases prefix_count zero_output_tiles)
      ≡ 5 + (if zero_output_tiles then 1 else 0) + 5 * prefix_count
unfolding ck_deep_gpu_event_phases
length-ck_deep_gpu_event_phases n true = omega (
  arith,
  length-each_prefix "ck_prefix_"
      ("pack_a" ∷ "pack_b" ∷ "matmul" ∷ "copy_centered" ∷ "add_centered" ∷ []) 0 n,
)
length-ck_deep_gpu_event_phases n false = omega (
  arith,
  length-each_prefix "ck_prefix_"
      ("pack_a" ∷ "pack_b" ∷ "matmul" ∷ "copy_centered" ∷ "add_centered" ∷ []) 0 n,
)

-- The rocWMMA backend reports two phases for a prepacked B and three otherwise, one more where it
-- clears output tiles, and for each prefix again two or three.
pub length-rocwmma_deep_gpu_event_phases :
    (prefix_count : ℕ) (use_prepacked_b zero_output_tiles : Bool)
    → length (rocwmma_deep_gpu_event_phases prefix_count use_prepacked_b zero_output_tiles)
      ≡ (if use_prepacked_b then 2 else 3)
        + (if zero_output_tiles then 1 else 0)
        + (if use_prepacked_b then 2 else 3) * prefix_count
unfolding rocwmma_deep_gpu_event_phases
length-rocwmma_deep_gpu_event_phases n true true = omega (
  arith,
  length-each_prefix "rocwmma_prefix_" ("pack_a_prepacked_b" ∷ "matmul_prepacked_b" ∷ []) 0 n,
)
length-rocwmma_deep_gpu_event_phases n true false = omega (
  arith,
  length-each_prefix "rocwmma_prefix_" ("pack_a_prepacked_b" ∷ "matmul_prepacked_b" ∷ []) 0 n,
)
length-rocwmma_deep_gpu_event_phases n false true =
    omega (arith, length-each_prefix "rocwmma_prefix_" ("pack_a" ∷ "pack_b" ∷ "matmul" ∷ []) 0 n)
length-rocwmma_deep_gpu_event_phases n false false =
    omega (arith, length-each_prefix "rocwmma_prefix_" ("pack_a" ∷ "pack_b" ∷ "matmul" ∷ []) 0 n)
