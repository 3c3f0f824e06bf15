-- ===== src/Ladder/Generated.antt =====
-- The generated candidates: the greedy list is pairwise coprime and not too long, and the lengths
-- of number-theoretic transforms are the powers of two that they should be.
use native.Mathlib.Nat
use rns.Prelude.{
  ℕ, zero, suc, ◌+◌, ◌-◌, ◌*◌, ◌%◌, ◌^◌, ◌<◌, ◌≤◌, ◌≡◌, refl, true, false, arith, List, [], ◌∷◌,
  ◌++◌, All, all, any, ◌==◌, leb, leb→le, le→leb, length, length-append, Bool-cases, inl, inr, Bool,
  ==_iff, dec_lt, if◌then◌else◌, ap,
}
use rns.Python.Gcd.{gcd, gcd_comm}
use rns.Ladder.Moduli.{is_coprime_set, is_prime, lengths_from, ntt_friendly_lengths}
use rns.Ladder.Search.{choose, greedy_coprime}

all-snoc :
    {A : Type 0} (p : A → Bool) (xs : List A) (x : A)
    → all p xs ≡ true
    → p x ≡ true
    → all p (xs ++ x ∷ []) ≡ true
all-snoc p [] x h k = ground arith
all-snoc p (y ∷ xs) x h k = ground (arith, all-snoc p xs x)

is_coprime_set-snoc :
    (xs : List ℕ) (v : ℕ)
    → is_coprime_set xs ≡ true
    → all (λ x. gcd v x == 1) xs ≡ true
    → is_coprime_set (xs ++ v ∷ []) ≡ true
unfolding is_coprime_set
is_coprime_set-snoc [] v h k = refl
is_coprime_set-snoc (x ∷ xs) v h k =
    ground (arith, gcd_comm v x, all-snoc (λ y. gcd x y == 1) xs v, is_coprime_set-snoc xs v)

choose-coprime :
    (value : ℕ) (chosen : List ℕ)
    → is_coprime_set chosen ≡ true
    → is_coprime_set (choose value chosen) ≡ true
unfolding choose
choose-coprime value chosen h = ground (arith, is_coprime_set-snoc chosen value h)

length-choose : (value : ℕ) (chosen : List ℕ) → length (choose value chosen) ≤ length chosen + 1
unfolding choose
length-choose value chosen = ground (arith, length-append chosen (value ∷ []))

-- The greedy loop keeps the chosen moduli pairwise coprime and, from fewer than `size`, never
-- chooses more than `size`.
pub greedy_coprime_lem :
    (size : ℕ) (chosen values : List ℕ)
    → is_coprime_set chosen ≡ true
    → length chosen < size
    → (is_coprime_set (greedy_coprime size chosen values) ≡ true)
      × (length (greedy_coprime size chosen values) ≤ size)
unfolding greedy_coprime
greedy_coprime_lem size chosen [] h short = (h, omega arith)
greedy_coprime_lem size chosen (value ∷ values) h short = ground (
  arith,
  choose-coprime value chosen h,
  length-choose value chosen,
  greedy_coprime_lem size (choose value chosen) values,
)

-- The loop of `ntt_friendly_lengths` from the length `2 ^ k`: what it returns, and that it misses
-- nothing.
abbrev pub IsFriendly : ℕ → ℕ → ℕ → Type 0
IsFriendly value max_length len =
    (j : ℕ) × (len ≡ 2 ^ j) × (len ≤ max_length) × ((value - 1) % (2 * len) ≡ 0)

doubled : (k : ℕ) → 2 ^ k * 2 ≡ 2 ^ suc k
doubled k = omega (arith, Nat.pow-suc 2 k)

lengths_from-IsFriendly :
    (fuel value max_length k : ℕ)
    → All (IsFriendly value max_length) (lengths_from fuel value max_length (2 ^ k))
unfolding lengths_from
lengths_from-IsFriendly zero value max_length k = tt
lengths_from-IsFriendly (suc fuel) value max_length k = elim (Bool-cases (leb (2 ^ k) max_length)) [
  | inr past ↦ rw (past, lengths_from) tt
  | inl below ↦ elim (Bool-cases ((value - 1) % (2 * 2 ^ k) == 0)) [
    | inl hit ↦
        rw (below, hit, lengths_from, doubled k)
          (
            (k, refl, leb→le _ _ below, (==_iff _ 0).0 hit),
            lengths_from-IsFriendly fuel value max_length (suc k),
          )
    | inr miss ↦
        rw (below, miss, lengths_from, doubled k)
          (lengths_from-IsFriendly fuel value max_length (suc k))
  ]
]

any_shift :
    (p : ℕ → Bool) (b : Bool) (x : ℕ) (xs : List ℕ)
    → any p xs ≡ true
    → any p (if b then x ∷ xs else xs) ≡ true
any_shift p true x xs h = ground arith
any_shift p false x xs h = h

pow_mono : (i j : ℕ) → i ≤ j → 2 ^ i ≤ 2 ^ j
pow_mono i j h = Nat.pow-le-pow_right {n = 2} (omega arith) h

lengths_from_finds :
    (fuel value max_length k j : ℕ)
    → k ≤ j
    → 2 ^ j ≤ max_length
    → max_length < 2 ^ k + fuel
    → (value - 1) % (2 * 2 ^ j) ≡ 0
    → any (λ len. len == 2 ^ j) (lengths_from fuel value max_length (2 ^ k)) ≡ true
unfolding lengths_from
lengths_from_finds zero value max_length k j le below enough hit =
    absurd (omega (arith, pow_mono k j le))
lengths_from_finds (suc fuel) value max_length k j le below enough hit =
    let inside = le→leb (2 ^ k) max_length (omega (arith, pow_mono k j le)) in
    elim (dec_lt k j) [
      | no p ↦
          let same : k ≡ j = omega arith in
          let hit_here : (value - 1) % (2 * 2 ^ k) ≡ 0 = rw same hit in
          let found = (==_iff (2 ^ k) (2 ^ j)).1 (ap (λ t. 2 ^ t) same) in
          rw (inside, lengths_from, (==_iff _ 0).1 hit_here, found) refl
      | yes p ↦
          rw (inside, lengths_from, doubled k)
            (any_shift _ ((value - 1) % (2 * 2 ^ k) == 0) (2 ^ k) _ (
              lengths_from_finds fuel value max_length (suc k) j p below
                (omega (arith, doubled k, pow_mono 0 k (omega arith))) hit))
    ]

-- For a prime the lengths are powers of two up to the limit with `2 * len` a divisor of
-- `value - 1`, and no such power of two is missing. For any other number there are none.
pub ntt_friendly_lengths_lem :
    (value max_length : ℕ)
    → All (IsFriendly value max_length) (ntt_friendly_lengths value max_length)
      × ((j : ℕ)
          → is_prime value ≡ true
          → 2 ^ j ≤ max_length
          → (value - 1) % (2 * 2 ^ j) ≡ 0
          → any (λ len. len == 2 ^ j) (ntt_friendly_lengths value max_length) ≡ true)
      × (is_prime value ≡ false → ntt_friendly_lengths value max_length ≡ [])
unfolding ntt_friendly_lengths
ntt_friendly_lengths_lem value max_length = (
  elim (Bool-cases (is_prime value)) [
    | inl prime ↦ rw prime (lengths_from-IsFriendly max_length value max_length 0)
    | inr other ↦ rw other tt
  ],
  λ j prime below hit.
      rw prime
        (lengths_from_finds max_length value max_length 0 j (omega arith) below (omega arith) hit),
  λ other. rw other refl,
)
