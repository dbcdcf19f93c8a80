-- ===== src/Searching/Bounds.antt =====
-- LowerBound, UpperBound, BinarySearch, Last and Count (dsa/searching/searching.go) on a sorted
-- slice.
use Prim.Native.Nat.Ordering.{lt, eq, gt}
use learn_go.Prelude.{
  ℕ, zero, suc, ◌+◌, ◌≡◌, ◌≢◌, refl, ap, Bool, true, false, none, some, List, [], ◌∷◌, arith,
  if◌then◌else◌, ltb, Ordering,
}
use learn_go.Prelude.Int.{sub_ℕ}
use learn_go.Prelude.Ordered.{Ordered, lt_of_gt, gt_of_lt}
use learn_go.Searching.{
  at_index, at_least, exceeds, equals, lower_bound, upper_bound, in_range_and, binary_search, last,
  count, linear,
}
use learn_go.Searching.Rank.{rank, AllOf, IsCut, partition-rank, rank-all}

module _ {ℓ} {K : Type ℓ} ⦃o : Ordered K⦄ where
  -- No element is above a later one.
  abbrev pub IsAscending : List K → Type 0
  IsAscending [] = Unit
  IsAscending (x ∷ s) = AllOf (λ y. o.cmp x y ≢ gt) s × IsAscending s

  at_least_up : (t x y : K) → o.cmp x y ≢ gt → at_least t x ≡ true → at_least t y ≡ true
  at_least_up t x y h a = ground (arith, o.same_of_cmp x y, o.chain x y t)

  exceeds_up : (t x y : K) → o.cmp x y ≢ gt → exceeds t x ≡ true → exceeds t y ≡ true
  exceeds_up t x y h a =
      ground (arith, o.same_of_cmp x y, lt_of_gt x t, gt_of_lt t y, o.chain t x y)

  AllOf-up :
      (p : K → Bool) (x : K) (s : List K)
      → ((y : K) → o.cmp x y ≢ gt → p y ≡ true)
      → AllOf (λ y. o.cmp x y ≢ gt) s
      → AllOf (λ y. p y ≡ true) s
  AllOf-up p x [] f h = tt
  AllOf-up p x (y ∷ s) f h = (f y h.0, AllOf-up p x s f h.1)

  pub at_least-IsCut : (t : K) (s : List K) → IsAscending s → IsCut (at_least t) s
  at_least-IsCut t [] h = tt
  at_least-IsCut t (x ∷ s) h =
      (λ a. AllOf-up (at_least t) x s (λ y b. at_least_up t x y b a) h.0, at_least-IsCut t s h.1)

  exceeds-IsCut : (t : K) (s : List K) → IsAscending s → IsCut (exceeds t) s
  exceeds-IsCut t [] h = tt
  exceeds-IsCut t (x ∷ s) h =
      (λ a. AllOf-up (exceeds t) x s (λ y b. exceeds_up t x y b a) h.0, exceeds-IsCut t s h.1)

  pub lower_bound-rank :
      (s : List K) (t : K) → IsAscending s → lower_bound s t ≡ some (rank (at_least t) s)
  unfolding lower_bound
  lower_bound-rank s t h = partition-rank (at_least t) s (at_least-IsCut t s h)

  pub upper_bound-rank :
      (s : List K) (t : K) → IsAscending s → upper_bound s t ≡ some (rank (exceeds t) s)
  unfolding upper_bound
  upper_bound-rank s t h = partition-rank (exceeds t) s (exceeds-IsCut t s h)

  -- How often `t` stands in a slice.
  abbrev pub occurrences : K → List K → ℕ
  occurrences t [] = 0
  occurrences t (x ∷ s) = let rest = occurrences t s in if equals t x then suc rest else rest

  rank-gap :
      (t : K) (s : List K)
      → IsAscending s
      → rank (exceeds t) s ≡ rank (at_least t) s + occurrences t s
  rank-gap t [] h = omega arith
  rank-gap t (x ∷ s) h =
      let cut = exceeds-IsCut t (x ∷ s) h in
      let cut' = at_least-IsCut t (x ∷ s) h in
      ground (
        arith,
        rank-gap t s h.1,
        λ (e : exceeds t x ≡ true). rank-all (exceeds t) s (cut.0 e),
        λ (e : at_least t x ≡ true). rank-all (at_least t) s (cut'.0 e),
      )

  -- Count of a sorted slice is the number of the elements that equal the target.
  pub count-occurrences : (s : List K) (t : K) → IsAscending s → count s t ≡ some (occurrences t s)
  unfolding count
  count-occurrences s t h =
      rw (upper_bound-rank s t h, lower_bound-rank s t h) (ap some (omega (arith, rank-gap t s h)))

  linear_above : (t : K) (s : List K) → AllOf (λ y. exceeds t y ≡ true) s → linear s t ≡ none
  unfolding linear
  linear_above t [] h = refl
  linear_above t (x ∷ s) h = ground (arith, linear_above t s h.1)

  search_here :
      (s : List K) (t : K)
      → IsAscending s
      → (found : Bool) × (in_range_and s (equals t) (rank (at_least t) s) ≡ some found)
        × (linear s t ≡ (if found then some (rank (at_least t) s) else none))
  unfolding in_range_and linear
  search_here [] t h = (false, refl, refl)
  search_here (x ∷ s) t h = split (o.cmp x t) refl (search_here s t h.1)
    where
      split :
          (w : Ordering)
          → o.cmp x t ≡ w
          → (found : Bool) × (in_range_and s (equals t) (rank (at_least t) s) ≡ some found)
            × (linear s t ≡ (if found then some (rank (at_least t) s) else none))
          → (found : Bool) × (in_range_and (x ∷ s) (equals t) (rank (at_least t) (x ∷ s))
              ≡ some found)
            × (linear (x ∷ s) t ≡ (if found then some (rank (at_least t) (x ∷ s)) else none))
      split lt e (true, p, q) = (true, ground arith, ground arith)
      split lt e (false, p, q) = (false, ground arith, ground arith)
      split eq e r = (true, ground arith, ground arith)
      split gt e r =
          let none_left = linear_above t s ((exceeds-IsCut t (x ∷ s) h).0 (rw (e, exceeds) refl)) in
          (false, ground arith, ground arith)

  -- On a sorted slice BinarySearch finds what Linear finds, with the same index; where the target
  -- is absent, its index is that of the first larger element.
  pub binary_search-linear :
      (s : List K) (t : K)
      → IsAscending s
      → (found : Bool) × (binary_search s t ≡ some (rank (at_least t) s, found))
        × (linear s t ≡ (if found then some (rank (at_least t) s) else none))
  unfolding binary_search
  binary_search-linear s t h =
      let (found, here, scan) = search_here s t h in
      (found, rw (lower_bound-rank s t h, here) refl, scan)

  last_here :
      (s : List K) (t : K)
      → IsAscending s
      → (n : ℕ) → rank (exceeds t) s ≡ suc n
      → at_index s (equals t) n ≡ some (ltb 0 (occurrences t s))
  last_here [] t h n e = absurd (omega arith)
  last_here (x ∷ s) t h zero e = ground (
    arith,
    rank-gap t s h.1,
    λ (a : exceeds t x ≡ true). rank-all (exceeds t) s ((exceeds-IsCut t (x ∷ s) h).0 a),
    λ (a : at_least t x ≡ true). rank-all (at_least t) s ((at_least-IsCut t (x ∷ s) h).0 a),
  )
  last_here (x ∷ s) t h (suc n) e = ground (
    arith,
    last_here s t h.1 n,
    rank-gap t s h.1,
    λ (a : at_least t x ≡ true). rank-all (at_least t) s ((at_least-IsCut t (x ∷ s) h).0 a),
  )

  -- Last of a sorted slice tells whether the target occurs, with the index before the first larger
  -- element, -1 if there is none before it.
  pub last-occurrences :
      (s : List K) (t : K)
      → IsAscending s
      → last s t ≡ some (sub_ℕ (rank (exceeds t) s) 1, ltb 0 (occurrences t s))
  unfolding last
  last-occurrences s t h = split (rank (exceeds t) s) refl (upper_bound-rank s t h)
    where
      split :
          (u : ℕ)
          → rank (exceeds t) s ≡ u
          → upper_bound s t ≡ some (rank (exceeds t) s)
          → last s t ≡ some (sub_ℕ (rank (exceeds t) s) 1, ltb 0 (occurrences t s))
      split zero e b = let gap = rank-gap t s h in rw (b, e) (ground arith)
      split (suc i) e b = rw (b, e, last_here s t h i e) (ground arith)
