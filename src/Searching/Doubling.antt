-- ===== src/Searching/Doubling.antt =====
-- Exponential (dsa/searching/searching.go): the doubled bound and the window behind it.
use learn_go.Prelude.{
  ℕ, zero, suc, ◌+◌, ◌-◌, ◌*◌, ◌/◌, ◌≤◌, ◌<◌, ◌≡◌, refl, ap, ◌∙◌, sym, inl, inr, Bool, true, false,
  not, ◌&&◌, leb, Option, none, some, List, [], ◌∷◌, length, length-take, get_elem?, take, drop,
  min, arith, lt_or_ge, Bool-cases, lt→ltb,
}
use learn_go.Prelude.Index.{get_elem?-drop, get_elem?-take, get_elem?-none}
use learn_go.Prelude.Ordered.{Ordered}
use learn_go.Searching.{
  at_index, at_least, equals, is_below, lower_bound, in_range_and, binary_search, double,
  search_window, exponential,
}
use learn_go.Searching.Rank.{rank, AllOf, IsCut, answer, answer-not_all}
use learn_go.Searching.Bounds.{IsAscending, at_least-IsCut, lower_bound-rank}

module _ {ℓ} {A : Type ℓ} where
  rank_le : (p : A → Bool) (s : List A) → rank p s ≤ length s
  rank_le p [] = omega arith
  rank_le p (x ∷ s) = ground (arith, rank_le p s)

  rank_at_most : (p : A → Bool) (s : List A) (i : ℕ) → answer p s i ≡ true → rank p s ≤ i
  rank_at_most p [] i h = omega arith
  rank_at_most p (x ∷ s) zero h = ground arith
  rank_at_most p (x ∷ s) (suc i) h = ground (arith, rank_at_most p s i)

  rank_past :
      (p : A → Bool) (s : List A) (i : ℕ)
      → IsCut p s
      → i < length s
      → answer p s i ≡ false
      → i < rank p s
  rank_past p [] i c h e = absurd (omega arith)
  rank_past p (x ∷ s) zero c h e = ground arith
  rank_past p (x ∷ s) (suc i) c h e =
      ground (
        arith,
        rank_past p s i c.1,
        λ (a : p x ≡ true). answer-not_all p s i (omega arith) (c.0 a) e,
      )

  rank-take : (p : A → Bool) (n : ℕ) (s : List A) → rank p (take n s) ≡ min n (rank p s)
  rank-take p zero s = omega arith
  rank-take p (suc n) [] = omega arith
  rank-take p (suc n) (x ∷ s) = ground (arith, rank-take p n s)

  rank-drop : (p : A → Bool) (n : ℕ) (s : List A) → n ≤ rank p s → rank p (drop n s) ≡ rank p s - n
  rank-drop p zero s h = omega arith
  rank-drop p (suc n) [] h = omega arith
  rank-drop p (suc n) (x ∷ s) h = ground (arith, rank-drop p n s)

  -- A test in range is a test of the element that is there.
  test_at : (A → Bool) → Option A → Option Bool
  test_at p none = some false
  test_at p (some x) = some (p x)

  test_at_returns : (p : A → Bool) (x : Option A) → (b : Bool) × (test_at p x ≡ some b)
  unfolding test_at
  test_at_returns p none = (false, refl)
  test_at_returns p (some x) = (p x, refl)

  in_range_and-test_at :
      (s : List A) (p : A → Bool) (i : ℕ) → in_range_and s p i ≡ test_at p (get_elem? s i)
  unfolding in_range_and test_at
  in_range_and-test_at [] p i = ground arith
  in_range_and-test_at (x ∷ s) p zero = ground arith
  in_range_and-test_at (x ∷ s) p (suc i) = ground (arith, in_range_and-test_at s p i)

  -- The slice `s[lo:hi]` at an index.
  get_elem?-window :
      (s : List A) (lo hi r : ℕ)
      → lo ≤ r
      → r ≤ hi
      → (r ≡ hi → hi ≡ length s)
      → get_elem? (take (hi - lo) (drop lo s)) (r - lo) ≡ get_elem? s r
  get_elem?-window s lo hi r a b d = elim (lt_or_ge r hi) [
    | inl inside ↦
        get_elem?-take (hi - lo) (drop lo s) (r - lo) (omega arith)
        ∙ (get_elem?-drop lo s (r - lo) ∙ ap (get_elem? s) (omega arith))
    | inr end ↦
        get_elem?-none (take (hi - lo) (drop lo s)) (r - lo)
          (omega (arith, length-take (hi - lo) (drop lo s)))
        ∙ sym (get_elem?-none s r (omega (arith, d (omega arith))))
  ]

  AllOf-take : (P : A → Type 0) (n : ℕ) (s : List A) → AllOf P s → AllOf P (take n s)
  AllOf-take P zero s h = tt
  AllOf-take P (suc n) [] h = tt
  AllOf-take P (suc n) (x ∷ s) h = (h.0, AllOf-take P n s h.1)

module _ {ℓ} {K : Type ℓ} ⦃o : Ordered K⦄ where
  take-IsAscending : (n : ℕ) (s : List K) → IsAscending s → IsAscending (take n s)
  take-IsAscending zero s h = tt
  take-IsAscending (suc n) [] h = tt
  take-IsAscending (suc n) (x ∷ s) h = (AllOf-take _ n s h.0, take-IsAscending n s h.1)

  drop-IsAscending : (n : ℕ) (s : List K) → IsAscending s → IsAscending (drop n s)
  drop-IsAscending zero s h = h
  drop-IsAscending (suc n) [] h = tt
  drop-IsAscending (suc n) (x ∷ s) h = drop-IsAscending n s h.1

  -- What the loop of Exponential leaves: the target is past the half of the bound, and not past it.
  record IsBound (s : List K) (t : K) (b : ℕ) : Type 0 where
    past : b / 2 < rank (at_least t) s
    reached : rank (at_least t) s ≤ b

  at_index_below :
      (s : List K) (t : K) (i : ℕ)
      → i < length s
      → at_index s (is_below t) i ≡ some (not (answer (at_least t) s i))
  at_index_below [] t i h = absurd (omega arith)
  at_index_below (x ∷ s) t zero h = ground arith
  at_index_below (x ∷ s) t (suc i) h = at_index_below s t i (omega arith)

  double-IsBound :
      (fuel : ℕ) (s : List K) (t : K) (b : ℕ)
      → IsCut (at_least t) s
      → length s < b + fuel
      → 0 < b
      → b / 2 < rank (at_least t) s
      → (r : ℕ) × (double fuel s t b ≡ some r) × IsBound s t r
  unfolding double
  double-IsBound zero s t b c f z h =
      (b, ground arith, record { past = h; reached = omega (arith, rank_le (at_least t) s) })
  double-IsBound (suc fuel) s t b c f z h = elim (lt_or_ge b (length s)) [
    | inr done ↦
        (b, ground arith, record { past = h; reached = omega (arith, rank_le (at_least t) s) })
    | inl less ↦ elim (Bool-cases (answer (at_least t) s b)) [
      | inl true_at ↦ (
        b,
        rw (lt→ltb b (length s) less, at_index_below s t b less, true_at) refl,
        record { past = h; reached = rank_at_most (at_least t) s b true_at },
      )
      | inr false_at ↦
          let below = rank_past (at_least t) s b c less false_at in
          let (r, done, bound) =
            double-IsBound fuel s t (b * 2) c (omega arith) (omega arith) (omega arith) in
          (r, rw (lt→ltb b (length s) less, at_index_below s t b less, false_at) done, bound)
    ]
  ]

  -- A search of the window is a search of the slice.
  window-rank :
      (s : List K) (t : K) (b : ℕ)
      → IsAscending s
      → IsBound s t b
      → search_window s t b ≡ binary_search s t
  unfolding search_window binary_search
  window-rank s t b h bound =
      let lo = b / 2 in
      let hi = min (b + 1) (length s) in
      let r = rank (at_least t) s in
      let window = take (hi - lo) (drop lo s) in
      let past : lo < r = bound.past in
      let reached : r ≤ hi = omega (arith, rank_le (at_least t) s, bound.reached) in
      let index : rank (at_least t) window ≡ r - lo =
        rank-take (at_least t) (hi - lo) (drop lo s)
        ∙ (ap (min (hi - lo)) (rank-drop (at_least t) lo s (omega arith)) ∙ omega arith) in
      let low : lower_bound window t ≡ some (r - lo) =
        lower_bound-rank window t (take-IsAscending (hi - lo) (drop lo s) (drop-IsAscending lo s h))
        ∙ ap some index in
      let same : in_range_and window (equals t) (r - lo) ≡ in_range_and s (equals t) r =
        in_range_and-test_at window (equals t) (r - lo)
        ∙ (ap (test_at (equals t))
              (get_elem?-window s lo hi r (omega arith) reached (λ e. omega (arith, bound.reached)))
            ∙ sym (in_range_and-test_at s (equals t) r)) in
      let back : lo + (r - lo) ≡ r = omega arith in
      let fits : (leb lo hi && leb hi (length s)) ≡ true = ground arith in
      rw (fits, low, same, back, lower_bound-rank s t h) refl

  search_front :
      (x : K) (s : List K) (t : K)
      → IsAscending (x ∷ s)
      → at_least t x ≡ true
      → binary_search (x ∷ s) t ≡ some (0, equals t x)
  unfolding binary_search in_range_and
  search_front x s t h e = rw (lower_bound-rank (x ∷ s) t h, e) (ground arith)

  exponential-same : (s : List K) (t : K) → IsAscending s → exponential s t ≡ binary_search s t
  unfolding exponential
  exponential-same [] t h = unfold binary_search in refl
  exponential-same (x ∷ s) t h = split (at_least t x) refl
    where
      split : (w : Bool) → at_least t x ≡ w → exponential (x ∷ s) t ≡ binary_search (x ∷ s) t
      split true e = rw e (sym (search_front x s t h e))
      split false e =
          let (b, done, bound) =
            double-IsBound (length (x ∷ s)) (x ∷ s) t 1 (at_least-IsCut t (x ∷ s) h) (omega arith)
              (omega arith) (ground arith) in
          rw (e, done) (window-rank (x ∷ s) t b h bound)

  -- BinarySearch of a sorted slice returns.
  binary_search_returns :
      (s : List K) (t : K)
      → IsAscending s
      → (index : ℕ) × (found : Bool) × (binary_search s t ≡ some (index, found))
  unfolding binary_search
  binary_search_returns s t h =
      let r = rank (at_least t) s in
      let (found, e) = test_at_returns (equals t) (get_elem? s r) in
      (r, found, rw (lower_bound-rank s t h, in_range_and-test_at s (equals t) r, e) refl)

  -- On a sorted slice Exponential returns an index and a flag, without an index or a bound of a
  -- slice out of range, and they are those that BinarySearch returns.
  pub exponential-binary_search :
      (s : List K) (t : K)
      → IsAscending s
      → (index : ℕ) × (found : Bool) × (exponential s t ≡ some (index, found))
        × (binary_search s t ≡ some (index, found))
  exponential-binary_search s t h =
      let (index, found, e) = binary_search_returns s t h in
      (index, found, exponential-same s t h ∙ e, e)
