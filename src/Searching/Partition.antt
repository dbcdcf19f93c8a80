-- ===== src/Searching/Partition.antt =====
-- Partition (dsa/searching/searching.go): the boundary that the binary search finds.
use learn_go.Prelude.{
  ℕ, zero, suc, ◌+◌, ◌-◌, ◌/◌, ◌≤◌, ◌<◌, ◌≡◌, refl, ◌⊎◌, inl, inr, Bool, true, false, Option, some,
  arith, lt→ltb, lt_or_ge,
}
use learn_go.Searching.{partition, partition_loop}

abbrev mid : ℕ → ℕ → ℕ
mid lo hi = lo + (hi - lo) / 2

-- `r` is an edge of `f` within `n`: the answer there is true, or it is the end, and the answer just
-- before it is false, or it is the start.
pub record IsEdge (f : ℕ → Bool) (n r : ℕ) : Type 0 where
  pub within : r ≤ n
  pub before : (r ≡ 0) ⊎ (f (r - 1) ≡ false)
  pub after : (r ≡ n) ⊎ (f r ≡ true)

module _ (f : ℕ → Bool) (pred : ℕ → Option Bool) (n : ℕ)
    (safe : (i : ℕ) → i < n → pred i ≡ some (f i)) where
  -- The loop, entered with its invariant, returns an edge.
  abbrev Finds : ℕ → ℕ → ℕ → Type 0
  Finds fuel lo hi =
      hi ≤ lo + fuel
      → lo ≤ hi
      → hi ≤ n
      → (lo ≡ 0) ⊎ (f (lo - 1) ≡ false)
      → (hi ≡ n) ⊎ (f hi ≡ true)
      → (r : ℕ) × (partition_loop fuel pred lo hi ≡ some r) × IsEdge f n r

  mid_inside : (lo hi : ℕ) → lo < hi → mid lo hi < hi
  mid_inside lo hi h = ground arith

  round :
      (fuel lo hi : ℕ)
      → lo < hi
      → ((lo hi : ℕ) → Finds fuel lo hi)
      → (w : Bool) → f (mid lo hi) ≡ w
      → Finds (suc fuel) lo hi
  unfolding partition_loop
  round fuel lo hi less ih true w e h k b a =
      let inside = mid_inside lo hi less in
      let (r, done, edge) = ih lo (mid lo hi) (omega arith) (omega arith) (omega arith) b (inr w) in
      (r, rw (lt→ltb lo hi less, safe (mid lo hi) (omega arith), w) done, edge)
  round fuel lo hi less ih false w e h k b a =
      let inside = mid_inside lo hi less in
      let back : mid lo hi + 1 - 1 ≡ mid lo hi = omega arith in
      let (r, done, edge) =
        ih (mid lo hi + 1) hi (omega arith) (omega arith) k (inr (rw back w)) a in
      (r, rw (lt→ltb lo hi less, safe (mid lo hi) (omega arith), w) done, edge)

  loop-Finds : (fuel lo hi : ℕ) → Finds fuel lo hi
  unfolding partition_loop
  loop-Finds zero lo hi e h k b a =
      let same : hi ≡ lo = omega arith in
      (lo, ground arith, record { within = omega arith; before = b; after = rw same at a })
  loop-Finds (suc fuel) lo hi e h k b a = elim (lt_or_ge lo hi) [
    | inl less ↦ round fuel lo hi less (loop-Finds fuel) (f (mid lo hi)) refl e h k b a
    | inr done ↦
        let same : hi ≡ lo = omega arith in
        (lo, ground arith, record { within = omega arith; before = b; after = rw same at a })
  ]

-- Partition returns an edge of any predicate that is defined on the range, monotonic or not.
pub partition-IsEdge :
    (n : ℕ) (pred : ℕ → Option Bool) (f : ℕ → Bool)
    → ((i : ℕ) → i < n → pred i ≡ some (f i))
    → (r : ℕ) × (partition n pred ≡ some r) × IsEdge f n r
unfolding partition
partition-IsEdge n pred f safe =
    loop-Finds f pred n safe n 0 n (omega arith) (omega arith) (omega arith) (inl refl) (inl refl)

abbrev pub IsMonotonic : (ℕ → Bool) → ℕ → Type 0
IsMonotonic f n = (i j : ℕ) → i ≤ j → j < n → f i ≡ true → f j ≡ true

-- Partition returns the boundary of a monotonic predicate: its answer is false below the result
-- and true from there on.
pub partition_boundary :
    (n : ℕ) (pred : ℕ → Option Bool) (f : ℕ → Bool)
    → ((i : ℕ) → i < n → pred i ≡ some (f i))
    → IsMonotonic f n
    → (r : ℕ) × (partition n pred ≡ some r)
      × (r ≤ n)
      × ((i : ℕ) → i < r → f i ≡ false)
      × ((i : ℕ) → r ≤ i → i < n → f i ≡ true)
partition_boundary n pred f safe mono =
    let (r, done, edge) = partition-IsEdge n pred f safe in
    (r, done, edge.within, λ i h. low r edge i h, λ i h k. high r edge i h k)
  where
    low : (r : ℕ) → IsEdge f n r → (i : ℕ) → i < r → f i ≡ false
    low r edge i h = elim edge.before [
      | inl e ↦ absurd (omega arith)
      | inr e ↦ ground (arith, edge.within, mono i (r - 1))
    ]

    high : (r : ℕ) → IsEdge f n r → (i : ℕ) → r ≤ i → i < n → f i ≡ true
    high r edge i h k = elim edge.after [ inl e ↦ absurd (omega arith) | inr e ↦ mono r i h k e ]
