-- ===== src/Intervals/Depth.antt =====
-- AnyOverlap and TotalCovered (dsa/patterns/intervals/intervals.go), by counting.
use learn_go.Prelude.{
  ℕ, zero, suc, ◌+◌, ◌-◌, ◌≤◌, ◌<◌, ◌≡◌, refl, ◌∙◌, sym, max, min, true, false, Option, none, some,
  List, [], ◌∷◌, if◌then◌else◌, Ordering, arith, inl, inr, Bool-cases, lt_or_ge,
}
use learn_go.Intervals.{
  Interval, contains, overlaps, by_start, non_empty, put_before, sort_func, merge, adjacent_overlap,
  any_overlap, sum_lengths, total_covered,
}
use learn_go.Intervals.Points.{covers, MergedFrom, StartsFrom, covers-before, sort_func-StartsFrom}
use learn_go.Intervals.Merge.{merge-IsMerged}

-- How many of the intervals contain the point.
abbrev pub depth : List Interval → ℕ → ℕ
depth [] point = 0
depth (iv ∷ s) point = let rest = depth s point in if contains iv point then suc rest else rest

depth-put_before :
    (by : Interval → Interval → Ordering) (iv : Interval) (s : List Interval) (point : ℕ)
    → depth (put_before by iv s) point ≡ depth (iv ∷ s) point
depth-put_before by iv [] point = refl
depth-put_before by iv (x ∷ s) point = ground (arith, depth-put_before by iv s point)

depth-sort_func :
    (by : Interval → Interval → Ordering) (s : List Interval) (point : ℕ)
    → depth (sort_func by s) point ≡ depth s point
depth-sort_func by [] point = refl
depth-sort_func by (x ∷ s) point =
    rw (depth-put_before by x (sort_func by s) point, depth-sort_func by s point) refl

-- None is empty, and each ends before the next starts, or where it starts.
abbrev ApartFrom : ℕ → List Interval → Type 0
ApartFrom n [] = Unit
ApartFrom n (iv ∷ s) = (n ≤ iv.start) × (iv.start < iv.end) × ApartFrom iv.end s

depth-before : (n point : ℕ) (s : List Interval) → ApartFrom n s → point < n → depth s point ≡ 0
depth-before n point [] a h = refl
depth-before n point (iv ∷ s) (a, b, c) h =
    let rest = depth-before iv.end point s c (omega arith) in ground arith

depth_bound : (n point : ℕ) (s : List Interval) → ApartFrom n s → depth s point ≤ 1
depth_bound n point [] a = omega arith
depth_bound n point (iv ∷ s) (a, b, c) =
    ground
      (arith, depth_bound iv.end point s c, λ (h : point < iv.end). depth-before iv.end point s c h)

adjacent_overlap-ApartFrom :
    (x : Interval) (n : ℕ) (s : List Interval)
    → StartsFrom n (x ∷ s)
    → adjacent_overlap (x ∷ s) ≡ none
    → ApartFrom x.end s
adjacent_overlap-ApartFrom x n [] a e = tt
adjacent_overlap-ApartFrom x n (y ∷ s) (a, b, (c, d, f)) e = elim (Bool-cases (overlaps x y)) [
  | inl meet ↦ cc (rw meet at e)
  | inr apart ↦
      let rest = adjacent_overlap-ApartFrom y x.start s (c, d, f) (rw apart at e) in
      (ground arith, d, rest)
]

-- What AnyOverlap answers about the points.
abbrev pub Overlapping : List Interval → Option (Interval × Interval) → Type 0
Overlapping s none = (point : ℕ) → depth s point ≤ 1
Overlapping s (some (x, y)) = 2 ≤ depth s (max x.start y.start)

two_meet :
    (x y : Interval) (s : List Interval)
    → overlaps x y ≡ true
    → 2 ≤ depth (x ∷ y ∷ s) (max x.start y.start)
two_meet x y s h = ground arith

adjacent_overlap-Overlapping :
    (s : List Interval) (x y : Interval)
    → adjacent_overlap s ≡ some (x, y)
    → Overlapping s (some (x, y))
adjacent_overlap-Overlapping [] x y e = cc e
adjacent_overlap-Overlapping (a ∷ []) x y e = cc e
adjacent_overlap-Overlapping (a ∷ b ∷ s) x y e = elim (Bool-cases (overlaps a b)) [
  | inl meet ↦
      let answer = rw meet at e in
      let first : a ≡ x = cc answer in
      let second : b ≡ y = cc answer in rw (sym first, sym second) (two_meet a b s meet)
  | inr apart ↦ let rest = adjacent_overlap-Overlapping (b ∷ s) x y (rw apart at e) in ground arith
]

none_apart :
    (sorted : List Interval)
    → StartsFrom 0 sorted
    → adjacent_overlap sorted ≡ none
    → (point : ℕ) → depth sorted point ≤ 1
none_apart [] a e point = omega arith
none_apart (x ∷ s) (a, b, c) e point =
    depth_bound 0 point (x ∷ s) (a, b, adjacent_overlap-ApartFrom x 0 s (a, b, c) e)

-- If AnyOverlap returns two intervals, a point lies in two of the given ones or more. If it
-- returns none and no given interval is empty, no point lies in two of them.
pub any_overlap-Overlapping :
    (s : List Interval)
    → ((x y : Interval) → any_overlap s ≡ some (x, y) → Overlapping s (some (x, y)))
      × (non_empty s ≡ s → any_overlap s ≡ none → Overlapping s none)
unfolding any_overlap
any_overlap-Overlapping s = (
  λ x y e.
      let two = adjacent_overlap-Overlapping (sort_func by_start s) x y e in
      rw (depth-sort_func by_start s (max x.start y.start)) at two,
  λ full e point.
      let sorted = rw full at (sort_func-StartsFrom s) in
      let one = none_apart (sort_func by_start s) sorted e point in
      rw (depth-sort_func by_start s point) at one,
)

-- How many of the points below `n` are covered.
abbrev pub count_below : List Interval → ℕ → ℕ
count_below s zero = 0
count_below s (suc n) = let rest = count_below s n in if covers s n then suc rest else rest

count_below-same :
    (s r : List Interval) (n : ℕ)
    → ((point : ℕ) → covers s point ≡ covers r point)
    → count_below s n ≡ count_below r n
count_below-same s r zero h = refl
count_below-same s r (suc n) h = rw (h n, count_below-same s r n h) refl

count_below-first :
    (x : Interval) (s : List Interval) (n : ℕ)
    → x.start < x.end
    → MergedFrom (suc x.end) s
    → count_below (x ∷ s) n ≡ (min n x.end - min n x.start) + count_below s n
count_below-first x s zero h g = omega arith
count_below-first x s (suc n) h g =
    let rest = count_below-first x s n h g in
    let before : n < suc x.end → covers s n ≡ false = λ k. covers-before (suc x.end) n s g k in
    elim (lt_or_ge x.end n) [
      | inl above ↦ ground arith
      | inr below ↦ let none_here = before (omega arith) in ground arith
    ]

count_below_nothing : (n : ℕ) → count_below [] n ≡ 0
count_below_nothing zero = refl
count_below_nothing (suc n) = count_below_nothing n

sum_lengths-count_below :
    (m n : ℕ) (s : List Interval)
    → MergedFrom m s
    → ((point : ℕ) → n ≤ point → covers s point ≡ false)
    → sum_lengths s ≡ count_below s n
sum_lengths-count_below m n [] g h = sym (count_below_nothing n)
sum_lengths-count_below m n (x ∷ s) (a, b, c) h =
    let rest =
      sum_lengths-count_below (suc x.end) n s c
        (λ point k. let none_here = h point k in ground arith) in
    let first = count_below-first x s n b c in
    let last : n ≤ x.end - 1 → covers (x ∷ s) (x.end - 1) ≡ false = h (x.end - 1) in
    let fits : x.end ≤ n = elim (lt_or_ge n x.end) [
      | inl over ↦ let missed = last (omega arith) in ground arith
      | inr under ↦ under
    ] in
    ground arith

-- TotalCovered is the number of the points that are covered, below any bound on them.
pub total_covered-count :
    (s : List Interval) (n : ℕ)
    → ((point : ℕ) → n ≤ point → covers s point ≡ false)
    → total_covered s ≡ count_below s n
unfolding total_covered
total_covered-count s n h =
    let (merged, same) = merge-IsMerged s in
    sum_lengths-count_below 0 n (merge s) merged (λ point k. same point ∙ h point k)
    ∙ count_below-same (merge s) s n same
