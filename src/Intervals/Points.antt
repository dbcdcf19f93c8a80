-- ===== src/Intervals/Points.antt =====
-- The points that intervals cover, and sorting (dsa/patterns/intervals/intervals.go).
use learn_go.Prelude.{
  ℕ, suc, ◌≤◌, ◌<◌, ◌≡◌, refl, max, min, Bool, false, ◌||◌, List, [], ◌∷◌, Ordering, arith, inl,
  inr, Bool-cases,
}
use learn_go.Intervals.{Interval, is_empty, contains, by_start, non_empty, put_before, sort_func}

-- Whether a point lies in one of the intervals.
abbrev pub covers : List Interval → ℕ → Bool
covers [] point = false
covers (iv ∷ s) point = contains iv point || covers s point

-- Not empty, apart and in order, from `n` on.
abbrev pub MergedFrom : ℕ → List Interval → Type 0
MergedFrom n [] = Unit
MergedFrom n (iv ∷ s) = (n ≤ iv.start) × (iv.start < iv.end) × MergedFrom (suc iv.end) s

-- What Merge promises: no interval is empty, and each ends before the next starts, with a gap.
abbrev pub IsMerged : List Interval → Type 0
IsMerged s = MergedFrom 0 s

-- Not empty, and in the order of the starts, from `n` on.
abbrev pub StartsFrom : ℕ → List Interval → Type 0
StartsFrom n [] = Unit
StartsFrom n (iv ∷ s) = (n ≤ iv.start) × (iv.start < iv.end) × StartsFrom iv.start s

pub StartsFrom-earlier : (m n : ℕ) (s : List Interval) → m ≤ n → StartsFrom n s → StartsFrom m s
StartsFrom-earlier m n [] h g = tt
StartsFrom-earlier m n (iv ∷ s) h (a, b, c) = (omega arith, b, c)

-- The hull of two intervals that overlap or touch covers what they cover.
pub contains-hull :
    (x y : Interval) (point : ℕ)
    → x.start < x.end
    → y.start < y.end
    → x.start ≤ y.end
    → y.start ≤ x.end
    → contains (record { start = min x.start y.start; end = max x.end y.end }) point
      ≡ (contains x point || contains y point)
contains-hull x y point h k a b = ground arith

pub MergedFrom-earlier : (m n : ℕ) (s : List Interval) → m ≤ n → MergedFrom n s → MergedFrom m s
MergedFrom-earlier m n [] h g = tt
MergedFrom-earlier m n (iv ∷ s) h (a, b, c) = (omega arith, b, c)

pub covers-before :
    (n point : ℕ) (s : List Interval) → MergedFrom n s → point < n → covers s point ≡ false
covers-before n point [] h k = refl
covers-before n point (iv ∷ s) (a, b, c) k =
    let rest = covers-before (suc iv.end) point s c (omega arith) in ground arith

pub covers-non_empty : (s : List Interval) (point : ℕ) → covers (non_empty s) point ≡ covers s point
covers-non_empty [] point = refl
covers-non_empty (iv ∷ s) point = let rest = covers-non_empty s point in ground arith

covers-put_before :
    (by : Interval → Interval → Ordering) (iv : Interval) (s : List Interval) (point : ℕ)
    → covers (put_before by iv s) point ≡ (contains iv point || covers s point)
covers-put_before by iv [] point = refl
covers-put_before by iv (x ∷ s) point = ground (arith, covers-put_before by iv s point)

pub covers-sort_func :
    (by : Interval → Interval → Ordering) (s : List Interval) (point : ℕ)
    → covers (sort_func by s) point ≡ covers s point
covers-sort_func by [] point = refl
covers-sort_func by (x ∷ s) point =
    rw (covers-put_before by x (sort_func by s) point, covers-sort_func by s point) refl

put_before-StartsFrom :
    (n : ℕ) (iv : Interval) (s : List Interval)
    → n ≤ iv.start
    → iv.start < iv.end
    → StartsFrom n s
    → StartsFrom n (put_before by_start iv s)
put_before-StartsFrom n iv [] h k g = (h, k, tt)
put_before-StartsFrom n iv (x ∷ s) h k (a, b, c) =
    ground (arith, λ (e : x.start ≤ iv.start). put_before-StartsFrom x.start iv s e k c)

pub sort_func-StartsFrom : (s : List Interval) → StartsFrom 0 (sort_func by_start (non_empty s))
sort_func-StartsFrom [] = tt
sort_func-StartsFrom (iv ∷ s) = elim (Bool-cases (is_empty iv)) [
  | inl empty ↦ rw empty (sort_func-StartsFrom s)
  | inr full ↦ rw full (
      put_before-StartsFrom 0 iv (sort_func by_start (non_empty s)) (omega arith) (ground arith)
        (sort_func-StartsFrom s))
]
