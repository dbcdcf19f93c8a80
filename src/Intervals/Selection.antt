-- ===== src/Intervals/Selection.antt =====
-- MaxNonOverlapping (dsa/patterns/intervals/intervals.go): its selection is a largest one.
use learn_go.Prelude.{ℕ, ◌≤◌, ◌<◌, List, [], ◌∷◌}
use learn_go.Intervals.{Interval, by_end, non_empty, sort_func}
use learn_go.Intervals.Members.{AllIn}

-- None is empty, and each ends before the next starts, or where it starts, from `n` on.
abbrev pub ApartFrom : ℕ → List Interval → Type 0
ApartFrom n [] = Unit
ApartFrom n (iv ∷ s) = (n ≤ iv.start) × (iv.start < iv.end) × ApartFrom iv.end s

-- A selection of the intervals of which no two overlap, in their order.
pub record IsSelection (s chosen : List Interval) : Type 0 where
  pub from : AllIn chosen s
  pub apart : ApartFrom 0 chosen

-- None is empty, and they are in the order of the ends, from `n` on.
abbrev EndsFrom : ℕ → List Interval → Type 0
EndsFrom n [] = Unit
EndsFrom n (iv ∷ s) = (n ≤ iv.end) × (iv.start < iv.end) × EndsFrom iv.end s

abbrev sorted : List Interval → List Interval
sorted s = sort_func by_end (non_empty s)
