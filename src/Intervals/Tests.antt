-- ===== src/Intervals/Tests.antt =====
-- Runs of dsa/patterns/intervals, and its theorems at concrete intervals.
use learn_go.Prelude.{
  ℕ, ◌+◌, ◌-◌, ◌≤◌, ◌≡◌, refl, true, ◌||◌, ◌&&◌, not, none, some, List, [], ◌∷◌, arith,
}
use learn_go.Prelude.Int.{pos, ◌+ℤ◌}
use learn_go.Intervals.Rooms.{min_rooms-depth}
use learn_go.Intervals.{
  origin, min_rooms, Interval, contains, touches, merge, insert, any_overlap, intersection,
  subtract, total_covered, max_non_overlapping, min_removals, non_empty,
}
use learn_go.Intervals.Points.{covers, IsMerged}
use learn_go.Intervals.Merge.{merge-IsMerged, insert-IsMerged}
use learn_go.Intervals.Combine.{covers-intersection, covers-subtract}
use learn_go.Intervals.Depth.{depth, Overlapping, any_overlap-Overlapping}

abbrev from_to : ℕ → ℕ → Interval
from_to a b = record { start = a; end = b }

abbrev meetings : List Interval
meetings = from_to 6 8 ∷ from_to 1 3 ∷ from_to 9 9 ∷ from_to 2 5 ∷ from_to 8 9 ∷ []

abbrev free : List Interval
free = from_to 0 2 ∷ from_to 4 7 ∷ []

abbrev busy : List Interval
busy = from_to 1 5 ∷ from_to 6 9 ∷ []

-- AnyOverlap misses two intervals that overlap, if the sort leaves an empty one between them.
hidden_overlap :
    (any_overlap (from_to 0 10 ∷ from_to 2 2 ∷ from_to 3 5 ∷ []) ≡ none)
    × (depth (from_to 0 10 ∷ from_to 2 2 ∷ from_to 3 5 ∷ []) 4 ≡ 2)
unfolding any_overlap
hidden_overlap = (refl, refl)

runs :
    (merge meetings ≡ busy)
    × (insert busy (from_to 5 6) ≡ from_to 1 9 ∷ [])
    × (intersection free busy ≡ some (from_to 1 2 ∷ from_to 4 5 ∷ from_to 6 7 ∷ []))
    × (subtract (from_to 0 7) meetings ≡ from_to 0 1 ∷ from_to 5 6 ∷ [])
    × (max_non_overlapping meetings ≡ from_to 1 3 ∷ from_to 6 8 ∷ from_to 8 9 ∷ [])
    × (min_removals meetings ≡ 1)
    × (total_covered meetings ≡ 7)
    × (touches (from_to 1 2) (from_to 2 3) ≡ true)
unfolding merge insert intersection subtract max_non_overlapping min_removals total_covered
runs = (refl, refl, refl, refl, refl, refl, refl, refl)

merge-IsMerged_example :
    IsMerged (merge meetings)
    × ((point : ℕ) → covers (merge meetings) point ≡ covers meetings point)
merge-IsMerged_example = merge-IsMerged meetings

busy-IsMerged : IsMerged busy
busy-IsMerged = ground arith

insert-IsMerged_example :
    IsMerged (insert busy (from_to 5 6))
    × ((point : ℕ)
        → covers (insert busy (from_to 5 6)) point
          ≡ (contains (from_to 5 6) point || covers busy point))
insert-IsMerged_example = insert-IsMerged busy (from_to 5 6) busy-IsMerged

covers-intersection_example :
    (out : List Interval) × (intersection free busy ≡ some out)
    × IsMerged out
    × ((point : ℕ) → covers out point ≡ (covers free point && covers busy point))
covers-intersection_example = covers-intersection free busy (ground arith) busy-IsMerged

covers-subtract_example :
    covers (subtract (from_to 0 7) meetings) 5
    ≡ (contains (from_to 0 7) 5 && not (covers meetings 5))
covers-subtract_example = covers-subtract (from_to 0 7) meetings 5

any_overlap-Overlapping_example :
    ((x y : Interval) → any_overlap meetings ≡ some (x, y) → Overlapping meetings (some (x, y)))
    × (non_empty meetings ≡ meetings → any_overlap meetings ≡ none → Overlapping meetings none)
any_overlap-Overlapping_example = any_overlap-Overlapping meetings

-- Of [-5, -3), [-4, -1) and [-3, 2) the first and the last are kept: the first may start below 0.
abbrev below_zero : List Interval
below_zero =
    from_to (origin - 4) (origin - 1)
    ∷ from_to (origin - 3) (origin + 2)
    ∷ from_to (origin - 5) (origin - 3)
    ∷ []

selection_below_zero :
    max_non_overlapping below_zero
    ≡ from_to (origin - 5) (origin - 3) ∷ from_to (origin - 3) (origin + 2) ∷ []
unfolding max_non_overlapping
selection_below_zero = refl

-- A meeting that starts when another ends shares its room.
rooms_runs :
    (min_rooms meetings ≡ pos 2)
    × (min_rooms (from_to 1 2 ∷ from_to 2 3 ∷ from_to 2 2 ∷ []) ≡ pos 1)
    × (min_rooms [] ≡ pos 0)
unfolding min_rooms ◌+ℤ◌
rooms_runs = (refl, refl, refl)

min_rooms-depth_example :
    (most : ℕ) × (min_rooms meetings ≡ pos most)
    × ((time : ℕ) → depth meetings time ≤ most)
    × ((time : ℕ) × (depth meetings time ≡ most))
min_rooms-depth_example = min_rooms-depth meetings
