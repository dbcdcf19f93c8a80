-- ===== src/Intervals.antt =====
-- dsa/patterns/intervals (intervals.go): half-open intervals and the algorithms on lists of them.
-- A coordinate is an int, which is held as the number `x + 2^63`: the order is that of the ints, the
-- least int is 0, and `origin` is the int 0. A length is the difference, without the overflow of
-- one that is 2^63 or more. slices.SortFunc is the insertion of each element before the
-- first that is not below it: ByStart and ByEnd tell all intervals apart, and the order of MinRooms
-- all events, so that every sort of the slice is this one.
use Prim.Native.Nat.{compare}
use Prim.Native.Nat.Ordering.{lt, eq, gt}
use learn_go.Prelude.{
  ℕ, zero, suc, ◌+◌, ◌-◌, max, min, Bool, true, false, ◌||◌, ◌&&◌, not, Option, none, some, ◌>>=◌,
  List, [], ◌∷◌, ◌++◌, length, if◌then◌else◌, ltb, leb, ◌==◌, Ordering,
}
use learn_go.Prelude.Int.{ℤ, pos, negsuc, ◌+ℤ◌, ltb_ℤ}
pub mod Points
pub mod Merge
mod Combine
mod Depth
mod Members
mod Selection
mod Rooms
mod Tests

-- The int 0, as a coordinate.
abbrev pub origin : ℕ
origin = 9_223_372_036_854_775_808

pub record Interval : Type 0 where
  pub start : ℕ
  pub end : ℕ

abbrev pub is_empty : Interval → Bool
is_empty i = leb i.end i.start

abbrev pub length_of : Interval → ℕ
length_of i = if is_empty i then 0 else i.end - i.start

abbrev pub contains : Interval → ℕ → Bool
contains i point = leb i.start point && ltb point i.end

abbrev pub overlaps : Interval → Interval → Bool
overlaps i other =
    if is_empty i || is_empty other then false else ltb i.start other.end && ltb other.start i.end

abbrev pub touches : Interval → Interval → Bool
touches i other =
    if is_empty i || is_empty other then false else leb i.start other.end && leb other.start i.end

abbrev pub intersect : Interval → Interval → Interval
intersect i other = record { start = max i.start other.start; end = min i.end other.end }

-- ByStart and ByEnd.
abbrev pub by_start : Interval → Interval → Ordering
by_start a b = if not (a.start == b.start) then compare a.start b.start else compare a.end b.end

abbrev pub by_end : Interval → Interval → Ordering
by_end a b = if not (a.end == b.end) then compare a.end b.end else compare a.start b.start

-- The loop that leaves out the empty intervals.
abbrev pub non_empty : List Interval → List Interval
non_empty [] = []
non_empty (iv ∷ s) = let rest = non_empty s in if not (is_empty iv) then iv ∷ rest else rest

abbrev pub put_before {ℓ} : {A : Type ℓ} → (A → A → Ordering) → A → List A → List A
put_before by iv [] = iv ∷ []
put_before by iv (x ∷ s) =
    let rest = put_before by iv s in elim (by iv x) [ gt ↦ x ∷ rest | _ ↦ iv ∷ x ∷ s ]

abbrev pub sort_func {ℓ} : {A : Type ℓ} → (A → A → Ordering) → List A → List A
sort_func by [] = []
sort_func by (x ∷ s) = put_before by x (sort_func by s)

-- The loop of Merge: the last interval of `out`, which may still grow, and what is left to read.
abbrev pub merge_loop : Interval → List Interval → List Interval
merge_loop last [] = last ∷ []
merge_loop last (iv ∷ s) =
    let joins = leb iv.start last.end in
    let rest = merge_loop (if joins then record last { end = max last.end iv.end } else iv) s in
    if joins then rest else last ∷ rest

abbrev pub merge_sorted : List Interval → List Interval
merge_sorted [] = []
merge_sorted (iv ∷ s) = merge_loop iv s

pub merge : List Interval → List Interval
merge s = merge_sorted (sort_func by_start (non_empty s))

-- The second loop of Insert and what follows it.
abbrev pub absorb : Interval → List Interval → List Interval
absorb add [] = add ∷ []
absorb add (x ∷ s) =
    let rest = absorb (record { start = min add.start x.start; end = max add.end x.end }) s in
    if leb x.start add.end then rest else add ∷ x ∷ s

-- The first loop of Insert.
abbrev pub copy_before : Interval → List Interval → List Interval
copy_before add [] = absorb add []
copy_before add (x ∷ s) =
    let rest = copy_before add s in if ltb x.end add.start then x ∷ rest else absorb add (x ∷ s)

pub insert : List Interval → Interval → List Interval
insert s add = if is_empty add then s else copy_before add s

-- The loop of AnyOverlap.
abbrev pub adjacent_overlap : List Interval → Option (Interval × Interval)
adjacent_overlap [] = none
adjacent_overlap (x ∷ []) = none
adjacent_overlap (x ∷ y ∷ s) =
    let rest = adjacent_overlap (y ∷ s) in if overlaps x y then some (x, y) else rest

pub any_overlap : List Interval → Option (Interval × Interval)
any_overlap s = adjacent_overlap (sort_func by_start s)

-- The loop of Intersection, on fuel; `none` is the fuel run out.
abbrev pub intersection_loop : ℕ → List Interval → List Interval → Option (List Interval)
intersection_loop fuel [] b = some []
intersection_loop fuel (x ∷ a) [] = some []
intersection_loop zero (x ∷ a) (y ∷ b) = none
intersection_loop (suc fuel) (x ∷ a) (y ∷ b) =
    let first = ltb x.end y.end in
    let rest = intersection_loop fuel (if first then a else x ∷ a) (if first then y ∷ b else b) in
    rest >>= λ out. some (if not (is_empty (intersect x y)) then intersect x y ∷ out else out)

pub intersection : List Interval → List Interval → Option (List Interval)
intersection a b = intersection_loop (length a + length b) a b

-- The end of Subtract, and its loop over the merged blocks.
abbrev pub subtract_rest : ℕ → ℕ → List Interval
subtract_rest at end = if ltb at end then record { start = at; end = end } ∷ [] else []

abbrev pub subtract_loop : ℕ → ℕ → List Interval → List Interval
subtract_loop at end [] = subtract_rest at end
subtract_loop at end (block ∷ s) =
    let next = if leb block.end at then at else max at block.end in
    let rest = subtract_loop next end s in
    let after = if leb end next then [] else rest in
    if leb block.end at
    then rest
    else if leb end block.start
    then subtract_rest at end
    else if ltb at block.start
    then record { start = at; end = block.start } ∷ after
    else after

pub subtract : Interval → List Interval → List Interval
unfolding merge
subtract base covered =
    if is_empty base then [] else subtract_loop base.start base.end (merge covered)

abbrev pub sum_lengths : List Interval → ℕ
sum_lengths [] = 0
sum_lengths (iv ∷ s) = length_of iv + sum_lengths s

pub total_covered : List Interval → ℕ
unfolding merge
total_covered s = sum_lengths (merge s)

-- The loop of MaxNonOverlapping, with lastEnd and started.
abbrev pub keep_loop : ℕ → Bool → List Interval → List Interval
keep_loop last_end started [] = []
keep_loop last_end started (iv ∷ s) =
    let overlapping = started && ltb iv.start last_end in
    let rest =
      keep_loop (if overlapping then last_end else iv.end) (if overlapping then started else true)
        s in
    if overlapping then rest else iv ∷ rest

pub max_non_overlapping : List Interval → List Interval
max_non_overlapping s = keep_loop origin false (sort_func by_end (non_empty s))

pub min_removals : List Interval → ℕ
unfolding max_non_overlapping
min_removals s = length (non_empty s) - length (max_non_overlapping s)

-- The events of MinRooms: `opens` stands for the delta +1, its negation for -1.
pub record Event : Type 0 where
  pub at : ℕ
  pub opens : Bool

abbrev pub events : List Interval → List Event
events [] = []
events (iv ∷ s) =
    let rest = events s in
    if is_empty iv
    then rest
    else record { at = iv.start; opens = true } ∷ record { at = iv.end; opens = false } ∷ rest

abbrev pub by_delta : Bool → Bool → Ordering
by_delta false true = lt
by_delta true false = gt
by_delta _ _ = eq

abbrev pub by_event : Event → Event → Ordering
by_event a b = if not (a.at == b.at) then compare a.at b.at else by_delta a.opens b.opens

abbrev pub max_ℤ : ℤ → ℤ → ℤ
max_ℤ a b = if ltb_ℤ a b then b else a

-- The loop over the events, with the number of open intervals and the most so far.
pub rooms_loop : ℤ → ℤ → List Event → ℤ
rooms_loop current most [] = most
rooms_loop current most (e ∷ s) =
    let next = current +ℤ (if e.opens then pos 1 else negsuc 0) in
    rooms_loop next (max_ℤ most next) s

pub min_rooms : List Interval → ℤ
unfolding rooms_loop
min_rooms s = rooms_loop (pos 0) (pos 0) (sort_func by_event (events s))
