-- ===== src/Intervals/Merge.antt =====
-- Merge and Insert (dsa/patterns/intervals/intervals.go).
use learn_go.Prelude.{
  ℕ, suc, ◌≤◌, ◌<◌, ◌≡◌, refl, ◌∙◌, max, min, Bool, ◌||◌, List, [], ◌∷◌, ltb, leb, arith, inl, inr,
  Bool-cases,
}
use learn_go.Intervals.{
  Interval, is_empty, contains, by_start, non_empty, sort_func, merge_loop, merge_sorted, merge,
  absorb, copy_before, insert,
}
use learn_go.Intervals.Points.{
  covers, MergedFrom, IsMerged, StartsFrom, StartsFrom-earlier, contains-hull, covers-non_empty,
  covers-sort_func, sort_func-StartsFrom,
}

contains-grown :
    (last iv : Interval) (point : ℕ) (others : Bool)
    → last.start < last.end
    → iv.start < iv.end
    → last.start ≤ iv.start
    → iv.start ≤ last.end
    → (contains (record last { end = max last.end iv.end }) point || others)
      ≡ (contains last point || (contains iv point || others))
contains-grown last iv point others h k a b = ground arith

covers-merge_loop :
    (last : Interval) (s : List Interval) (point : ℕ)
    → last.start < last.end
    → StartsFrom last.start s
    → covers (merge_loop last s) point ≡ (contains last point || covers s point)
covers-merge_loop last [] point h g = refl
covers-merge_loop last (iv ∷ s) point h (a, b, c) = elim (Bool-cases (leb iv.start last.end)) [
  | inl joins ↦
      let lower = StartsFrom-earlier last.start iv.start s a c in
      rw
        (
          joins,
          covers-merge_loop (record last { end = max last.end iv.end }) s point (omega arith) lower,
        )
        (contains-grown last iv point (covers s point) h b a (ground arith))
  | inr apart ↦ rw (apart, covers-merge_loop iv s point b c) refl
]

merge_loop-MergedFrom :
    (n : ℕ) (last : Interval) (s : List Interval)
    → n ≤ last.start
    → last.start < last.end
    → StartsFrom last.start s
    → MergedFrom n (merge_loop last s)
merge_loop-MergedFrom n last [] k h g = (k, h, tt)
merge_loop-MergedFrom n last (iv ∷ s) k h (a, b, c) = elim (Bool-cases (leb iv.start last.end)) [
  | inl joins ↦
      let lower = StartsFrom-earlier last.start iv.start s a c in
      rw joins (
        merge_loop-MergedFrom n (record last { end = max last.end iv.end }) s k (omega arith) lower)
  | inr apart ↦ rw apart (k, h, merge_loop-MergedFrom (suc last.end) iv s (ground arith) b c)
]

-- Merge returns intervals that are not empty, apart and in order, which cover exactly the points
-- that the given ones cover.
pub merge-IsMerged :
    (s : List Interval)
    → IsMerged (merge s) × ((point : ℕ) → covers (merge s) point ≡ covers s point)
unfolding merge
merge-IsMerged s = split (sort_func by_start (non_empty s)) (sort_func-StartsFrom s) same
  where
    same : (point : ℕ) → covers (sort_func by_start (non_empty s)) point ≡ covers s point
    same point = covers-sort_func by_start (non_empty s) point ∙ covers-non_empty s point

    split :
        (sorted : List Interval)
        → StartsFrom 0 sorted
        → ((point : ℕ) → covers sorted point ≡ covers s point)
        → IsMerged (merge_sorted sorted)
          × ((point : ℕ) → covers (merge_sorted sorted) point ≡ covers s point)
    split [] h e = (tt, e)
    split (iv ∷ rest) (a, b, c) e = (
      merge_loop-MergedFrom 0 iv rest a b c,
      λ point. covers-merge_loop iv rest point b c ∙ e point,
    )

contains-hull_or :
    (x y : Interval) (point : ℕ) (others : Bool)
    → x.start < x.end
    → y.start < y.end
    → x.start ≤ y.end
    → y.start ≤ x.end
    → (contains (record { start = min x.start y.start; end = max x.end y.end }) point || others)
      ≡ (contains x point || (contains y point || others))
contains-hull_or x y point others h k a b = rw (contains-hull x y point h k a b) (ground arith)

module _ (add x : Interval) where
  abbrev hull : Interval
  hull = record { start = min add.start x.start; end = max add.end x.end }

-- The second loop, where what is left ends at `add` or later.
covers-absorb :
    (m : ℕ) (add : Interval) (s : List Interval) (point : ℕ)
    → add.start < add.end
    → add.start ≤ m
    → MergedFrom m s
    → covers (absorb add s) point ≡ (contains add point || covers s point)
covers-absorb m add [] point h k g = refl
covers-absorb m add (x ∷ s) point h k (a, b, c) = elim (Bool-cases (leb x.start add.end)) [
  | inl joins ↦
      rw (joins, covers-absorb (suc x.end) (hull add x) s point (omega arith) (omega arith) c)
        (contains-hull_or add x point (covers s point) h b (omega arith) (ground arith))
  | inr apart ↦ rw apart refl
]

absorb-MergedFrom :
    (n m : ℕ) (add : Interval) (s : List Interval)
    → n ≤ add.start
    → add.start < add.end
    → add.start ≤ m
    → MergedFrom m s
    → MergedFrom n (absorb add s)
absorb-MergedFrom n m add [] l h k g = (l, h, tt)
absorb-MergedFrom n m add (x ∷ s) l h k (a, b, c) = elim (Bool-cases (leb x.start add.end)) [
  | inl joins ↦
      rw joins
        (absorb-MergedFrom n (suc x.end) (hull add x) s (omega arith) (omega arith) (omega arith) c)
  | inr apart ↦ rw apart (l, h, (ground arith, b, c))
]

-- Insert, from its first loop on.
covers-copy_before :
    (n : ℕ) (add : Interval) (s : List Interval) (point : ℕ)
    → add.start < add.end
    → MergedFrom n s
    → covers (copy_before add s) point ≡ (contains add point || covers s point)
covers-copy_before n add [] point h g = refl
covers-copy_before n add (x ∷ s) point h (a, b, c) = elim (Bool-cases (ltb x.end add.start)) [
  | inl before ↦ rw (before, covers-copy_before (suc x.end) add s point h c) (ground arith)
  | inr here ↦ elim (Bool-cases (leb x.start add.end)) [
    | inl joins ↦
        rw
          (
            here,
            joins,
            covers-absorb (suc x.end) (hull add x) s point (omega arith) (ground arith) c,
          )
          (contains-hull_or add x point (covers s point) h b (ground arith) (ground arith))
    | inr apart ↦ rw (here, apart) refl
  ]
]

copy_before-MergedFrom :
    (n : ℕ) (add : Interval) (s : List Interval)
    → n ≤ add.start
    → add.start < add.end
    → MergedFrom n s
    → MergedFrom n (copy_before add s)
copy_before-MergedFrom n add [] l h g = (l, h, tt)
copy_before-MergedFrom n add (x ∷ s) l h (a, b, c) = elim (Bool-cases (ltb x.end add.start)) [
  | inl before ↦ rw before (a, b, copy_before-MergedFrom (suc x.end) add s (ground arith) h c)
  | inr here ↦ elim (Bool-cases (leb x.start add.end)) [
    | inl joins ↦
        rw (here, joins)
          (absorb-MergedFrom n (suc x.end) (hull add x) s (omega arith) (omega arith) (ground arith)
            c)
    | inr apart ↦ rw (here, apart) (l, h, (ground arith, b, c))
  ]
]

-- Insert into merged intervals returns merged intervals, which cover the points of the given ones
-- and those of the one that is added.
pub insert-IsMerged :
    (s : List Interval) (add : Interval)
    → IsMerged s
    → IsMerged (insert s add)
      × ((point : ℕ) → covers (insert s add) point ≡ (contains add point || covers s point))
unfolding insert
insert-IsMerged s add g = elim (Bool-cases (is_empty add)) [
  | inl empty ↦ rw empty (g, λ point. ground arith)
  | inr full ↦
      let h : add.start < add.end = ground arith in
      rw full (
        copy_before-MergedFrom 0 add s (omega arith) h g,
        λ point. covers-copy_before 0 add s point h g,
      )
]
