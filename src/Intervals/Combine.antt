-- ===== src/Intervals/Combine.antt =====
-- Intersection and Subtract (dsa/patterns/intervals/intervals.go).
use learn_go.Prelude.{
  ℕ, zero, suc, ◌+◌, ◌≤◌, ◌<◌, ◌≡◌, refl, max, Bool, false, ◌||◌, ◌&&◌, not, some, List, [], ◌∷◌,
  length, if◌then◌else◌, ltb, leb, arith, inl, inr, Bool-cases, lt_or_ge,
}
use learn_go.Intervals.{
  Interval, is_empty, contains, intersect, merge, intersection_loop, intersection, subtract_rest,
  subtract_loop, subtract,
}
use learn_go.Intervals.Points.{covers, MergedFrom, MergedFrom-earlier, IsMerged, covers-before}
use learn_go.Intervals.Merge.{merge-IsMerged}

-- The steps of Intersection at one point, where the later intervals `a` or `b` cover it or not.
step_first :
    (x y : Interval) (point : ℕ) (a b : Bool)
    → x.end < y.end
    → (point ≤ y.end → b ≡ false)
    → (contains (intersect x y) point || (a && (contains y point || b)))
      ≡ ((contains x point || a) && (contains y point || b))
step_first x y point a b h g = elim (lt_or_ge y.end point) [
  | inl above ↦ ground arith
  | inr below ↦ rw (g below) (ground arith)
]

step_second :
    (x y : Interval) (point : ℕ) (a b : Bool)
    → y.end ≤ x.end
    → (point ≤ x.end → a ≡ false)
    → (contains (intersect x y) point || ((contains x point || a) && b))
      ≡ ((contains x point || a) && (contains y point || b))
step_second x y point a b h g = elim (lt_or_ge x.end point) [
  | inl above ↦ ground arith
  | inr below ↦ rw (g below) (ground arith)
]

covers-cons_if :
    (iv : Interval) (s : List Interval) (point : ℕ)
    → covers (if not (is_empty iv) then iv ∷ s else s) point ≡ (contains iv point || covers s point)
covers-cons_if iv s point = ground arith

MergedFrom-cons_if :
    (n : ℕ) (iv : Interval) (s : List Interval)
    → n ≤ iv.start
    → MergedFrom (suc iv.end) s
    → MergedFrom n s
    → MergedFrom n (if not (is_empty iv) then iv ∷ s else s)
MergedFrom-cons_if n iv s h g k = elim (Bool-cases (is_empty iv)) [
  | inl empty ↦ rw empty k
  | inr full ↦ rw full (h, ground arith, g)
]

-- Where the loop of Intersection ends, and what it has found then.
record IsCommon (fuel n : ℕ) (a b : List Interval) : Type 0 where
  out : List Interval
  ends : intersection_loop fuel a b ≡ some out
  merged : MergedFrom n out
  same : (point : ℕ) → covers out point ≡ (covers a point && covers b point)

intersection_loop-IsCommon :
    (fuel m n : ℕ) (a b : List Interval)
    → length a + length b ≤ fuel
    → MergedFrom m a
    → MergedFrom n b
    → IsCommon fuel (max m n) a b
intersection_loop-IsCommon fuel m n [] b h g k = record {
  out = [];
  ends = refl;
  merged = tt;
  same = λ point. refl;
}
intersection_loop-IsCommon fuel m n (x ∷ a) [] h g k = record {
  out = [];
  ends = refl;
  merged = tt;
  same = λ point. ground arith;
}
intersection_loop-IsCommon zero m n (x ∷ a) (y ∷ b) h g k = absurd (omega arith)
intersection_loop-IsCommon (suc fuel) m n (x ∷ a) (y ∷ b) h g k =
    elim (Bool-cases (ltb x.end y.end)) [
      | inl first ↦
          let before : x.end < y.end = ground arith in
          let rest = intersection_loop-IsCommon fuel (suc x.end) n a (y ∷ b) (omega arith) g.2 k in
          record {
            out = if not (is_empty (intersect x y)) then intersect x y ∷ rest.out else rest.out;
            ends = rw (first, rest.ends) refl;
            merged =
                MergedFrom-cons_if (max m n) (intersect x y) rest.out (omega arith)
                  (MergedFrom-earlier _ (max (suc x.end) n) rest.out (omega arith) rest.merged)
                  (MergedFrom-earlier _ (max (suc x.end) n) rest.out (omega arith) rest.merged);
            same = λ point.
                rw (covers-cons_if (intersect x y) rest.out point, rest.same point)
                  (step_first x y point (covers a point) (covers b point) before
                    (λ low. covers-before (suc y.end) point b k.2 (omega arith)));
          }
      | inr second ↦
          let behind : y.end ≤ x.end = ground arith in
          let rest = intersection_loop-IsCommon fuel m (suc y.end) (x ∷ a) b (omega arith) g k.2 in
          record {
            out = if not (is_empty (intersect x y)) then intersect x y ∷ rest.out else rest.out;
            ends = rw (second, rest.ends) refl;
            merged =
                MergedFrom-cons_if (max m n) (intersect x y) rest.out (omega arith)
                  (MergedFrom-earlier _ (max m (suc y.end)) rest.out (omega arith) rest.merged)
                  (MergedFrom-earlier _ (max m (suc y.end)) rest.out (omega arith) rest.merged);
            same = λ point.
                rw (covers-cons_if (intersect x y) rest.out point, rest.same point)
                  (step_second x y point (covers a point) (covers b point) behind
                    (λ low. covers-before (suc x.end) point a g.2 (omega arith)));
          }
    ]

-- The loop of Intersection ends on two merged lists, and its result is merged and covers exactly
-- the points that both cover.
pub covers-intersection :
    (a b : List Interval)
    → IsMerged a
    → IsMerged b
    → (out : List Interval) × (intersection a b ≡ some out)
      × IsMerged out
      × ((point : ℕ) → covers out point ≡ (covers a point && covers b point))
unfolding intersection
covers-intersection a b g k =
    let r = intersection_loop-IsCommon (length a + length b) 0 0 a b (omega arith) g k in
    (r.out, r.ends, r.merged, r.same)

covers-subtract_rest :
    (at end point : ℕ) → covers (subtract_rest at end) point ≡ (leb at point && ltb point end)
covers-subtract_rest at end point = ground arith

-- One block of Subtract at a point, where the later blocks cover it or not and `out` is what is
-- left of the base behind the block.
module _ (at end point : ℕ) (x : Interval) (later : Bool) (h : x.start < x.end)
    (g : point ≤ x.end → later ≡ false) where
  abbrev left_over : Bool
  left_over = leb at point && ltb point end && not (contains x point || later)

  block_past : x.end ≤ at → (leb at point && ltb point end && not later) ≡ left_over
  block_past k = ground arith

  block_beyond : at < x.end → end ≤ x.start → (leb at point && ltb point end) ≡ left_over
  block_beyond k l = elim (lt_or_ge x.end point) [
    | inl above ↦ ground arith
    | inr below ↦ rw (g below) (ground arith)
  ]

  block_within :
      (out : Bool)
      → at < x.end
      → x.start < end
      → out ≡ (leb (max at x.end) point && ltb point end && not later)
      → ((ltb at x.start && leb at point && ltb point x.start)
          || (not (leb end (max at x.end)) && out))
        ≡ left_over
  block_within out k l e = rw e (elim (lt_or_ge x.end point) [
    | inl above ↦ ground arith
    | inr below ↦ rw (g below) (ground arith)
  ])

covers-within :
    (at end next point : ℕ) (x : Interval) (out : List Interval)
    → (let after = if leb end next then [] else out in
        covers
          (if ltb at x.start then record { start = at; end = x.start } ∷ after else after)
          point
        ≡ ((ltb at x.start && leb at point && ltb point x.start)
            || (not (leb end next) && covers out point)))
covers-within at end next point x out = ground arith

covers-subtract_loop :
    (at end m : ℕ) (s : List Interval) (point : ℕ)
    → MergedFrom m s
    → covers (subtract_loop at end s) point
      ≡ (leb at point && ltb point end && not (covers s point))
covers-subtract_loop at end m [] point g = ground arith
covers-subtract_loop at end m (x ∷ s) point (a, b, c) =
    let before : point ≤ x.end → covers s point ≡ false =
      λ low. covers-before (suc x.end) point s c (omega arith) in
    elim (Bool-cases (leb x.end at)) [
      | inl past ↦
          rw (past, covers-subtract_loop at end (suc x.end) s point c)
            (block_past at end point x (covers s point) b before (ground arith))
      | inr ahead ↦ elim (Bool-cases (leb end x.start)) [
        | inl beyond ↦
            rw (ahead, beyond, covers-subtract_rest at end point)
              (block_beyond at end point x (covers s point) b before (ground arith) (ground arith))
        | inr within ↦
            rw
              (
                ahead,
                within,
                covers-within at end (max at x.end) point x (subtract_loop (max at x.end) end s),
              )
              (block_within at end point x (covers s point) b before
                (covers (subtract_loop (max at x.end) end s) point) (ground arith) (ground arith)
                (covers-subtract_loop (max at x.end) end (suc x.end) s point c))
      ]
    ]

-- Subtract covers exactly the points of the base that no given interval covers.
pub covers-subtract :
    (base : Interval) (s : List Interval) (point : ℕ)
    → covers (subtract base s) point ≡ (contains base point && not (covers s point))
unfolding subtract
covers-subtract base s point = elim (Bool-cases (is_empty base)) [
  | inl empty ↦ rw empty (ground arith)
  | inr full ↦
      let (merged, same) = merge-IsMerged s in
      rw (full, covers-subtract_loop base.start base.end 0 (merge s) point merged, same point) refl
]
