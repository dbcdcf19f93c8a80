-- ===== src/Searching.antt =====
-- dsa/searching/searching.go, and FindPeak, SearchRotated and RotationPoint of rotated.go there:
-- Partition and the searches in a sorted slice. `none` is an index out of range, or a loop that runs out of fuel.
use Prim.Native.Nat.Ordering.{lt, eq, gt}
use learn_go.Prelude.{
  ℕ, zero, suc, ◌+◌, ◌-◌, ◌*◌, ◌/◌, min, Bool, true, false, ◌&&◌, not, Option, none, some, ◌>>=◌,
  List, [], ◌∷◌, length, get_elem?, take, drop, if◌then◌else◌, ltb, leb, ◌==◌,
}
use learn_go.Prelude.Int.{ℤ, pos, negsuc}
use learn_go.Prelude.Ordered.{Ordered}
pub mod Partition
pub mod Rank
pub mod Bounds
pub mod Doubling
pub mod Peak
mod Order
mod Halves
mod Rotated
mod Rotation
mod Pivot
pub mod Answer
mod Tests

-- The loop of Partition. lo + (hi-lo)/2 stays within the slice, so that nothing overflows.
pub partition_loop : ℕ → (ℕ → Option Bool) → ℕ → ℕ → Option ℕ
partition_loop zero pred lo hi = if ltb lo hi then none else some lo
partition_loop (suc fuel) pred lo hi =
    if ltb lo hi
    then (let mid = lo + (hi - lo) / 2 in
        pred mid >>= λ b. elim b [
          | true ↦ partition_loop fuel pred lo mid
          | false ↦ partition_loop fuel pred (mid + 1) hi
        ])
    else some lo

pub partition : ℕ → (ℕ → Option Bool) → Option ℕ
unfolding partition_loop
partition n pred = partition_loop n pred 0 n

module _ {ℓ} {K : Type ℓ} where
  -- `func(i int) bool { return p(s[i]) }`
  abbrev pub at_index : List K → (K → Bool) → ℕ → Option Bool
  at_index s p i = get_elem? s i >>= λ x. some (p x)

  -- `i < len(s) && p(s[i])`
  pub in_range_and : List K → (K → Bool) → ℕ → Option Bool
  in_range_and s p i = if ltb i (length s) then at_index s p i else some false

  -- `s[lo:hi]`; `none` is the panic of bounds out of range, for a slice without spare capacity.
  abbrev pub slice_of : List K → ℕ → ℕ → Option (List K)
  slice_of s lo hi =
      if leb lo hi && leb hi (length s) then some (take (hi - lo) (drop lo s)) else none

module _ {ℓ} {K : Type ℓ} ⦃o : Ordered K⦄ where
  abbrev pub at_least : K → K → Bool
  at_least target x = elim (o.cmp x target) [ lt ↦ false | _ ↦ true ]

  abbrev pub exceeds : K → K → Bool
  exceeds target x = elim (o.cmp x target) [ gt ↦ true | _ ↦ false ]

  abbrev pub equals : K → K → Bool
  equals target x = elim (o.cmp x target) [ eq ↦ true | _ ↦ false ]

  abbrev pub is_below : K → K → Bool
  is_below target x = elim (o.cmp x target) [ lt ↦ true | _ ↦ false ]

  pub lower_bound : List K → K → Option ℕ
  unfolding partition
  lower_bound s target = partition (length s) (at_index s (at_least target))

  pub upper_bound : List K → K → Option ℕ
  unfolding partition
  upper_bound s target = partition (length s) (at_index s (exceeds target))

  pub binary_search : List K → K → Option (ℕ × Bool)
  unfolding lower_bound in_range_and
  binary_search s target = do
    i ← lower_bound s target
    found ← in_range_and s (equals target) i
    some (i, found)

  pub first : List K → K → Option (ℕ × Bool)
  unfolding binary_search
  first s target = binary_search s target

  -- The index is -1 where the upper bound is 0.
  pub last : List K → K → Option (ℤ × Bool)
  unfolding upper_bound
  last s target = upper_bound s target >>= λ u. elim u [
    | zero ↦ some (negsuc 0, false)
    | suc i ↦ at_index s (equals target) i >>= λ found. some (pos i, found)
  ]

  -- Count never goes below 0: the upper bound is at least the lower one, as is proved.
  pub count : List K → K → Option ℕ
  unfolding upper_bound lower_bound
  count s target = do hi ← upper_bound s target; lo ← lower_bound s target; some (hi - lo)

  pub range : List K → K → Option (ℕ × ℕ)
  unfolding upper_bound lower_bound
  range s target = do lo ← lower_bound s target; hi ← upper_bound s target; some (lo, hi)

  -- Linear; `none` is its -1.
  pub linear : List K → K → Option ℕ
  linear [] target = none
  linear (x ∷ s) target =
      let rest = linear s target in
      if equals target x then some 0 else elim rest [ none ↦ none | some i ↦ some (suc i) ]

  -- The loop of Exponential.
  pub double : ℕ → List K → K → ℕ → Option ℕ
  double zero s target bound = if ltb bound (length s) then none else some bound
  double (suc fuel) s target bound =
      let rest = double fuel s target (bound * 2) in
      if ltb bound (length s)
      then (at_index s (is_below target) bound >>= λ b. if b then rest else some bound)
      else some bound

  -- The end of Exponential.
  pub search_window : List K → K → ℕ → Option (ℕ × Bool)
  unfolding lower_bound in_range_and
  search_window s target bound = do
    let lo = bound / 2
    let hi = min (bound + 1) (length s)
    window ← slice_of s lo hi
    i ← lower_bound window target
    found ← in_range_and window (equals target) i
    some (lo + i, found)

  pub exponential : List K → K → Option (ℕ × Bool)
  unfolding double search_window
  exponential [] target = some (0, false)
  exponential (x ∷ s) target =
      if at_least target x
      then some (0, equals target x)
      else double (length (x ∷ s)) (x ∷ s) target 1 >>= search_window (x ∷ s) target

  -- rotated.go. `s[i] > s[i+1]`; the inner `none` of FindPeak is its -1.
  pub descends : List K → ℕ → Option Bool
  descends s i = do x ← get_elem? s i; y ← get_elem? s (i + 1); some (exceeds y x)

  pub find_peak : List K → Option (Option ℕ)
  unfolding partition descends
  find_peak [] = some none
  find_peak (x ∷ s) = partition (length (x ∷ s) - 1) (descends (x ∷ s)) >>= λ i. some (some i)

  -- The loop of SearchRotated, on fuel. `end` is hi + 1, and the inner `none` of the result is -1.
  abbrev pub rotated_loop : ℕ → List K → K → ℕ → ℕ → Option (Option ℕ)
  rotated_loop zero s target lo end = if ltb lo end then none else some none
  rotated_loop (suc fuel) s target lo end =
      let mid = lo + (end - 1 - lo) / 2 in
      let before = rotated_loop fuel s target lo mid in
      let after = rotated_loop fuel s target (mid + 1) end in
      let inside = rotated_loop fuel s target (lo + 1) (end - 1) in
      if ltb lo end
      then (get_elem? s mid >>= λ m.
          if equals target m
          then some (some mid)
          else (get_elem? s lo >>= λ l. get_elem? s (end - 1) >>= λ h.
              if equals m l && equals h m
              then inside
              else if not (exceeds m l)
              then (if at_least l target && is_below m target then before else after)
              else if exceeds m target && not (exceeds h target)
              then after
              else before))
      else some none

  pub search_rotated : List K → K → Option (Option ℕ)
  search_rotated s target = rotated_loop (length s) s target 0 (length s)

  -- `s[i] <= last`
  abbrev pub is_at_most : K → K → Bool
  is_at_most last x = not (exceeds last x)

  pub rotation_point : List K → Option ℕ
  unfolding partition
  rotation_point s =
      if length s == 0
      then some 0
      else (get_elem? s (length s - 1) >>= λ last.
          partition (length s) (at_index s (is_at_most last)))
