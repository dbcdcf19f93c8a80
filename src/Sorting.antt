-- ===== src/Sorting.antt =====
-- dsa/sorting: insertion sort, merge sort and the check for order, on slices. `none` is an index
-- out of range, or a loop that runs out of fuel.
use learn_go.Prelude.{
  ℕ, zero, suc, ◌+◌, ◌-◌, ◌*◌, ◌/◌, Bool, true, false, ◌&&◌, not, Option, none, some, ◌>>=◌, List,
  [], ◌∷◌, ◌++◌, length, get_elem?, take, drop, replicate, if◌then◌else◌, ltb, leb,
}
use learn_go.Prelude.Copy.{store, copy}
use learn_go.Prelude.Ordered.{is_gt}
use Order.{Comparison}
pub mod Order
pub mod Insertion
pub mod Merge
pub mod MergeSort
pub mod Check
mod Tests

module _ {ℓ} {A : Type ℓ} ⦃o : Comparison A⦄ where
  -- The inner loop of InsertionFunc, where `j` is one more than the source's: the slice, and the
  -- place for the element.
  pub slide : List A → A → ℕ → Option (List A × ℕ)
  slide s current zero = some (s, 0)
  slide s current (suc j) = get_elem? s j >>= λ x.
      if is_gt (o.compare x current)
      then (store s (suc j) x >>= λ s'. slide s' current j)
      else some (s, suc j)

  -- A round of its outer loop, and `n` rounds from the round `i`.
  pub insert_at : List A → ℕ → Option (List A)
  unfolding slide
  insert_at s i = do current ← get_elem? s i; slid ← slide s current i; store slid.0 slid.1 current

  pub insertion_loop : List A → ℕ → ℕ → Option (List A)
  unfolding insert_at
  insertion_loop s i zero = some s
  insertion_loop s i (suc n) = insert_at s i >>= λ s'. insertion_loop s' (i + 1) n

  pub insertion : List A → Option (List A)
  unfolding insertion_loop
  insertion s = insertion_loop s 1 (length s - 1)

  -- The loop of `merge` and the two copies behind it.
  pub merge_loop : ℕ → List A → ℕ → ℕ → ℕ → ℕ → List A → Option (List A)
  merge_loop zero buf mid left right out s = none
  merge_loop (suc fuel) buf mid left right out s =
      if ltb left mid && ltb right (length s)
      then (get_elem? buf left >>= λ x. get_elem? buf right >>= λ y.
          if not (is_gt (o.compare x y))
          then (store s out x >>= λ s'. merge_loop fuel buf mid (left + 1) right (out + 1) s')
          else (store s out y >>= λ s'. merge_loop fuel buf mid left (right + 1) (out + 1) s'))
      else (let s' = copy s out (drop left (take mid buf)) in
          some (copy s' (out + mid - left) (drop right buf)))

  -- merge: the slice, and the buffer, which it first fills with the slice.
  pub merge : List A → List A → ℕ → Option (List A × List A)
  unfolding merge_loop
  merge s buf mid =
      let filled = copy buf 0 s in
      merge_loop (length s + 1) filled mid 0 mid 0 s >>= λ s'. some (s', filled)

  -- mergeSort: the slice and the buffer, whose halves are sorted and used in place, so that they
  -- are then both. The buffer is cut at `mid`, which panics beyond its end.
  pub merge_sort : ℕ → List A → List A → Option (List A × List A)
  unfolding insertion merge
  merge_sort zero s buf = none
  merge_sort (suc fuel) s buf =
      let mid = length s / 2 in
      if ltb (length s) 2
      then some (s, buf)
      else if leb (length s) 12
      then (insertion s >>= λ t. some (t, buf))
      else if ltb (length buf) mid
      then none
      else (do
        lower ← merge_sort fuel (take mid s) (take mid buf)
        upper ← merge_sort fuel (drop mid s) (drop mid buf)
        let both = lower.0 ++ upper.0
        let held = lower.1 ++ upper.1
        x ← get_elem? both (mid - 1)
        y ← get_elem? both mid
        if not (is_gt (o.compare x y)) then some (both, held) else merge both held mid)

  -- MergeFunc; `zero_value` is what make fills the buffer with.
  pub merge_func : A → List A → Option (List A)
  unfolding merge_sort
  merge_func zero_value s =
      if ltb (length s) 2
      then some s
      else (merge_sort (length s) s (replicate (length s) zero_value) >>= λ (sorted, buf).
          some sorted)

  -- IsSorted, whose loop compares neighbours.
  pub is_sorted : List A → Bool
  is_sorted [] = true
  is_sorted (x ∷ []) = true
  is_sorted (x ∷ y ∷ s) =
      let rest = is_sorted (y ∷ s) in if is_gt (o.compare x y) then false else rest
