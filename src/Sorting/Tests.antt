-- ===== src/Sorting/Tests.antt =====
-- Runs of dsa/sorting over numbers and pairs, and its theorems at a concrete slice.
use Prim.Native.Nat.{compare}
use learn_go.Prelude.{ℕ, ◌≡◌, refl, false, Option, none, some, List, [], ◌∷◌, arith, get_elem?}
use learn_go.Sorting.{insertion, merge, merge_func, is_sorted}
use learn_go.Sorting.Order.{Comparison, IsStableSort}
use learn_go.Sorting.Insertion.{insertion-IsStableSort}
use learn_go.Sorting.MergeSort.{merge_func-IsStableSort}

-- Cards are compared by their first number only.
instance by_first : Comparison (ℕ × ℕ)
by_first = record {
  compare = λ x y. compare x.0 y.0;
  swap = λ x y. ground arith;
  chain = λ x y z h g e. ground arith;
}

abbrev cards : List (ℕ × ℕ)
cards = (3, 1) ∷ (1, 1) ∷ (3, 2) ∷ (2, 1) ∷ (1, 2) ∷ []

abbrev many : List (ℕ × ℕ)
many =
    (9, 0)
    ∷ (8, 0)
    ∷ (7, 0)
    ∷ (6, 0)
    ∷ (5, 0)
    ∷ (4, 0)
    ∷ (3, 0)
    ∷ (9, 1)
    ∷ (8, 1)
    ∷ (7, 1)
    ∷ (6, 1)
    ∷ (5, 1)
    ∷ (4, 1)
    ∷ []

abbrev halves : List (ℕ × ℕ)
halves = (1, 1) ∷ (3, 1) ∷ (1, 2) ∷ []

abbrev first_of : Option (List (ℕ × ℕ)) → ℕ → Option (ℕ × ℕ)
first_of none i = none
first_of (some s) i = get_elem? s i

sorts :
    (insertion cards ≡ some ((1, 1) ∷ (1, 2) ∷ (2, 1) ∷ (3, 1) ∷ (3, 2) ∷ []))
    × (first_of (merge_func (0, 0) many) 12 ≡ some (9, 1))
    × (merge halves ((0, 0) ∷ (0, 0) ∷ (0, 0) ∷ []) 2
        ≡ some ((1, 1) ∷ (1, 2) ∷ (3, 1) ∷ [], halves))
    × (is_sorted cards ≡ false)
unfolding insertion merge_func merge is_sorted by_first
sorts = (refl, refl, refl, refl)

insertion-IsStableSort_example :
    (t : List (ℕ × ℕ)) × (insertion cards ≡ some t) × IsStableSort cards t
insertion-IsStableSort_example = insertion-IsStableSort cards

merge_func-IsStableSort_example :
    (t : List (ℕ × ℕ)) × (merge_func (0, 0) many ≡ some t) × IsStableSort many t
merge_func-IsStableSort_example = merge_func-IsStableSort (0, 0) many
