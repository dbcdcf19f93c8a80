-- ===== src/Bst/Tests.antt =====
-- Runs of dsa/bst/bst.go over numbers, and its theorems at a concrete tree.
use learn_go.Prelude.{
  ℕ, ◌+◌, ◌≡◌, ◌↔◌, refl, Bool, true, false, not, none, some, List, [], ◌∷◌, ◌++◌, ltb, length,
  arith,
}
use learn_go.Prelude.Ordered.{nat_ordered}
use learn_go.Prelude.Assoc
use learn_go.Bst.{
  Node, nil, node, Tree, empty, tree_put, tree_delete, floor, ceiling, min_node, max_node, height,
  walk, range_walk, is_valid,
}
use learn_go.Bst.Pairs.{pairs, IsValid}
use learn_go.Bst.Change.{is_some, tree_put-IsValid, tree_delete-IsValid}
use learn_go.Bst.Query.{keep}
use learn_go.Bst.Walk.{visit, in_range, range_walk-visit}
use learn_go.Bst.Check.{is_valid_iff}

put_all : List ℕ → Tree ℕ ℕ → Tree ℕ ℕ
unfolding tree_put nat_ordered
put_all [] t = t
put_all (k ∷ ks) t = put_all ks (tree_put t k (10 + k)).0

abbrev leaf : ℕ → Node ℕ ℕ
leaf k = node nil k (10 + k) nil

abbrev sample : Tree ℕ ℕ
sample = record {
  root = node (node (leaf 2) 3 13 (leaf 4)) 5 15 (node nil 7 17 (leaf 8));
  count = 6;
}

sample_runs : put_all (5 ∷ 3 ∷ 7 ∷ 2 ∷ 4 ∷ 8 ∷ []) empty ≡ sample
unfolding put_all
sample_runs = refl

sample-IsValid : IsValid sample
unfolding nat_ordered
sample-IsValid = record { sorted = ground arith; counted = refl }

-- A deletion of a node with two children moves its successor up.
deleted : (tree_delete sample 5).0.root ≡ node (node (leaf 2) 3 13 (leaf 4)) 7 17 (leaf 8)
unfolding tree_delete nat_ordered
deleted = refl

queries :
    (floor sample.root 6 none ≡ some (5, 15))
    × (ceiling sample.root 6 none ≡ some (7, 17))
    × (min_node sample.root ≡ some (2, 12))
    × (max_node sample.root ≡ some (8, 18))
    × (height sample.root ≡ 3)
unfolding floor ceiling min_node max_node height nat_ordered
queries = (refl, refl, refl, refl, refl)

-- The body of a loop that collects keys and stops at two of them.
abbrev take_two : List ℕ → ℕ × ℕ → List ℕ × Bool
take_two s x = (s ++ x.0 ∷ [], ltb (length s) 1)

walks :
    (range_walk take_two 3 7 sample.root [] ≡ (3 ∷ 4 ∷ [], false))
    × (walk take_two (leaf 9) [] ≡ (9 ∷ [], true))
unfolding range_walk walk nat_ordered
walks = (refl, refl)

tree_put-IsValid_example :
    IsValid (tree_put sample 6 16).0
    × (pairs (tree_put sample 6 16).0.root ≡ Assoc.put 6 16 (pairs sample.root))
    × ((tree_put sample 6 16).1 ≡ not (is_some (Assoc.get (pairs sample.root) 6)))
tree_put-IsValid_example = tree_put-IsValid sample 6 16 sample-IsValid

tree_delete-IsValid_example :
    IsValid (tree_delete sample 5).0
    × (pairs (tree_delete sample 5).0.root ≡ Assoc.remove 5 (pairs sample.root))
    × ((tree_delete sample 5).1 ≡ is_some (Assoc.get (pairs sample.root) 5))
tree_delete-IsValid_example = tree_delete-IsValid sample 5 sample-IsValid

range_walk-visit_example :
    range_walk take_two 3 7 sample.root []
    ≡ visit take_two (keep (in_range 3 7) (pairs sample.root)) []
range_walk-visit_example = range_walk-visit take_two 3 7 sample.root [] sample-IsValid.sorted

is_valid_iff_example : (is_valid sample ≡ true) ↔ IsValid sample
is_valid_iff_example = is_valid_iff sample
