-- ===== src/RedBlack/Tests.antt =====
-- Runs of dsa/redblack/redblack.go over numbers, and its theorems at a concrete tree.
use learn_go.Prelude.{
  ℕ, ◌*◌, ◌≡◌, refl, Bool, true, Option, none, some, List, [], ◌∷◌, ◌>>=◌, arith,
}
use learn_go.Prelude.Ordered.{nat_ordered}
use learn_go.RedBlack.Node.{Node, nil, node, red, black, is_red, in_order}
use learn_go.RedBlack.Tree.{
  Tree, empty, tree_put, tree_delete, tree_delete_min, tree_delete_max, tree_min, tree_max,
  tree_floor, tree_ceiling, is_valid, keys, is_nil,
}
use learn_go.RedBlack.Valid.{IsValid, IsPut, tree_put_correct}
use learn_go.RedBlack.DeleteEnds.{without_first}
use learn_go.RedBlack.Remove.{IsDeletion, tree_delete_min_correct}
use learn_go.RedBlack.Erase.{without_last, tree_delete_max_correct, tree_delete_correct}
use learn_go.Prelude.Assoc
use learn_go.RedBlack.Height.{IsLogarithmic, height_bound}

put_all : List ℕ → Tree ℕ ℕ → Option (Tree ℕ ℕ)
unfolding tree_put nat_ordered
put_all [] t = some t
put_all (k ∷ ks) t = tree_put t k (10 * k) >>= λ (t', new). put_all ks t'

delete_all : List ℕ → Tree ℕ ℕ → Option (Tree ℕ ℕ)
unfolding tree_delete nat_ordered
delete_all [] t = some t
delete_all (k ∷ ks) t = tree_delete t k >>= λ (t', found). delete_all ks t'

abbrev leaf : Bool → ℕ → Node ℕ ℕ
leaf c k = node c nil k (10 * k) nil

abbrev sample : Tree ℕ ℕ
sample = record {
  root = node black (node red (leaf black 1) 2 20 (leaf black 3)) 4 40 (leaf black 5);
  count = 5;
}

-- Five ascending keys.
sample_runs : put_all (1 ∷ 2 ∷ 3 ∷ 4 ∷ 5 ∷ []) empty ≡ some sample
unfolding put_all
sample_runs = refl

report : Option (Tree ℕ ℕ) → Option (List ℕ × Bool)
unfolding keys is_valid nat_ordered
report none = none
report (some t) = some (keys t, is_valid t)

drop_flag : Option (Tree ℕ ℕ × Bool) → Option (Tree ℕ ℕ)
drop_flag none = none
drop_flag (some (t, b)) = some t

-- A deletion of each kind, each leaving a tree that the check accepts.
deletions :
    (report (delete_all (2 ∷ 9 ∷ 4 ∷ []) sample) ≡ some (1 ∷ 3 ∷ 5 ∷ [], true))
    × (report (drop_flag (tree_delete_min sample)) ≡ some (2 ∷ 3 ∷ 4 ∷ 5 ∷ [], true))
    × (report (drop_flag (tree_delete_max sample)) ≡ some (1 ∷ 2 ∷ 3 ∷ 4 ∷ [], true))
unfolding report drop_flag delete_all tree_delete_min tree_delete_max
deletions = (refl, refl, refl)

queries :
    (tree_floor sample 6 ≡ some (5, 50))
    × (tree_ceiling sample 0 ≡ some (1, 10))
    × (tree_min sample ≡ some (1, 10))
    × (tree_max sample ≡ some (5, 50))
unfolding tree_floor tree_ceiling tree_min tree_max nat_ordered
queries = (refl, refl, refl, refl)

sample-IsValid : IsValid sample
unfolding in_order is_red nat_ordered
sample-IsValid = record {
  sorted = ground arith;
  colored = ground arith;
  black_root = refl;
  height = 2;
  balanced = omega arith;
  counted = refl;
}

tree_put_correct_example :
    (result : Tree ℕ ℕ × Bool) × (tree_put sample 6 60 ≡ some result) × IsPut sample 6 60 result
tree_put_correct_example = tree_put_correct sample 6 60 sample-IsValid

height_bound_example : IsLogarithmic sample
height_bound_example = height_bound sample sample-IsValid

tree_delete_min_correct_example :
    (result : Tree ℕ ℕ × Bool) × (tree_delete_min sample ≡ some result)
    × IsDeletion (without_first (in_order sample.root)) true result
unfolding is_nil
tree_delete_min_correct_example = tree_delete_min_correct sample sample-IsValid

tree_delete_max_correct_example :
    (result : Tree ℕ ℕ × Bool) × (tree_delete_max sample ≡ some result)
    × IsDeletion (without_last (in_order sample.root)) true result
unfolding is_nil
tree_delete_max_correct_example = tree_delete_max_correct sample sample-IsValid

tree_delete_correct_example :
    (result : Tree ℕ ℕ × Bool) × (tree_delete sample 2 ≡ some result)
    × IsDeletion (Assoc.remove 2 (in_order sample.root)) true result
unfolding in_order nat_ordered
tree_delete_correct_example = tree_delete_correct sample 2 sample-IsValid
