-- ===== src/RedBlack/Node.antt =====
-- Nodes, rotations, balance and the deletion of an end (dsa/redblack/redblack.go).
use learn_go.Prelude.{
  ℕ, zero, suc, ◌+◌, max, Bool, true, false, not, ◌&&◌, Option, none, some, List, [], ◌∷◌, ◌++◌,
  ◌>>=◌, if◌then◌else◌,
}

abbrev pub red : Bool
red = true

abbrev pub black : Bool
black = false

-- `*node[K, V]`: the colour, the left subtree, key and value, the right subtree.
pub data Node {ℓ κ} (K : Type ℓ) (V : Type κ) : Type (ℓ ⊔ κ) where
  nil : Node K V
  node : Bool → Node K V → K → V → Node K V → Node K V

module _ {ℓ κ} {K : Type ℓ} {V : Type κ} where
  unfoldable pub is_red : Node K V → Bool
  is_red nil = false
  is_red (node c l k v r) = c

  unfoldable pub rotate_left : Node K V → Option (Node K V)
  rotate_left nil = none
  rotate_left (node c l k v nil) = none
  rotate_left (node c l k v (node xc xl xk xv xr)) = some (node c (node red l k v xl) xk xv xr)

  unfoldable pub rotate_right : Node K V → Option (Node K V)
  rotate_right nil = none
  rotate_right (node c nil k v r) = none
  rotate_right (node c (node xc xl xk xv xr) k v r) = some (node c xl xk xv (node red xr k v r))

  unfoldable pub flip_colors : Node K V → Option (Node K V)
  flip_colors nil = none
  flip_colors (node c nil k v r) = none
  flip_colors (node c (node lc ll lk lv lr) k v nil) = none
  flip_colors (node c (node lc ll lk lv lr) k v (node rc rl rk rv rr)) =
      some (node (not c) (node (not lc) ll lk lv lr) k v (node (not rc) rl rk rv rr))

  -- isRed(h.left); the callers below have found h not to be nil.
  unfoldable pub is_red_left : Node K V → Bool
  unfolding is_red
  is_red_left nil = false
  is_red_left (node c l k v r) = is_red l

  -- The three `if`s of balance.
  unfoldable pub lean_left : Node K V → Option (Node K V)
  unfolding is_red rotate_left
  lean_left nil = none
  lean_left (node c l k v r) =
      if is_red r && not (is_red l) then rotate_left (node c l k v r) else some (node c l k v r)

  unfoldable pub lift_reds : Node K V → Option (Node K V)
  unfolding is_red is_red_left rotate_right
  lift_reds nil = none
  lift_reds (node c l k v r) =
      if is_red l && is_red_left l then rotate_right (node c l k v r) else some (node c l k v r)

  unfoldable pub split_reds : Node K V → Option (Node K V)
  unfolding is_red flip_colors
  split_reds nil = none
  split_reds (node c l k v r) =
      if is_red l && is_red r then flip_colors (node c l k v r) else some (node c l k v r)

  unfoldable pub balance : Node K V → Option (Node K V)
  unfolding lean_left lift_reds split_reds
  balance h = lean_left h >>= lift_reds >>= split_reds

  unfoldable pub min_node : Node K V → Option (K × V)
  min_node nil = none
  min_node (node c nil k v r) = some (k, v)
  min_node (node c (node lc ll lk lv lr) k v r) = min_node (node lc ll lk lv lr)

  -- Max on a root that is not nil.
  unfoldable pub max_node : Node K V → Option (K × V)
  max_node nil = none
  max_node (node c l k v nil) = some (k, v)
  max_node (node c l k v (node rc rl rk rv rr)) = max_node (node rc rl rk rv rr)

  unfoldable pub count_nodes : Node K V → ℕ
  count_nodes nil = 0
  count_nodes (node c l k v r) = 1 + count_nodes l + count_nodes r

  unfoldable pub height : Node K V → ℕ
  height nil = 0
  height (node c l k v r) = 1 + max (height l) (height r)

  -- All and inOrder: the pairs in the order in which they are yielded.
  unfoldable pub in_order : Node K V → List (K × V)
  in_order nil = []
  in_order (node c l k v r) = in_order l ++ (k, v) ∷ in_order r

  -- `h.right = f(h.right)` and the like, on a node that is not nil.
  unfoldable pub with_right : (Node K V → Option (Node K V)) → Node K V → Option (Node K V)
  with_right f nil = none
  with_right f (node c l k v r) = f r >>= λ r'. some (node c l k v r')

  unfoldable pub with_left : (Node K V → Option (Node K V)) → Node K V → Option (Node K V)
  with_left f nil = none
  with_left f (node c l k v r) = f l >>= λ l'. some (node c l' k v r)

  -- isRed(h.right.left), after flipColors has found h.right not to be nil.
  unfoldable pub is_red_right_left : Node K V → Bool
  unfolding is_red_left
  is_red_right_left nil = false
  is_red_right_left (node c l k v r) = is_red_left r

  unfoldable pub is_red_left_left : Node K V → Bool
  unfolding is_red_left
  is_red_left_left nil = false
  is_red_left_left (node c l k v r) = is_red_left l

  unfoldable pub move_red_left : Node K V → Option (Node K V)
  unfolding flip_colors is_red_right_left with_right rotate_right rotate_left
  move_red_left h = do
    h ← flip_colors h
    if is_red_right_left h
        then with_right rotate_right h >>= rotate_left >>= flip_colors
        else some h

  unfoldable pub move_red_right : Node K V → Option (Node K V)
  unfolding flip_colors is_red_left_left rotate_right
  move_red_right h = do
    h ← flip_colors h
    if is_red_left_left h then rotate_right h >>= flip_colors else some h

  -- `if !isRed(h.left) && !isRed(h.left.left) { h = moveRedLeft(h) }`; h.left.left is a nil
  -- dereference where h.left is nil.
  unfoldable pub ensure_left : Node K V → Option (Node K V)
  unfolding is_red move_red_left
  ensure_left nil = none
  ensure_left (node c nil k v r) = none
  ensure_left (node c (node lc ll lk lv lr) k v r) =
      if not lc && not (is_red ll)
      then move_red_left (node c (node lc ll lk lv lr) k v r)
      else some (node c (node lc ll lk lv lr) k v r)

  unfoldable pub ensure_right : Node K V → Option (Node K V)
  unfolding is_red move_red_right
  ensure_right nil = none
  ensure_right (node c l k v nil) = none
  ensure_right (node c l k v (node rc rl rk rv rr)) =
      if not rc && not (is_red rl)
      then move_red_right (node c l k v (node rc rl rk rv rr))
      else some (node c l k v (node rc rl rk rv rr))

  -- `if isRed(h.left) { h = rotateRight(h) }`
  unfoldable pub lean_right : Node K V → Option (Node K V)
  unfolding is_red rotate_right
  lean_right nil = none
  lean_right (node c l k v r) =
      if is_red l then rotate_right (node c l k v r) else some (node c l k v r)

  unfoldable pub delete_min : ℕ → Node K V → Option (Node K V)
  unfolding ensure_left with_left balance
  delete_min zero h = none
  delete_min (suc fuel) nil = none
  delete_min (suc fuel) (node c nil k v r) = some nil
  delete_min (suc fuel) (node c (node lc ll lk lv lr) k v r) =
      ensure_left (node c (node lc ll lk lv lr) k v r) >>= with_left (delete_min fuel) >>= balance

  -- deleteMax behind its first `if`: the test for nil and the descent.
  unfoldable pub delete_max_right : (Node K V → Option (Node K V)) → Node K V → Option (Node K V)
  unfolding ensure_right with_right balance
  delete_max_right recur nil = none
  delete_max_right recur (node c l k v nil) = some nil
  delete_max_right recur (node c l k v (node rc rl rk rv rr)) =
      ensure_right (node c l k v (node rc rl rk rv rr)) >>= with_right recur >>= balance

  unfoldable pub delete_max : ℕ → Node K V → Option (Node K V)
  unfolding lean_right delete_max_right
  delete_max zero h = none
  delete_max (suc fuel) h = lean_right h >>= delete_max_right (delete_max fuel)
