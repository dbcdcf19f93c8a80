-- ===== src/RedBlack/Contents.antt =====
-- The pairs of a tree in order, as a sorted association list, and that the code's rotations and
-- colour changes leave them alone (dsa/redblack/redblack.go).
use learn_go.Prelude.{
  ◌≡◌, refl, Bool, true, false, not, ◌&&◌, Option, none, some, List, ◌∷◌, ◌++◌, append_assoc, ◌>>=◌,
  if◌then◌else◌,
}
use learn_go.RedBlack.Node.{
  Node, nil, node, in_order, balance, lean_left, lift_reds, split_reds, rotate_left, rotate_right,
  flip_colors, ensure_left, ensure_right, lean_right, move_red_left, move_red_right, with_right,
  is_red, is_red_left_left, is_red_right_left,
}

module _ {ℓ κ} {K : Type ℓ} {V : Type κ} where
  -- A call either panics or returns a node with the pairs `e`.
  abbrev pub Keeps : List (K × V) → Option (Node K V) → Type (ℓ ⊔ κ)
  Keeps e none = Unit
  Keeps e (some t) = in_order t ≡ e

  rotate_left-Keeps : (h : Node K V) → Keeps (in_order h) (rotate_left h)
  unfolding rotate_left in_order
  rotate_left-Keeps nil = tt
  rotate_left-Keeps (node c l k v nil) = tt
  rotate_left-Keeps (node c l k v (node xc xl xk xv xr)) = simp append_assoc

  rotate_right-Keeps : (h : Node K V) → Keeps (in_order h) (rotate_right h)
  unfolding rotate_right in_order
  rotate_right-Keeps nil = tt
  rotate_right-Keeps (node c nil k v r) = tt
  rotate_right-Keeps (node c (node xc xl xk xv xr) k v r) = simp append_assoc

  flip_colors-Keeps : (h : Node K V) → Keeps (in_order h) (flip_colors h)
  unfolding flip_colors in_order
  flip_colors-Keeps nil = tt
  flip_colors-Keeps (node c nil k v r) = tt
  flip_colors-Keeps (node c (node lc ll lk lv lr) k v nil) = tt
  flip_colors-Keeps (node c (node lc ll lk lv lr) k v (node rc rl rk rv rr)) = refl

  if-Keeps :
      (b : Bool) (h : Node K V) (m : Option (Node K V))
      → Keeps (in_order h) m
      → Keeps (in_order h) (if b then m else some h)
  if-Keeps true h m p = p
  if-Keeps false h m p = refl

  >>=-Keeps :
      (e : List (K × V)) (m : Option (Node K V)) (f : Node K V → Option (Node K V))
      → Keeps e m
      → ((h : Node K V) → Keeps (in_order h) (f h))
      → Keeps e (m >>= f)
  >>=-Keeps e none f p q = tt
  >>=-Keeps e (some h) f p q = rw p at (q h)

  lean_left-Keeps : (h : Node K V) → Keeps (in_order h) (lean_left h)
  unfolding lean_left
  lean_left-Keeps nil = tt
  lean_left-Keeps (node c l k v r) =
      if-Keeps _ (node c l k v r) _ (rotate_left-Keeps (node c l k v r))

  lift_reds-Keeps : (h : Node K V) → Keeps (in_order h) (lift_reds h)
  unfolding lift_reds
  lift_reds-Keeps nil = tt
  lift_reds-Keeps (node c l k v r) =
      if-Keeps _ (node c l k v r) _ (rotate_right-Keeps (node c l k v r))

  split_reds-Keeps : (h : Node K V) → Keeps (in_order h) (split_reds h)
  unfolding split_reds
  split_reds-Keeps nil = tt
  split_reds-Keeps (node c l k v r) =
      if-Keeps _ (node c l k v r) _ (flip_colors-Keeps (node c l k v r))

  -- balance leaves the pairs in their order.
  pub balance-Keeps : (h : Node K V) → Keeps (in_order h) (balance h)
  unfolding balance
  balance-Keeps h =
      >>=-Keeps (in_order h) (lean_left h >>= lift_reds) split_reds
        (>>=-Keeps (in_order h) (lean_left h) lift_reds (lean_left-Keeps h) lift_reds-Keeps)
        split_reds-Keeps

  pub lean_right-Keeps : (h : Node K V) → Keeps (in_order h) (lean_right h)
  unfolding lean_right
  lean_right-Keeps nil = tt
  lean_right-Keeps (node c l k v r) =
      if-Keeps _ (node c l k v r) _ (rotate_right-Keeps (node c l k v r))

  with_right-Keeps : (h : Node K V) → Keeps (in_order h) (with_right rotate_right h)
  unfolding with_right in_order
  with_right-Keeps nil = tt
  with_right-Keeps (node c l k v r) = more (rotate_right r) (rotate_right-Keeps r)
    where
      more :
          (m : Option (Node K V))
          → Keeps (in_order r) m
          → Keeps (in_order l ++ (k, v) ∷ in_order r) (m >>= λ r'. some (node c l k v r'))
      more none p = tt
      more (some r') p = rw p

  slide_left-Keeps :
      (h : Node K V)
      → Keeps (in_order h) (with_right rotate_right h >>= rotate_left >>= flip_colors)
  slide_left-Keeps h =
      >>=-Keeps (in_order h) (with_right rotate_right h >>= rotate_left) flip_colors
        (>>=-Keeps (in_order h) (with_right rotate_right h) rotate_left (with_right-Keeps h)
          rotate_left-Keeps)
        flip_colors-Keeps

  slide_right-Keeps : (h : Node K V) → Keeps (in_order h) (rotate_right h >>= flip_colors)
  slide_right-Keeps h =
      >>=-Keeps (in_order h) (rotate_right h) flip_colors (rotate_right-Keeps h) flip_colors-Keeps

  move_red_left-Keeps : (h : Node K V) → Keeps (in_order h) (move_red_left h)
  unfolding move_red_left
  move_red_left-Keeps h =
      >>=-Keeps (in_order h) (flip_colors h) _ (flip_colors-Keeps h)
        λ h'. if-Keeps (is_red_right_left h') h' _ (slide_left-Keeps h')

  move_red_right-Keeps : (h : Node K V) → Keeps (in_order h) (move_red_right h)
  unfolding move_red_right
  move_red_right-Keeps h =
      >>=-Keeps (in_order h) (flip_colors h) _ (flip_colors-Keeps h)
        λ h'. if-Keeps (is_red_left_left h') h' _ (slide_right-Keeps h')

  pub ensure_left-Keeps : (h : Node K V) → Keeps (in_order h) (ensure_left h)
  unfolding ensure_left
  ensure_left-Keeps nil = tt
  ensure_left-Keeps (node c nil k v r) = tt
  ensure_left-Keeps (node c (node lc ll lk lv lr) k v r) =
      if-Keeps (not lc && not (is_red ll)) (node c (node lc ll lk lv lr) k v r) _
        (move_red_left-Keeps (node c (node lc ll lk lv lr) k v r))

  pub ensure_right-Keeps : (h : Node K V) → Keeps (in_order h) (ensure_right h)
  unfolding ensure_right
  ensure_right-Keeps nil = tt
  ensure_right-Keeps (node c l k v nil) = tt
  ensure_right-Keeps (node c l k v (node rc rl rk rv rr)) =
      if-Keeps (not rc && not (is_red rl)) (node c l k v (node rc rl rk rv rr)) _
        (move_red_right-Keeps (node c l k v (node rc rl rk rv rr)))
