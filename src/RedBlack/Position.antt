-- ===== src/RedBlack/Position.antt =====
-- Where the descent of del (dsa/redblack/redblack.go) finds its node again after a rotation: the
-- key of the node that it goes on from, and the pairs beside it.
use learn_go.Prelude.{
  ℕ, ◌≡◌, refl, Bool, true, false, Option, none, some, arith, ◌⊎◌, inl, inr, List, ◌∷◌, ◌++◌,
}
use mathlib.Core.Path.{subst}
use learn_go.RedBlack.Node.{
  Node, nil, node, is_red, is_red_left, ensure_left, ensure_right, lean_right, in_order,
}
use learn_go.RedBlack.Balance.{below}
use learn_go.RedBlack.Ready.{IsReady, IsLeaned}

-- `Q` holds of the value of a call, if it returns one.
abbrev pub IfSome {ℓ κ} : {A : Type ℓ} → (A → Type κ) → Option A → Type κ
IfSome Q none = Unit
IfSome Q (some a) = Q a

pub value_of {ℓ κ} :
    {A : Type ℓ} (Q : A → Type κ) (m : Option A) (a : A) → m ≡ some a → IfSome Q m → Q a
value_of Q m a e q = subst (IfSome Q) e q

module _ {ℓ κ} {K : Type ℓ} {V : Type κ} where
  -- The key at the root stays, or a larger one takes its place and it moves to the left.
  abbrev pub IsUp : Node K V → K → V → Node K V → Type (ℓ ⊔ κ)
  IsUp l k v nil = Unit
  IsUp l k v (node d l' k' v' r') =
      (k' ≡ k) ⊎ ((xs : List (K × V)) × (in_order l' ≡ in_order l ++ (k, v) ∷ xs))

  pub ensure_left-IsUp :
      (c lc : Bool) (ll : Node K V) (lk : K) (lv : V) (lr : Node K V) (k : K) (v : V) (r : Node K V)
      → IfSome (IsUp (node lc ll lk lv lr) k v) (ensure_left (node c (node lc ll lk lv lr) k v r))
  unfolding ensure_left in_order is_red
  ensure_left-IsUp c true ll lk lv lr k v r = inl refl
  ensure_left-IsUp c false (node true a x y b) lk lv lr k v r = inl refl
  ensure_left-IsUp c false nil lk lv lr k v nil = tt
  ensure_left-IsUp c false nil lk lv lr k v (node rc nil rk rv rr) = inl refl
  ensure_left-IsUp c false nil lk lv lr k v (node rc (node false a x y b) rk rv rr) = inl refl
  ensure_left-IsUp c false nil lk lv lr k v (node rc (node true a x y b) rk rv rr) =
      inr (in_order a, refl)
  ensure_left-IsUp c false (node false p q s t) lk lv lr k v nil = tt
  ensure_left-IsUp c false (node false p q s t) lk lv lr k v (node rc nil rk rv rr) = inl refl
  ensure_left-IsUp c false (node false p q s t) lk lv lr k v
        (node rc (node false a x y b) rk rv rr) =
      inl refl
  ensure_left-IsUp c false (node false p q s t) lk lv lr k v
        (node rc (node true a x y b) rk rv rr) =
      inr (in_order a, refl)

  -- The key at the root stays, or a smaller one takes its place and it moves to the right.
  abbrev pub IsDown : K → V → Node K V → Node K V → Type (ℓ ⊔ κ)
  IsDown k v r nil = Unit
  IsDown k v r (node d l' k' v' r') =
      (k' ≡ k) ⊎ ((xs : List (K × V)) × (in_order r' ≡ xs ++ (k, v) ∷ in_order r))

  pub lean_right-IsDown :
      (c : Bool) (l : Node K V) (k : K) (v : V) (r : Node K V)
      → IfSome (IsDown k v r) (lean_right (node c l k v r))
  unfolding lean_right in_order is_red
  lean_right-IsDown c nil k v r = inl refl
  lean_right-IsDown c (node false a x y b) k v r = inl refl
  lean_right-IsDown c (node true a x y b) k v r = inr (in_order b, refl)

  -- Below a node of black height `n` with root key `k`: it stays and its right subtree is ready,
  -- or it moves to the root of the right subtree, which leans right.
  abbrev pub IsRightReady : ℕ → K → V → Node K V → Type (ℓ ⊔ κ)
  IsRightReady n k v nil = Unit
  IsRightReady n k v (node d l' k' v' nil) = Unit
  IsRightReady n k v (node d l' k' v' (node e l₂ k₂ v₂ r₂)) =
      ((k' ≡ k) × IsReady (node e l₂ k₂ v₂ r₂) (below d n))
      ⊎ ((k₂ ≡ k) × (v₂ ≡ v) × IsLeaned e (below d n) (node e l₂ k₂ v₂ r₂))

  pub ensure_right-IsRightReady :
      (c : Bool) (l : Node K V) (k : K) (v : V) (rc : Bool) (rl : Node K V) (rk : K) (rv : V)
      (rr : Node K V) (n : ℕ)
      → IsLeaned c n (node c l k v (node rc rl rk rv rr))
      → IfSome (IsRightReady n k v) (ensure_right (node c l k v (node rc rl rk rv rr)))
  unfolding ensure_right in_order is_red is_red_left
  ensure_right-IsRightReady c l k v true rl rk rv rr n s = inl (refl, ground arith)
  ensure_right-IsRightReady c l k v false (node true a x y b) rk rv rr n s =
      inl (refl, ground arith)
  ensure_right-IsRightReady c nil k v false nil rk rv rr n s = tt
  ensure_right-IsRightReady c (node lc nil lk lv lr) k v false nil rk rv rr n s =
      inl (refl, ground arith)
  ensure_right-IsRightReady c (node lc (node false p q t u) lk lv lr) k v false nil rk rv rr n s =
      inl (refl, ground arith)
  ensure_right-IsRightReady c (node lc (node true p q t u) lk lv lr) k v false nil rk rv rr n s =
      inr (refl, refl, ground arith)
  ensure_right-IsRightReady c nil k v false (node false e f g h) rk rv rr n s = tt
  ensure_right-IsRightReady c (node lc nil lk lv lr) k v false (node false e f g h) rk rv rr n s =
      inl (refl, ground arith)
  ensure_right-IsRightReady c (node lc (node false p q t u) lk lv lr) k v false (node false e f g h)
        rk rv rr n s =
      inl (refl, ground arith)
  ensure_right-IsRightReady c (node lc (node true p q t u) lk lv lr) k v false (node false e f g h)
        rk rv rr n s =
      inr (refl, refl, ground arith)
