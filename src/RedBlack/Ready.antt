-- ===== src/RedBlack/Ready.antt =====
-- What the descents of a deletion (dsa/redblack/redblack.go) find and leave: a node from which a
-- key can be taken, the node after moveRedLeft or moveRedRight, and what balance makes of it.
use learn_go.Prelude.{ℕ, ◌≡◌, Bool, true, false, ◌&&◌, ◌||◌, not, arith}
use learn_go.RedBlack.Node.{
  Node, nil, node, is_red, is_red_left, balance, ensure_left, ensure_right, lean_right,
}
use learn_go.RedBlack.Balance.{
  Returns-imp, Returns, IsBlackHeight, Is23, balance-IsShrunk, IsShrunk, below,
}

module _ {ℓ κ} {K : Type ℓ} {V : Type κ} where
  -- A node with a key to spare on its left edge: it is red, or its left link is.
  abbrev pub IsReady : Node K V → ℕ → Type 0
  IsReady t n = IsBlackHeight t n × Is23 t × (is_red t || is_red_left t ≡ true)

  -- A node to whose left the deletion goes on, below a node whose colour was `c`.
  abbrev pub IsLeftStep : Bool → ℕ → Node K V → Type 0
  IsLeftStep c n nil = ⊥
  IsLeftStep c n (node d l k v r) =
      IsReady l (below d n)
      × IsBlackHeight (node d l k v r) n
      × Is23 r
      × (d ≡ true → (is_red l ≡ false) × (is_red r ≡ false) × (c ≡ true))
      × (c ≡ false → is_red r ≡ false)

  pub ensure_left-IsLeftStep :
      (c : Bool) (lc : Bool) (ll : Node K V) (lk : K) (lv : V) (lr : Node K V) (k : K) (v : V)
      (r : Node K V) (n : ℕ)
      → IsReady (node c (node lc ll lk lv lr) k v r) n
      → Returns (IsLeftStep c n) (ensure_left (node c (node lc ll lk lv lr) k v r))
  unfolding ensure_left is_red is_red_left
  ensure_left-IsLeftStep true true (node true a b x d) lk lv lr k v
        (node true (node true e f g h) p q s) n y =
      ground arith
  ensure_left-IsLeftStep c lc ll lk lv lr k v r n y = ground arith

  pub balance-left :
      (c d : Bool) (l l' : Node K V) (k : K) (v : V) (r : Node K V) (n : ℕ)
      → IsLeftStep c n (node d l k v r)
      → IsShrunk (is_red l) (below d n) l'
      → Returns (IsShrunk c n) (balance (node d l' k v r))
  balance-left c d l l' k v r n s p =
      Returns-imp _ (IsShrunk c n) (balance (node d l' k v r)) (λ t q. ground arith)
        (balance-IsShrunk d l' k v r n (ground arith) p.1 s.2 (ground arith))

  -- A node from which a deletion can go right: no two reds in a row below it, and a red link on at
  -- most one side of it, which a black node has.
  abbrev pub IsReadyRight : Node K V → ℕ → Type 0
  IsReadyRight nil n = ⊥
  IsReadyRight (node c l k v r) n =
      IsBlackHeight (node c l k v r) n
      × Is23 l
      × Is23 r
      × (c ≡ not (is_red l || is_red r))
      × (is_red l && is_red r ≡ false)

  -- The same with no red on the left.
  abbrev pub IsLeaned : Bool → ℕ → Node K V → Type 0
  IsLeaned c n nil = ⊥
  IsLeaned c n (node d l k v r) = IsReadyRight (node d l k v r) n × (is_red l ≡ false) × (d ≡ c)

  -- A node to whose right the deletion goes on, below a node whose colour was `c`.
  abbrev pub IsRightStep : Bool → ℕ → Node K V → Type 0
  IsRightStep c n nil = ⊥
  IsRightStep c n (node d l k v r) =
      IsReadyRight r (below d n)
      × IsBlackHeight (node d l k v r) n
      × Is23 l
      × (d ≡ true → (is_red l ≡ false) × (is_red r ≡ false) × (c ≡ true))
      × (c ≡ false → is_red l ≡ false)

  -- Ready is ready to the right.
  pub IsReady-IsReadyRight :
      (c : Bool) (l : Node K V) (k : K) (v : V) (r : Node K V) (n : ℕ)
      → IsReady (node c l k v r) n
      → IsReadyRight (node c l k v r) n
  unfolding is_red_left
  IsReady-IsReadyRight c l k v r n y = ground arith

  pub lean_right-IsLeaned :
      (c : Bool) (l : Node K V) (k : K) (v : V) (r : Node K V) (n : ℕ)
      → IsReadyRight (node c l k v r) n
      → Returns (IsLeaned c n) (lean_right (node c l k v r))
  unfolding lean_right is_red
  lean_right-IsLeaned true (node true a b d e) k v r n y = ground arith
  lean_right-IsLeaned c l k v r n y = ground arith

  pub ensure_right-IsRightStep :
      (c : Bool) (l : Node K V) (k : K) (v : V) (rc : Bool) (rl : Node K V) (rk : K) (rv : V)
      (rr : Node K V) (n : ℕ)
      → IsLeaned c n (node c l k v (node rc rl rk rv rr))
      → Returns (IsRightStep c n) (ensure_right (node c l k v (node rc rl rk rv rr)))
  unfolding ensure_right is_red
  ensure_right-IsRightStep true (node true (node true a b x d) p q s) k v true (node true e f g h)
        rk rv rr n y =
      ground arith
  ensure_right-IsRightStep c l k v rc rl rk rv rr n y = ground arith

  pub balance-right :
      (c d : Bool) (l : Node K V) (k : K) (v : V) (r r' : Node K V) (n : ℕ)
      → IsRightStep c n (node d l k v r)
      → IsShrunk (is_red r) (below d n) r'
      → Returns (IsShrunk c n) (balance (node d l k v r'))
  balance-right c d l k v r r' n s p =
      Returns-imp _ (IsShrunk c n) (balance (node d l k v r')) (λ t q. ground arith)
        (balance-IsShrunk d l k v r' n (ground arith) s.2 p.1 (ground arith))
