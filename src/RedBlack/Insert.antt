-- ===== src/RedBlack/Insert.antt =====
-- The insertion of dsa/redblack/redblack.go keeps the red-black rules.
use learn_go.Prelude.{ℕ, Bool, false, Option, none, some, arith, ◌>>=◌}
use learn_go.Prelude.Ordered.{Ordered}
use learn_go.RedBlack.Node.{Node, nil, node, is_red, balance}
use learn_go.RedBlack.Descent.{put}
use learn_go.RedBlack.Balance.{
  Returns, IsBlackHeight, Is23, IsGrown, below, balance-IsGrown_left, balance-IsGrown_right,
}

-- A value that both halves of `put` return with the flag.
abbrev pub OnFirst {ℓ} : {A : Type ℓ} → (A → Type 0) → A × Bool → Type 0
OnFirst P (a, flag) = P a

Returns-flag {ℓ} :
    {A : Type ℓ} (P : A → Type 0) (m : Option A) (flag : Bool)
    → Returns P m
    → Returns (OnFirst P) (m >>= λ h. some (h, flag))
Returns-flag P none flag p = p
Returns-flag P (some a) flag p = p

module _ {ℓ κ} {K : Type ℓ} {V : Type κ} where
  module _ (c : Bool) (l : Node K V) (k : K) (v : V) (r : Node K V) (n : ℕ)
      (b : IsBlackHeight (node c l k v r) n) (s : Is23 (node c l k v r)) where
    grow_left :
        (m : Option (Node K V × Bool))
        → Returns (OnFirst (IsGrown (is_red l) (below c n))) m
        → Returns
            (OnFirst (IsGrown c n))
            (m >>= λ (l', new). balance (node c l' k v r) >>= λ h. some (h, new))
    grow_left none p = p
    grow_left (some (l', new)) p =
        Returns-flag (IsGrown c n) (balance (node c l' k v r)) new
          (balance-IsGrown_left c l' k v r n (ground arith) p.1 (λ e. p.2 (ground arith)) s.3 s.0)

    grow_right :
        (m : Option (Node K V × Bool))
        → Returns (OnFirst (IsGrown (is_red r) (below c n))) m
        → Returns
            (OnFirst (IsGrown c n))
            (m >>= λ (r', new). balance (node c l k v r') >>= λ h. some (h, new))
    grow_right none p = p
    grow_right (some (r', new)) p =
        Returns-flag (IsGrown c n) (balance (node c l k v r')) new
          (balance-IsGrown_right c l k v r' n (ground arith) s.2 (λ e. ground arith) (p.2 s.0))

    children : IsBlackHeight l (below c n) × IsBlackHeight r (below c n)
    children = ground arith

module _ {ℓ κ} {K : Type ℓ} {V : Type κ} ⦃o : Ordered K⦄ where
  -- put never panics, keeps the black height, and breaks the rules at most by two reds in a row at
  -- a root that was red.
  pub put-IsGrown :
      (t : Node K V) (key : K) (value : V) (n : ℕ)
      → IsBlackHeight t n
      → Is23 t
      → Returns (OnFirst (IsGrown (is_red t) n)) (put t key value)
  unfolding put is_red
  put-IsGrown nil key value n b s = ground arith
  put-IsGrown (node c l k v r) key value n b s =
      let (bl, br) = children c l k v r n b s in
      ground (
        arith,
        grow_left c l k v r n b s (put l key value) (put-IsGrown l key value (below c n) bl s.2),
        Returns-flag (IsGrown c n) (balance (node c l k value r)) false (same bl br),
        grow_right c l k v r n b s (put r key value) (put-IsGrown r key value (below c n) br s.3),
      )
    where
      same :
          IsBlackHeight l (below c n)
          → IsBlackHeight r (below c n)
          → Returns (IsGrown c n) (balance (node c l k value r))
      same bl br = balance-IsGrown_right c l k value r n (ground arith) s.2 (λ e. ground arith) s.3
