-- ===== src/RedBlack/Balance.antt =====
-- The colour rules of dsa/redblack/redblack.go, and what balance makes of a node whose subtrees
-- meet them.
use learn_go.Prelude.{
  ◌>>=◌, if◌then◌else◌, ℕ, ◌-◌, ◌<◌, ◌≡◌, Bool, true, false, ◌&&◌, Option, none, some, arith,
}
use learn_go.RedBlack.Node.{Node, nil, node, is_red, balance}

-- `P` holds of the value of a call that does not panic.
abbrev pub Returns {ℓ} : {A : Type ℓ} → (A → Type 0) → Option A → Type 0
Returns P none = ⊥
Returns P (some a) = P a

pub Returns-imp {ℓ} :
    {A : Type ℓ} (P Q : A → Type 0) (m : Option A)
    → ((a : A) → P a → Q a)
    → Returns P m
    → Returns Q m
Returns-imp P Q none f p = p
Returns-imp P Q (some a) f p = f a p

pub Returns-bind {ℓ κ} :
    {A : Type ℓ} {B : Type κ} (P : A → Type 0) (Q : B → Type 0) (m : Option A) (f : A → Option B)
    → Returns P m
    → ((a : A) → P a → Returns Q (f a))
    → Returns Q (m >>= f)
Returns-bind P Q none f p g = p
Returns-bind P Q (some a) f p g = g a p

-- The black height below a node of the given colour.
abbrev pub below : Bool → ℕ → ℕ
below c n = if c then n else n - 1

module _ {ℓ κ} {K : Type ℓ} {V : Type κ} where
  -- Rule 3: every path to nil crosses `n` black links.
  abbrev pub IsBlackHeight : Node K V → ℕ → Type 0
  IsBlackHeight nil n = n ≡ 0
  IsBlackHeight (node true l k v r) n = IsBlackHeight l n × IsBlackHeight r n
  IsBlackHeight (node false l k v r) n = (0 < n) × IsBlackHeight l (n - 1) × IsBlackHeight r (n - 1)

  -- Rules 1 and 2: no red link leans right, and no two are in a row.
  abbrev pub Is23 : Node K V → Type 0
  Is23 nil = Unit
  Is23 (node c l k v r) = (is_red r ≡ false) × (c && is_red l ≡ false) × Is23 l × Is23 r

  -- The same, but for two reds in a row at the root.
  abbrev pub IsNearly23 : Node K V → Type 0
  IsNearly23 nil = Unit
  IsNearly23 (node c l k v r) = (is_red r ≡ false) × Is23 l × Is23 r

  -- What holds of balance's result in an insertion.
  abbrev pub IsGrown : Bool → ℕ → Node K V → Type 0
  IsGrown c n t = IsBlackHeight t n × IsNearly23 t × (c ≡ false → Is23 t)

  pub balance-IsGrown_left :
      (c : Bool) (l : Node K V) (k : K) (v : V) (r : Node K V) (n : ℕ)
      → IsBlackHeight (node c l k v r) n
      → IsNearly23 l
      → (c ≡ true → Is23 l)
      → Is23 r
      → is_red r ≡ false
      → Returns (IsGrown c n) (balance (node c l k v r))
  unfolding balance is_red
  balance-IsGrown_left true (node true (node true a b c d) lk lv lr) k v (node true e f g h) n p w s
        t q =
      cc
  balance-IsGrown_left c l k v r n p w s t q = ground arith

  pub balance-IsGrown_right :
      (c : Bool) (l : Node K V) (k : K) (v : V) (r : Node K V) (n : ℕ)
      → IsBlackHeight (node c l k v r) n
      → Is23 l
      → (c ≡ true → is_red l ≡ false)
      → Is23 r
      → Returns (IsGrown c n) (balance (node c l k v r))
  unfolding balance is_red
  balance-IsGrown_right true (node true (node true a b c d) lk lv lr) k v (node true e f g h) n p s
        q t =
      cc
  balance-IsGrown_right c l k v r n p s q t = ground arith

  -- What holds of balance's result in a deletion.
  abbrev pub IsShrunk : Bool → ℕ → Node K V → Type 0
  IsShrunk c n t = IsBlackHeight t n × Is23 t × (c ≡ false → is_red t ≡ false)

  pub balance-IsShrunk :
      (c : Bool) (l : Node K V) (k : K) (v : V) (r : Node K V) (n : ℕ)
      → IsBlackHeight (node c l k v r) n
      → Is23 l
      → Is23 r
      → (c ≡ true → (is_red l ≡ false) × (is_red r ≡ false))
      → Returns
          (λ t.
            IsBlackHeight t n
            × Is23 t
            × (c ≡ false → is_red l && is_red r ≡ false → is_red t ≡ false))
          (balance (node c l k v r))
  unfolding balance is_red
  balance-IsShrunk true (node true (node true a b c d) lk lv lr) k v (node true e f g h) n p s t q =
      cc
  balance-IsShrunk c l k v r n p s t q = ground arith
