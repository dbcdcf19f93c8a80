-- ===== src/RedBlack/Delete.antt =====
-- del (dsa/redblack/redblack.go) on a node that it can take a key from: it does not panic, keeps
-- the rules, and removes the key's pair.
use Prim.Native.Nat.Ordering.{lt, eq, gt}
use learn_go.Prelude.{
  ℕ, suc, ◌≤◌, ◌≡◌, ◌≢◌, refl, ap, ◌∙◌, sym, Bool, true, false, Option, none, some, arith, ◌>>=◌,
  ◌⊎◌, inl, inr, List, [], ◌∷◌, ◌++◌, length, length-append, Ordering,
}
use learn_go.Prelude.Ordered.{Ordered, ◌≺◌, before_lt, beyond_eq, beyond_gt}
use learn_go.Prelude.Assoc
use learn_go.Prelude.Assoc.{All, All_split, IsSorted, IsSplit, IsSorted-IsSplit}
use mathlib.Core.Path.{subst}
use learn_go.RedBlack.Node.{
  Node, nil, node, is_red, is_red_left, balance, ensure_right, in_order, with_left, min_node,
  count_nodes,
}
use learn_go.RedBlack.Descent.{del_here, del_right}
use learn_go.RedBlack.Balance.{Returns, IsShrunk, below}
use learn_go.RedBlack.Contents.{balance-Keeps, ensure_right-Keeps}
use learn_go.RedBlack.Ready.{
  IsReady, IsLeftStep, IsRightStep, IsLeaned, balance-left, ensure_right-IsRightStep, balance-right,
}
use learn_go.RedBlack.DeleteEnds.{size, yields, without_first, delete_min-TakesFirst, lone_left}
use learn_go.RedBlack.Position.{value_of, IsUp, IsDown, IsRightReady, ensure_right-IsRightReady}
use learn_go.RedBlack.Valid.{count_nodes-length}

module _ {ℓ κ} {K : Type ℓ} {V : Type κ} where
  -- minNode finds the first pair.
  pub min_node-first :
      (c : Bool) (l : Node K V) (k : K) (v : V) (r : Node K V)
      → (x : K × V) × (min_node (node c l k v r) ≡ some x)
        × (in_order (node c l k v r) ≡ x ∷ without_first (in_order (node c l k v r)))
  unfolding min_node in_order
  min_node-first c nil k v r = ((k, v), refl, refl)
  min_node-first c (node lc ll lk lv lr) k v r =
      let (x, found, e) = min_node-first lc ll lk lv lr in
      let whole : in_order (node c (node lc ll lk lv lr) k v r)
          ≡ x ∷ (without_first (in_order (node lc ll lk lv lr)) ++ (k, v) ∷ in_order r) =
        ap (λ xs. xs ++ (k, v) ∷ in_order r) e in
      (x, found, whole ∙ ap (◌∷◌ x) (sym (ap without_first whole)))

  -- The rules do not read the key and value.
  step_root :
      (c d : Bool) (n : ℕ) (l : Node K V) (k : K) (v : V) (r : Node K V) (k' : K) (v' : V)
      → IsRightStep c n (node d l k v r)
      → IsRightStep c n (node d l k' v' r)
  step_root c true n l k v r k' v' s = s
  step_root c false n l k v r k' v' s = s

module _ {ℓ} {K : Type ℓ} ⦃o : Ordered K⦄ where
  -- A key at or behind the root's is behind the smaller key that a rotation puts there.
  down_gt : (q k k' : K) → o.cmp q k ≢ lt → k' ≺ k → o.cmp q k' ≡ gt
  down_gt q k k' h b = split (o.cmp q k) refl
    where
      split : (w : Ordering) → o.cmp q k ≡ w → o.cmp q k' ≡ gt
      split lt e = absurd (h e)
      split eq e = beyond_eq q k k' e b
      split gt e = beyond_gt q k k' e b

module _ {ℓ κ} {K : Type ℓ} {V : Type κ} ⦃o : Ordered K⦄ where
  abbrev pub HasKey : List (K × V) → K → Type κ
  HasKey e q = Assoc.get e q ≢ none

  -- A node that `del` may be called on: it is ready, or leans right and the key is not on its left.
  abbrev pub IsReadyFor : K → Node K V → ℕ → Type 0
  IsReadyFor q nil n = ⊥
  IsReadyFor q (node c l k v r) n =
      IsReady (node c l k v r) n ⊎ (IsLeaned c n (node c l k v r) × (o.cmp q k ≢ lt))

  -- What a removal of the key `q` from the pairs `e` of a node of colour `c` returns.
  abbrev pub Removes : K → Bool → List (K × V) → ℕ → Option (Node K V) → Type (ℓ ⊔ κ)
  Removes q c e n m =
      (t : Node K V) × (m ≡ some t) × IsShrunk c n t × (in_order t ≡ Assoc.remove q e)

  IsReady-IsReadyFor : (q : K) (t : Node K V) (n : ℕ) → IsReady t n → IsReadyFor q t n
  unfolding is_red is_red_left
  IsReady-IsReadyFor q nil n y = cc
  IsReady-IsReadyFor q (node c l k v r) n y = inl y

  -- A rotation moves the root's key up, so that a smaller key is still to the left.
  pub up_lt :
      (q : K) (l : Node K V) (k : K) (v : V) (d : Bool) (l' : Node K V) (k' : K) (v' : V)
      (r' : Node K V)
      → IsSorted (in_order (node d l' k' v' r'))
      → IsUp l k v (node d l' k' v' r')
      → o.cmp q k ≡ lt
      → o.cmp q k' ≡ lt
  unfolding in_order
  up_lt q l k v d l' k' v' r' s (inl e) h = rw e h
  up_lt q l k v d l' k' v' r' s (inr (xs, e)) h =
      let split = IsSorted-IsSplit (in_order l') k' v' (in_order r') s in
      let under = rw e at split.below in
      before_lt q k k' h ((All_split (λ x. x ≺ k') (in_order l) ((k, v) ∷ xs) under).1.0)

  pub down_ne_lt :
      (q : K) (k : K) (v : V) (r : Node K V) (d : Bool) (l' : Node K V) (k' : K) (v' : V)
      (r' : Node K V)
      → IsSorted (in_order (node d l' k' v' r'))
      → IsDown k v r (node d l' k' v' r')
      → o.cmp q k ≢ lt
      → o.cmp q k' ≢ lt
  unfolding in_order
  down_ne_lt q k v r d l' k' v' r' s (inl e) h = rw e h
  down_ne_lt q k v r d l' k' v' r' s (inr (xs, e)) h =
      let split = IsSorted-IsSplit (in_order l') k' v' (in_order r') s in
      let over = rw e at split.above in
      let smaller = (All_split (λ x. k' ≺ x) xs ((k, v) ∷ in_order r) over).1.0 in
      let beyond = down_gt q k k' h smaller in λ z. cc

  module _ (q : K) (recur : Node K V → Option (Node K V)) (bound : ℕ)
      (ih : (t : Node K V) (n : ℕ)
        → size t ≤ bound
        → IsSorted (in_order t)
        → HasKey (in_order t) q
        → IsReadyFor q t n
        → Removes q (is_red t) (in_order t) n (recur t)) where
    pub left_step :
        (c d : Bool) (n : ℕ) (l : Node K V) (k : K) (v : V) (r : Node K V)
        → IsLeftStep c n (node d l k v r)
        → IsSorted (in_order (node d l k v r))
        → HasKey (in_order (node d l k v r)) q
        → o.cmp q k ≡ lt
        → size (node d l k v r) ≤ suc bound
        → Removes q c (in_order (node d l k v r)) n (with_left recur (node d l k v r) >>= balance)
    unfolding with_left in_order
    left_step c d n l k v r s sorted has h f =
        let split = IsSorted-IsSplit (in_order l) k v (in_order r) sorted in
        let smaller : size l ≤ bound =
          omega (arith, length-append (in_order l) ((k, v) ∷ in_order r)) in
        let there : HasKey (in_order l) q =
          λ e. has (Assoc.get_left q k v (in_order r) (in_order l) h split.above ∙ e) in
        let (l', taken, shrunk, rest) =
          ih l (below d n) smaller split.left there (IsReady-IsReadyFor q l (below d n) s.0) in
        let (t, balanced, p, kept) =
          yields (IsShrunk c n) _ (balance (node d l' k v r))
            (balance-left c d l l' k v r n s shrunk) (balance-Keeps (node d l' k v r)) in
        (
          t,
          rw taken balanced,
          p,
          kept ∙ rw rest (sym (Assoc.remove_left q k v (in_order r) (in_order l) h split.above)),
        )

    right_step :
        (c d : Bool) (n : ℕ) (l : Node K V) (k : K) (v : V) (r : Node K V)
        → IsRightStep c n (node d l k v r)
        → IsSorted (in_order (node d l k v r))
        → HasKey (in_order (node d l k v r)) q
        → o.cmp q k ≡ gt
        → IsReadyFor q r (below d n)
        → size (node d l k v r) ≤ suc bound
        → Removes q c (in_order (node d l k v r)) n (del_right recur (node d l k v r) q)
    unfolding del_right in_order
    right_step c d n l k v r s sorted has h ready f =
        let split = IsSorted-IsSplit (in_order l) k v (in_order r) sorted in
        let smaller : size r ≤ bound =
          omega (arith, length-append (in_order l) ((k, v) ∷ in_order r)) in
        let there : HasKey (in_order r) q =
          λ e. has (Assoc.get_right q k v (in_order r) (in_order l) h split.below ∙ e) in
        let (r', taken, shrunk, rest) = ih r (below d n) smaller split.right there ready in
        let (t, balanced, p, kept) =
          yields (IsShrunk c n) _ (balance (node d l k v r'))
            (balance-right c d l k v r r' n s shrunk) (balance-Keeps (node d l k v r')) in
        (
          t,
          rw (h, del_right, taken) balanced,
          p,
          kept ∙ rw rest (sym (Assoc.remove_right q k v (in_order r) (in_order l) h split.below)),
        )

    -- The key is at the node: its successor takes its place.
    here_step :
        (c d : Bool) (n : ℕ) (l : Node K V) (k : K) (v : V) (r : Node K V)
        → IsRightStep c n (node d l k v r)
        → IsSorted (in_order (node d l k v r))
        → o.cmp q k ≡ eq
        → IsReady r (below d n)
        → Removes q c (in_order (node d l k v r)) n (del_right recur (node d l k v r) q)
    unfolding del_right in_order is_red is_red_left
    here_step c d n l k v nil s sorted h ready = cc
    here_step c d n l k v (node e l₂ k₂ v₂ r₂) s sorted h ready =
        let r = node e l₂ k₂ v₂ r₂ in
        let split = IsSorted-IsSplit (in_order l) k v (in_order r) sorted in
        let ((sk, sv), found, first) = min_node-first e l₂ k₂ v₂ r₂ in
        let (r', taken, shrunk, rest) =
          delete_min-TakesFirst (count_nodes r) r (below d n) (omega (arith, count_nodes-length r))
            ready in
        let (t, balanced, p, kept) =
          yields (IsShrunk c n) _ (balance (node d l sk sv r'))
            (balance-right c d l sk sv r r' n (step_root c d n l k v r sk sv s) shrunk)
            (balance-Keeps (node d l sk sv r')) in
        (
          t,
          rw (h, del_right, found, taken) balanced,
          p,
          kept
              ∙ rw rest (
                  ap (λ xs. in_order l ++ xs) (sym first)
                  ∙ sym (Assoc.remove_mid q k v (in_order r) (in_order l) h split.below)),
        )

    -- Past ensureRight: the key is at the node, or behind it.
    settle :
        (c d : Bool) (n : ℕ) (k : K) (v : V) (l₂ : Node K V) (k₂ : K) (v₂ : V) (r₂ : Node K V)
        → IsRightStep c n (node d l₂ k₂ v₂ r₂)
        → IsRightReady n k v (node d l₂ k₂ v₂ r₂)
        → IsSorted (in_order (node d l₂ k₂ v₂ r₂))
        → HasKey (in_order (node d l₂ k₂ v₂ r₂)) q
        → o.cmp q k ≢ lt
        → size (node d l₂ k₂ v₂ r₂) ≤ suc bound
        → Removes q c (in_order (node d l₂ k₂ v₂ r₂)) n (del_right recur (node d l₂ k₂ v₂ r₂) q)
    unfolding in_order
    settle c d n k v l₂ k₂ v₂ nil s pos sorted has h f = absurd s.0
    settle c d n k v l₂ k₂ v₂ (node e l₃ k₃ v₃ r₃) s (inl (same, ready)) sorted has h f =
        split (o.cmp q k₂) refl
      where
        split :
            (w : Ordering)
            → o.cmp q k₂ ≡ w
            → Removes q c
                (in_order (node d l₂ k₂ v₂ (node e l₃ k₃ v₃ r₃)))
                n
                (del_right recur (node d l₂ k₂ v₂ (node e l₃ k₃ v₃ r₃)) q)
        split lt p = absurd (h (rw same at p))
        split eq p = here_step c d n l₂ k₂ v₂ (node e l₃ k₃ v₃ r₃) s sorted p ready
        split gt p = right_step c d n l₂ k₂ v₂ (node e l₃ k₃ v₃ r₃) s sorted has p (inl ready) f
    settle c d n k v l₂ k₂ v₂ (node e l₃ k₃ v₃ r₃) s (inr (same, _, leaned)) sorted has h f =
        let r₂ = node e l₃ k₃ v₃ r₃ in
        let over = (IsSorted-IsSplit (in_order l₂) k₂ v₂ (in_order r₂) sorted).above in
        let smaller = (All_split (λ x. k₂ ≺ x) (in_order l₃) ((k₃, v₃) ∷ in_order r₃) over).1.0 in
        let behind : o.cmp q k₃ ≢ lt = rw same h in
        right_step c d n l₂ k₂ v₂ r₂ s sorted has (down_gt q k₃ k₂ behind smaller)
          (inr (leaned, behind)) f

    pub del_here-Removes :
        (c d : Bool) (n : ℕ) (l : Node K V) (k : K) (v : V) (r : Node K V)
        → IsLeaned c n (node d l k v r)
        → IsSorted (in_order (node d l k v r))
        → HasKey (in_order (node d l k v r)) q
        → o.cmp q k ≢ lt
        → size (node d l k v r) ≤ suc bound
        → Removes q c (in_order (node d l k v r)) n (del_here recur (node d l k v r) q)
    unfolding del_here in_order is_red
    del_here-Removes c d n nil k v nil s sorted has h f = split (o.cmp q k) refl
      where
        split :
            (w : Ordering)
            → o.cmp q k ≡ w
            → Removes q c ((k, v) ∷ []) n (elim (o.cmp q k) [ eq ↦ some nil | _ ↦ none ])
        split lt p = absurd (h p)
        split eq p = (nil, rw p, ground arith, rw (p, Assoc.remove))
        split gt p = absurd (has (rw (p, Assoc.get)))
    del_here-Removes c d n (node lc ll lk lv lr) k v nil s sorted has h f =
        absurd (lone_left c d lc ll lk lv lr k v n s)
    del_here-Removes c d n l k v (node rc rl rk rv rr) s sorted has h f =
        let t = node d l k v (node rc rl rk rv rr) in
        let (t', returned, step, kept) =
          yields (IsRightStep c n) (in_order t) (ensure_right t)
            (subst (λ b. Returns (IsRightStep b n) (ensure_right t)) s.2
              (ensure_right-IsRightStep d l k v rc rl rk rv rr n (s.0, s.1, refl)))
            (ensure_right-Keeps t) in
        let place =
          value_of (IsRightReady n k v) (ensure_right t) t' returned
            (ensure_right-IsRightReady d l k v rc rl rk rv rr n (s.0, s.1, refl)) in
        let (t₂, done, p, e) =
          go t' step place (rw kept sorted) (rw kept has) (rw (ap length kept) f) in
        (
          t₂,
          ap (λ m. m >>= λ x. del_right recur x q) returned ∙ done,
          p,
          e ∙ ap (Assoc.remove q) kept,
        )
      where
        go :
            (t' : Node K V)
            → IsRightStep c n t'
            → IsRightReady n k v t'
            → IsSorted (in_order t')
            → HasKey (in_order t') q
            → size t' ≤ suc bound
            → Removes q c (in_order t') n (del_right recur t' q)
        go nil step place so ha fu = absurd step
        go (node d₂ l₂ k₂ v₂ r₂) step place so ha fu =
            settle c d₂ n k v l₂ k₂ v₂ r₂ step place so ha h fu
