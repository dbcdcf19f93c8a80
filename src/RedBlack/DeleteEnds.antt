-- ===== src/RedBlack/DeleteEnds.antt =====
-- DeleteMin and DeleteMax (dsa/redblack/redblack.go): they do not panic, keep the rules, and take
-- the first or the last pair.
use learn_go.Prelude.{
  ℕ, zero, suc, ◌≤◌, ◌≡◌, refl, ap, ◌∙◌, sym, Bool, true, Option, none, some, arith, ◌>>=◌, List,
  [], ◌∷◌, ◌++◌, length, length-append, append_assoc,
}
use mathlib.Core.Path.{subst}
use learn_go.RedBlack.Node.{
  Node, nil, node, is_red, is_red_left, balance, ensure_left, ensure_right, lean_right, in_order,
  with_left, with_right, delete_min, delete_max, delete_max_right,
}
use learn_go.RedBlack.Balance.{Returns, IsShrunk, below}
use learn_go.RedBlack.Contents.{
  Keeps, balance-Keeps, ensure_left-Keeps, ensure_right-Keeps, lean_right-Keeps,
}
use learn_go.RedBlack.Ready.{
  IsReady, IsReadyRight, IsLeftStep, IsRightStep, IsLeaned, ensure_left-IsLeftStep, balance-left,
  ensure_right-IsRightStep, lean_right-IsLeaned, balance-right,
}

module _ {ℓ κ} {K : Type ℓ} {V : Type κ} where
  abbrev pub size : Node K V → ℕ
  size t = length (in_order t)

  -- A call that returns, and leaves the pairs alone.
  pub yields :
      (P : Node K V → Type 0) (e : List (K × V)) (m : Option (Node K V))
      → Returns P m
      → Keeps e m
      → (t : Node K V) × (m ≡ some t) × P t × (in_order t ≡ e)
  yields P e none p q = absurd p
  yields P e (some t) p q = (t, refl, p, q)

  abbrev pub without_first : List (K × V) → List (K × V)
  without_first [] = []
  without_first (x ∷ xs) = xs

  -- What a deletion of the first pair of `t` returns.
  abbrev pub TakesFirst : Node K V → ℕ → Option (Node K V) → Type (ℓ ⊔ κ)
  TakesFirst t n m =
      (t' : Node K V) × (m ≡ some t')
      × IsShrunk (is_red t) n t'
      × (in_order t' ≡ without_first (in_order t))

  without_first-append :
      (t : Node K V) (ys : List (K × V)) (n : ℕ)
      → IsReady t n
      → without_first (in_order t ++ ys) ≡ without_first (in_order t) ++ ys
  unfolding in_order is_red is_red_left
  without_first-append nil ys n y = cc
  without_first-append (node c l k v r) ys n y = first (in_order l)
    where
      first :
          (xs : List (K × V))
          → without_first ((xs ++ (k, v) ∷ in_order r) ++ ys)
            ≡ without_first (xs ++ (k, v) ∷ in_order r) ++ ys
      first [] = refl
      first (x ∷ xs) = refl

  first_step :
      (c : Bool) (n fuel : ℕ) (h : Node K V)
      → IsLeftStep c n h
      → size h ≤ suc fuel
      → ((l : Node K V) (m : ℕ) → size l ≤ fuel → IsReady l m → TakesFirst l m (delete_min fuel l))
      → (t' : Node K V) × ((with_left (delete_min fuel) h >>= balance) ≡ some t')
        × IsShrunk c n t'
        × (in_order t' ≡ without_first (in_order h))
  unfolding with_left in_order
  first_step c n fuel nil s f ih = absurd s
  first_step c n fuel (node d l k v r) s f ih =
      let smaller : size l ≤ fuel =
        omega (arith, length-append (in_order l) ((k, v) ∷ in_order r)) in
      let (l', taken, shrunk, rest) = ih l (below d n) smaller s.0 in
      let (t, balanced, p, kept) =
        yields (IsShrunk c n) _ (balance (node d l' k v r)) (balance-left c d l l' k v r n s shrunk)
          (balance-Keeps (node d l' k v r)) in
      (
        t,
        rw (taken) balanced,
        p,
        kept ∙ rw rest (sym (without_first-append l ((k, v) ∷ in_order r) (below d n) s.0)),
      )

  -- deleteMin on a ready node, with a fuel of at least its nodes.
  pub delete_min-TakesFirst :
      (fuel : ℕ) (t : Node K V) (n : ℕ)
      → size t ≤ fuel
      → IsReady t n
      → TakesFirst t n (delete_min fuel t)
  unfolding delete_min is_red is_red_left in_order
  delete_min-TakesFirst zero nil n f y = cc
  delete_min-TakesFirst zero (node c l k v r) n f y =
      absurd (omega (arith, length-append (in_order l) ((k, v) ∷ in_order r)))
  delete_min-TakesFirst (suc fuel) nil n f y = cc
  delete_min-TakesFirst (suc fuel) (node c nil k v nil) n f y = (nil, refl, ground arith, refl)
  delete_min-TakesFirst (suc fuel) (node c nil k v (node rc rl rk rv rr)) n f y = ground arith
  delete_min-TakesFirst (suc fuel) (node c (node lc ll lk lv lr) k v r) n f y =
      let h = node c (node lc ll lk lv lr) k v r in
      let (h', returned, s, kept) =
        yields (IsLeftStep c n) (in_order h) (ensure_left h)
          (ensure_left-IsLeftStep c lc ll lk lv lr k v r n y) (ensure_left-Keeps h) in
      let (t', done, p, rest) =
        first_step c n fuel h' s (rw (ap length kept) f) (delete_min-TakesFirst fuel) in
      (
        t',
        ap (λ m. m >>= with_left (delete_min fuel) >>= balance) returned ∙ done,
        p,
        rest ∙ ap without_first kept,
      )

  -- What a deletion of the last pair of `t`, of colour `c`, returns.
  abbrev pub TakesLast : Bool → List (K × V) → ℕ → Option (Node K V) → Type (ℓ ⊔ κ)
  TakesLast c e n m =
      (t' : Node K V) × (x : K × V) × (m ≡ some t') × IsShrunk c n t' × (e ≡ in_order t' ++ x ∷ [])

  last_step :
      (c : Bool) (n fuel : ℕ) (h : Node K V)
      → IsRightStep c n h
      → size h ≤ suc fuel
      → ((r : Node K V) (m : ℕ)
          → size r ≤ fuel
          → IsReadyRight r m
          → TakesLast (is_red r) (in_order r) m (delete_max fuel r))
      → TakesLast c (in_order h) n (with_right (delete_max fuel) h >>= balance)
  unfolding with_right in_order
  last_step c n fuel nil s f ih = absurd s
  last_step c n fuel (node d l k v r) s f ih =
      let smaller : size r ≤ fuel =
        omega (arith, length-append (in_order l) ((k, v) ∷ in_order r)) in
      let (r', x, taken, shrunk, rest) = ih r (below d n) smaller s.0 in
      let (t, balanced, p, kept) =
        yields (IsShrunk c n) _ (balance (node d l k v r'))
          (balance-right c d l k v r r' n s shrunk) (balance-Keeps (node d l k v r')) in
      (
        t,
        x,
        rw taken balanced,
        p,
        ap (λ e. in_order l ++ (k, v) ∷ e) rest
            ∙ sym (
                ap (λ e. e ++ x ∷ []) kept
                ∙ append_assoc (in_order l) ((k, v) ∷ in_order r') (x ∷ [])),
      )

  -- A leaned node with nothing on its right has nothing on its left.
  pub lone_left :
      (c d lc : Bool) (ll : Node K V) (lk : K) (lv : V) (lr : Node K V) (k : K) (v : V) (n : ℕ)
      → IsLeaned c n (node d (node lc ll lk lv lr) k v nil)
      → ⊥
  unfolding is_red
  lone_left c true true ll lk lv lr k v n s = cc
  lone_left c d lc ll lk lv lr k v n s = ground arith

  max_step :
      (c : Bool) (n fuel : ℕ) (h : Node K V)
      → IsLeaned c n h
      → size h ≤ suc fuel
      → ((r : Node K V) (m : ℕ)
          → size r ≤ fuel
          → IsReadyRight r m
          → TakesLast (is_red r) (in_order r) m (delete_max fuel r))
      → TakesLast c (in_order h) n (delete_max_right (delete_max fuel) h)
  unfolding delete_max_right in_order is_red
  max_step c n fuel nil s f ih = absurd s
  max_step c n fuel (node d nil k v nil) s f ih = (nil, (k, v), refl, ground arith, refl)
  max_step c n fuel (node d (node lc ll lk lv lr) k v nil) s f ih =
      absurd (lone_left c d lc ll lk lv lr k v n s)
  max_step c n fuel (node d l k v (node rc rl rk rv rr)) s f ih =
      let h = node d l k v (node rc rl rk rv rr) in
      let (h', returned, step, kept) =
        yields (IsRightStep c n) (in_order h) (ensure_right h)
          (subst (λ b. Returns (IsRightStep b n) (ensure_right h)) s.2
            (ensure_right-IsRightStep d l k v rc rl rk rv rr n (s.0, s.1, refl)))
          (ensure_right-Keeps h) in
      let (t', x, done, p, rest) = last_step c n fuel h' step (rw (ap length kept) f) ih in
      (
        t',
        x,
        ap (λ m. m >>= with_right (delete_max fuel) >>= balance) returned ∙ done,
        p,
        sym kept ∙ rest,
      )

  -- deleteMax on a node that is ready to the right, with a fuel of at least its nodes.
  pub delete_max-TakesLast :
      (fuel : ℕ) (t : Node K V) (n : ℕ)
      → size t ≤ fuel
      → IsReadyRight t n
      → TakesLast (is_red t) (in_order t) n (delete_max fuel t)
  unfolding delete_max is_red in_order
  delete_max-TakesLast zero nil n f y = absurd y
  delete_max-TakesLast zero (node c l k v r) n f y =
      absurd (omega (arith, length-append (in_order l) ((k, v) ∷ in_order r)))
  delete_max-TakesLast (suc fuel) nil n f y = absurd y
  delete_max-TakesLast (suc fuel) (node c l k v r) n f y =
      let h = node c l k v r in
      let (h', returned, s, kept) =
        yields (IsLeaned c n) (in_order h) (lean_right h) (lean_right-IsLeaned c l k v r n y)
          (lean_right-Keeps h) in
      let (t', x, done, p, rest) =
        max_step c n fuel h' s (rw (ap length kept) f) (delete_max-TakesLast fuel) in
      (
        t',
        x,
        ap (λ m. m >>= delete_max_right (delete_max fuel)) returned ∙ done,
        p,
        sym kept ∙ rest,
      )
