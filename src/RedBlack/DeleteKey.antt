-- ===== src/RedBlack/DeleteKey.antt =====
-- The recursion of del (dsa/redblack/redblack.go): with a fuel of the number of nodes it removes a
-- key that the tree holds.
use Prim.Native.Nat.Ordering.{lt}
use learn_go.Prelude.{
  ℕ, Bool, zero, suc, ◌≤◌, ◌≡◌, ◌≢◌, refl, ap, ◌∙◌, Option, arith, ◌>>=◌, inl, inr, List, [], ◌∷◌,
  length, length-append, Ordering,
}
use learn_go.Prelude.Ordered.{Ordered}
use learn_go.Prelude.Assoc
use learn_go.Prelude.Assoc.{IsSorted, IsSorted-IsSplit}
use learn_go.RedBlack.Node.{
  Node, nil, node, is_red, balance, ensure_left, lean_right, in_order, with_left,
}
use learn_go.RedBlack.Descent.{del, del_here}
use learn_go.RedBlack.Contents.{ensure_left-Keeps, lean_right-Keeps}
use learn_go.RedBlack.Ready.{
  IsReady, IsReadyRight, IsLeftStep, IsLeaned, ensure_left-IsLeftStep, lean_right-IsLeaned,
  IsReady-IsReadyRight,
}
use learn_go.RedBlack.DeleteEnds.{size, yields}
use learn_go.RedBlack.Position.{value_of, IsUp, ensure_left-IsUp, IsDown, lean_right-IsDown}
use learn_go.RedBlack.Delete.{
  HasKey, IsReadyFor, Removes, up_lt, down_ne_lt, left_step, del_here-Removes,
}

module _ {ℓ κ} {K : Type ℓ} {V : Type κ} ⦃o : Ordered K⦄ where
  module _ (q : K) (recur : Node K V → Option (Node K V)) (bound : ℕ)
      (ih : (t : Node K V) (n : ℕ)
        → size t ≤ bound
        → IsSorted (in_order t)
        → HasKey (in_order t) q
        → IsReadyFor q t n
        → Removes q (is_red t) (in_order t) n (recur t))
      (c : Bool) (l : Node K V) (k : K) (v : V) (r : Node K V) (n : ℕ)
      (sorted : IsSorted (in_order (node c l k v r))) (has : HasKey (in_order (node c l k v r)) q)
      (f : size (node c l k v r) ≤ suc bound) where
    after_left :
        (t : Node K V)
        → IsLeftStep c n t
        → IsUp l k v t
        → in_order t ≡ in_order (node c l k v r)
        → o.cmp q k ≡ lt
        → Removes q c (in_order (node c l k v r)) n (with_left recur t >>= balance)
    after_left nil step up kept h = absurd step
    after_left (node d l₂ k₂ v₂ r₂) step up kept h =
        let t = node d l₂ k₂ v₂ r₂ in
        let so : IsSorted (in_order t) = rw kept sorted in
        let (t', done, p, e) =
          left_step q recur bound ih c d n l₂ k₂ v₂ r₂ step so (rw kept has)
            (up_lt q l k v d l₂ k₂ v₂ r₂ so up h) (rw (ap length kept) f) in
        (t', done, p, e ∙ ap (Assoc.remove q) kept)

    after_right :
        (t : Node K V)
        → IsLeaned c n t
        → IsDown k v r t
        → in_order t ≡ in_order (node c l k v r)
        → o.cmp q k ≢ lt
        → Removes q c (in_order (node c l k v r)) n (del_here recur t q)
    after_right nil step down kept h = absurd step
    after_right (node d l₂ k₂ v₂ r₂) step down kept h =
        let t = node d l₂ k₂ v₂ r₂ in
        let so : IsSorted (in_order t) = rw kept sorted in
        let (t', done, p, e) =
          del_here-Removes q recur bound ih c d n l₂ k₂ v₂ r₂ step so (rw kept has)
            (down_ne_lt q k v r d l₂ k₂ v₂ r₂ so down h) (rw (ap length kept) f) in
        (t', done, p, e ∙ ap (Assoc.remove q) kept)

    go_right :
        IsReadyRight (node c l k v r) n
        → o.cmp q k ≢ lt
        → Removes q c
            (in_order (node c l k v r))
            n
            (lean_right (node c l k v r) >>= λ h. del_here recur h q)
    go_right ready h =
        let t = node c l k v r in
        let (t', returned, step, kept) =
          yields (IsLeaned c n) (in_order t) (lean_right t) (lean_right-IsLeaned c l k v r n ready)
            (lean_right-Keeps t) in
        let down =
          value_of (IsDown k v r) (lean_right t) t' returned (lean_right-IsDown c l k v r) in
        let (t₂, done, p, e) = after_right t' step down kept h in
        (t₂, ap (λ m. m >>= λ x. del_here recur x q) returned ∙ done, p, e)

  module _ (q : K) (recur : Node K V → Option (Node K V)) (bound : ℕ)
      (ih : (t : Node K V) (n : ℕ)
        → size t ≤ bound
        → IsSorted (in_order t)
        → HasKey (in_order t) q
        → IsReadyFor q t n
        → Removes q (is_red t) (in_order t) n (recur t)) where
    go_left :
        (c : Bool) (l : Node K V) (k : K) (v : V) (r : Node K V) (n : ℕ)
        → IsSorted (in_order (node c l k v r))
        → HasKey (in_order (node c l k v r)) q
        → size (node c l k v r) ≤ suc bound
        → IsReady (node c l k v r) n
        → o.cmp q k ≡ lt
        → Removes q c
            (in_order (node c l k v r))
            n
            (ensure_left (node c l k v r) >>= with_left recur >>= balance)
    unfolding in_order
    go_left c nil k v r n sorted has f ready h = absurd (
        has (
          Assoc.get_left q k v (in_order r) [] h
            (IsSorted-IsSplit [] k v (in_order r) sorted).above))
    go_left c (node lc ll lk lv lr) k v r n sorted has f ready h =
        let l = node lc ll lk lv lr in
        let t = node c l k v r in
        let (t', returned, step, kept) =
          yields (IsLeftStep c n) (in_order t) (ensure_left t)
            (ensure_left-IsLeftStep c lc ll lk lv lr k v r n ready) (ensure_left-Keeps t) in
        let up =
          value_of (IsUp l k v) (ensure_left t) t' returned
            (ensure_left-IsUp c lc ll lk lv lr k v r) in
        let (t₂, done, p, e) =
          after_left q recur bound ih c l k v r n sorted has f t' step up kept h in
        (t₂, ap (λ m. m >>= with_left recur >>= balance) returned ∙ done, p, e)

  del_left :
      (fuel : ℕ) (c : Bool) (l : Node K V) (k : K) (v : V) (r : Node K V) (q : K)
      → o.cmp q k ≡ lt
      → del (suc fuel) (node c l k v r) q
        ≡ (ensure_left (node c l k v r) >>= with_left (λ x. del fuel x q) >>= balance)
  unfolding del
  del_left fuel c l k v r q p = ground (arith, p)

  del_right :
      (fuel : ℕ) (c : Bool) (l : Node K V) (k : K) (v : V) (r : Node K V) (q : K)
      → o.cmp q k ≢ lt
      → del (suc fuel) (node c l k v r) q
        ≡ (lean_right (node c l k v r) >>= λ h. del_here (λ x. del fuel x q) h q)
  unfolding del
  del_right fuel c l k v r q p = ground (arith, p)

  re_run :
      (q : K) (c : Bool) (e : List (K × V)) (n : ℕ) (m m' : Option (Node K V))
      → m ≡ m'
      → Removes q c e n m'
      → Removes q c e n m
  re_run q c e n m m' p (t, done, shrunk, rest) = (t, p ∙ done, shrunk, rest)

  IsReadyFor-IsReadyRight :
      (q : K) (c : Bool) (l : Node K V) (k : K) (v : V) (r : Node K V) (n : ℕ)
      → IsReadyFor q (node c l k v r) n
      → IsReadyRight (node c l k v r) n
  IsReadyFor-IsReadyRight q c l k v r n (inl ready) = IsReady-IsReadyRight c l k v r n ready
  IsReadyFor-IsReadyRight q c l k v r n (inr (leaned, h)) = leaned.0

  IsReadyFor-IsReady :
      (q : K) (c : Bool) (l : Node K V) (k : K) (v : V) (r : Node K V) (n : ℕ)
      → IsReadyFor q (node c l k v r) n
      → o.cmp q k ≡ lt
      → IsReady (node c l k v r) n
  IsReadyFor-IsReady q c l k v r n (inl ready) p = ready
  IsReadyFor-IsReady q c l k v r n (inr (leaned, h)) p = absurd (h p)

  -- del on a node that is ready for the key, with a fuel of at least its nodes.
  pub del-Removes :
      (q : K) (fuel : ℕ) (t : Node K V) (n : ℕ)
      → size t ≤ fuel
      → IsSorted (in_order t)
      → HasKey (in_order t) q
      → IsReadyFor q t n
      → Removes q (is_red t) (in_order t) n (del fuel t q)
  unfolding is_red in_order
  del-Removes q zero nil n f sorted has ready = absurd ready
  del-Removes q zero (node c l k v r) n f sorted has ready =
      absurd (omega (arith, length-append (in_order l) ((k, v) ∷ in_order r)))
  del-Removes q (suc fuel) nil n f sorted has ready = absurd ready
  del-Removes q (suc fuel) (node c l k v r) n f sorted has ready =
      split (o.cmp q k) refl (del-Removes q fuel)
    where
      split :
          (w : Ordering)
          → o.cmp q k ≡ w
          → ((t : Node K V) (n : ℕ)
              → size t ≤ fuel
              → IsSorted (in_order t)
              → HasKey (in_order t) q
              → IsReadyFor q t n
              → Removes q (is_red t) (in_order t) n (del fuel t q))
          → Removes q c (in_order (node c l k v r)) n (del (suc fuel) (node c l k v r) q)
      split lt p ih = re_run q c _ n _ _ (del_left fuel c l k v r q p) (
          go_left q (λ x. del fuel x q) fuel ih c l k v r n sorted has f
            (IsReadyFor-IsReady q c l k v r n ready p) p)
      split w p ih =
          let behind : o.cmp q k ≢ lt = λ e. cc in
          re_run q c _ n _ _ (del_right fuel c l k v r q behind) (
            go_right q (λ x. del fuel x q) fuel ih c l k v r n sorted has f
              (IsReadyFor-IsReadyRight q c l k v r n ready) behind)
