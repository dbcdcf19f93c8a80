-- ===== src/Bst/Check.antt =====
-- IsValid of dsa/bst/bst.go decides the invariant.
use learn_go.Prelude.{◌≡◌, ◌↔◌, refl, true, Option, none, some, List, [], ◌∷◌, arith}
use learn_go.Prelude.Ordered.{Ordered, ◌≺◌, lt_of_gt, gt_of_lt}
use learn_go.Prelude.Assoc.{
  All, All-imp, All-append, All_split, IsSorted, IsSorted-IsSplit, IsSplit-IsSorted,
}
use learn_go.Bst.{Node, nil, node, Tree, over, under, valid, is_valid}
use learn_go.Bst.Pairs.{pairs, IsValid, count_nodes-length}

module _ {ℓ} {K : Type ℓ} ⦃o : Ordered K⦄ where
  over_chain : (lo : Option K) (k x : K) → over lo k ≡ true → k ≺ x → over lo x ≡ true
  over_chain none k x h b = refl
  over_chain (some lo) k x h b = ground (arith, lt_of_gt k lo, o.chain lo k x, gt_of_lt lo x)

  under_chain : (hi : Option K) (k x : K) → under hi k ≡ true → x ≺ k → under hi x ≡ true
  under_chain none k x h b = refl
  under_chain (some hi) k x h b = ground (arith, o.chain x k hi)

module _ {ℓ κ} {K : Type ℓ} {V : Type κ} ⦃o : Ordered K⦄ where
  -- The pairs of a part of the tree are in order and within the bounds.
  abbrev InBounds : Node K V → Option K → Option K → Type 0
  InBounds t lo hi =
      IsSorted (pairs t)
      × All (λ k. over lo k ≡ true) (pairs t)
      × All (λ k. under hi k ≡ true) (pairs t)

  valid-InBounds : (t : Node K V) (lo hi : Option K) → valid t lo hi ≡ true → InBounds t lo hi
  unfolding valid
  valid-InBounds nil lo hi h = (tt, tt, tt)
  valid-InBounds (node l k v r) lo hi h =
      let a : over lo k ≡ true = ground arith in
      let b : under hi k ≡ true = ground arith in
      let (ls, lo_l, hi_l) = valid-InBounds l lo (some k) (ground arith) in
      let (rs, lo_r, hi_r) = valid-InBounds r (some k) hi (ground arith) in
      let below : All (λ x. x ≺ k) (pairs l) = All-imp (λ x e. ground arith) (pairs l) hi_l in
      let above : All (λ x. k ≺ x) (pairs r) =
        All-imp (λ x e. lt_of_gt x k (ground arith)) (pairs r) lo_r in
      (
        IsSplit-IsSorted (pairs l) k v (pairs r)
            (record { below = below; above = above; left = ls; right = rs }),
        All-append (λ x. over lo x ≡ true) (pairs l) ((k, v) ∷ pairs r) lo_l
            (a, All-imp (λ x e. over_chain lo k x a e) (pairs r) above),
        All-append (λ x. under hi x ≡ true) (pairs l) ((k, v) ∷ pairs r)
            (All-imp (λ x e. under_chain hi k x b e) (pairs l) below) (b, hi_r),
      )

  InBounds-valid : (t : Node K V) (lo hi : Option K) → InBounds t lo hi → valid t lo hi ≡ true
  unfolding valid
  InBounds-valid nil lo hi h = refl
  InBounds-valid (node l k v r) lo hi (s, a, b) =
      let p = IsSorted-IsSplit (pairs l) k v (pairs r) s in
      let (a_l, a_k) = All_split (λ x. over lo x ≡ true) (pairs l) ((k, v) ∷ pairs r) a in
      let (b_l, b_k) = All_split (λ x. under hi x ≡ true) (pairs l) ((k, v) ∷ pairs r) b in
      let left =
        InBounds-valid l lo (some k)
          (p.left, a_l, All-imp (λ x e. ground arith) (pairs l) p.below) in
      let right =
        InBounds-valid r (some k) hi
          (p.right, All-imp (λ x e. ground (arith, gt_of_lt k x e)) (pairs r) p.above, b_k.1) in
      rw (a_k.0, b_k.0, left, right) refl

  no_bounds :
      (t : List (K × V)) → All (λ k. over none k ≡ true) t × All (λ k. under none k ≡ true) t
  no_bounds [] = (tt, tt)
  no_bounds (x ∷ t) = let (a, b) = no_bounds t in ((refl, a), (refl, b))

  -- IsValid answers true exactly for the trees that are in order and count their nodes.
  pub is_valid_iff : (t : Tree K V) → (is_valid t ≡ true) ↔ IsValid t
  unfolding is_valid
  is_valid_iff t =
      let counted = count_nodes-length t.root in
      (
        λ h. record {
          sorted = (valid-InBounds t.root none none (ground arith)).0;
          counted = ground arith;
        },
        λ s.
            let (a, b) = no_bounds (pairs t.root) in
            let ok = InBounds-valid t.root none none (s.sorted, a, b) in
            let c = s.counted in ground arith,
      )
