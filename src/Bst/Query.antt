-- ===== src/Bst/Query.antt =====
-- Min, Max, Floor and Ceiling of dsa/bst/bst.go on the pairs in order.
use Prim.Native.Nat.Ordering.{lt, eq, gt}
use learn_go.Prelude.{
  ◌≡◌, refl, ◌∙◌, Option, none, some, List, [], ◌∷◌, ◌++◌, arith, Ordering, Bool, true, false, not,
  sym, append-nil, ◌≢◌, if◌then◌else◌,
}
use learn_go.Prelude.Ordered.{Ordered, ◌≺◌, is_lt, is_gt, lt_of_gt, gt_of_lt}
use learn_go.Prelude.Assoc
use learn_go.Prelude.Assoc.{All, All-imp, IsSorted, IsSorted-IsSplit}
use learn_go.Bst.{Node, nil, node, min_node, max_node, floor, ceiling}
use learn_go.Bst.Pairs.{pairs}

module _ {ℓ} {A : Type ℓ} where
  abbrev pub head : List A → Option A
  head [] = none
  head (x ∷ xs) = some x

  abbrev pub or_else : Option A → Option A → Option A
  or_else none b = b
  or_else (some a) b = some a

  abbrev pub last : List A → Option A
  last [] = none
  last (x ∷ xs) = or_else (last xs) (some x)

  pub head-append : (xs ys : List A) → head (xs ++ ys) ≡ or_else (head xs) (head ys)
  head-append [] ys = refl
  head-append (x ∷ xs) ys = refl

  or_else_assoc : (a b c : Option A) → or_else (or_else a b) c ≡ or_else a (or_else b c)
  or_else_assoc none b c = refl
  or_else_assoc (some a) b c = refl

  pub last-append : (xs ys : List A) → last (xs ++ ys) ≡ or_else (last ys) (last xs)
  last-append [] [] = refl
  last-append [] (y ∷ ys) = ground (arith, last-append [] ys)
  last-append (x ∷ xs) ys = rw (last-append xs ys) (or_else_assoc (last ys) (last xs) (some x))

  or_else-none : (a : Option A) → or_else a none ≡ a
  or_else-none none = refl
  or_else-none (some a) = refl

  head_inner :
      (xs : List A) (x : A) (zs ys : List A) → head (xs ++ x ∷ zs) ≡ head ((xs ++ x ∷ zs) ++ ys)
  head_inner [] x zs ys = refl
  head_inner (w ∷ xs) x zs ys = refl

  last_some :
      (a : Option A) (x : A) (b : Option A) → or_else (or_else a (some x)) b ≡ or_else a (some x)
  last_some none x b = refl
  last_some (some a) x b = refl

  pub last_cons :
      (xs : List A) (x : A) (ys : List A) → last (xs ++ x ∷ ys) ≡ or_else (last ys) (some x)
  last_cons xs x ys = last-append xs (x ∷ ys) ∙ last_some (last ys) x (last xs)

  last_inner :
      (w : A) (xs : List A) (x : A) (ys : List A) → last (w ∷ (xs ++ x ∷ ys)) ≡ last (xs ++ x ∷ ys)
  last_inner w xs x ys = rw (last_cons xs x ys) (last_some (last ys) x (some w))

module _ {ℓ κ} {K : Type ℓ} {V : Type κ} where
  pub min_node-head : (t : Node K V) → min_node t ≡ head (pairs t)
  unfolding min_node
  min_node-head nil = refl
  min_node-head (node nil k v r) = refl
  min_node-head (node (node a x y b) k v r) =
      min_node-head (node a x y b) ∙ head_inner (pairs a) (x, y) (pairs b) ((k, v) ∷ pairs r)

  pub max_node-last : (t : Node K V) → max_node t ≡ last (pairs t)
  unfolding max_node
  max_node-last nil = refl
  max_node-last (node l k v nil) = sym (last_cons (pairs l) (k, v) [])
  max_node-last (node l k v (node a x y b)) =
      max_node-last (node a x y b)
      ∙ sym (
          last_cons (pairs l) (k, v) (pairs (node a x y b))
          ∙ last_inner (k, v) (pairs a) (x, y) (pairs b))

  -- The pairs whose key passes a test.
  abbrev pub keep : (K → Bool) → List (K × V) → List (K × V)
  keep p [] = []
  keep p ((k, v) ∷ xs) = let rest = keep p xs in if p k then (k, v) ∷ rest else rest

  pub keep-append :
      (p : K → Bool) (xs ys : List (K × V)) → keep p (xs ++ ys) ≡ keep p xs ++ keep p ys
  keep-append p [] ys = refl
  keep-append p ((k, v) ∷ xs) ys = ground (arith, keep-append p xs ys)

  pub keep_none : (p : K → Bool) (xs : List (K × V)) → All (λ k. p k ≡ false) xs → keep p xs ≡ []
  keep_none p [] h = refl
  keep_none p ((k, v) ∷ xs) h = rw (h.0) (keep_none p xs h.1)

  module _ (p : K → Bool) (xs : List (K × V)) (k : K) (v : V) (ys : List (K × V)) where
    kept_end :
        (best : Option (K × V))
        → p k ≡ true
        → or_else (last (keep p (xs ++ (k, v) ∷ ys))) best
          ≡ or_else (last (keep p ys)) (some (k, v))
    kept_end best h =
        rw (keep-append p xs ((k, v) ∷ ys), h, last_cons (keep p xs) (k, v) (keep p ys))
          (last_some (last (keep p ys)) (k, v) best)

    kept_start :
        (best : Option (K × V))
        → p k ≡ true
        → or_else (head (keep p (xs ++ (k, v) ∷ ys))) best
          ≡ or_else (head (keep p xs)) (some (k, v))
    kept_start best h =
        rw (keep-append p xs ((k, v) ∷ ys), h, head-append (keep p xs) ((k, v) ∷ keep p ys))
          (last_some (head (keep p xs)) (k, v) best)

    pub kept_front :
        p k ≡ false → All (λ x. p x ≡ false) ys → keep p (xs ++ (k, v) ∷ ys) ≡ keep p xs
    kept_front h n =
        rw (keep-append p xs ((k, v) ∷ ys), h, keep_none p ys n) (append-nil (keep p xs))

    pub kept_back : p k ≡ false → All (λ x. p x ≡ false) xs → keep p (xs ++ (k, v) ∷ ys) ≡ keep p ys
    kept_back h n = rw (keep-append p xs ((k, v) ∷ ys), keep_none p xs n, h) refl

module _ {ℓ} {K : Type ℓ} ⦃o : Ordered K⦄ where
  -- How the keys on the far side of a key compare with the one that it was compared with.
  pub far_above : (k key x : K) → o.cmp k key ≢ lt → k ≺ x → o.cmp x key ≡ gt
  far_above k key x h b =
      ground
        (arith, o.same_of_cmp k key, lt_of_gt k key, gt_of_lt key x, gt_of_lt k x, o.chain key k x)

  pub far_below : (k key x : K) → o.cmp k key ≢ gt → x ≺ k → o.cmp x key ≡ lt
  far_below k key x h b = ground (arith, o.same_of_cmp k key, o.chain x k key)

module _ {ℓ} {K : Type ℓ} ⦃o : Ordered K⦄ where
  abbrev pub at_most : K → K → Bool
  at_most key k = not (is_gt (o.cmp k key))

  abbrev pub at_least : K → K → Bool
  at_least key k = not (is_lt (o.cmp k key))

module _ {ℓ κ} {K : Type ℓ} {V : Type κ} ⦃o : Ordered K⦄ where
  none_at_most :
      (k key : K) (xs : List (K × V))
      → o.cmp k key ≢ lt
      → All (λ x. k ≺ x) xs
      → All (λ x. at_most key x ≡ false) xs
  none_at_most k key [] h b = tt
  none_at_most k key ((x, u) ∷ xs) h b =
      (rw (far_above k key x h b.0) refl, none_at_most k key xs h b.1)

  none_at_least :
      (k key : K) (xs : List (K × V))
      → o.cmp k key ≢ gt
      → All (λ x. x ≺ k) xs
      → All (λ x. at_least key x ≡ false) xs
  none_at_least k key [] h b = tt
  none_at_least k key ((x, u) ∷ xs) h b =
      (rw (far_below k key x h b.0) refl, none_at_least k key xs h b.1)

  -- Floor finds the last pair whose key is not above the one asked for, Ceiling the first one whose
  -- key is not below it.
  floor-last :
      (t : Node K V) (key : K) (best : Option (K × V))
      → IsSorted (pairs t)
      → floor t key best ≡ or_else (last (keep (at_most key) (pairs t))) best
  unfolding floor
  floor-last nil key best s = refl
  floor-last (node l k v r) key best s =
      let p = IsSorted-IsSplit (pairs l) k v (pairs r) s in
      split (o.cmp k key) refl p (floor-last l key best p.left)
        (floor-last r key (some (k, v)) p.right)
    where
      split :
          (w : Ordering)
          → o.cmp k key ≡ w
          → Assoc.IsSplit (pairs l) k (pairs r)
          → floor l key best ≡ or_else (last (keep (at_most key) (pairs l))) best
          → floor r key (some (k, v)) ≡ or_else (last (keep (at_most key) (pairs r))) (some (k, v))
          → floor (node l k v r) key best
            ≡ or_else (last (keep (at_most key) (pairs (node l k v r)))) best
      split lt e p a b =
          rw (e, floor) (b ∙ sym (kept_end (at_most key) (pairs l) k v (pairs r) best (rw e refl)))
      split eq e p a b =
          let none_after : keep (at_most key) (pairs r) ≡ [] =
            keep_none (at_most key) (pairs r) (none_at_most k key (pairs r) (λ f. cc) p.above) in
          let kept = kept_end (at_most key) (pairs l) k v (pairs r) best (rw e refl) in
          rw (e, floor, kept, none_after) refl
      split gt e p a b =
          let kept =
            kept_front (at_most key) (pairs l) k v (pairs r) (rw e refl)
              (none_at_most k key (pairs r) (λ f. cc) p.above) in
          rw (e, floor, kept) a

  ceiling-head :
      (t : Node K V) (key : K) (best : Option (K × V))
      → IsSorted (pairs t)
      → ceiling t key best ≡ or_else (head (keep (at_least key) (pairs t))) best
  unfolding ceiling
  ceiling-head nil key best s = refl
  ceiling-head (node l k v r) key best s =
      let p = IsSorted-IsSplit (pairs l) k v (pairs r) s in
      split (o.cmp k key) refl p (ceiling-head l key (some (k, v)) p.left)
        (ceiling-head r key best p.right)
    where
      split :
          (w : Ordering)
          → o.cmp k key ≡ w
          → Assoc.IsSplit (pairs l) k (pairs r)
          → ceiling l key (some (k, v))
            ≡ or_else (head (keep (at_least key) (pairs l))) (some (k, v))
          → ceiling r key best ≡ or_else (head (keep (at_least key) (pairs r))) best
          → ceiling (node l k v r) key best
            ≡ or_else (head (keep (at_least key) (pairs (node l k v r)))) best
      split gt e p a b =
          rw (e, ceiling)
            (a ∙ sym (kept_start (at_least key) (pairs l) k v (pairs r) best (rw e refl)))
      split eq e p a b =
          let none_before : keep (at_least key) (pairs l) ≡ [] =
            keep_none (at_least key) (pairs l) (none_at_least k key (pairs l) (λ f. cc) p.below) in
          let kept = kept_start (at_least key) (pairs l) k v (pairs r) best (rw e refl) in
          rw (e, ceiling, kept, none_before) refl
      split lt e p a b =
          let kept =
            kept_back (at_least key) (pairs l) k v (pairs r) (rw e refl)
              (none_at_least k key (pairs l) (λ f. cc) p.below) in
          rw (e, ceiling, kept) b

  -- Floor of a sorted tree is the last pair whose key is not above the one asked for, and Ceiling
  -- the first one whose key is not below it.
  pub floor-ceiling :
      (t : Node K V) (key : K)
      → IsSorted (pairs t)
      → (floor t key none ≡ last (keep (at_most key) (pairs t)))
        × (ceiling t key none ≡ head (keep (at_least key) (pairs t)))
  floor-ceiling t key s = (
    floor-last t key none s ∙ or_else-none (last (keep (at_most key) (pairs t))),
    ceiling-head t key none s ∙ or_else-none (head (keep (at_least key) (pairs t))),
  )
