-- ===== src/Bst/Change.antt =====
-- Put and Delete of dsa/bst/bst.go against sorted association lists.
use Prim.Native.Nat.Ordering.{lt, eq, gt}
use learn_go.Prelude.{
  ℕ, ◌+◌, ◌-◌, ◌≡◌, refl, ap, sym, Bool, true, false, not, Option, none, some, ◌∷◌, ◌++◌, arith,
  append-nil, if◌then◌else◌, Ordering,
}
use learn_go.Prelude.Ordered.{Ordered}
use learn_go.Prelude.Assoc
use learn_go.Prelude.Assoc.{IsSorted, IsSorted-IsSplit}
use learn_go.Prelude.Map
use learn_go.Bst.{Node, nil, node, Tree, put, delete, take_successor, unlink, tree_put, tree_delete}
use learn_go.Bst.Pairs.{pairs, IsValid}

abbrev pub is_some {ℓ} : {A : Type ℓ} → Option A → Bool
is_some none = false
is_some (some a) = true

module _ {ℓ} {A : Type ℓ} where
  count_up :
      (a : Option A) {b : Bool} (n : ℕ) {m k : ℕ}
      → b ≡ not (is_some a)
      → n ≡ m
      → k + Map.found a ≡ m + 1
      → (if b then n + 1 else n) ≡ k
  count_up none n e f g = rw e (omega arith)
  count_up (some a) n e f g = rw e (omega arith)

  count_down :
      (a : Option A) {b : Bool} (n : ℕ) {m k : ℕ}
      → b ≡ is_some a
      → n ≡ m
      → k + Map.found a ≡ m
      → (if b then n - 1 else n) ≡ k
  count_down none n e f g = rw e (omega arith)
  count_down (some a) n e f g = rw e (omega arith)

module _ {ℓ κ} {K : Type ℓ} {V : Type κ} where
  take_successor-pairs :
      (l : Node K V) (k : K) (v : V) (r : Node K V)
      → pairs (node l k v r) ≡ (take_successor l k v r).0 ∷ pairs (take_successor l k v r).1
  unfolding take_successor
  take_successor-pairs nil k v r = refl
  take_successor-pairs (node a x y b) k v r =
      ap (λ e. e ++ (k, v) ∷ pairs r) (take_successor-pairs a x y b)

  -- The node's place is taken by its subtrees' pairs.
  unlink-pairs : (l r : Node K V) → pairs (unlink l r) ≡ pairs l ++ pairs r
  unfolding unlink
  unlink-pairs nil r = refl
  unlink-pairs (node a x y b) nil = sym (append-nil (pairs (node a x y b)))
  unlink-pairs (node a x y b) (node c p q d) =
      ap (λ e. pairs (node a x y b) ++ e) (sym (take_successor-pairs c p q d))

module _ {ℓ κ} {K : Type ℓ} {V : Type κ} ⦃o : Ordered K⦄ where
  put-pairs :
      (t : Node K V) (key : K) (value : V)
      → IsSorted (pairs t)
      → (pairs (put t key value).0 ≡ Assoc.put key value (pairs t))
        × ((put t key value).1 ≡ not (is_some (Assoc.get (pairs t) key)))
  unfolding put
  put-pairs nil key value s = (refl, refl)
  put-pairs (node l k v r) key value s =
      let p = IsSorted-IsSplit (pairs l) k v (pairs r) s in
      split (o.cmp key k) refl p (put-pairs l key value p.left) (put-pairs r key value p.right)
    where
      split :
          (w : Ordering)
          → o.cmp key k ≡ w
          → Assoc.IsSplit (pairs l) k (pairs r)
          → (pairs (put l key value).0 ≡ Assoc.put key value (pairs l))
            × ((put l key value).1 ≡ not (is_some (Assoc.get (pairs l) key)))
          → (pairs (put r key value).0 ≡ Assoc.put key value (pairs r))
            × ((put r key value).1 ≡ not (is_some (Assoc.get (pairs r) key)))
          → (pairs (put (node l k v r) key value).0 ≡ Assoc.put key value (pairs (node l k v r)))
            × ((put (node l k v r) key value).1
                ≡ not (is_some (Assoc.get (pairs (node l k v r)) key)))
      split lt e p a b = (
        rw (e, put, Assoc.put_left key k v (pairs r) value (pairs l) e)
            (ap (λ x. x ++ (k, v) ∷ pairs r) a.0),
        rw (e, put, Assoc.get_left key k v (pairs r) (pairs l) e p.above) a.1,
      )
      split eq e p a b = (
        rw (e, put, Assoc.put_mid key k v (pairs r) value (pairs l) e p.below) refl,
        rw (e, put, Assoc.get_mid key k v (pairs r) (pairs l) e p.below) refl,
      )
      split gt e p a b = (
        rw (e, put, Assoc.put_right key k v (pairs r) value (pairs l) e p.below)
            (ap (λ x. pairs l ++ (k, v) ∷ x) b.0),
        rw (e, put, Assoc.get_right key k v (pairs r) (pairs l) e p.below) b.1,
      )

  delete-pairs :
      (t : Node K V) (key : K)
      → IsSorted (pairs t)
      → (pairs (delete t key).0 ≡ Assoc.remove key (pairs t))
        × ((delete t key).1 ≡ is_some (Assoc.get (pairs t) key))
  unfolding delete
  delete-pairs nil key s = (refl, refl)
  delete-pairs (node l k v r) key s =
      let p = IsSorted-IsSplit (pairs l) k v (pairs r) s in
      split (o.cmp key k) refl p (delete-pairs l key p.left) (delete-pairs r key p.right)
    where
      split :
          (w : Ordering)
          → o.cmp key k ≡ w
          → Assoc.IsSplit (pairs l) k (pairs r)
          → (pairs (delete l key).0 ≡ Assoc.remove key (pairs l))
            × ((delete l key).1 ≡ is_some (Assoc.get (pairs l) key))
          → (pairs (delete r key).0 ≡ Assoc.remove key (pairs r))
            × ((delete r key).1 ≡ is_some (Assoc.get (pairs r) key))
          → (pairs (delete (node l k v r) key).0 ≡ Assoc.remove key (pairs (node l k v r)))
            × ((delete (node l k v r) key).1 ≡ is_some (Assoc.get (pairs (node l k v r)) key))
      split lt e p a b = (
        rw (e, delete, Assoc.remove_left key k v (pairs r) (pairs l) e p.above)
            (ap (λ x. x ++ (k, v) ∷ pairs r) a.0),
        rw (e, delete, Assoc.get_left key k v (pairs r) (pairs l) e p.above) a.1,
      )
      split eq e p a b = (
        rw (e, delete, Assoc.remove_mid key k v (pairs r) (pairs l) e p.below) (unlink-pairs l r),
        rw (e, delete, Assoc.get_mid key k v (pairs r) (pairs l) e p.below) refl,
      )
      split gt e p a b = (
        rw (e, delete, Assoc.remove_right key k v (pairs r) (pairs l) e p.below)
            (ap (λ x. pairs l ++ (k, v) ∷ x) b.0),
        rw (e, delete, Assoc.get_right key k v (pairs r) (pairs l) e p.below) b.1,
      )

  -- Put on a valid tree returns a valid tree with the pairs of the map after the put, and whether
  -- the key was new.
  pub tree_put-IsValid :
      (t : Tree K V) (key : K) (value : V)
      → IsValid t
      → IsValid (tree_put t key value).0
        × (pairs (tree_put t key value).0.root ≡ Assoc.put key value (pairs t.root))
        × ((tree_put t key value).1 ≡ not (is_some (Assoc.get (pairs t.root) key)))
  unfolding tree_put
  tree_put-IsValid t key value s =
      let (same, new) = put-pairs t.root key value s.sorted in
      let longer = Map.length-put key value (pairs t.root) s.sorted in
      (
        record {
          sorted = rw same (Map.put-IsSorted key value (pairs t.root) s.sorted);
          counted = rw same (count_up (Assoc.get (pairs t.root) key) t.count new s.counted longer);
        },
        same,
        new,
      )

  -- Delete from a valid tree returns a valid tree with the pairs of the map after the removal, and
  -- whether the key was there.
  pub tree_delete-IsValid :
      (t : Tree K V) (key : K)
      → IsValid t
      → IsValid (tree_delete t key).0
        × (pairs (tree_delete t key).0.root ≡ Assoc.remove key (pairs t.root))
        × ((tree_delete t key).1 ≡ is_some (Assoc.get (pairs t.root) key))
  unfolding tree_delete
  tree_delete-IsValid t key s =
      let (same, found) = delete-pairs t.root key s.sorted in
      let shorter = Map.length-remove key (pairs t.root) in
      (
        record {
          sorted = rw same (Map.remove-IsSorted key (pairs t.root) s.sorted);
          counted =
              rw same (count_down (Assoc.get (pairs t.root) key) t.count found s.counted shorter);
        },
        same,
        found,
      )
