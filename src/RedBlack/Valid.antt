-- ===== src/RedBlack/Valid.antt =====
-- The invariant of Tree (dsa/redblack/redblack.go), Put and Get against maps, and the invariant
-- read by the code's own check IsValid.
use Prim.Native.Nat.Ordering.{eq}
use learn_go.Prelude.{
  ℕ, suc, ◌+◌, ◌-◌, ◌≡◌, refl, ap, Bool, true, false, Option, none, some, List, [], ◌∷◌, arith,
  ◌>>=◌, if◌then◌else◌, length, length-append,
}
use learn_go.Prelude.Ordered.{Ordered}
use learn_go.Prelude.Assoc
use learn_go.Prelude.Assoc.{All, IsSorted, IsSplit, IsSorted-IsSplit}
use learn_go.Prelude.Map
use learn_go.RedBlack.Node.{Node, nil, node, is_red, in_order, count_nodes}
use learn_go.RedBlack.Descent.{put}
use learn_go.RedBlack.Tree.{Tree, tree_get, tree_put, blacken}
use learn_go.RedBlack.Balance.{Returns, IsBlackHeight, Is23, IsGrown}
use learn_go.RedBlack.Insert.{OnFirst, put-IsGrown}
use learn_go.RedBlack.Put.{Gives, is_none, put-in_order, get-in_order}

module _ {ℓ κ} {K : Type ℓ} {V : Type κ} where
  pub count_nodes-length : (t : Node K V) → count_nodes t ≡ length (in_order t)
  unfolding count_nodes in_order
  count_nodes-length nil = refl
  count_nodes-length (node c l k v r) = omega (
    arith,
    count_nodes-length l,
    count_nodes-length r,
    length-append (in_order l) ((k, v) ∷ in_order r),
  )

module _ {ℓ κ} {K : Type ℓ} {V : Type κ} where
  -- A black root may only make the tree higher.
  pub blacken_height :
      (c : Bool) (l : Node K V) (k : K) (v : V) (r : Node K V) (n : ℕ)
      → IsBlackHeight (node c l k v r) n
      → (m : ℕ) × IsBlackHeight (node false l k v r) m
  blacken_height true l k v r n b =
      let same : suc n - 1 ≡ n = omega arith in (suc n, (omega arith, rw same b.0, rw same b.1))
  blacken_height false l k v r n b = (n, b)

module _ {ℓ κ} {K : Type ℓ} {V : Type κ} ⦃o : Ordered K⦄ where
  put-ne-nil : (q : K) (w : V) (xs : List (K × V)) → [] ≡ Assoc.put q w xs → ⊥
  put-ne-nil q w [] e = cc
  put-ne-nil q w ((k, v) ∷ xs) e = ground arith

  pub record IsValid (t : Tree K V) : Type 0 where
    pub sorted : IsSorted (in_order t.root)
    pub colored : Is23 t.root
    pub black_root : is_red t.root ≡ false
    pub height : ℕ
    pub balanced : IsBlackHeight t.root height
    pub counted : t.count ≡ length (in_order t.root)

  -- What a put of `key` and `value` into the tree `t` returns.
  pub record IsPut (t : Tree K V) (key : K) (value : V) (result : Tree K V × Bool)
      : Type (ℓ ⊔ κ) where
    pub valid : IsValid result.0
    pub contents : in_order result.0.root ≡ Assoc.put key value (in_order t.root)
    pub flag : result.1 ≡ is_none (Assoc.get (in_order t.root) key)

  finish :
      (t : Tree K V) (key : K) (value : V) (m : Option (Node K V × Bool)) (n : ℕ)
      → IsValid t
      → Returns (OnFirst (IsGrown (is_red t.root) n)) m
      → Gives (Assoc.put key value (in_order t.root)) (is_none (Assoc.get (in_order t.root) key)) m
      → (result : Tree K V × Bool) × ((m >>= λ (h, new). blacken h >>= λ root.
            some (record { root = root; count = if new then t.count + 1 else t.count }, new))
          ≡ some result)
        × IsPut t key value result
  unfolding blacken in_order is_red
  finish t key value none n s p g = absurd p
  finish t key value (some (nil, new)) n s p g = absurd (put-ne-nil key value (in_order t.root) g.0)
  finish t key value (some (node c l k v r, new)) n s p g =
      let (m, high) = blacken_height c l k v r n p.0 in
      let grown = Map.length-put key value (in_order t.root) s.sorted in
      (
        (record { root = node false l k v r; count = if new then t.count + 1 else t.count }, new),
        refl,
        record {
          valid = record {
            sorted = rw (← g.0) at (Map.put-IsSorted key value (in_order t.root) s.sorted);
            colored = ground arith;
            black_root = refl;
            height = m;
            balanced = high;
            counted = count_up (Assoc.get (in_order t.root) key) new g.1 (ap length g.0) grown;
          };
          contents = g.0;
          flag = g.1;
        },
      )
    where
      count_up :
          {A : Type κ} (old : Option A) (new : Bool) {a b : ℕ}
          → new ≡ is_none old
          → a ≡ b
          → b + Map.found old ≡ length (in_order t.root) + 1
          → (if new then t.count + 1 else t.count) ≡ a
      count_up none new e f h = rw e (omega (arith, s.counted))
      count_up (some x) new e f h = rw e (omega (arith, s.counted))

  -- Put on a valid tree never panics. It returns a valid tree with the map's new contents, and
  -- true exactly if the key was new.
  pub tree_put_correct :
      (t : Tree K V) (key : K) (value : V)
      → IsValid t
      → (result : Tree K V × Bool) × (tree_put t key value ≡ some result) × IsPut t key value result
  unfolding tree_put
  tree_put_correct t key value s =
      finish t key value (put t.root key value) s.height s
        (put-IsGrown t.root key value s.height s.balanced s.colored)
        (put-in_order t.root key value s.sorted)

  -- What Get reads after Put: the new value at the key, and what it read before elsewhere.
  pub tree_get-tree_put :
      (t : Tree K V) (key : K) (value : V)
      → IsValid t
      → (result : Tree K V × Bool) × (tree_put t key value ≡ some result)
        × ((q : K)
            → tree_get result.0 q ≡ elim (o.cmp q key) [ eq ↦ some value | _ ↦ tree_get t q ])
  unfolding tree_get
  tree_get-tree_put t key value s =
      let (result, returned, p) = tree_put_correct t key value s in
      (
        result,
        returned,
        λ q. ground (
          arith,
          get-in_order result.0.root q p.valid.sorted,
          get-in_order t.root q s.sorted,
          ap (λ e. Assoc.get e q) p.contents,
          Map.get-put key q value (in_order t.root),
        ),
      )
