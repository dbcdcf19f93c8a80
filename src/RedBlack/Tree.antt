-- ===== src/RedBlack/Tree.antt =====
-- Tree, its methods and its validity checks (dsa/redblack/redblack.go).
use Prim.Native.Nat.Ordering.{lt, gt}
use learn_go.Prelude.{
  ℕ, zero, suc, ◌+◌, ◌-◌, true, false, Bool, not, ◌&&◌, Option, none, some, List, map, ◌>>=◌,
  if◌then◌else◌, ◌==◌,
}
use learn_go.Prelude.Ordered.{Ordered}
use learn_go.RedBlack.Node.{
  Node, nil, node, red, black, is_red, min_node, max_node, delete_min, delete_max, count_nodes,
  in_order,
}
use learn_go.RedBlack.Descent.{get, put, floor, ceiling, del}

-- `count` is unbounded here: a count of allocated nodes does not overflow an int.
pub record Tree {ℓ κ} (K : Type ℓ) (V : Type κ) : Type (ℓ ⊔ κ) where
  pub root : Node K V
  pub count : ℕ

-- `remaining--`
abbrev pub spend : ℕ → Option ℕ
spend zero = none
spend (suc m) = some m

module _ {ℓ κ} {K : Type ℓ} {V : Type κ} where
  abbrev pub empty : Tree K V
  empty = record { root = nil; count = 0 }

  -- `root.color = black` on a root that is not nil, and its guarded form.
  unfoldable pub blacken : Node K V → Option (Node K V)
  blacken nil = none
  blacken (node c l k v r) = some (node black l k v r)

  unfoldable pub blacken_if_any : Node K V → Node K V
  blacken_if_any nil = nil
  blacken_if_any (node c l k v r) = node black l k v r

  -- `if !isRed(root.left) && !isRed(root.right) { root.color = red }`
  unfoldable pub lend_red : Node K V → Option (Node K V)
  unfolding is_red
  lend_red nil = none
  lend_red (node c l k v r) =
      if not (is_red l) && not (is_red r) then some (node red l k v r) else some (node c l k v r)

  -- Min and Max; `none` is the answer false.
  unfoldable pub tree_min : Tree K V → Option (K × V)
  unfolding min_node
  tree_min t = min_node t.root

  unfoldable pub tree_max : Tree K V → Option (K × V)
  unfolding max_node
  tree_max t = max_node t.root

  -- The body of the three deletions, past their first test.
  unfoldable pub delete_by : (Node K V → Option (Node K V)) → Tree K V → Option (Tree K V × Bool)
  unfolding lend_red blacken_if_any
  delete_by remove t = do
    h ← lend_red t.root
    h ← remove h
    some (record { root = blacken_if_any h; count = t.count - 1 }, true)

  unfoldable pub is_nil : Node K V → Bool
  is_nil nil = true
  is_nil (node c l k v r) = false

  unfoldable pub tree_delete_min : Tree K V → Option (Tree K V × Bool)
  unfolding delete_by delete_min count_nodes is_nil
  tree_delete_min t =
      if is_nil t.root then some (t, false) else delete_by (delete_min (count_nodes t.root)) t

  unfoldable pub tree_delete_max : Tree K V → Option (Tree K V × Bool)
  unfolding delete_by delete_max count_nodes is_nil
  tree_delete_max t =
      if is_nil t.root then some (t, false) else delete_by (delete_max (count_nodes t.root)) t

  unfoldable pub keys : Tree K V → List K
  unfolding in_order
  keys t = map (λ e. e.0) (in_order t.root)

  -- The loop of BlackHeight, down the left spine.
  unfoldable pub black_height : Node K V → ℕ
  unfolding is_red
  black_height nil = 0
  black_height (node c l k v r) = if not c then 1 + black_height l else black_height l

  -- is23; the flag says whether the node is the root.
  unfoldable pub is23 : Bool → Node K V → Bool
  unfolding is_red
  is23 is_root nil = true
  is23 is_root (node c l k v r) =
      not (is_red r) && (not (not is_root && c && is_red l) && (is23 false l && is23 false r))

  -- blackBalanced. `remaining` may pass below zero in Go, after which no path ends at 0: `none`.
  unfoldable pub black_balanced : Node K V → Option ℕ → Bool
  unfolding is_red
  black_balanced nil none = false
  black_balanced nil (some n) = n == 0
  black_balanced (node c l k v r) n =
      let n' = if c then n else (n >>= spend) in black_balanced l n' && black_balanced r n'

module _ {ℓ} {K : Type ℓ} ⦃o : Ordered K⦄ where
  -- `lo` and `hi` point to a bound or are nil.
  unfoldable pub exceeds : Option K → K → Bool
  exceeds none key = true
  exceeds (some lo) key = elim (o.cmp key lo) [ gt ↦ true | _ ↦ false ]

  unfoldable pub precedes : K → Option K → Bool
  precedes key none = true
  precedes key (some hi) = elim (o.cmp key hi) [ lt ↦ true | _ ↦ false ]

module _ {ℓ κ} {K : Type ℓ} {V : Type κ} ⦃o : Ordered K⦄ where
  unfoldable pub tree_get : Tree K V → K → Option V
  unfolding get
  tree_get t key = get t.root key

  unfoldable pub contains : Tree K V → K → Bool
  unfolding tree_get
  contains t key = elim (tree_get t key) [ none ↦ false | some v ↦ true ]

  unfoldable pub tree_put : Tree K V → K → V → Option (Tree K V × Bool)
  unfolding put blacken
  tree_put t key value = put t.root key value >>= λ (h, new). blacken h >>= λ root.
      some (record { root = root; count = if new then t.count + 1 else t.count }, new)

  unfoldable pub tree_floor : Tree K V → K → Option (K × V)
  unfolding floor
  tree_floor t key = floor t.root key none

  unfoldable pub tree_ceiling : Tree K V → K → Option (K × V)
  unfolding ceiling
  tree_ceiling t key = ceiling t.root key none

  unfoldable pub tree_delete : Tree K V → K → Option (Tree K V × Bool)
  unfolding contains delete_by del count_nodes
  tree_delete t key =
      if not (contains t key)
      then some (t, false)
      else delete_by (λ h. del (count_nodes t.root) h key) t

  unfoldable pub ordered : Node K V → Option K → Option K → Bool
  unfolding exceeds precedes
  ordered nil lo hi = true
  ordered (node c l k v r) lo hi =
      exceeds lo k && (precedes k hi && (ordered l lo (some k) && ordered r (some k) hi))

  -- IsValid.
  unfoldable pub is_valid : Tree K V → Bool
  unfolding ordered is23 black_balanced black_height count_nodes
  is_valid t =
      ordered t.root none none
      && (is23 true t.root
          && (black_balanced t.root (some (black_height t.root)) && count_nodes t.root == t.count))
