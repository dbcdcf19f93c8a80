-- ===== src/Bst.antt =====
-- dsa/bst/bst.go: an unbalanced binary search tree. A pointer is the subtree that it holds, nil
-- included; a loop that walks a link down is a recursion, since it writes through the link at its
-- end only.
use Prim.Native.Nat.Ordering.{lt, eq, gt}
use learn_go.Prelude.{
  ℕ, zero, suc, ◌+◌, ◌-◌, max, Bool, true, false, ◌&&◌, not, Option, none, some, List, [], ◌∷◌,
  ◌++◌, map, if◌then◌else◌, ◌==◌,
}
use learn_go.Prelude.Ordered.{Ordered, is_lt, is_gt}
pub mod Pairs
pub mod Change
pub mod Query
pub mod Walk
pub mod Check
mod Tests

pub data Node {ℓ κ} (K : Type ℓ) (V : Type κ) : Type (ℓ ⊔ κ) where
  nil : Node K V
  node : (left : Node K V) (key : K) (value : V) (right : Node K V) → Node K V

-- `count` is unbounded here: a count of allocated nodes does not overflow an int.
pub record Tree {ℓ κ} (K : Type ℓ) (V : Type κ) : Type (ℓ ⊔ κ) where
  pub root : Node K V
  pub count : ℕ

module _ {ℓ κ} {K : Type ℓ} {V : Type κ} where
  abbrev pub empty : Tree K V
  empty = record { root = nil; count = 0 }

  -- The loops of Min and Max; `none` is the answer false.
  pub min_node : Node K V → Option (K × V)
  min_node nil = none
  min_node (node nil k v r) = some (k, v)
  min_node (node (node a x y b) k v r) = min_node (node a x y b)

  pub max_node : Node K V → Option (K × V)
  max_node nil = none
  max_node (node l k v nil) = some (k, v)
  max_node (node l k v (node a x y b)) = max_node (node a x y b)

  -- Of a node in its four parts: the loop to the successor, its payload, and the tree without it.
  pub take_successor : Node K V → K → V → Node K V → (K × V) × Node K V
  take_successor nil k v r = ((k, v), r)
  take_successor (node a x y b) k v r =
      let (least, l) = take_successor a x y b in (least, node l k v r)

  -- The switch of Delete, at the node to remove.
  pub unlink : Node K V → Node K V → Node K V
  unfolding take_successor
  unlink nil r = r
  unlink (node a x y b) nil = node a x y b
  unlink (node a x y b) (node c p q d) =
      let ((sk, sv), r) = take_successor c p q d in node (node a x y b) sk sv r

  pub height : Node K V → ℕ
  height nil = 0
  height (node l k v r) = 1 + max (height l) (height r)

  pub count_nodes : Node K V → ℕ
  count_nodes nil = 0
  count_nodes (node l k v r) = 1 + count_nodes l + count_nodes r

  -- inOrder. The body of the caller's loop is a step on its own state, and answers whether the
  -- loop goes on.
  pub walk : {S : Type ℓ} → (S → K × V → S × Bool) → Node K V → S → S × Bool
  walk yield nil s = (s, true)
  walk yield (node l k v r) s =
      let (s₁, on₁) = walk yield l s in
      let (s₂, on₂) = yield s₁ (k, v) in
      let after = walk yield r s₂ in
      if not on₁ then (s₁, false) else if not on₂ then (s₂, false) else after

module _ {ℓ} {K : Type ℓ} ⦃o : Ordered K⦄ where
  -- `valid`, where a bound is a pointer to a key, or nil.
  abbrev pub over : Option K → K → Bool
  over none k = true
  over (some lo) k = is_gt (o.cmp k lo)

  abbrev pub under : Option K → K → Bool
  under none k = true
  under (some hi) k = is_lt (o.cmp k hi)

module _ {ℓ κ} {K : Type ℓ} {V : Type κ} ⦃o : Ordered K⦄ where
  -- The loops of Put, Get and Delete.
  pub put : Node K V → K → V → Node K V × Bool
  put nil key value = (node nil key value nil, true)
  put (node l k v r) key value = elim (o.cmp key k) [
    | eq ↦ (node l k value r, false)
    | lt ↦ let (l', new) = put l key value in (node l' k v r, new)
    | gt ↦ let (r', new) = put r key value in (node l k v r', new)
  ]

  pub get : Node K V → K → Option V
  get nil key = none
  get (node l k v r) key = elim (o.cmp key k) [ eq ↦ some v | lt ↦ get l key | gt ↦ get r key ]

  pub delete : Node K V → K → Node K V × Bool
  unfolding unlink
  delete nil key = (nil, false)
  delete (node l k v r) key = elim (o.cmp key k) [
    | eq ↦ (unlink l r, true)
    | lt ↦ let (l', found) = delete l key in (node l' k v r, found)
    | gt ↦ let (r', found) = delete r key in (node l k v r', found)
  ]

  -- The loops of Floor and Ceiling, from the best node so far.
  pub floor : Node K V → K → Option (K × V) → Option (K × V)
  floor nil key best = best
  floor (node l k v r) key best = elim (o.cmp k key) [
    | eq ↦ some (k, v)
    | lt ↦ floor r key (some (k, v))
    | gt ↦ floor l key best
  ]

  pub ceiling : Node K V → K → Option (K × V) → Option (K × V)
  ceiling nil key best = best
  ceiling (node l k v r) key best = elim (o.cmp k key) [
    | eq ↦ some (k, v)
    | gt ↦ ceiling l key (some (k, v))
    | lt ↦ ceiling r key best
  ]

  -- rangeWalk, with the caller's loop as in `walk`.
  pub range_walk : {S : Type ℓ} → (S → K × V → S × Bool) → K → K → Node K V → S → S × Bool
  range_walk yield lo hi nil s = (s, true)
  range_walk yield lo hi (node l k v r) s =
      let below = range_walk yield lo hi l s in
      let (s₁, on₁) = if is_gt (o.cmp k lo) then below else (s, true) in
      let (s₂, on₂) =
        if not (is_lt (o.cmp k lo)) && not (is_gt (o.cmp k hi))
        then yield s₁ (k, v)
        else (s₁, true) in
      let above = range_walk yield lo hi r s₂ in
      let after = if is_lt (o.cmp k hi) then above else (s₂, true) in
      if not on₁ then (s₁, false) else if not on₂ then (s₂, false) else after

  pub valid : Node K V → Option K → Option K → Bool
  valid nil lo hi = true
  valid (node l k v r) lo hi =
      let rest = valid l lo (some k) && valid r (some k) hi in
      if not (over lo k) then false else if not (under hi k) then false else rest

  pub is_valid : Tree K V → Bool
  unfolding valid count_nodes
  is_valid t = valid t.root none none && count_nodes t.root == t.count

  pub tree_put : Tree K V → K → V → Tree K V × Bool
  unfolding put
  tree_put t key value =
      let (root, new) = put t.root key value in
      (record { root = root; count = if new then t.count + 1 else t.count }, new)

  pub tree_delete : Tree K V → K → Tree K V × Bool
  unfolding delete
  tree_delete t key =
      let (root, found) = delete t.root key in
      (record { root = root; count = if found then t.count - 1 else t.count }, found)
