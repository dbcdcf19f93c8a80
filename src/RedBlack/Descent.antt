-- ===== src/RedBlack/Descent.antt =====
-- The descents that compare keys: get, put, floor, ceiling, ranges and del
-- (dsa/redblack/redblack.go).
use Prim.Native.Nat.Ordering.{lt, eq, gt}
use learn_go.Prelude.{
  ℕ, zero, suc, true, false, Bool, Option, none, some, List, [], ◌∷◌, ◌++◌, ◌>>=◌,
}
use learn_go.Prelude.Ordered.{Ordered}
use learn_go.RedBlack.Node.{
  Node, nil, node, red, balance, min_node, delete_min, count_nodes, ensure_left, ensure_right,
  with_left, lean_right,
}

-- The operations that compare keys.
module _ {ℓ κ} {K : Type ℓ} {V : Type κ} ⦃o : Ordered K⦄ where
  -- The loop of Get, with `none` for the zero value and false.
  unfoldable pub get : Node K V → K → Option V
  get nil key = none
  get (node c l k v r) key = elim (o.cmp key k) [ eq ↦ some v | lt ↦ get l key | gt ↦ get r key ]

  -- put, with whether a node was added.
  unfoldable pub put : Node K V → K → V → Option (Node K V × Bool)
  unfolding balance
  put nil key value = some (node red nil key value nil, true)
  put (node c l k v r) key value = elim (o.cmp key k) [
    | lt ↦ put l key value >>= λ (l', new). balance (node c l' k v r) >>= λ h. some (h, new)
    | gt ↦ put r key value >>= λ (r', new). balance (node c l k v r') >>= λ h. some (h, new)
    | eq ↦ balance (node c l k value r) >>= λ h. some (h, false)
  ]

  -- The loops of Floor and Ceiling, from the best node so far.
  unfoldable pub floor : Node K V → K → Option (K × V) → Option (K × V)
  floor nil key best = best
  floor (node c l k v r) key best = elim (o.cmp k key) [
    | eq ↦ some (k, v)
    | lt ↦ floor r key (some (k, v))
    | gt ↦ floor l key best
  ]

  unfoldable pub ceiling : Node K V → K → Option (K × V) → Option (K × V)
  ceiling nil key best = best
  ceiling (node c l k v r) key best = elim (o.cmp k key) [
    | eq ↦ some (k, v)
    | gt ↦ ceiling l key (some (k, v))
    | lt ↦ ceiling r key best
  ]

  -- rangeWalk: the pairs that it yields, to a caller that takes all of them.
  unfoldable pub range_walk : Node K V → K → K → List (K × V)
  range_walk nil lo hi = []
  range_walk (node c l k v r) lo hi =
      let below : List (K × V) = elim (o.cmp k lo) [ gt ↦ range_walk l lo hi | _ ↦ [] ] in
      let above : List (K × V) = elim (o.cmp k hi) [ lt ↦ range_walk r lo hi | _ ↦ [] ] in
      let last : List (K × V) = elim (o.cmp k hi) [ gt ↦ [] | _ ↦ (k, v) ∷ [] ] in
      let here : List (K × V) = elim (o.cmp k lo) [ lt ↦ [] | _ ↦ last ] in below ++ (here ++ above)

  -- The last part of del: the descent to the right, or the successor's payload at the key itself.
  unfoldable pub del_right : (Node K V → Option (Node K V)) → Node K V → K → Option (Node K V)
  unfolding min_node delete_min balance count_nodes
  del_right recur nil key = none
  del_right recur (node c l k v r) key = elim (o.cmp key k) [
    | eq ↦ min_node r >>= λ (sk, sv).
        delete_min (count_nodes r) r >>= λ r'. balance (node c l sk sv r')
    | _ ↦ recur r >>= λ r'. balance (node c l k v r')
  ]

  -- del behind `if isRed(h.left) { h = rotateRight(h) }`.
  unfoldable pub del_here : (Node K V → Option (Node K V)) → Node K V → K → Option (Node K V)
  unfolding ensure_right del_right
  del_here recur nil key = none
  del_here recur (node c l k v nil) key = elim (o.cmp key k) [ eq ↦ some nil | _ ↦ none ]
  del_here recur (node c l k v (node rc rl rk rv rr)) key =
      ensure_right (node c l k v (node rc rl rk rv rr)) >>= λ h. del_right recur h key

  unfoldable pub del : ℕ → Node K V → K → Option (Node K V)
  unfolding ensure_left with_left balance lean_right del_here
  del zero h key = none
  del (suc fuel) nil key = none
  del (suc fuel) (node c l k v r) key = elim (o.cmp key k) [
    | lt ↦ ensure_left (node c l k v r) >>= with_left (λ x. del fuel x key) >>= balance
    | _ ↦ lean_right (node c l k v r) >>= λ h. del_here (λ x. del fuel x key) h key
  ]
