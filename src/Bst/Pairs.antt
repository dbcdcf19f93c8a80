-- ===== src/Bst/Pairs.antt =====
-- The pairs of a search tree (dsa/bst/bst.go) in order, and Get among them.
use learn_go.Prelude.{◌≡◌, refl, List, [], ◌∷◌, ◌++◌, arith, length, length-append}
use learn_go.Prelude.Ordered.{Ordered}
use learn_go.Prelude.Assoc
use learn_go.Prelude.Assoc.{IsSorted, IsSorted-IsSplit}
use learn_go.Bst.{Node, nil, node, Tree, get, count_nodes}

module _ {ℓ κ} {K : Type ℓ} {V : Type κ} where
  abbrev pub pairs : Node K V → List (K × V)
  pairs nil = []
  pairs (node l k v r) = pairs l ++ (k, v) ∷ pairs r

  pub count_nodes-length : (t : Node K V) → count_nodes t ≡ length (pairs t)
  unfolding count_nodes
  count_nodes-length nil = refl
  count_nodes-length (node l k v r) = omega (
    arith,
    count_nodes-length l,
    count_nodes-length r,
    length-append (pairs l) ((k, v) ∷ pairs r),
  )

module _ {ℓ κ} {K : Type ℓ} {V : Type κ} ⦃o : Ordered K⦄ where
  pub record IsValid (t : Tree K V) : Type 0 where
    pub sorted : IsSorted (pairs t.root)
    pub counted : t.count ≡ length (pairs t.root)

  -- Get reads what the list of the pairs holds.
  pub get-pairs :
      (t : Node K V) (key : K) → IsSorted (pairs t) → get t key ≡ Assoc.get (pairs t) key
  unfolding get
  get-pairs nil key s = refl
  get-pairs (node l k v r) key s =
      let p = IsSorted-IsSplit (pairs l) k v (pairs r) s in
      ground (
        arith,
        get-pairs l key p.left,
        get-pairs r key p.right,
        Assoc.get_left key k v (pairs r) (pairs l),
        Assoc.get_mid key k v (pairs r) (pairs l),
        Assoc.get_right key k v (pairs r) (pairs l),
        p.below,
        p.above,
      )
