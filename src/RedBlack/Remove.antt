-- ===== src/RedBlack/Remove.antt =====
-- Delete, DeleteMin and DeleteMax of Tree (dsa/redblack/redblack.go) against sorted association lists.
use learn_go.Prelude.{
  ℕ, ◌+◌, ◌-◌, ◌<◌, ◌≡◌, refl, ◌∙◌, Bool, true, false, not, Option, some, arith, List, [], ◌∷◌,
  ◌++◌, length, length-append,
}
use learn_go.Prelude.Ordered.{Ordered}
use learn_go.Prelude.Assoc.{IsSorted}
use learn_go.RedBlack.Node.{Node, nil, node, is_red, is_red_left, in_order, delete_min, count_nodes}
use learn_go.RedBlack.Tree.{Tree, lend_red, blacken_if_any, delete_by, is_nil, tree_delete_min}
use learn_go.RedBlack.Balance.{IsBlackHeight, Is23, IsShrunk}
use learn_go.RedBlack.Ready.{IsReady}
use learn_go.RedBlack.Valid.{IsValid, count_nodes-length, blacken_height}
use learn_go.RedBlack.DeleteEnds.{without_first, delete_min-TakesFirst}

module _ {ℓ κ} {K : Type ℓ} {V : Type κ} where
  -- A valid root, after it was lent its red, is ready for a deletion.
  lend_red-IsReady :
      (l : Node K V) (k : K) (v : V) (r : Node K V) (n : ℕ)
      → IsBlackHeight (node false l k v r) n
      → Is23 (node false l k v r)
      → (c : Bool) × (m : ℕ) × (lend_red (node false l k v r) ≡ some (node c l k v r))
        × IsReady (node c l k v r) m
  unfolding lend_red is_red is_red_left
  lend_red-IsReady nil k v r n b s = (true, n - 1, ground arith, ground arith)
  lend_red-IsReady (node true a x y d) k v r n b s = (false, n, refl, ground arith)
  lend_red-IsReady (node false a x y d) k v r n b s = (true, n - 1, ground arith, ground arith)

module _ {ℓ κ} {K : Type ℓ} {V : Type κ} ⦃o : Ordered K⦄ where
  -- The tree that a deletion stores is valid, if the pairs that it left are.
  stored-IsValid :
      (t : Tree K V) (c : Bool) (m : ℕ) (h : Node K V)
      → IsShrunk c m h
      → IsSorted (in_order h)
      → t.count ≡ length (in_order h) + 1
      → IsValid (record { root = blacken_if_any h; count = t.count - 1 })
        × (in_order (blacken_if_any h) ≡ in_order h)
  unfolding blacken_if_any in_order is_red
  stored-IsValid t c m nil s so e = (
    record {
      sorted = tt;
      colored = tt;
      black_root = refl;
      height = 0;
      balanced = refl;
      counted = omega arith;
    },
    refl,
  )
  stored-IsValid t c m (node d l k v r) s so e =
      let (high, balanced) = blacken_height d l k v r m s.0 in
      (
        record {
          sorted = so;
          colored = ground arith;
          black_root = refl;
          height = high;
          balanced = balanced;
          counted = omega arith;
        },
        refl,
      )

  -- What a deletion that leaves the pairs `e` returns.
  pub record IsDeletion (e : List (K × V)) (found : Bool) (result : Tree K V × Bool)
      : Type (ℓ ⊔ κ) where
    pub valid : IsValid result.0
    pub contents : in_order result.0.root ≡ e
    pub flag : result.1 ≡ found

  -- A removal of one pair from a ready root makes a deletion.
  pub deletion :
      (remove : Node K V → Option (Node K V)) (e : List (K × V)) (c : Bool) (l : Node K V) (k : K)
      (v : V) (r : Node K V) (count : ℕ)
      → IsValid (record { root = node c l k v r; count = count })
      → ((d : Bool) (m : ℕ)
          → IsReady (node d l k v r) m
          → (h : Node K V) × (remove (node d l k v r) ≡ some h) × IsShrunk d m h × (in_order h ≡ e))
      → IsSorted e
      → count ≡ length e + 1
      → (result : Tree K V × Bool) × (delete_by remove
            (record { root = node c l k v r; count = count })
          ≡ some result)
        × IsDeletion e true result
  unfolding delete_by is_red
  deletion remove e true l k v r count s f so n = cc
  deletion remove e false l k v r count s f so n =
      let (d, m, lent, ready) = lend_red-IsReady l k v r s.height s.balanced s.colored in
      let (h, removed, shrunk, kept) = f d m ready in
      let (valid, same) =
        stored-IsValid (record { root = node false l k v r; count = count }) d m h shrunk
          (rw kept so) (rw kept n) in
      (
        (record { root = blacken_if_any h; count = count - 1 }, true),
        rw (lent, removed),
        record { valid = valid; contents = same ∙ kept; flag = refl },
      )

  module _ (c : Bool) (l : Node K V) (k : K) (v : V) (r : Node K V) where
    pairs : List (K × V)
    pairs = in_order l ++ (k, v) ∷ in_order r

    pub pairs-length :
        length (in_order (node c l k v r)) ≡ length (in_order l) + (length (in_order r) + 1)
    unfolding in_order
    pairs-length = omega (arith, length-append (in_order l) ((k, v) ∷ in_order r))

  without_first-IsSorted : (e : List (K × V)) → IsSorted e → IsSorted (without_first e)
  without_first-IsSorted [] s = tt
  without_first-IsSorted ((k, v) ∷ e) s = s.1

  length-without_first : (e : List (K × V)) → 0 < length e → length e ≡ length (without_first e) + 1
  length-without_first [] h = absurd (omega arith)
  length-without_first (x ∷ e) h = omega arith

  -- DeleteMin on a valid tree never panics: it takes the first pair and returns true, or it leaves
  -- an empty tree as it is and returns false.
  pub tree_delete_min_correct :
      (t : Tree K V)
      → IsValid t
      → (result : Tree K V × Bool) × (tree_delete_min t ≡ some result)
        × IsDeletion (without_first (in_order t.root)) (not (is_nil t.root)) result
  unfolding tree_delete_min is_nil is_red
  tree_delete_min_correct t s = go t.root t.count s
    where
      go :
          (root : Node K V) (count : ℕ)
          → IsValid (record { root = root; count = count })
          → (result : Tree K V × Bool) × (tree_delete_min (record { root = root; count = count })
              ≡ some result)
            × IsDeletion (without_first (in_order root)) (not (is_nil root)) result
      go nil count s = (
        (record { root = nil; count = count }, false),
        refl,
        record { valid = s; contents = unfold in_order in refl; flag = refl },
      )
      go (node c l k v r) count s =
          deletion (delete_min (count_nodes (node c l k v r))) _ c l k v r count s
            (λ d m ready.
              unfold in_order in
              delete_min-TakesFirst (count_nodes (node c l k v r)) (node d l k v r) m
                (omega (arith, count_nodes-length (node c l k v r))) ready)
            (without_first-IsSorted _ s.sorted)
            (omega (
              arith,
              s.counted,
              pairs-length c l k v r,
              length-without_first (in_order (node c l k v r)),
            ))
