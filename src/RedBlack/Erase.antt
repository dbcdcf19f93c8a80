-- ===== src/RedBlack/Erase.antt =====
-- Delete and DeleteMax of Tree (dsa/redblack/redblack.go) against sorted association lists.
use Prim.Native.Nat.Ordering.{eq}
use learn_go.Prelude.{
  ℕ, ◌+◌, ◌<◌, ◌≡◌, refl, ap, ◌∙◌, sym, Bool, false, not, Option, none, some, arith, inl, List, [],
  ◌∷◌, ◌++◌, length, if◌then◌else◌,
}
use learn_go.Prelude.Ordered.{Ordered}
use learn_go.Prelude.Assoc
use learn_go.Prelude.Assoc.{All, All_split, IsSorted}
use learn_go.Prelude.Map
use learn_go.RedBlack.Node.{Node, nil, node, is_red, in_order, delete_max, count_nodes}
use learn_go.RedBlack.Descent.{get, del}
use learn_go.RedBlack.Tree.{
  Tree, tree_get, contains, delete_by, is_nil, tree_delete, tree_delete_max,
}
use learn_go.RedBlack.Put.{is_none, get-in_order}
use learn_go.RedBlack.Ready.{IsReady-IsReadyRight}
use learn_go.RedBlack.Valid.{IsValid, count_nodes-length}
use learn_go.RedBlack.DeleteEnds.{delete_max-TakesLast}
use learn_go.RedBlack.DeleteKey.{del-Removes}
use learn_go.RedBlack.Remove.{IsDeletion, deletion, pairs-length}

module _ {ℓ κ} {K : Type ℓ} {V : Type κ} where
  abbrev pub without_last : List (K × V) → List (K × V)
  without_last [] = []
  without_last (x ∷ []) = []
  without_last (x ∷ y ∷ xs) = x ∷ without_last (y ∷ xs)

  without_last-append : (xs : List (K × V)) (x : K × V) → without_last (xs ++ x ∷ []) ≡ xs
  without_last-append [] x = refl
  without_last-append (y ∷ []) x = refl
  without_last-append (y ∷ z ∷ xs) x = ap (◌∷◌ y) (without_last-append (z ∷ xs) x)

  All-without_last : (P : K → Type 0) (xs : List (K × V)) → All P xs → All P (without_last xs)
  All-without_last P [] h = tt
  All-without_last P (x ∷ []) h = tt
  All-without_last P (x ∷ y ∷ xs) h = (h.0, All-without_last P (y ∷ xs) h.1)

module _ {ℓ κ} {K : Type ℓ} {V : Type κ} ⦃o : Ordered K⦄ where
  without_last-IsSorted : (xs : List (K × V)) → IsSorted xs → IsSorted (without_last xs)
  without_last-IsSorted [] h = tt
  without_last-IsSorted (x ∷ []) h = tt
  without_last-IsSorted ((k, v) ∷ y ∷ xs) h =
      (All-without_last _ (y ∷ xs) h.0, without_last-IsSorted (y ∷ xs) h.1)

  length-without_last :
      (xs : List (K × V)) → 0 < length xs → length xs ≡ length (without_last xs) + 1
  length-without_last [] h = absurd (omega arith)
  length-without_last (x ∷ []) h = refl
  length-without_last (x ∷ y ∷ xs) h = omega (arith, length-without_last (y ∷ xs) (omega arith))

  -- DeleteMax on a valid tree never panics: it takes the last pair and returns true, or it leaves
  -- an empty tree as it is and returns false.
  pub tree_delete_max_correct :
      (t : Tree K V)
      → IsValid t
      → (result : Tree K V × Bool) × (tree_delete_max t ≡ some result)
        × IsDeletion (without_last (in_order t.root)) (not (is_nil t.root)) result
  unfolding tree_delete_max is_nil is_red
  tree_delete_max_correct t s = go t.root t.count s
    where
      go :
          (root : Node K V) (count : ℕ)
          → IsValid (record { root = root; count = count })
          → (result : Tree K V × Bool) × (tree_delete_max (record { root = root; count = count })
              ≡ some result)
            × IsDeletion (without_last (in_order root)) (not (is_nil root)) result
      go nil count s = (
        (record { root = nil; count = count }, false),
        refl,
        record { valid = s; contents = unfold in_order in refl; flag = refl },
      )
      go (node c l k v r) count s =
          deletion (delete_max (count_nodes (node c l k v r))) _ c l k v r count s
            (λ d m ready.
              unfold in_order in
              let (h, x, taken, shrunk, rest) =
                delete_max-TakesLast (count_nodes (node c l k v r)) (node d l k v r) m
                  (omega (arith, count_nodes-length (node c l k v r)))
                  (IsReady-IsReadyRight d l k v r m ready) in
              (h, taken, shrunk, sym (ap without_last rest ∙ without_last-append (in_order h) x)))
            (without_last-IsSorted _ s.sorted)
            (omega (
              arith,
              s.counted,
              pairs-length c l k v r,
              length-without_last (in_order (node c l k v r)),
            ))

  -- The two ways of Delete.
  delete_absent :
      (t : Tree K V) (key : K) → get t.root key ≡ none → tree_delete t key ≡ some (t, false)
  unfolding tree_delete contains tree_get
  delete_absent t key h = rw (h, get, if◌then◌else◌) refl

  delete_present :
      (t : Tree K V) (key : K) (v : V)
      → get t.root key ≡ some v
      → tree_delete t key ≡ delete_by (λ h. del (count_nodes t.root) h key) t
  unfolding tree_delete contains tree_get
  delete_present t key v h = rw (h, get, if◌then◌else◌) refl

  -- Delete on a valid tree never panics: it removes the key and returns true, or it leaves a tree
  -- without the key as it is and returns false.
  pub tree_delete_correct :
      (t : Tree K V) (key : K)
      → IsValid t
      → (result : Tree K V × Bool) × (tree_delete t key ≡ some result)
        × IsDeletion
            (Assoc.remove key (in_order t.root))
            (not (is_none (Assoc.get (in_order t.root) key)))
            result
  unfolding is_red
  tree_delete_correct t key s = go t.root t.count s (Assoc.get (in_order t.root) key) refl
    where
      go :
          (root : Node K V) (count : ℕ)
          → IsValid (record { root = root; count = count })
          → (a : Option V) → Assoc.get (in_order root) key ≡ a
          → (result : Tree K V × Bool) × (tree_delete (record { root = root; count = count }) key
              ≡ some result)
            × IsDeletion (Assoc.remove key (in_order root)) (not (is_none a)) result
      go root count s none e = (
        (record { root = root; count = count }, false),
        delete_absent _ key (get-in_order root key s.sorted ∙ e),
        record { valid = s; contents = sym (Map.remove_absent key (in_order root) e); flag = refl },
      )
      go nil count s (some v) e = absurd (unfold in_order in cc)
      go (node c l k v r) count s (some a) e =
          let found : get (node c l k v r) key ≡ some a =
            get-in_order (node c l k v r) key s.sorted ∙ e in
          let (result, done, p) =
            deletion (λ h. del (count_nodes (node c l k v r)) h key)
              (Assoc.remove key (in_order (node c l k v r))) c l k v r count s
              (λ d m ready.
                unfold in_order in
                del-Removes key (count_nodes (node c l k v r)) (node d l k v r) m
                  (omega (arith, count_nodes-length (node c l k v r))) (unfold in_order in s.sorted)
                  (λ absent. cc) (inl ready))
              (Map.remove-IsSorted key (in_order (node c l k v r)) s.sorted)
              (omega (
                arith,
                s.counted,
                ap Map.found e,
                Map.length-remove key (in_order (node c l k v r)),
              )) in
          (result, delete_present _ key a found ∙ done, p)

  -- What Get reads after Delete: nothing at the key, and what it read before elsewhere.
  pub tree_get-tree_delete :
      (t : Tree K V) (key : K)
      → IsValid t
      → (result : Tree K V × Bool) × (tree_delete t key ≡ some result)
        × ((q : K) → tree_get result.0 q ≡ elim (o.cmp q key) [ eq ↦ none | _ ↦ tree_get t q ])
  unfolding tree_get
  tree_get-tree_delete t key s =
      let (result, returned, p) = tree_delete_correct t key s in
      (
        result,
        returned,
        λ q. ground (
          arith,
          get-in_order result.0.root q p.valid.sorted,
          get-in_order t.root q s.sorted,
          ap (λ e. Assoc.get e q) p.contents,
          Map.get-remove key q (in_order t.root) s.sorted,
        ),
      )
