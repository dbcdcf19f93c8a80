-- ===== src/Bst/Walk.antt =====
-- All and Range of dsa/bst/bst.go, for a caller's loop that may stop, against the sorted list.
use Prim.Native.Nat.Ordering.{lt, gt}
use learn_go.Prelude.{
  ◌≡◌, ◌≢◌, refl, Bool, true, false, not, ◌&&◌, List, [], ◌∷◌, ◌++◌, arith, if◌then◌else◌,
  Bool-cases, inl, inr,
}
use learn_go.Prelude.Ordered.{Ordered, ◌≺◌, is_lt, is_gt}
use learn_go.Prelude.Assoc.{All, IsSorted, IsSorted-IsSplit}
use learn_go.Bst.{Node, nil, node, walk, range_walk}
use learn_go.Bst.Pairs.{pairs}
use learn_go.Bst.Query.{keep, keep-append, keep_none, far_above, far_below}

-- A `for` loop over a list, whose body is a step on a state that says whether the loop goes on.
abbrev pub visit {ℓ κ} : {A : Type κ} {S : Type ℓ} → (S → A → S × Bool) → List A → S → S × Bool
visit yield [] s = (s, true)
visit yield (x ∷ xs) s =
    let (s', on) = yield s x in let rest = visit yield xs s' in if on then rest else (s', false)

module _ {ℓ κ} {A : Type κ} {S : Type ℓ} (yield : S → A → S × Bool) where
  abbrev then_visit : List A → S × Bool → S × Bool
  then_visit ys (s, on) = let rest = visit yield ys s in if on then rest else (s, false)

  visit-append :
      (xs ys : List A) (s : S) → visit yield (xs ++ ys) s ≡ then_visit ys (visit yield xs s)
  visit-append [] ys s = refl
  visit-append (x ∷ xs) ys s = elim (Bool-cases (yield s x).1) [
    | inl goes_on ↦ rw goes_on (visit-append xs ys (yield s x).0)
    | inr stops ↦ rw stops refl
  ]

  -- A node between two walks, the first of which ended in `m`, is an element between two loops.
  combine :
      (take : Bool) (x : A) (ys : List A) (m : S × Bool) (next : S → S × Bool)
      → ((u : S) → next u ≡ visit yield ys u)
      → (let y = if take then yield m.0 x else (m.0, true) in
          if not m.1 then (m.0, false) else if not y.1 then (y.0, false) else next y.0)
        ≡ then_visit (if take then x ∷ ys else ys) m
  combine take x ys (s, false) next h = refl
  combine false x ys (s, true) next h = h s
  combine true x ys (s, true) next h = elim (Bool-cases (yield s x).1) [
    | inl goes_on ↦ rw goes_on (h (yield s x).0)
    | inr stops ↦ rw stops refl
  ]

module _ {ℓ κ} {K : Type ℓ} {V : Type κ} {S : Type ℓ} (yield : S → K × V → S × Bool) where
  walk-visit : (t : Node K V) (s : S) → walk yield t s ≡ visit yield (pairs t) s
  unfolding walk
  walk-visit nil s = refl
  walk-visit (node l k v r) s =
      rw (walk-visit l s, visit-append yield (pairs l) ((k, v) ∷ pairs r) s)
        (combine yield true (k, v) (pairs r) (visit yield (pairs l) s) (walk yield r)
          (walk-visit r))

module _ {ℓ} {K : Type ℓ} ⦃o : Ordered K⦄ where
  abbrev pub in_range : K → K → K → Bool
  in_range lo hi k = not (is_lt (o.cmp k lo)) && not (is_gt (o.cmp k hi))

module _ {ℓ κ} {K : Type ℓ} {V : Type κ} ⦃o : Ordered K⦄ {S : Type ℓ} (yield : S → K × V → S × Bool)
    (lo hi : K) where
  none_before :
      (k : K) (xs : List (K × V))
      → o.cmp k lo ≢ gt
      → All (λ x. x ≺ k) xs
      → All (λ x. in_range lo hi x ≡ false) xs
  none_before k [] h b = tt
  none_before k ((x, u) ∷ xs) h b = (rw (far_below k lo x h b.0) refl, none_before k xs h b.1)

  none_after :
      (k : K) (xs : List (K × V))
      → o.cmp k hi ≢ lt
      → All (λ x. k ≺ x) xs
      → All (λ x. in_range lo hi x ≡ false) xs
  none_after k [] h b = tt
  none_after k ((x, u) ∷ xs) h b =
      (rw (far_above k hi x h b.0) (ground arith), none_after k xs h b.1)

  -- The part that is walked on one side is the part in range.
  left_part :
      (k : K) (l : Node K V) (s : S)
      → All (λ x. x ≺ k) (pairs l)
      → range_walk yield lo hi l s ≡ visit yield (keep (in_range lo hi) (pairs l)) s
      → (if is_gt (o.cmp k lo) then range_walk yield lo hi l s else (s, true))
        ≡ visit yield (keep (in_range lo hi) (pairs l)) s
  left_part k l s b ih = ground (
    arith,
    λ (h : o.cmp k lo ≢ gt). keep_none (in_range lo hi) (pairs l) (none_before k (pairs l) h b),
    ih,
  )

  right_part :
      (k : K) (r : Node K V) (s : S)
      → All (λ x. k ≺ x) (pairs r)
      → range_walk yield lo hi r s ≡ visit yield (keep (in_range lo hi) (pairs r)) s
      → (if is_lt (o.cmp k hi) then range_walk yield lo hi r s else (s, true))
        ≡ visit yield (keep (in_range lo hi) (pairs r)) s
  right_part k r s b ih = ground (
    arith,
    λ (h : o.cmp k hi ≢ lt). keep_none (in_range lo hi) (pairs r) (none_after k (pairs r) h b),
    ih,
  )

  -- Range of a sorted tree yields the pairs whose key is in the range, in order, until the caller
  -- stops.
  pub range_walk-visit :
      (t : Node K V) (s : S)
      → IsSorted (pairs t)
      → range_walk yield lo hi t s ≡ visit yield (keep (in_range lo hi) (pairs t)) s
  unfolding range_walk
  range_walk-visit nil s h = refl
  range_walk-visit (node l k v r) s h =
      let p = IsSorted-IsSplit (pairs l) k v (pairs r) h in
      rw
        (
          left_part k l s p.below (range_walk-visit l s p.left),
          keep-append (in_range lo hi) (pairs l) ((k, v) ∷ pairs r),
          visit-append yield (keep (in_range lo hi) (pairs l))
              (keep (in_range lo hi) ((k, v) ∷ pairs r)) s,
        )
        (combine yield (in_range lo hi k) (k, v) (keep (in_range lo hi) (pairs r))
          (visit yield (keep (in_range lo hi) (pairs l)) s)
          (λ u. if is_lt (o.cmp k hi) then range_walk yield lo hi r u else (u, true))
          (λ u. right_part k r u p.above (range_walk-visit r u p.right)))
