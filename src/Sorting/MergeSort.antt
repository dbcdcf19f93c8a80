-- ===== src/Sorting/MergeSort.antt =====
-- MergeFunc and mergeSort (dsa/sorting/divide.go) are a stable sort.
use learn_go.Prelude.{
  ℕ, zero, suc, ◌+◌, ◌-◌, ◌/◌, ◌≤◌, ◌<◌, ◌≡◌, refl, ◌∙◌, sym, true, false, not, some, Bool-cases,
  inl, inr, List, [], ◌∷◌, ◌++◌, length, length-append, length-take, length-drop, take-append-drop,
  replicate, length-replicate, get_elem?, take, drop, arith, if◌then◌else◌, ltb, leb, lt→ltb,
  lt_or_ge,
}
use learn_go.Prelude.Index.{drop_next, get_elem?-append_left, get_elem?-append_right}
use learn_go.Prelude.Copy.{take-left, drop-left}
use learn_go.Prelude.Ordered.{is_gt}
use learn_go.Sorting.{merge, merge_sort, merge_func}
use learn_go.Sorting.Order.{
  Comparison, AllOf, AllOf-imp, ◌≼◌, IsAscending, IsAscending-append, IsRearranged,
  IsRearranged-refl, IsRearranged-trans, IsRearranged-append, IsStableSort, length-perm,
}
use learn_go.Sorting.Insertion.{insertion-IsStableSort}
use learn_go.Sorting.Merge.{merged, merge-merged, merged-IsAscending, merged-IsRearranged}

module _ {ℓ} {A : Type ℓ} ⦃o : Comparison A⦄ where
  same_≼ : (x : A) → x ≼ x
  same_≼ x e = let back = o.swap x x in ground arith

  -- The last element of a slice in order is the greatest.
  last-greatest :
      (s : List A) (i : ℕ) (x : A)
      → IsAscending s
      → i + 1 ≡ length s
      → get_elem? s i ≡ some x
      → AllOf (λ z. z ≼ x) s
  last-greatest [] i x h e g = tt
  last-greatest (a ∷ []) zero x h e g = (let same : a ≡ x = cc in rw same (same_≼ x), tt)
  last-greatest (a ∷ []) (suc i) x h e g = absurd (omega arith)
  last-greatest (a ∷ b ∷ s) zero x h e g = absurd (omega arith)
  last-greatest (a ∷ b ∷ s) (suc i) x h e g =
      let rest = last-greatest (b ∷ s) i x h.1 (omega arith) g in
      ((λ f. o.chain a b x h.0.0 rest.0 f), rest)

  first-least : (s : List A) (y : A) → IsAscending s → get_elem? s 0 ≡ some y → AllOf (λ z. y ≼ z) s
  first-least [] y h g = tt
  first-least (a ∷ s) y h g =
      let same : a ≡ y = cc in (rw (← same) (same_≼ a), AllOf-imp (λ z b. rw (← same) b) s h.0)

  -- Halves that are in order, and in order where they meet, are in order together.
  joined-IsAscending :
      (a b : List A) (x y : A) (n : ℕ)
      → n ≡ length a
      → IsAscending a
      → IsAscending b
      → get_elem? (a ++ b) (n - 1) ≡ some x
      → get_elem? (a ++ b) n ≡ some y
      → 0 < n
      → x ≼ y
      → IsAscending (a ++ b)
  joined-IsAscending a b x y n e h g p q z below =
      let last = sym (get_elem?-append_left a b (n - 1) (omega arith)) ∙ p in
      let none_over : n - length a ≡ 0 = omega arith in
      let first : get_elem? b 0 ≡ some y =
        rw none_over at (sym (get_elem?-append_right a b n (omega arith)) ∙ q) in
      let least = first-least b y g first in
      IsAscending-append a b h g (
        AllOf-imp (λ z c. AllOf-imp (λ w d. o.chain z y w (o.chain z x y c below) d) b least) a
          (last-greatest a (n - 1) x h (omega arith) last))

  -- What mergeSort returns for a buffer of the slice's length: the slice sorted, and a buffer.
  record IsResult (fuel : ℕ) (s buf : List A) : Type ℓ where
    slice : List A
    held : List A
    returned : merge_sort fuel s buf ≡ some (slice, held)
    same_length : length held ≡ length s
    sorted : IsStableSort s slice

  Sorts : ℕ → List A → Type ℓ
  Sorts fuel s =
      length s ≤ fuel → 0 < fuel → (buf : List A) → length buf ≡ length s → IsResult fuel s buf

  -- A call on a long slice, after the calls on its halves.
  module _ (fuel : ℕ) (s buf a b p q : List A) (x y : A) (long : 12 < length s)
      (n : length buf ≡ length s)
      (left : merge_sort fuel (take (length s / 2) s) (take (length s / 2) buf) ≡ some (a, p))
      (right : merge_sort fuel (drop (length s / 2) s) (drop (length s / 2) buf) ≡ some (b, q))
      (at_x : get_elem? (a ++ b) (length s / 2 - 1) ≡ some x)
      (at_y : get_elem? (a ++ b) (length s / 2) ≡ some y) where
    merge_sort-joined : merge_sort (suc fuel) s buf ≡ (
        if not (is_gt (o.compare x y))
        then some (a ++ b, p ++ q)
        else merge (a ++ b) (p ++ q) (length s / 2))
    unfolding merge_sort
    merge_sort-joined =
        let not_few : ltb (length s) 2 ≡ false = ground arith in
        let not_small : leb (length s) 12 ≡ false = ground arith in
        let cut : ltb (length buf) (length s / 2) ≡ false = ground arith in
        rw (not_few, not_small, cut, left, right, at_x, at_y) refl

  -- The halves sorted, and what the call makes of them.
  module _ (fuel : ℕ) (s buf a b held : List A) (x y : A) (mid : ℕ) (few : 0 < mid)
      (wide : length a ≡ mid) (same : length (a ++ b) ≡ length s)
      (held_length : length held ≡ length s) (at_x : get_elem? (a ++ b) (mid - 1) ≡ some x)
      (at_y : get_elem? (a ++ b) mid ≡ some y) (left : IsAscending a) (right : IsAscending b)
      (both : IsRearranged (a ++ b) s) where
    joined :
        merge_sort fuel s buf
          ≡ (if not (is_gt (o.compare x y)) then some (a ++ b, held) else merge (a ++ b) held mid)
        → IsResult fuel s buf
    joined e = elim (Bool-cases (not (is_gt (o.compare x y)))) [
      | inl in_order ↦
          let below : x ≼ y = λ e. ground arith in
          record {
            slice = a ++ b;
            held = held;
            returned = rw in_order at e;
            same_length = held_length;
            sorted = record {
              ascending = joined-IsAscending a b x y mid (sym wide) left right at_x at_y few below;
              rearranged = both;
            };
          }
      | inr crossed ↦ record {
        slice = merged a b;
        held = a ++ b;
        returned =
            rw crossed at e
            ∙ (merge-merged (a ++ b) held mid (held_length ∙ sym same)
                  (omega (arith, length-append a b))
                ∙ rw (take-left a b mid (sym wide), drop-left a b mid (sym wide)) refl);
        same_length = same;
        sorted = record {
          ascending = merged-IsAscending a b left right;
          rearranged = IsRearranged-trans (merged-IsRearranged a b left) both;
        };
      }
    ]

  halves :
      (fuel : ℕ)
      → ((s : List A) → Sorts fuel s)
      → (s : List A) → length s ≤ suc fuel
      → 12 < length s
      → (buf : List A) → length buf ≡ length s
      → IsResult (suc fuel) s buf
  unfolding Sorts
  halves fuel ih s l long buf n =
      let mid = length s / 2 in
      let lower =
        ih (take mid s) (omega (arith, length-take mid s)) (omega arith) (take mid buf)
          (omega (arith, length-take mid s, length-take mid buf)) in
      let upper =
        ih (drop mid s) (omega (arith, length-drop mid s)) (omega arith) (drop mid buf)
          (omega (arith, length-drop mid s, length-drop mid buf)) in
      let a = lower.slice in
      let b = upper.slice in
      let wide : length a ≡ mid =
        length-perm lower.sorted.rearranged.perm ∙ omega (arith, length-take mid s) in
      let rest : length b ≡ length s - mid =
        length-perm upper.sorted.rearranged.perm ∙ length-drop mid s in
      let (x, at_x, tail_x) = drop_next (a ++ b) (mid - 1) (omega (arith, length-append a b)) in
      let (y, at_y, tail_y) = drop_next (a ++ b) mid (omega (arith, length-append a b)) in
      joined (suc fuel) s buf a b (lower.held ++ upper.held) x y mid (omega arith) wide
        (omega (arith, length-append a b))
        (omega (
          arith,
          length-append lower.held upper.held,
          lower.same_length,
          upper.same_length,
          length-take mid s,
          length-drop mid s,
        ))
        at_x at_y lower.sorted.ascending upper.sorted.ascending
        (rw (take-append-drop mid s) at
          (IsRearranged-append lower.sorted.rearranged upper.sorted.rearranged))
        (merge_sort-joined fuel s buf a b lower.held upper.held x y long n lower.returned
          upper.returned at_x at_y)

  short : (s : List A) → length s < 2 → IsStableSort s s
  short [] h = record { ascending = tt; rearranged = IsRearranged-refl [] }
  short (x ∷ []) h = record { ascending = (tt, tt); rearranged = IsRearranged-refl (x ∷ []) }
  short (x ∷ y ∷ s) h = absurd (omega arith)

  merge_sort-Sorts : (fuel : ℕ) (s : List A) → Sorts fuel s
  unfolding merge_sort Sorts
  merge_sort-Sorts zero s l z buf n = absurd (omega arith)
  merge_sort-Sorts (suc fuel) s l z buf n = elim (lt_or_ge (length s) 2) [
    | inl few ↦ record {
      slice = s;
      held = buf;
      returned = rw (lt→ltb (length s) 2 few) refl;
      same_length = n;
      sorted = short s few;
    }
    | inr more ↦ elim (lt_or_ge 12 (length s)) [
      | inl long ↦ halves fuel (merge_sort-Sorts fuel) s l long buf n
      | inr small ↦
          let (t, done, sorted) = insertion-IsStableSort s in
          let not_few : ltb (length s) 2 ≡ false = ground arith in
          let is_small : leb (length s) 12 ≡ true = ground arith in
          record {
            slice = t;
            held = buf;
            returned = rw (not_few, is_small, done) refl;
            same_length = n;
            sorted = sorted;
          }
    ]
  ]

  -- MergeFunc never panics, and returns the slice in order, with equivalent elements in the order
  -- that they had.
  pub merge_func-IsStableSort :
      (zero_value : A) (s : List A)
      → (t : List A) × (merge_func zero_value s ≡ some t) × IsStableSort s t
  unfolding merge_func Sorts
  merge_func-IsStableSort zero_value s = elim (lt_or_ge (length s) 2) [
    | inl few ↦ (s, rw (lt→ltb (length s) 2 few) refl, short s few)
    | inr more ↦
        let r =
          merge_sort-Sorts (length s) s (omega arith) (omega arith)
            (replicate (length s) zero_value) (length-replicate (length s) zero_value) in
        let not_few : ltb (length s) 2 ≡ false = ground arith in
        (r.slice, rw (not_few, r.returned) refl, r.sorted)
  ]
