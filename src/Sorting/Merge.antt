-- ===== src/Sorting/Merge.antt =====
-- merge (dsa/sorting/divide.go) combines two slices that are in order.
use Prim.Native.Nat.Ordering.{lt, eq, gt}
use learn_go.Prelude.{
  ℕ, zero, suc, ◌+◌, ◌-◌, ◌≤◌, ◌<◌, ◌≡◌, ◌⊎◌, refl, ap, ◌∙◌, sym, true, false, not, some,
  Bool-cases, inl, inr, List, [], ◌∷◌, ◌++◌, append_assoc, append-nil, length, length-take,
  length-drop, length-set, get_elem?, set, take, drop, arith, if◌then◌else◌, ltb, lt→ltb, lt_or_ge,
  Ordering,
}
use learn_go.Prelude.Index.{get_elem?-take, drop_next, drop_all}
use learn_go.Prelude.Copy.{copy, copy_none, copy_rest, take-set}
use learn_go.Prelude.Ordered.{is_gt}
use learn_go.Sorting.{merge_loop, merge}
use learn_go.Sorting.Order.{
  Comparison, AllOf, AllOf-imp, ◌≼◌, IsAscending, ≼_of_gt, IsRearranged, IsRearranged-refl,
  IsRearranged-trans, IsRearranged-append, IsRearranged-swap,
}

not_less : (a b : ℕ) → b ≤ a → ltb a b ≡ false
not_less a b h = ground arith

module _ {ℓ} {A : Type ℓ} ⦃o : Comparison A⦄ where
  -- The merge of two lists.
  abbrev pub merged : List A → List A → List A
  merged [] ys = ys
  merged (x ∷ xs) [] = x ∷ xs
  merged (x ∷ xs) (y ∷ ys) =
      let left = merged xs (y ∷ ys) in
      let right = merged (x ∷ xs) ys in if not (is_gt (o.compare x y)) then x ∷ left else y ∷ right

  merged-nil : (xs : List A) → merged xs [] ≡ xs
  merged-nil [] = refl
  merged-nil (x ∷ xs) = refl

  module _ (buf : List A) (mid : ℕ) (inside : mid ≤ length buf) where
    abbrev left_rest : ℕ → List A
    left_rest left = drop left (take mid buf)

    finish :
        (left right out : ℕ) (s : List A)
        → length s ≡ length buf
        → left ≤ mid
        → right ≤ length s
        → out + mid ≡ left + right
        → (mid ≤ left) ⊎ (length s ≤ right)
        → copy (copy s out (left_rest left)) (out + mid - left) (drop right buf)
          ≡ take out s ++ merged (left_rest left) (drop right buf)
    finish left right out s n a b e (inl done) =
        let none_left : left_rest left ≡ [] =
          drop_all (take mid buf) left (omega (arith, length-take mid buf)) in
        let at : out + mid - left ≡ out = omega arith in
        rw (none_left, at, copy_none s out)
          (copy_rest s out (drop right buf) (omega (arith, length-drop right buf)))
    finish left right out s n a b e (inr done) =
        let none_right : drop right buf ≡ [] = drop_all buf right (omega arith) in
        rw
          (
            none_right,
            merged-nil (left_rest left),
            copy_none (copy s out (left_rest left)) (out + mid - left),
          )
          (copy_rest s out (left_rest left)
            (omega (arith, length-drop left (take mid buf), length-take mid buf)))

    Merges : ℕ → Type ℓ
    Merges fuel =
        (left right out : ℕ) (s : List A)
        → length s ≡ length buf
        → left ≤ mid
        → mid ≤ right
        → right ≤ length s
        → out + mid ≡ left + right
        → mid + length s < left + right + fuel
        → merge_loop fuel buf mid left right out s
          ≡ some (take out s ++ merged (left_rest left) (drop right buf))

    -- A write at the end of the part that is done.
    written :
        (out : ℕ) (s : List A) (v : A) (rest whole : List A)
        → out < length s
        → whole ≡ v ∷ rest
        → take (out + 1) (set s out v) ++ rest ≡ take out s ++ whole
    written out s v rest whole h e =
        let next : out + 1 ≡ suc out = omega arith in
        rw (next, take-set s out v h, e) (append_assoc (take out s) (v ∷ []) rest)

    take_left :
        (left right : ℕ) (x y : A) (xs : List A)
        → left_rest left ≡ x ∷ left_rest (suc left)
        → xs ≡ y ∷ drop (suc right) buf
        → not (is_gt (o.compare x y)) ≡ true
        → merged (left_rest left) xs ≡ x ∷ merged (left_rest (left + 1)) xs
    take_left left right x y xs h g e =
        let next : left + 1 ≡ suc left = omega arith in rw (h, g, e, next) refl

    take_right :
        (left right : ℕ) (x y : A) (xs : List A)
        → xs ≡ x ∷ left_rest (suc left)
        → drop right buf ≡ y ∷ drop (suc right) buf
        → not (is_gt (o.compare x y)) ≡ false
        → merged xs (drop right buf) ≡ y ∷ merged xs (drop (right + 1) buf)
    take_right left right x y xs h g e =
        let next : right + 1 ≡ suc right = omega arith in rw (h, g, e, next) refl

    round :
        (fuel : ℕ)
        → Merges fuel
        → (left right out : ℕ) (s : List A) → length s ≡ length buf
        → left ≤ mid
        → mid ≤ right
        → right ≤ length s
        → out + mid ≡ left + right
        → mid + length s < left + right + suc fuel
        → left < mid
        → right < length s
        → merge_loop (suc fuel) buf mid left right out s
          ≡ some (take out s ++ merged (left_rest left) (drop right buf))
    unfolding merge_loop Merges
    round fuel ih left right out s n a c b e f more_left more_right =
        let (x, at_x, rest_x) =
          drop_next (take mid buf) left (omega (arith, length-take mid buf)) in
        let (y, at_y, rest_y) = drop_next buf right (omega arith) in
        let here : get_elem? buf left ≡ some x =
          sym (get_elem?-take mid buf left more_left) ∙ at_x in
        let room : out < length s = omega arith in
        elim (Bool-cases (not (is_gt (o.compare x y)))) [
          | inl left_first ↦
              rw
                (
                  lt→ltb left mid more_left,
                  lt→ltb right (length s) more_right,
                  here,
                  at_y,
                  left_first,
                  lt→ltb out (length s) room,
                )
                (ih (left + 1) right (out + 1) (set s out x) (length-set s out x ∙ n) (omega arith)
                    c (omega (arith, length-set s out x)) (omega arith)
                    (omega (arith, length-set s out x))
                  ∙ ap some (
                      written out s x _ _ room
                        (take_left left right x y (drop right buf) rest_x rest_y left_first)))
          | inr right_first ↦
              rw
                (
                  lt→ltb left mid more_left,
                  lt→ltb right (length s) more_right,
                  here,
                  at_y,
                  right_first,
                  lt→ltb out (length s) room,
                )
                (ih left (right + 1) (out + 1) (set s out y) (length-set s out y ∙ n) a
                    (omega arith) (omega (arith, length-set s out y)) (omega arith)
                    (omega (arith, length-set s out y))
                  ∙ ap some (
                      written out s y _ _ room
                        (take_right left right x y (left_rest left) rest_x rest_y right_first)))
        ]

    merge_loop-merged : (fuel : ℕ) → Merges fuel
    unfolding merge_loop Merges
    merge_loop-merged zero left right out s n a c b e f = absurd (omega arith)
    merge_loop-merged (suc fuel) left right out s n a c b e f = elim (lt_or_ge left mid) [
      | inr done ↦
          rw (not_less left mid done) (ap some (finish left right out s n a b e (inl done)))
      | inl more_left ↦ elim (lt_or_ge right (length s)) [
        | inr done ↦
            rw (lt→ltb left mid more_left, not_less right (length s) done)
              (ap some (finish left right out s n a b e (inr done)))
        | inl more_right ↦
            round fuel (merge_loop-merged fuel) left right out s n a c b e f more_left more_right
      ]
    ]

  -- The code merges the two parts of the slice.
  pub merge-merged :
      (s buf : List A) (mid : ℕ)
      → length buf ≡ length s
      → mid ≤ length s
      → merge s buf mid ≡ some (merged (take mid s) (drop mid s), s)
  unfolding merge Merges
  merge-merged s buf mid e h =
      let filled : copy buf 0 s ≡ s = copy_rest buf 0 s (omega arith) in
      let done =
        merge_loop-merged s mid h (length s + 1) 0 mid 0 s refl (omega arith) (omega arith) h
          (omega arith) (omega arith) in
      rw (filled, done) refl

  AllOf-merged :
      (P : A → Type 0) (xs ys : List A) → AllOf P xs → AllOf P ys → AllOf P (merged xs ys)
  AllOf-merged P [] ys h g = g
  AllOf-merged P (x ∷ xs) [] h g = h
  AllOf-merged P (x ∷ xs) (y ∷ ys) h g =
      ground (arith, AllOf-merged P xs (y ∷ ys) h.1 g, AllOf-merged P (x ∷ xs) ys h g.1)

  pub merged-IsAscending :
      (xs ys : List A) → IsAscending xs → IsAscending ys → IsAscending (merged xs ys)
  merged-IsAscending [] ys h g = g
  merged-IsAscending (x ∷ xs) [] h g = h
  merged-IsAscending (x ∷ xs) (y ∷ ys) h g = elim (Bool-cases (not (is_gt (o.compare x y)))) [
    | inl left_first ↦
        let below : x ≼ y = λ e. ground arith in
        rw left_first (
          AllOf-merged (λ z. x ≼ z) xs (y ∷ ys) h.0
              (below, AllOf-imp (λ z b. o.chain x y z below b) ys g.0),
          merged-IsAscending xs (y ∷ ys) h.1 g,
        )
    | inr right_first ↦
        let below : y ≼ x = ≼_of_gt x y (ground arith) in
        rw right_first (
          AllOf-merged (λ z. y ≼ z) (x ∷ xs) ys
              (below, AllOf-imp (λ z b. o.chain y x z below b) xs h.0) g.0,
          merged-IsAscending (x ∷ xs) ys h g.1,
        )
  ]

  still_gt : (x y z : A) → o.compare x y ≡ gt → x ≼ z → o.compare z y ≡ gt
  still_gt x y z h b = split (o.compare z y) refl
    where
      split : (w : Ordering) → o.compare z y ≡ w → o.compare z y ≡ gt
      split gt e = e
      split lt e = absurd (o.chain x z y b (λ f. cc) h)
      split eq e = absurd (o.chain x z y b (λ f. cc) h)

  -- An element moves back over larger ones.
  move_back :
      (y : A) (zs ys : List A)
      → AllOf (λ z. o.compare z y ≡ gt) zs
      → IsRearranged (y ∷ zs ++ ys) (zs ++ y ∷ ys)
  move_back y [] ys h = IsRearranged-refl (y ∷ ys)
  move_back y (z ∷ zs) ys h =
      IsRearranged-trans
        (IsRearranged-append (IsRearranged-swap z y h.0) (IsRearranged-refl (zs ++ ys)))
        (IsRearranged-append (IsRearranged-refl (z ∷ [])) (move_back y zs ys h.1))

  pub merged-IsRearranged :
      (xs ys : List A) → IsAscending xs → IsRearranged (merged xs ys) (xs ++ ys)
  merged-IsRearranged [] ys h = IsRearranged-refl ys
  merged-IsRearranged (x ∷ xs) [] h = rw (append-nil xs) (IsRearranged-refl (x ∷ xs))
  merged-IsRearranged (x ∷ xs) (y ∷ ys) h = elim (Bool-cases (not (is_gt (o.compare x y)))) [
    | inl left_first ↦
        rw left_first
          (IsRearranged-append (IsRearranged-refl (x ∷ [])) (merged-IsRearranged xs (y ∷ ys) h.1))
    | inr right_first ↦
        let above : o.compare x y ≡ gt = ground arith in
        rw right_first (
          IsRearranged-trans
            (IsRearranged-append (IsRearranged-refl (y ∷ [])) (merged-IsRearranged (x ∷ xs) ys h))
            (move_back y (x ∷ xs) ys (above, AllOf-imp (λ z b. still_gt x y z above b) xs h.0)))
  ]
