-- ===== src/Searching/Pivot.antt =====
-- SearchRotated and RotationPoint (dsa/searching/rotated.go) on a sorted slice that was rotated.
use learn_go.Prelude.{
  ℕ, ◌+◌, ◌-◌, ◌≤◌, ◌<◌, ◌≡◌, ◌≢◌, refl, sym, ◌∙◌, ap, inl, inr, Bool, true, false, Option, none,
  some, List, [], ◌∷◌, ◌++◌, length, length-append, get_elem?, arith, lt_or_ge, ◌==◌,
}
use learn_go.Prelude.Index.{get_elem?-append_right, get_elem?-append_end}
use learn_go.Prelude.Ordered.{Ordered}
use learn_go.Searching.{at_index, is_at_most, search_rotated, rotation_point}
use learn_go.Searching.Partition.{partition_boundary}
use learn_go.Searching.Bounds.{IsAscending}
use learn_go.Searching.Order.{◌≼◌, lt_or_same, exceeds-no, exceeds-so}
use learn_go.Searching.Halves.{IsRotated}
use learn_go.Searching.Rotated.{IsAnswer, rotated_loop-IsAnswer}
use learn_go.Searching.Rotation.{value_at, value_at-read, of_read, value_at-left, append-IsRotated}

module _ {ℓ} {K : Type ℓ} ⦃o : Ordered K⦄ where
  -- What SearchRotated is to answer: a place of the target, or that there is none.
  abbrev pub IsPlace : List K → K → Option ℕ → Type ℓ
  IsPlace s target none = (i : ℕ) → get_elem? s i ≢ some target
  IsPlace s target (some i) = get_elem? s i ≡ some target

  -- SearchRotated on a rotated sorted slice, also with duplicates, ends without a panic, and returns
  -- a place of the target, or -1 if the target is not in the slice.
  pub search_rotated-IsPlace :
      (front back : List K) (target : K)
      → IsAscending (back ++ front)
      → (answer : Option ℕ) × (search_rotated (front ++ back) target ≡ some answer)
        × IsPlace (front ++ back) target answer
  unfolding search_rotated
  search_rotated-IsPlace front back target sorted =
      let s = front ++ back in
      let x = value_at target s in
      let r = append-IsRotated target front back sorted in
      let (answer, done, right) =
        rotated_loop-IsAnswer x (length s) (length front) r target s (value_at-read target s)
          (length s) 0 (length s) (omega arith) (omega arith) (λ q. q) in
      (answer, done, place answer right)
    where
      place :
          (answer : Option ℕ)
          → IsAnswer
              (value_at target (front ++ back))
              (length (front ++ back))
              (length front)
              (append-IsRotated target front back sorted)
              target
              answer
          → IsPlace (front ++ back) target answer
      place none absent = λ i e.
          let (inside, same) = of_read target (front ++ back) i target e in
          absent (i, omega arith, inside, same)
      place (some i) (inside, same) =
          value_at-read target (front ++ back) i inside ∙ ap (λ v. some v) same

  -- RotationPoint of a rotated sorted slice is the place where the second run starts, if no element
  -- of the first run equals the last element of the slice.
  pub rotation_point-length :
      (front back : List K) (last : K)
      → IsAscending ((back ++ last ∷ []) ++ front)
      → ((i : ℕ) → get_elem? front i ≢ some last)
      → rotation_point (front ++ (back ++ last ∷ [])) ≡ some (length front)
  unfolding rotation_point
  rotation_point-length front back last sorted differs =
      let (r, done, within, before, from) =
        partition_boundary n (at_index s (is_at_most last)) f safe mono in
      let full : (length s == 0) ≡ false = ground (arith, some_last) in
      let at_pivot : r ≡ p = elim (lt_or_ge r p) [
        | inl less ↦
            let up = from r (omega arith) (omega (arith, some_last)) in
            let down = low r less in absurd (cc (up, down))
        | inr least ↦ elim (lt_or_ge p r) [
          | inl more ↦
              let down = before p more in
              let up = high p (omega arith) (omega (arith, some_last)) in absurd (cc (up, down))
          | inr most ↦ omega arith
        ]
      ] in
      rw (full, read_last) (done ∙ ap (λ i. some i) at_pivot)
    where
      s : List K
      s = front ++ (back ++ last ∷ [])

      n : ℕ
      n = length s

      p : ℕ
      p = length front

      some_last : p + (length back + 1) ≡ n
      some_last =
          omega (arith, length-append front (back ++ last ∷ []), length-append back (last ∷ []))

      r0 : IsRotated (value_at last s) n p
      r0 = append-IsRotated last front (back ++ last ∷ []) sorted

      read_last : get_elem? s (n - 1) ≡ some last
      read_last =
          get_elem?-append_right front (back ++ last ∷ []) (n - 1) (omega (arith, some_last))
          ∙ get_elem?-append_end back last (n - 1 - p) (omega (arith, some_last))

      at_end : value_at last s (n - 1) ≡ last
      at_end = (of_read last s (n - 1) last read_last).1

      f : ℕ → Bool
      f i = is_at_most last (value_at last s i)

      safe : (i : ℕ) → i < n → at_index s (is_at_most last) i ≡ some (f i)
      safe i h = rw (value_at-read last s i h) refl

      low : (i : ℕ) → i < p → f i ≡ false
      low i h =
          let least : last ≼ value_at last s i =
            rw at_end at
              (r0.wrap i (n - 1) h (omega (arith, some_last)) (omega (arith, some_last))) in
          elim (lt_or_same last (value_at last s i) least) [
            | inl less ↦ rw (exceeds-so (value_at last s i) last less) refl
            | inr same ↦ absurd (
                differs i (
                  value_at-read last front i h
                  ∙ ap (λ v. some v)
                      (sym (value_at-left last front (back ++ last ∷ []) i h) ∙ sym same)))
          ]

      high : (i : ℕ) → p ≤ i → i < n → f i ≡ true
      high i h k =
          let most : value_at last s i ≼ last =
            rw at_end at (r0.back i (n - 1) h (omega arith) (omega arith)) in
          rw (exceeds-no (value_at last s i) last most) refl

      mono : (i j : ℕ) → i ≤ j → j < n → f i ≡ true → f j ≡ true
      mono i j h k e = elim (lt_or_ge i p) [
        | inl before ↦ let down = low i before in absurd (cc (e, down))
        | inr after ↦ high j (omega arith) k
      ]
