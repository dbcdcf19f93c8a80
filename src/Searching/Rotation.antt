-- ===== src/Searching/Rotation.antt =====
-- Elements by their index, and two ascending runs as a rotated slice (dsa/searching/rotated.go).
use learn_go.Prelude.{
  ℕ, zero, suc, ◌+◌, ◌-◌, ◌≤◌, ◌<◌, ◌≡◌, refl, sym, ◌∙◌, ap, some, List, [], ◌∷◌, ◌++◌, length,
  length-append, get_elem?, arith,
}
use learn_go.Prelude.Ordered.{Ordered}
use learn_go.Searching.Rank.{AllOf}
use learn_go.Searching.Bounds.{IsAscending}
use learn_go.Searching.Order.{◌≼◌, ≼_same}
use learn_go.Searching.Halves.{IsRotated}

module _ {ℓ} {K : Type ℓ} where
  -- The element at an index, with a value for the indices out of range.
  abbrev pub value_at : K → List K → ℕ → K
  value_at d [] i = d
  value_at d (x ∷ s) zero = x
  value_at d (x ∷ s) (suc i) = value_at d s i

  pub value_at-read :
      (d : K) (s : List K) (i : ℕ) → i < length s → get_elem? s i ≡ some (value_at d s i)
  value_at-read d [] i h = absurd (omega arith)
  value_at-read d (x ∷ s) zero h = refl
  value_at-read d (x ∷ s) (suc i) h = value_at-read d s i (omega arith)

  pub of_read :
      (d : K) (s : List K) (i : ℕ) (v : K)
      → get_elem? s i ≡ some v
      → (i < length s) × (value_at d s i ≡ v)
  of_read d [] i v e = cc e
  of_read d (x ∷ s) zero v e = (omega arith, cc e)
  of_read d (x ∷ s) (suc i) v e = let (inside, same) = of_read d s i v e in (omega arith, same)

  pub value_at-left :
      (d : K) (s t : List K) (i : ℕ) → i < length s → value_at d (s ++ t) i ≡ value_at d s i
  value_at-left d [] t i h = absurd (omega arith)
  value_at-left d (x ∷ s) t zero h = refl
  value_at-left d (x ∷ s) t (suc i) h = value_at-left d s t i (omega arith)

  value_at-right :
      (d : K) (s t : List K) (i : ℕ) → value_at d (s ++ t) (length s + i) ≡ value_at d t i
  value_at-right d [] t i = ap (value_at d t) (omega arith)
  value_at-right d (x ∷ s) t i =
      let next : length (x ∷ s) + i ≡ suc (length s + i) = omega arith in
      ap (value_at d (x ∷ (s ++ t))) next ∙ value_at-right d s t i

module _ {ℓ} {K : Type ℓ} ⦃o : Ordered K⦄ where
  all_at : (d x : K) (s : List K) (j : ℕ) → j < length s → AllOf (λ y. x ≼ y) s → x ≼ value_at d s j
  all_at d x [] j h a = absurd (omega arith)
  all_at d x (y ∷ s) zero h (a, b) = a
  all_at d x (y ∷ s) (suc j) h (a, b) = all_at d x s j (omega arith) b

  ascending_at :
      (d : K) (t : List K) (i j : ℕ)
      → IsAscending t
      → i ≤ j
      → j < length t
      → value_at d t i ≼ value_at d t j
  ascending_at d [] i j a h k = absurd (omega arith)
  ascending_at d (x ∷ t) zero zero a h k = ≼_same x x refl
  ascending_at d (x ∷ t) zero (suc j) (a, b) h k = all_at d x t j (omega arith) a
  ascending_at d (x ∷ t) (suc i) zero a h k = absurd (omega arith)
  ascending_at d (x ∷ t) (suc i) (suc j) (a, b) h k =
      ascending_at d t i j b (omega arith) (omega arith)

  module _ (d : K) (front back : List K) (sorted : IsAscending (back ++ front)) where
    -- The elements of the two runs, by their places in the sorted slice.
    front_at :
        (i : ℕ)
        → i < length front
        → value_at d (front ++ back) i ≡ value_at d (back ++ front) (length back + i)
    front_at i h = value_at-left d front back i h ∙ sym (value_at-right d back front i)

    back_at :
        (i : ℕ)
        → length front ≤ i
        → i < length (front ++ back)
        → value_at d (front ++ back) i ≡ value_at d (back ++ front) (i - length front)
    back_at i h k =
        let split : i ≡ length front + (i - length front) = omega arith in
        ap (value_at d (front ++ back)) split
        ∙ value_at-right d front back (i - length front)
        ∙ sym (
            value_at-left d back front (i - length front) (omega (arith, length-append front back)))

    pub append-IsRotated :
        IsRotated (value_at d (front ++ back)) (length (front ++ back)) (length front)
    append-IsRotated =
        let whole = length-append front back in
        let long = length-append back front in
        record {
          front = λ i j h k.
              rw (front_at i (omega arith), front_at j k)
                (ascending_at d (back ++ front) (length back + i) (length back + j) sorted
                  (omega arith) (omega arith));
          back = λ i j h k m.
              rw (back_at i h (omega arith), back_at j (omega arith) m)
                (ascending_at d (back ++ front) (i - length front) (j - length front) sorted
                  (omega arith) (omega arith));
          wrap = λ i j h k m.
              rw (front_at i h, back_at j k m)
                (ascending_at d (back ++ front) (j - length front) (length back + i) sorted
                  (omega arith) (omega arith));
        }
