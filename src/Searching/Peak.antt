-- ===== src/Searching/Peak.antt =====
-- FindPeak (dsa/searching/rotated.go): an element that no neighbour exceeds.
use Prim.Native.Nat.Ordering.{gt}
use learn_go.Prelude.{
  ℕ, zero, suc, ◌+◌, ◌-◌, ◌<◌, ◌≡◌, ◌≢◌, refl, inl, inr, Bool, false, some, List, [], ◌∷◌, length,
  get_elem?, arith,
}
use learn_go.Prelude.Index.{get_elem?-none}
use learn_go.Prelude.Ordered.{Ordered, lt_of_gt}
use learn_go.Searching.{exceeds, descends, find_peak}
use learn_go.Searching.Partition.{IsEdge, partition-IsEdge}

module _ {ℓ} {K : Type ℓ} ⦃o : Ordered K⦄ where
  -- No element of the slice next to the place `r` is greater than the one at it.
  pub record IsPeak (s : List K) (r : ℕ) : Type ℓ where
    pub within : r < length s
    pub left :
        (x y : K) → 0 < r → get_elem? s (r - 1) ≡ some x → get_elem? s r ≡ some y → o.cmp x y ≢ gt
    pub right : (x y : K) → get_elem? s r ≡ some x → get_elem? s (r + 1) ≡ some y → o.cmp y x ≢ gt

  -- The answer of the test, made total.
  falls : List K → ℕ → Bool
  falls [] i = false
  falls (x ∷ []) i = false
  falls (x ∷ y ∷ s) zero = exceeds y x
  falls (x ∷ y ∷ s) (suc i) = falls (y ∷ s) i

  descends-falls : (s : List K) (i : ℕ) → i < length s - 1 → descends s i ≡ some (falls s i)
  unfolding descends falls
  descends-falls [] i h = absurd (omega arith)
  descends-falls (x ∷ []) i h = absurd (omega arith)
  descends-falls (x ∷ y ∷ s) zero h = refl
  descends-falls (x ∷ y ∷ s) (suc i) h =
      let same : suc i + 1 ≡ suc (i + 1) = omega arith in
      rw same (descends-falls (y ∷ s) i (omega arith))

  falls-exceeds :
      (s : List K) (i : ℕ) (x y : K)
      → get_elem? s i ≡ some x
      → get_elem? s (i + 1) ≡ some y
      → falls s i ≡ exceeds y x
  unfolding falls
  falls-exceeds [] i x y e f = cc
  falls-exceeds (a ∷ []) zero x y e f = cc
  falls-exceeds (a ∷ []) (suc i) x y e f = cc
  falls-exceeds (a ∷ b ∷ s) zero x y e f = cc
  falls-exceeds (a ∷ b ∷ s) (suc i) x y e f =
      let same : suc i + 1 ≡ suc (i + 1) = omega arith in
      falls-exceeds (b ∷ s) i x y e (rw same at f)

  edge-IsPeak : (s : List K) (r : ℕ) → 0 < length s → IsEdge (falls s) (length s - 1) r → IsPeak s r
  edge-IsPeak s r h e = record {
    within = omega (arith, e.within);
    left = λ x y k a b c. elim e.before [
      | inl z ↦ omega arith
      | inr z ↦
          let same : r - 1 + 1 ≡ r = omega arith in
          let test = falls-exceeds s (r - 1) x y a (rw same b) in ground arith
    ];
    right = λ x y a b c. elim e.after [
      | inl z ↦ let nothing = get_elem?-none s (r + 1) (omega arith) in cc
      | inr z ↦ let test = falls-exceeds s r x y a b in let below = lt_of_gt y x c in ground arith
    ];
  }

  -- FindPeak on a slice with elements returns, without a panic, the index of one that is no
  -- smaller than its neighbours.
  pub find_peak-IsPeak :
      (s : List K) → 0 < length s → (r : ℕ) × (find_peak s ≡ some (some r)) × IsPeak s r
  unfolding find_peak
  find_peak-IsPeak [] h = absurd (omega arith)
  find_peak-IsPeak (x ∷ s) h =
      let (r, done, edge) =
        partition-IsEdge (length (x ∷ s) - 1) (descends (x ∷ s)) (falls (x ∷ s))
          (descends-falls (x ∷ s)) in
      (r, rw done refl, edge-IsPeak (x ∷ s) r h edge)
