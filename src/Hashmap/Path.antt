-- ===== src/Hashmap/Path.antt =====
-- The way of a probe through the slots (dsa/hashmap/hashmap.go): it visits each slot once.
use native.Mathlib.Nat.{mod-lt, one-le-pow, mod-eq_of_lt, add-mod_right}
use learn_go.Prelude.{
  ℕ, ◌+◌, ◌-◌, ◌%◌, ◌^◌, ◌<◌, ◌≡◌, refl, ap, ◌∙◌, inl, inr, List, length, arith, lt_or_ge,
}
use learn_go.Prelude.Comparable.{Comparable}
use learn_go.Prelude.Mask.{bit_and-mask}
use learn_go.Hashmap.{Slot, spot}

-- The number of slots is a power of two.
abbrev pub IsPower : ℕ → Type 0
IsPower n = (k : ℕ) × (n ≡ 2 ^ k)

pub power_positive : (n : ℕ) → IsPower n → 0 < n
power_positive n (k, e) = omega (arith, one-le-pow k 2)

module _ {ℓ} {K V : Type ℓ} ⦃c : Comparable K⦄ (hash : K → ℕ) where
  pub spot-mod :
      (slots : List (Slot K V)) (key : K) (i : ℕ)
      → IsPower (length slots)
      → spot hash slots key i ≡ (hash key % length slots + i) % length slots
  spot-mod slots key i (k, e) = rw (e, bit_and-mask, bit_and-mask) refl

  pub spot_bound :
      (slots : List (Slot K V)) (key : K) (i : ℕ)
      → IsPower (length slots)
      → spot hash slots key i < length slots
  spot_bound slots key i p =
      rw (spot-mod slots key i p)
        (mod-lt (hash key % length slots + i) (power_positive (length slots) p))

around : (start n idx : ℕ) → start < n → idx < n → (i : ℕ) × (i < n) × ((start + i) % n ≡ idx)
around start n idx h k = elim (lt_or_ge idx start) [
  | inl before ↦ (
    idx + n - start,
    omega arith,
    let total : start + (idx + n - start) ≡ idx + n = omega arith in
        ap (λ (x : ℕ). x % n) total ∙ add-mod_right idx n ∙ mod-eq_of_lt k,
  )
  | inr after ↦ (
    idx - start,
    omega arith,
    let total : start + (idx - start) ≡ idx = omega arith in
        ap (λ (x : ℕ). x % n) total ∙ mod-eq_of_lt k,
  )
]

module _ {ℓ} {K V : Type ℓ} ⦃c : Comparable K⦄ (hash : K → ℕ) where
  -- Every slot is on the way of every key.
  pub spot_reaches :
      (slots : List (Slot K V)) (key : K) (idx : ℕ)
      → IsPower (length slots)
      → idx < length slots
      → (i : ℕ) × (i < length slots) × (spot hash slots key i ≡ idx)
  spot_reaches slots key idx p h =
      let (i, bound, same) =
        around (hash key % length slots) (length slots) idx
          (mod-lt (hash key) (power_positive (length slots) p)) h in
      (i, bound, spot-mod hash slots key i p ∙ same)
