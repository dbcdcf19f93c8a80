-- ===== src/Sorting/Check.antt =====
-- IsSorted (dsa/sorting/sorting.go), and the two stable sorts against each other.
use learn_go.Prelude.{◌≡◌, ◌↔◌, refl, true, List, [], ◌∷◌, arith}
use learn_go.Sorting.{is_sorted}
use learn_go.Sorting.Order.{Comparison, AllOf-imp, ◌≼◌, IsAscending}

module _ {ℓ} {A : Type ℓ} ⦃o : Comparison A⦄ where
  is_sorted→IsAscending : (s : List A) → is_sorted s ≡ true → IsAscending s
  unfolding is_sorted
  is_sorted→IsAscending [] h = tt
  is_sorted→IsAscending (x ∷ []) h = (tt, tt)
  is_sorted→IsAscending (x ∷ y ∷ s) h =
      let below : x ≼ y = λ e. ground arith in
      let rest = is_sorted→IsAscending (y ∷ s) (ground arith) in
      ((below, AllOf-imp (λ z b. o.chain x y z below b) s rest.0), rest)

  IsAscending→is_sorted : (s : List A) → IsAscending s → is_sorted s ≡ true
  unfolding is_sorted
  IsAscending→is_sorted [] h = refl
  IsAscending→is_sorted (x ∷ []) h = refl
  IsAscending→is_sorted (x ∷ y ∷ s) h =
      let rest = IsAscending→is_sorted (y ∷ s) h.1 in let below = h.0.0 in ground arith

  -- The check of neighbours decides whether no element is above a later one.
  pub is_sorted-IsAscending : (s : List A) → (is_sorted s ≡ true) ↔ IsAscending s
  is_sorted-IsAscending s = (is_sorted→IsAscending s, IsAscending→is_sorted s)
