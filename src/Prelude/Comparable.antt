-- ===== src/Prelude/Comparable.antt =====
-- Go's comparable: `==` on keys, with the laws of the values that equal themselves (a NaN does not).
use mathlib.Core.Path.{◌≡◌}
use mathlib.Core.Bool.{Bool, true}

pub record Comparable {ℓ} (K : Type ℓ) : Type ℓ where
  pub same : K → K → Bool
  pub same_self : (x : K) → same x x ≡ true
  pub eq_of_same : (x y : K) → same x y ≡ true → x ≡ y
