-- ===== src/Searching/Order.antt =====
-- At most, for the keys of cmp.Ordered (dsa/searching/rotated.go compares so).
use Prim.Native.Nat.{Ordering}
use Prim.Native.Nat.Ordering.{lt, eq, gt}
use learn_go.Prelude.{◌≡◌, ◌≢◌, refl, sym, ◌⊎◌, inl, inr, true, false, arith}
use learn_go.Prelude.Ordered.{Ordered, ◌≺◌, lt_of_gt, gt_of_lt}
use learn_go.Searching.{equals, exceeds, at_least, is_below}

pub Ordering-cases : (c : Ordering) → (c ≡ lt) ⊎ ((c ≡ eq) ⊎ (c ≡ gt))
Ordering-cases lt = inl refl
Ordering-cases eq = inr (inl refl)
Ordering-cases gt = inr (inr refl)

infix 50 ◌≼◌
abbrev pub ◌≼◌ {ℓ} : {K : Type ℓ} ⦃o : Ordered K⦄ → K → K → Type 0
◌≼◌ ⦃o⦄ x y = o.cmp x y ≢ gt

module _ {ℓ} {K : Type ℓ} ⦃o : Ordered K⦄ where
  pub ≼_same : (x y : K) → x ≡ y → x ≼ y
  ≼_same x y e g = let self = o.cmp_self y in let at_y = rw e at g in cc (self, at_y)

  pub ≼_lt : (x y : K) → x ≺ y → x ≼ y
  ≼_lt x y h g = cc (h, g)

  pub lt_or_same : (x y : K) → x ≼ y → (x ≺ y) ⊎ (x ≡ y)
  lt_or_same x y h = elim (Ordering-cases (o.cmp x y)) [
    | inl less ↦ inl less
    | inr (inl same) ↦ inr (o.same_of_cmp x y same)
    | inr (inr more) ↦ absurd (h more)
  ]

  pub ≼_trans : (x y z : K) → x ≼ y → y ≼ z → x ≼ z
  ≼_trans x y z h k = elim (lt_or_same x y h) [
    | inr same ↦ rw same k
    | inl less ↦ elim (lt_or_same y z k) [
      | inr alike ↦ rw (sym alike) h
      | inl below ↦ ≼_lt x z (o.chain x y z less below)
    ]
  ]

  -- Not at most is above.
  pub not_below : (x y : K) → x ≼ y → ¬ (y ≺ x)
  not_below x y h k = h (gt_of_lt y x k)

  pub ≼_antisym : (x y : K) → x ≼ y → y ≼ x → x ≡ y
  ≼_antisym x y h k = elim (lt_or_same x y h) [
    | inr same ↦ same
    | inl less ↦ absurd (not_below y x k less)
  ]

  -- What the tests of the code say.
  pub at_most_of : (x y : K) → exceeds y x ≡ false → x ≼ y
  at_most_of x y e = ground arith

  pub above_of : (x y : K) → exceeds y x ≡ true → y ≺ x
  above_of x y e = ground (arith, lt_of_gt x y)

  pub exceeds-no : (x y : K) → x ≼ y → exceeds y x ≡ false
  exceeds-no x y h = ground arith

  pub exceeds-so : (x y : K) → y ≺ x → exceeds y x ≡ true
  exceeds-so x y h = ground (arith, gt_of_lt y x)

  pub same_of : (x y : K) → equals y x ≡ true → x ≡ y
  same_of x y e = ground (arith, o.same_of_cmp x y)

  pub differs_of : (x y : K) → equals y x ≡ false → x ≢ y
  differs_of x y e d = let self = o.cmp_self y in let at_y = rw d at e in ground arith

  pub equals_of : (x y : K) → x ≡ y → equals y x ≡ true
  equals_of x y e = let self = o.cmp_self y in rw e (ground arith)

  pub of_at_least : (x y : K) → at_least y x ≡ true → y ≼ x
  of_at_least x y e g = let less = lt_of_gt y x g in ground arith

  pub of_not_least : (x y : K) → at_least y x ≡ false → x ≺ y
  of_not_least x y e = ground arith

  pub of_is_below : (x y : K) → is_below y x ≡ true → x ≺ y
  of_is_below x y e = ground arith

  pub of_not_below : (x y : K) → is_below y x ≡ false → y ≼ x
  of_not_below x y e g = let less = lt_of_gt y x g in ground arith
