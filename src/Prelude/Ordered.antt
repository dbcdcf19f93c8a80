-- ===== src/Prelude/Ordered.antt =====
-- cmp.Ordered with cmp.Compare: three-way comparison of keys, with the laws that the package
-- documents for the values it orders strictly (its 0 is read as equality, so of a NaN there is one).
use Prim.Native.Nat.{ℕ, compare, Ordering}
use Prim.Native.Nat.Ordering.{lt, eq, gt}
use mathlib.Core.Path.{◌≡◌}
use mathlib.Core.Bool.{Bool, true, false}
use native.Mathlib.Omega.{arith}

-- The sign of the comparison with its sides swapped.
abbrev pub opposite : Ordering → Ordering
opposite lt = gt
opposite eq = eq
opposite gt = lt

pub record Ordered {ℓ} (Key : Type ℓ) : Type ℓ where
  pub cmp : Key → Key → Ordering
  pub cmp_self : (x : Key) → cmp x x ≡ eq
  pub cmp_swap : (x y : Key) → cmp y x ≡ opposite (cmp x y)
  pub same_of_cmp : (x y : Key) → cmp x y ≡ eq → x ≡ y
  pub chain : (x y z : Key) → cmp x y ≡ lt → cmp y z ≡ lt → cmp x z ≡ lt

infix 50 ◌≺◌
abbrev pub ◌≺◌ {ℓ} : {Key : Type ℓ} ⦃o : Ordered Key⦄ → Key → Key → Type 0
◌≺◌ ⦃o⦄ x y = o.cmp x y ≡ lt

module _ {ℓ} {Key : Type ℓ} ⦃o : Ordered Key⦄ where
  pub lt_of_gt : (x y : Key) → o.cmp x y ≡ gt → y ≺ x
  lt_of_gt x y h = rw (o.cmp_swap x y, h)

  pub gt_of_lt : (x y : Key) → x ≺ y → o.cmp y x ≡ gt
  gt_of_lt x y h = rw (o.cmp_swap x y, h)

  -- How a key compares with the keys below or above the one that it was compared with.
  pub beyond_eq : (q k x : Key) → o.cmp q k ≡ eq → x ≺ k → o.cmp q x ≡ gt
  beyond_eq q k x h b = rw (o.same_of_cmp q k h) (gt_of_lt x k b)

  pub beyond_gt : (q k x : Key) → o.cmp q k ≡ gt → x ≺ k → o.cmp q x ≡ gt
  beyond_gt q k x h b = gt_of_lt x q (o.chain x k q b (lt_of_gt q k h))

  pub before_eq : (q k x : Key) → o.cmp q k ≡ eq → k ≺ x → o.cmp q x ≡ lt
  before_eq q k x h b = rw (o.same_of_cmp q k h) b

  pub before_lt : (q k x : Key) → o.cmp q k ≡ lt → k ≺ x → o.cmp q x ≡ lt
  before_lt q k x h b = o.chain q k x h b

-- The natural numbers as keys.
compare_self : (n : ℕ) → compare n n ≡ eq
compare_self n = ground arith

compare_swap : (n m : ℕ) → compare m n ≡ opposite (compare n m)
compare_swap n m = ground arith

same_of_compare : (n m : ℕ) → compare n m ≡ eq → n ≡ m
same_of_compare n m h = ground arith

compare_chain : (n m p : ℕ) → compare n m ≡ lt → compare m p ≡ lt → compare n p ≡ lt
compare_chain n m p h g = ground arith

instance unfoldable pub nat_ordered : Ordered ℕ
unfolding compare_self compare_swap same_of_compare compare_chain
nat_ordered = record {
  cmp = compare;
  cmp_self = compare_self;
  cmp_swap = compare_swap;
  same_of_cmp = same_of_compare;
  chain = compare_chain;
}

-- Tests of a comparison's sign.
abbrev pub is_lt : Ordering → Bool
is_lt lt = true
is_lt c = false

abbrev pub is_gt : Ordering → Bool
is_gt gt = true
is_gt c = false
