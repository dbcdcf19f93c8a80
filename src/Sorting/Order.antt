-- ===== src/Sorting/Order.antt =====
-- The comparison that dsa/sorting takes, and what a stable sort is.
use Prim.Native.Nat.Ordering.{eq, gt}
use mathlib.Core.List.{Perm, Permᴰ}
use mathlib.Core.Logic.{∥∥₁_elim}
use native.Mathlib.Nat.{ℕ_set}
use mathlib.Core.List.Perm
use learn_go.Prelude.{◌≡◌, ◌≢◌, refl, ap, ◌∙◌, List, [], ◌∷◌, ◌++◌, arith, suc, length, Ordering}
use learn_go.Prelude.Ordered.{opposite}

-- A total preorder, as slices.SortFunc asks of its compare function.
pub record Comparison {ℓ} (A : Type ℓ) : Type ℓ where
  pub compare : A → A → Ordering
  pub swap : (x y : A) → compare y x ≡ opposite (compare x y)
  pub chain : (x y z : A) → compare x y ≢ gt → compare y z ≢ gt → compare x z ≢ gt

module _ {ℓ} {A : Type ℓ} where
  abbrev pub AllOf : (A → Type 0) → List A → Type 0
  AllOf P [] = Unit
  AllOf P (x ∷ s) = P x × AllOf P s

  pub AllOf-imp : {P Q : A → Type 0} → ((x : A) → P x → Q x) → (s : List A) → AllOf P s → AllOf Q s
  AllOf-imp f [] h = tt
  AllOf-imp f (x ∷ s) h = (f x h.0, AllOf-imp f s h.1)

  pub AllOf-append : (P : A → Type 0) (s t : List A) → AllOf P s → AllOf P t → AllOf P (s ++ t)
  AllOf-append P [] t h g = g
  AllOf-append P (x ∷ s) t h g = (h.0, AllOf-append P s t h.1 g)

module _ {ℓ} {A : Type ℓ} where
  steps-length : {s t : List A} → Permᴰ s t → length s ≡ length t
  steps-length Permᴰ.nil = refl
  steps-length (Permᴰ.swap x y) = refl
  steps-length (Permᴰ.trans p q) = steps-length p ∙ steps-length q
  steps-length (Permᴰ.cons x p) = ap suc (steps-length p)

  pub length-perm : {s t : List A} → Perm s t → length s ≡ length t
  length-perm {s = s} {t = t} p = ∥∥₁_elim p (ℕ_set (length s) (length t)) steps-length

module _ {ℓ} {A : Type ℓ} ⦃o : Comparison A⦄ where
  infix 50 ◌≼◌
  abbrev pub ◌≼◌ : A → A → Type 0
  x ≼ y = o.compare x y ≢ gt

  abbrev pub IsAscending : List A → Type 0
  IsAscending [] = Unit
  IsAscending (x ∷ s) = AllOf (λ y. x ≼ y) s × IsAscending s

  -- The elements that are equivalent to `e`, in their order.
  abbrev pub class : A → List A → List A
  class e [] = []
  class e (x ∷ s) = let rest = class e s in elim (o.compare x e) [ eq ↦ x ∷ rest | _ ↦ rest ]

  pub class-append : (e : A) (s t : List A) → class e (s ++ t) ≡ class e s ++ class e t
  class-append e [] t = refl
  class-append e (x ∷ s) t = ground (arith, class-append e s t)

  -- Two elements in one class are not in descending order.
  pub same_class : (x y e : A) → o.compare x e ≡ eq → o.compare y e ≡ eq → x ≼ y
  same_class x y e h g =
      let back : o.compare e y ≡ eq = rw (o.swap y e, g) refl in o.chain x e y (λ f. cc) (λ f. cc)

  pub ≼_of_gt : (x y : A) → o.compare x y ≡ gt → y ≼ x
  ≼_of_gt x y h g = let back = o.swap x y in ground arith

  -- A permutation that keeps the order of equivalent elements.
  pub record IsRearranged (t s : List A) : Type ℓ where
    pub perm : Perm t s
    pub stable : (e : A) → class e t ≡ class e s

  pub IsRearranged-refl : (s : List A) → IsRearranged s s
  IsRearranged-refl s = record { perm = Perm.refl s; stable = λ e. refl }

  pub IsRearranged-trans : {s t u : List A} → IsRearranged s t → IsRearranged t u → IsRearranged s u
  IsRearranged-trans h g = record {
    perm = Perm.trans h.perm g.perm;
    stable = λ e. h.stable e ∙ g.stable e;
  }

  pub IsRearranged-append :
      {s t u v : List A} → IsRearranged s t → IsRearranged u v → IsRearranged (s ++ u) (t ++ v)
  IsRearranged-append {s = s} {t = t} {u = u} {v = v} h g = record {
    perm = Perm.append h.perm g.perm;
    stable = λ e. rw (class-append e s u, class-append e t v, h.stable e, g.stable e) refl;
  }

  -- Two elements in descending order may change places.
  pub IsRearranged-swap : (x c : A) → o.compare x c ≡ gt → IsRearranged (c ∷ x ∷ []) (x ∷ c ∷ [])
  IsRearranged-swap x c h = record {
    perm = Perm.swap x c [];
    stable = λ e.
        ground (arith, λ (f : o.compare x e ≡ eq) (g : o.compare c e ≡ eq). same_class x c e f g h);
  }

  -- What a stable sort makes of `s`.
  pub record IsStableSort (s t : List A) : Type ℓ where
    pub ascending : IsAscending t
    pub rearranged : IsRearranged t s

  pub IsAscending-append :
      (s t : List A)
      → IsAscending s
      → IsAscending t
      → AllOf (λ x. AllOf (λ y. x ≼ y) t) s
      → IsAscending (s ++ t)
  IsAscending-append [] t h g k = g
  IsAscending-append (x ∷ s) t h g k =
      (AllOf-append (λ y. x ≼ y) s t h.0 k.0, IsAscending-append s t h.1 g k.1)
