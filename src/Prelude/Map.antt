-- ===== src/Prelude/Map.antt =====
-- The laws of the sorted association lists as maps, and that they stay sorted.
use Prim.Native.Nat.Ordering.{lt, eq}
use learn_go.Prelude.{ℕ, ◌+◌, ◌≡◌, refl, Option, none, some, List, [], ◌∷◌, arith, length}
use learn_go.Prelude.Ordered.{Ordered, ◌≺◌, before_lt, lt_of_gt}
use learn_go.Prelude.Assoc.{All, All-imp, put, get, remove, IsSorted, get_above}

-- 1 for a hit and 0 for a miss.
abbrev pub found {ℓ} : {V : Type ℓ} → Option V → ℕ
found none = 0
found (some v) = 1

module _ {ℓ κ} {K : Type ℓ} {V : Type κ} ⦃o : Ordered K⦄ where
  All-put :
      (P : K → Type 0) (q : K) (w : V) (xs : List (K × V)) → P q → All P xs → All P (put q w xs)
  All-put P q w [] p h = (p, tt)
  All-put P q w ((k, v) ∷ xs) p h = ground (arith, All-put P q w xs p h.1)

  All-remove : (P : K → Type 0) (q : K) (xs : List (K × V)) → All P xs → All P (remove q xs)
  All-remove P q [] h = tt
  All-remove P q ((k, v) ∷ xs) h = ground (arith, All-remove P q xs h.1)

  pub put-IsSorted : (q : K) (w : V) (xs : List (K × V)) → IsSorted xs → IsSorted (put q w xs)
  put-IsSorted q w [] h = (tt, tt)
  put-IsSorted q w ((k, v) ∷ xs) h = ground (
    arith,
    put-IsSorted q w xs h.1,
    All-put (λ x. k ≺ x) q w xs,
    lt_of_gt q k,
    λ (e : o.cmp q k ≡ lt). All-imp (λ x. before_lt q k x e) xs h.0,
  )

  pub remove-IsSorted : (q : K) (xs : List (K × V)) → IsSorted xs → IsSorted (remove q xs)
  remove-IsSorted q [] h = tt
  remove-IsSorted q ((k, v) ∷ xs) h =
      ground (arith, remove-IsSorted q xs h.1, All-remove (λ x. k ≺ x) q xs h.0)

  pub get-put :
      (q p : K) (w : V) (xs : List (K × V))
      → get (put q w xs) p ≡ elim (o.cmp p q) [ eq ↦ some w | _ ↦ get xs p ]
  get-put q p w [] = refl
  get-put q p w ((k, v) ∷ xs) = ground (
    arith,
    get-put q p w xs,
    o.same_of_cmp q k,
    o.same_of_cmp p k,
    o.same_of_cmp p q,
    o.cmp_self p,
  )

  pub get-remove :
      (q p : K) (xs : List (K × V))
      → IsSorted xs
      → get (remove q xs) p ≡ elim (o.cmp p q) [ eq ↦ none | _ ↦ get xs p ]
  get-remove q p [] h = ground arith
  get-remove q p ((k, v) ∷ xs) h = ground (
    arith,
    get-remove q p xs h.1,
    o.same_of_cmp q k,
    o.same_of_cmp p k,
    o.same_of_cmp p q,
    o.cmp_self p,
    get_above k xs h.0,
  )

  pub length-put :
      (q : K) (w : V) (xs : List (K × V))
      → IsSorted xs
      → length (put q w xs) + found (get xs q) ≡ length xs + 1
  length-put q w [] h = refl
  length-put q w ((k, v) ∷ xs) h = ground (
    arith,
    length-put q w xs h.1,
    λ (e : o.cmp q k ≡ lt). get_above q xs (All-imp (λ x. before_lt q k x e) xs h.0),
  )

  pub length-remove :
      (q : K) (xs : List (K × V)) → length (remove q xs) + found (get xs q) ≡ length xs
  length-remove q [] = refl
  length-remove q ((k, v) ∷ xs) = ground (arith, length-remove q xs)

  -- Nothing changes where the key is absent.
  pub remove_absent : (q : K) (xs : List (K × V)) → get xs q ≡ none → remove q xs ≡ xs
  remove_absent q [] h = refl
  remove_absent q ((k, v) ∷ xs) h = ground (arith, remove_absent q xs)
