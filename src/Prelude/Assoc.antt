-- ===== src/Prelude/Assoc.antt =====
-- Sorted association lists: what the search trees promise. `put`, `get` and `remove` are the
-- operations of a map, and the lemmas say how they fall on a list that a key splits.
use Prim.Native.Nat.Ordering.{lt, eq, gt}
use learn_go.Prelude.{◌≡◌, refl, ap, Option, none, some, List, [], ◌∷◌, ◌++◌, arith}
use learn_go.Prelude.Ordered.{Ordered, ◌≺◌, beyond_eq, beyond_gt, before_lt}

module _ {ℓ κ} {K : Type ℓ} {V : Type κ} where
  abbrev pub All : (K → Type 0) → List (K × V) → Type 0
  All P [] = Unit
  All P ((k, v) ∷ xs) = P k × All P xs

  pub All-imp :
      {P Q : K → Type 0} → ((k : K) → P k → Q k) → (xs : List (K × V)) → All P xs → All Q xs
  All-imp f [] h = tt
  All-imp f ((k, v) ∷ xs) h = (f k h.0, All-imp f xs h.1)

  pub All-append : (P : K → Type 0) (xs ys : List (K × V)) → All P xs → All P ys → All P (xs ++ ys)
  All-append P [] ys h g = g
  All-append P ((k, v) ∷ xs) ys h g = (h.0, All-append P xs ys h.1 g)

  pub All_split : (P : K → Type 0) (xs ys : List (K × V)) → All P (xs ++ ys) → All P xs × All P ys
  All_split P [] ys h = (tt, h)
  All_split P ((k, v) ∷ xs) ys h = let (a, b) = All_split P xs ys h.1 in ((h.0, a), b)

module _ {ℓ κ} {K : Type ℓ} {V : Type κ} ⦃o : Ordered K⦄ where
  abbrev pub put : K → V → List (K × V) → List (K × V)
  put q w [] = (q, w) ∷ []
  put q w ((k, v) ∷ xs) = elim (o.cmp q k) [
    | lt ↦ (q, w) ∷ (k, v) ∷ xs
    | eq ↦ (k, w) ∷ xs
    | gt ↦ (k, v) ∷ put q w xs
  ]

  abbrev pub get : List (K × V) → K → Option V
  get [] q = none
  get ((k, v) ∷ xs) q = elim (o.cmp q k) [ eq ↦ some v | _ ↦ get xs q ]

  abbrev pub remove : K → List (K × V) → List (K × V)
  remove q [] = []
  remove q ((k, v) ∷ xs) = elim (o.cmp q k) [ eq ↦ xs | _ ↦ (k, v) ∷ remove q xs ]

  abbrev pub IsSorted : List (K × V) → Type 0
  IsSorted [] = Unit
  IsSorted ((k, v) ∷ xs) = All (λ x. k ≺ x) xs × IsSorted xs

  -- A key in a sorted list splits it into the smaller keys and the larger ones.
  pub record IsSplit (xs : List (K × V)) (k : K) (ys : List (K × V)) : Type 0 where
    pub below : All (λ x. x ≺ k) xs
    pub above : All (λ x. k ≺ x) ys
    pub left : IsSorted xs
    pub right : IsSorted ys

  pub IsSorted-IsSplit :
      (xs : List (K × V)) (k : K) (v : V) (ys : List (K × V))
      → IsSorted (xs ++ (k, v) ∷ ys)
      → IsSplit xs k ys
  IsSorted-IsSplit [] k v ys h = record { below = tt; above = h.0; left = tt; right = h.1 }
  IsSorted-IsSplit ((x, w) ∷ xs) k v ys h =
      let s = IsSorted-IsSplit xs k v ys h.1 in
      let (front, back) = All_split (λ y. x ≺ y) xs ((k, v) ∷ ys) h.0 in
      record { below = (back.0, s.below); above = s.above; left = (front, s.left); right = s.right }

  pub IsSplit-IsSorted :
      (xs : List (K × V)) (k : K) (v : V) (ys : List (K × V))
      → IsSplit xs k ys
      → IsSorted (xs ++ (k, v) ∷ ys)
  IsSplit-IsSorted [] k v ys s = (s.above, s.right)
  IsSplit-IsSorted ((x, w) ∷ xs) k v ys s =
      let rest : IsSplit xs k ys = record {
        below = s.below.1;
        above = s.above;
        left = s.left.1;
        right = s.right;
      } in
      (
        All-append (λ y. x ≺ y) xs ((k, v) ∷ ys) s.left.0
            (s.below.0, All-imp (λ y. o.chain x k y s.below.0) ys s.above),
        IsSplit-IsSorted xs k v ys rest,
      )

  pub get_above : (q : K) (xs : List (K × V)) → All (λ x. q ≺ x) xs → get xs q ≡ none
  get_above q [] h = refl
  get_above q ((x, u) ∷ xs) h = rw (h.0, get) (get_above q xs h.1)

  remove_above : (q : K) (xs : List (K × V)) → All (λ x. q ≺ x) xs → remove q xs ≡ xs
  remove_above q [] h = refl
  remove_above q ((x, u) ∷ xs) h = rw (h.0, remove) (ap (◌∷◌ (x, u)) (remove_above q xs h.1))

  module _ (q : K) (k : K) (v : V) (ys : List (K × V)) where
    pub put_left :
        (w : V) (xs : List (K × V))
        → o.cmp q k ≡ lt
        → put q w (xs ++ (k, v) ∷ ys) ≡ put q w xs ++ (k, v) ∷ ys
    put_left w [] h = rw h
    put_left w ((x, u) ∷ xs) h = ground (arith, put_left w xs h)

    pub put_mid :
        (w : V) (xs : List (K × V))
        → o.cmp q k ≡ eq
        → All (λ x. x ≺ k) xs
        → put q w (xs ++ (k, v) ∷ ys) ≡ xs ++ (k, w) ∷ ys
    put_mid w [] h b = rw h
    put_mid w ((x, u) ∷ xs) h b = rw (beyond_eq q k x h b.0) (ap (◌∷◌ (x, u)) (put_mid w xs h b.1))

    pub put_right :
        (w : V) (xs : List (K × V))
        → o.cmp q k ≡ gt
        → All (λ x. x ≺ k) xs
        → put q w (xs ++ (k, v) ∷ ys) ≡ xs ++ (k, v) ∷ put q w ys
    put_right w [] h b = rw h
    put_right w ((x, u) ∷ xs) h b =
        rw (beyond_gt q k x h b.0) (ap (◌∷◌ (x, u)) (put_right w xs h b.1))

    pub get_left :
        (xs : List (K × V))
        → o.cmp q k ≡ lt
        → All (λ x. k ≺ x) ys
        → get (xs ++ (k, v) ∷ ys) q ≡ get xs q
    get_left [] h a = rw h (get_above q ys (All-imp (λ x. before_lt q k x h) ys a))
    get_left ((x, u) ∷ xs) h a = ground (arith, get_left xs h a)

    pub get_mid :
        (xs : List (K × V))
        → o.cmp q k ≡ eq
        → All (λ x. x ≺ k) xs
        → get (xs ++ (k, v) ∷ ys) q ≡ some v
    get_mid [] h b = rw h
    get_mid ((x, u) ∷ xs) h b = rw (beyond_eq q k x h b.0) (get_mid xs h b.1)

    pub get_right :
        (xs : List (K × V))
        → o.cmp q k ≡ gt
        → All (λ x. x ≺ k) xs
        → get (xs ++ (k, v) ∷ ys) q ≡ get ys q
    get_right [] h b = rw h
    get_right ((x, u) ∷ xs) h b = rw (beyond_gt q k x h b.0) (get_right xs h b.1)

    pub remove_left :
        (xs : List (K × V))
        → o.cmp q k ≡ lt
        → All (λ x. k ≺ x) ys
        → remove q (xs ++ (k, v) ∷ ys) ≡ remove q xs ++ (k, v) ∷ ys
    remove_left [] h a =
        rw h (ap (◌∷◌ (k, v)) (remove_above q ys (All-imp (λ x. before_lt q k x h) ys a)))
    remove_left ((x, u) ∷ xs) h a = ground (arith, remove_left xs h a)

    pub remove_mid :
        (xs : List (K × V))
        → o.cmp q k ≡ eq
        → All (λ x. x ≺ k) xs
        → remove q (xs ++ (k, v) ∷ ys) ≡ xs ++ ys
    remove_mid [] h b = rw h
    remove_mid ((x, u) ∷ xs) h b =
        rw (beyond_eq q k x h b.0) (ap (◌∷◌ (x, u)) (remove_mid xs h b.1))

    pub remove_right :
        (xs : List (K × V))
        → o.cmp q k ≡ gt
        → All (λ x. x ≺ k) xs
        → remove q (xs ++ (k, v) ∷ ys) ≡ xs ++ (k, v) ∷ remove q ys
    remove_right [] h b = rw h
    remove_right ((x, u) ∷ xs) h b =
        rw (beyond_gt q k x h b.0) (ap (◌∷◌ (x, u)) (remove_right xs h b.1))
