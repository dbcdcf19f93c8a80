-- ===== src/Prelude/Dict.antt =====
-- Go's maps over a comparable key type, as association lists.
use mathlib.Core.Bool.{false}
use mathlib.Core.List.{List, [], ◌∷◌}
use mathlib.Core.Option.{Option, none, some}
use mathlib.Core.Path.{◌≡◌, ◌∙◌, sym, refl}
use native.Mathlib.Omega.{arith}
use Prim.Native.Nat.{ℕ, ◌+◌, ◌≤◌}
use learn_go.Prelude.{if◌then◌else◌, Bool-cases, ◌⊎◌, inl, inr, ◌≢◌}
use learn_go.Prelude.Comparable.{Comparable}

module _ {ℓ} {K : Type ℓ} ⦃c : Comparable K⦄ where
  pub same_no : (x y : K) → x ≢ y → c.same x y ≡ false
  same_no x y h = elim (Bool-cases (c.same x y)) [
    | inl alike ↦ absurd (h (c.eq_of_same x y alike))
    | inr apart ↦ apart
  ]

  pub ne_of_same : (x y : K) → c.same x y ≡ false → x ≢ y
  ne_of_same x y h e = let alike = c.same_self y in cc (rw e at h, alike)

module _ {ℓ κ} {K : Type ℓ} {V : Type κ} ⦃c : Comparable K⦄ where
  abbrev pub get : List (K × V) → K → Option V
  get [] q = none
  get ((k, v) ∷ d) q = let rest = get d q in if c.same q k then some v else rest

  abbrev pub put : K → V → List (K × V) → List (K × V)
  put q w [] = (q, w) ∷ []
  put q w ((k, v) ∷ d) = let rest = put q w d in if c.same q k then (k, w) ∷ d else (k, v) ∷ rest

  pub get-put_self : (q : K) (w : V) (d : List (K × V)) → get (put q w d) q ≡ some w
  get-put_self q w [] = rw (c.same_self q) refl
  get-put_self q w ((k, v) ∷ d) = elim (Bool-cases (c.same q k)) [
    | inl alike ↦ rw (alike, alike) refl
    | inr apart ↦ rw (apart, apart) (get-put_self q w d)
  ]

  pub get-put_other : (q p : K) (w : V) (d : List (K × V)) → p ≢ q → get (put q w d) p ≡ get d p
  get-put_other q p w [] h = rw (same_no p q h) refl
  get-put_other q p w ((k, v) ∷ d) h = elim (Bool-cases (c.same q k)) [
    | inl alike ↦
        let key = c.eq_of_same q k alike in
        let no_hit : c.same p k ≡ false = rw (sym key) (same_no p q h) in rw (alike, no_hit) refl
    | inr apart ↦ rw (apart, get-put_other q p w d h) refl
  ]

module _ {ℓ κ} {K : Type ℓ} {V : Type κ} ⦃c : Comparable K⦄ where
  -- What a map has after a put is the new entry, or an old one.
  pub put_cases :
      (q p : K) (w v : V) (d : List (K × V))
      → get (put q w d) p ≡ some v
      → ((p ≡ q) × (v ≡ w)) ⊎ ((p ≢ q) × (get d p ≡ some v))
  put_cases q p w v d e = elim (Bool-cases (c.same p q)) [
    | inl alike ↦
        let key = c.eq_of_same p q alike in
        let at_q = get-put_self q w d in let found = rw key at e in inl (key, cc (at_q, found))
    | inr apart ↦ let ne = ne_of_same p q apart in inr (ne, sym (get-put_other q p w d ne) ∙ e)
  ]

  -- What a map lacks after a put, it lacked, under another key.
  pub put_lacks :
      (q p : K) (w : V) (d : List (K × V)) → get (put q w d) p ≡ none → (p ≢ q) × (get d p ≡ none)
  put_lacks q p w d e = elim (Bool-cases (c.same p q)) [
    | inl alike ↦
        let key = c.eq_of_same p q alike in
        let at_q = get-put_self q w d in let found = rw key at e in cc (at_q, found)
    | inr apart ↦ let ne = ne_of_same p q apart in (ne, sym (get-put_other q p w d ne) ∙ e)
  ]

module _ {ℓ} {K : Type ℓ} ⦃c : Comparable K⦄ where
  abbrev pub total : List (K × ℕ) → ℕ
  total [] = 0
  total ((k, n) ∷ d) = n + total d

  pub total_bound : (d : List (K × ℕ)) (q : K) (n : ℕ) → get d q ≡ some n → n ≤ total d
  total_bound [] q n h = cc h
  total_bound ((k, m) ∷ d) q n h = elim (Bool-cases (c.same q k)) [
    | inl alike ↦
        let here : some m ≡ some n = rw alike at h in let e : m ≡ n = cc here in omega arith
    | inr apart ↦ let rest = total_bound d q n (rw apart at h) in omega arith
  ]
