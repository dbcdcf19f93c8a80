-- ===== src/Prelude/Copy.antt =====
-- Writes to a slice: one element, and Go's copy.
use learn_go.Prelude.{
  append-nil, take-append-drop, ℕ, zero, suc, ◌+◌, ◌-◌, ◌≤◌, ◌<◌, ◌≡◌, refl, ap, ◌∙◌, min, Option,
  none, some, List, [], ◌∷◌, ◌++◌, length, length-append, length-take, length-drop, get_elem?, set,
  take, drop, arith, ltb, lt→ltb, if◌then◌else◌,
}
use learn_go.Prelude.Index.{drop_all, get_elem?-append_left, get_elem?-append_right, get_elem?-take}

module _ {ℓ} {A : Type ℓ} where
  -- `s[i] = v`
  abbrev pub store : List A → ℕ → A → Option (List A)
  store s i v = if ltb i (length s) then some (set s i v) else none

  -- `copy(dst[at:], src)`, for an offset within `dst`: the new `dst`.
  abbrev pub copy : List A → ℕ → List A → List A
  copy dst at src =
      let n = min (length dst - at) (length src) in take at dst ++ (take n src ++ drop (at + n) dst)

  pub length-copy :
      (dst : List A) (at : ℕ) (src : List A)
      → at + length src ≤ length dst
      → length (copy dst at src) ≡ length dst
  length-copy dst at src h =
      let n = min (length dst - at) (length src) in
      omega (
        arith,
        length-append (take at dst) (take n src ++ drop (at + n) dst),
        length-append (take n src) (drop (at + n) dst),
        length-take at dst,
        length-take n src,
        length-drop (at + n) dst,
      )

  pub copy_before :
      (dst : List A) (at : ℕ) (src : List A) (i : ℕ)
      → at ≤ length dst
      → i < at
      → get_elem? (copy dst at src) i ≡ get_elem? dst i
  copy_before dst at src i h k =
      get_elem?-append_left (take at dst) _ i (omega (arith, length-take at dst))
      ∙ get_elem?-take at dst i k

  pub copy_inside :
      (dst : List A) (at : ℕ) (src : List A) (i : ℕ)
      → at + length src ≤ length dst
      → at ≤ i
      → i < at + length src
      → get_elem? (copy dst at src) i ≡ get_elem? src (i - at)
  copy_inside dst at src i h k m =
      let n = min (length dst - at) (length src) in
      let front : length (take at dst) ≡ at = omega (arith, length-take at dst) in
      get_elem?-append_right (take at dst) (take n src ++ drop (at + n) dst) i (omega arith)
      ∙ (ap (get_elem? (take n src ++ drop (at + n) dst)) (omega arith)
          ∙ (get_elem?-append_left (take n src) (drop (at + n) dst) (i - at)
                (omega (arith, length-take n src))
              ∙ get_elem?-take n src (i - at) (omega arith)))

  pub get_elem?-middle :
      (s : List A) (x : A) (t : List A) (i : ℕ) → i ≡ length s → get_elem? (s ++ x ∷ t) i ≡ some x
  get_elem?-middle [] x t zero h = refl
  get_elem?-middle [] x t (suc i) h = absurd (omega arith)
  get_elem?-middle (y ∷ s) x t zero h = absurd (omega arith)
  get_elem?-middle (y ∷ s) x t (suc i) h = get_elem?-middle s x t i (omega arith)

  pub set-middle :
      (s : List A) (x v : A) (t : List A) (i : ℕ) → i ≡ length s → set (s ++ x ∷ t) i v ≡ s ++ v ∷ t
  set-middle [] x v t zero h = refl
  set-middle [] x v t (suc i) h = absurd (omega arith)
  set-middle (y ∷ s) x v t zero h = absurd (omega arith)
  set-middle (y ∷ s) x v t (suc i) h = ap (◌∷◌ y) (set-middle s x v t i (omega arith))

  pub store-middle :
      (s : List A) (x v : A) (t : List A) (i : ℕ)
      → i ≡ length s
      → store (s ++ x ∷ t) i v ≡ some (s ++ v ∷ t)
  store-middle s x v t i h =
      rw (lt→ltb i (length (s ++ x ∷ t)) (omega (arith, length-append s (x ∷ t))))
        (ap some (set-middle s x v t i h))

  pub take_all : (s : List A) (n : ℕ) → length s ≤ n → take n s ≡ s
  take_all [] zero h = refl
  take_all [] (suc n) h = refl
  take_all (x ∷ s) zero h = absurd (omega arith)
  take_all (x ∷ s) (suc n) h = ap (◌∷◌ x) (take_all s n (omega arith))

  pub copy_none : (dst : List A) (at : ℕ) → copy dst at [] ≡ dst
  copy_none dst at =
      let n : min (length dst - at) 0 ≡ 0 = omega arith in
      let same : at + 0 ≡ at = omega arith in rw (n, same) (take-append-drop at dst)

  -- A copy that fills the rest of the slice.
  pub copy_rest :
      (dst : List A) (at : ℕ) (src : List A)
      → at + length src ≡ length dst
      → copy dst at src ≡ take at dst ++ src
  copy_rest dst at src h =
      let n : min (length dst - at) (length src) ≡ length src = omega arith in
      rw
        (
          n,
          take_all src (length src) (omega arith),
          drop_all dst (at + length src) (omega arith),
          append-nil src,
        )
        refl

  pub take-set :
      (s : List A) (i : ℕ) (v : A) → i < length s → take (suc i) (set s i v) ≡ take i s ++ v ∷ []
  take-set [] i v h = absurd (omega arith)
  take-set (x ∷ s) zero v h = refl
  take-set (x ∷ s) (suc i) v h = ap (◌∷◌ x) (take-set s i v (omega arith))

  pub take-left : (a b : List A) (n : ℕ) → n ≡ length a → take n (a ++ b) ≡ a
  take-left [] b zero h = refl
  take-left [] b (suc n) h = absurd (omega arith)
  take-left (x ∷ a) b zero h = absurd (omega arith)
  take-left (x ∷ a) b (suc n) h = ap (◌∷◌ x) (take-left a b n (omega arith))

  pub drop-left : (a b : List A) (n : ℕ) → n ≡ length a → drop n (a ++ b) ≡ b
  drop-left [] b zero h = refl
  drop-left [] b (suc n) h = absurd (omega arith)
  drop-left (x ∷ a) b zero h = absurd (omega arith)
  drop-left (x ∷ a) b (suc n) h = drop-left a b n (omega arith)
