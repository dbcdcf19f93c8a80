-- ===== src/Prelude/Index.antt =====
-- Elements by their index: in a sublist, in a concatenation, and out of range.
use learn_go.Prelude.{
  ℕ, zero, suc, ◌+◌, ◌-◌, ◌≤◌, ◌<◌, ◌≡◌, refl, ap, ◌∙◌, none, some, List, [], ◌∷◌, ◌++◌, length,
  length-append, get_elem?, take, drop, arith,
}

module _ {ℓ} {A : Type ℓ} where
  pub get_elem?-drop : (n : ℕ) (s : List A) (i : ℕ) → get_elem? (drop n s) i ≡ get_elem? s (n + i)
  get_elem?-drop zero s i = ap (get_elem? s) (omega arith)
  get_elem?-drop (suc n) [] i = refl
  get_elem?-drop (suc n) (x ∷ s) i =
      let same : suc n + i ≡ suc (n + i) = omega arith in rw same (get_elem?-drop n s i)

  pub get_elem?-take : (n : ℕ) (s : List A) (i : ℕ) → i < n → get_elem? (take n s) i ≡ get_elem? s i
  get_elem?-take zero s i h = absurd (omega arith)
  get_elem?-take (suc n) [] i h = refl
  get_elem?-take (suc n) (x ∷ s) zero h = refl
  get_elem?-take (suc n) (x ∷ s) (suc i) h = get_elem?-take n s i (omega arith)

  pub get_elem?-none : (s : List A) (i : ℕ) → length s ≤ i → get_elem? s i ≡ none
  get_elem?-none [] i h = refl
  get_elem?-none (x ∷ s) zero h = absurd (omega arith)
  get_elem?-none (x ∷ s) (suc i) h = get_elem?-none s i (omega arith)

  pub get_elem?-append_left :
      (xs ys : List A) (i : ℕ) → i < length xs → get_elem? (xs ++ ys) i ≡ get_elem? xs i
  get_elem?-append_left [] ys i h = absurd (omega arith)
  get_elem?-append_left (x ∷ xs) ys zero h = refl
  get_elem?-append_left (x ∷ xs) ys (suc i) h = get_elem?-append_left xs ys i (omega arith)

  pub get_elem?-append_end :
      (xs : List A) (v : A) (i : ℕ) → i ≡ length xs → get_elem? (xs ++ v ∷ []) i ≡ some v
  get_elem?-append_end [] v i h = rw h refl
  get_elem?-append_end (x ∷ xs) v zero h = absurd (omega arith)
  get_elem?-append_end (x ∷ xs) v (suc i) h = get_elem?-append_end xs v i (omega arith)

  pub get_elem?-append_right :
      (xs ys : List A) (i : ℕ)
      → length xs ≤ i
      → get_elem? (xs ++ ys) i ≡ get_elem? ys (i - length xs)
  get_elem?-append_right [] ys i h = ap (get_elem? ys) (omega arith)
  get_elem?-append_right (x ∷ xs) ys zero h = absurd (omega arith)
  get_elem?-append_right (x ∷ xs) ys (suc i) h =
      get_elem?-append_right xs ys i (omega arith) ∙ ap (get_elem? ys) (omega arith)

  pub drop_next :
      (xs : List A) (i : ℕ)
      → i < length xs
      → (v : A) × (get_elem? xs i ≡ some v) × (drop i xs ≡ v ∷ drop (suc i) xs)
  drop_next [] i h = absurd (omega arith)
  drop_next (x ∷ xs) zero h = (x, refl, refl)
  drop_next (x ∷ xs) (suc i) h = drop_next xs i (omega arith)

  pub drop_all : (xs : List A) (i : ℕ) → length xs ≤ i → drop i xs ≡ []
  drop_all [] zero h = refl
  drop_all (x ∷ xs) zero h = absurd (omega arith)
  drop_all [] (suc i) h = refl
  drop_all (x ∷ xs) (suc i) h = drop_all xs i (omega arith)

  -- The slice whose last element is the head of the list.
  abbrev pub upward : List A → List A
  upward [] = []
  upward (x ∷ xs) = upward xs ++ x ∷ []

  pub length-upward : (xs : List A) → length (upward xs) ≡ length xs
  length-upward [] = refl
  length-upward (x ∷ xs) = omega (arith, length-upward xs, length-append (upward xs) (x ∷ []))
