-- ===== src/Searching/Rank.antt =====
-- The searches of dsa/searching/searching.go against a scan from the front: the index at which a
-- test first holds.
use learn_go.Prelude.{
  ℕ, zero, suc, ◌-◌, ◌<◌, ◌≡◌, ◌≢◌, ◌⊎◌, inl, inr, refl, ap, ◌∙◌, Bool, true, false, some, List, [],
  ◌∷◌, length, arith, if◌then◌else◌, Bool-cases,
}
use learn_go.Searching.{at_index, partition}
use learn_go.Searching.Partition.{partition-IsEdge, IsEdge}

earlier : (f : ℕ → Bool) (r : ℕ) → (suc r ≡ 0) ⊎ (f (suc r - 1) ≡ false) → f r ≡ false
earlier f r (inl h) = absurd (omega arith)
earlier f r (inr h) = let same : suc r - 1 ≡ r = omega arith in rw same at h

later : (f : ℕ → Bool) (n r : ℕ) → (suc r ≡ suc n) ⊎ (f r ≡ true) → (r ≡ n) ⊎ (f r ≡ true)
later f n r (inl h) = inl (omega arith)
later f n r (inr h) = inr h

module _ {ℓ} {A : Type ℓ} where
  abbrev pub rank : (A → Bool) → List A → ℕ
  rank p [] = 0
  rank p (x ∷ s) = let rest = rank p s in if p x then 0 else suc rest

  abbrev pub AllOf : (A → Type 0) → List A → Type 0
  AllOf P [] = Unit
  AllOf P (x ∷ s) = P x × AllOf P s

  -- Once the test holds along the list, it holds for the rest of it.
  abbrev pub IsCut : (A → Bool) → List A → Type 0
  IsCut p [] = Unit
  IsCut p (x ∷ s) = (p x ≡ true → AllOf (λ y. p y ≡ true) s) × IsCut p s

  -- The answer of a test at an index, made total.
  abbrev pub answer : (A → Bool) → List A → ℕ → Bool
  answer p [] i = false
  answer p (x ∷ s) zero = p x
  answer p (x ∷ s) (suc i) = answer p s i

  pub at_index-answer :
      (p : A → Bool) (s : List A) (i : ℕ) → i < length s → at_index s p i ≡ some (answer p s i)
  at_index-answer p [] i h = absurd (omega arith)
  at_index-answer p (x ∷ s) zero h = refl
  at_index-answer p (x ∷ s) (suc i) h = at_index-answer p s i (omega arith)

  answer-all :
      (p : A → Bool) (s : List A) (i : ℕ)
      → i < length s
      → AllOf (λ y. p y ≡ true) s
      → answer p s i ≡ true
  answer-all p [] i h a = absurd (omega arith)
  answer-all p (x ∷ s) zero h a = a.0
  answer-all p (x ∷ s) (suc i) h a = answer-all p s i (omega arith) a.1

  pub answer-not_all :
      (p : A → Bool) (s : List A) (i : ℕ)
      → i < length s
      → AllOf (λ y. p y ≡ true) s
      → answer p s i ≢ false
  answer-not_all p s i h a e = let yes = answer-all p s i h a in cc

  -- The edge of a cut is where the scan stops.
  edge-rank :
      (p : A → Bool) (s : List A) (r : ℕ)
      → IsCut p s
      → IsEdge (answer p s) (length s) r
      → r ≡ rank p s
  edge-rank p [] r c e = omega (arith, e.within)
  edge-rank p (x ∷ s) zero c e = elim e.after [ inl h ↦ absurd (omega arith) | inr h ↦ rw h ]
  edge-rank p (x ∷ s) (suc zero) c e = elim e.before [
    | inl h ↦ absurd (omega arith)
    | inr h ↦ rw h (
        ap suc (
          edge-rank p s zero c.1 record {
            within = omega arith;
            before = inl refl;
            after = later (answer p s) (length s) 0 e.after;
          }))
  ]
  edge-rank p (x ∷ s) (suc (suc r)) c e = elim (Bool-cases (p x)) [
    | inl h ↦ absurd (
        answer-not_all p s r (omega (arith, e.within)) (c.0 h)
          (earlier (answer p (x ∷ s)) (suc r) e.before))
    | inr h ↦ rw h (
        ap suc (
          edge-rank p s (suc r) c.1 record {
            within = omega (arith, e.within);
            before = inr (
                let same : suc r - 1 ≡ r = omega arith in
                rw same (earlier (answer p (x ∷ s)) (suc r) e.before));
            after = later (answer p s) (length s) (suc r) e.after;
          }))
  ]

  pub partition-rank :
      (p : A → Bool) (s : List A)
      → IsCut p s
      → partition (length s) (at_index s p) ≡ some (rank p s)
  partition-rank p s c =
      let (r, done, edge) =
        partition-IsEdge (length s) (at_index s p) (answer p s) (at_index-answer p s) in
      done ∙ ap some (edge-rank p s r c edge)

  pub rank-all : (p : A → Bool) (s : List A) → AllOf (λ y. p y ≡ true) s → rank p s ≡ 0
  rank-all p [] h = refl
  rank-all p (x ∷ s) h = rw (h.0) refl
