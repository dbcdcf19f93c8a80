-- ===== src/Stack/Brackets.antt =====
-- IsBalanced (dsa/stack/balanced.go) and the language of balanced brackets.
use learn_go.Prelude.{
  ℕ, ◌≡◌, ◌↔◌, refl, ap, ◌∙◌, sym, inl, inr, Bool, true, false, Option, none, some, List, [], ◌∷◌,
  ◌++◌, append_assoc, append-nil, length, arith, if◌then◌else◌, ◌==◌, Bool-cases, Option-cases,
}
use learn_go.Stack.{push, pop, is_opener, pairs, balanced_loop, is_balanced}
use learn_go.Prelude.Index.{upward}
use learn_go.Stack.Language.{
  Balanced, done, skip, wrap, pairs-Encloses, Encloses-pairs, other_lem, IsOther-of,
}
use learn_go.Stack.Items.{pop-push, empty-upward}

closer_lem : (c o : ℕ) → pairs c ≡ some o → (is_opener o ≡ true) × (is_opener c ≡ false)
closer_lem c o e = ground arith

-- The steps of the loop, on a stack read from its top down.
at_end : (st : List ℕ) → balanced_loop (upward st) [] ≡ some (length st == 0)
unfolding balanced_loop
at_end st = ap some (empty-upward st)

at_opener :
    (st : List ℕ) (c : ℕ) (s : List ℕ)
    → is_opener c ≡ true
    → balanced_loop (upward st) (c ∷ s) ≡ balanced_loop (upward (c ∷ st)) s
unfolding balanced_loop push
at_opener st c s e = rw (e, if◌then◌else◌) refl

at_other :
    (st : List ℕ) (c : ℕ) (s : List ℕ)
    → is_opener c ≡ false
    → pairs c ≡ none
    → balanced_loop (upward st) (c ∷ s) ≡ balanced_loop (upward st) s
unfolding balanced_loop
at_other st c s e f = rw (e, f) refl

at_closer :
    (st : List ℕ) (o c : ℕ) (s : List ℕ)
    → pairs c ≡ some o
    → balanced_loop (upward (o ∷ st)) (c ∷ s) ≡ balanced_loop (upward st) s
unfolding balanced_loop push
at_closer st o c s e =
    let taken = pop-push (upward st) o in
    let (opens, closes) = closer_lem c o e in
    let same : (o == o) ≡ true = ground arith in rw (closes, e, taken, same) refl

-- Balanced brackets leave the stack as it was.
passes_over :
    (s : List ℕ)
    → Balanced s
    → (st t : List ℕ) → balanced_loop (upward st) (s ++ t) ≡ balanced_loop (upward st) t
passes_over _ done st t = refl
passes_over _ (skip c {s = s} other b) st t =
    let (e, f) = other_lem c other in at_other st c (s ++ t) e f ∙ passes_over s b st t
passes_over _ (wrap o c s u closes b d) st t =
    let e = pairs-Encloses o c closes in
    let (opens, closes) = closer_lem c o e in
    let regrouped : (s ++ c ∷ u) ++ t ≡ s ++ c ∷ (u ++ t) = append_assoc s (c ∷ u) t in
    at_opener st o ((s ++ c ∷ u) ++ t) opens
    ∙ (ap (balanced_loop (upward (o ∷ st))) regrouped
        ∙ (passes_over s b (o ∷ st) (c ∷ (u ++ t))
            ∙ (at_closer st o c (u ++ t) e ∙ passes_over u d st t)))

-- A text that closes the brackets of a stack, from its top down.
ClosesAll : List ℕ → List ℕ → Type 0
ClosesAll [] s = Balanced s
ClosesAll (o ∷ st) s =
    (a : List ℕ) × (c : ℕ) × (b : List ℕ) × (s ≡ a ++ c ∷ b)
    × (pairs c ≡ some o)
    × Balanced a
    × ClosesAll st b

-- A character or a balanced part in front of a text that closes a stack.
skip-ClosesAll :
    (st : List ℕ) (c : ℕ) (s : List ℕ)
    → is_opener c ≡ false
    → pairs c ≡ none
    → ClosesAll st s
    → ClosesAll st (c ∷ s)
unfolding ClosesAll
skip-ClosesAll [] c s e f b = skip c (IsOther-of c e f) b
skip-ClosesAll (o ∷ st) c s e f (a, d, b, same, g, h, k) =
    (c ∷ a, d, b, ap (◌∷◌ c) same, g, skip c (IsOther-of c e f) h, k)

wrap-ClosesAll :
    (st : List ℕ) (o c : ℕ) (s t : List ℕ)
    → pairs c ≡ some o
    → Balanced s
    → ClosesAll st t
    → ClosesAll st (o ∷ s ++ c ∷ t)
unfolding ClosesAll
wrap-ClosesAll [] o c s t e b k = wrap o c s t (Encloses-pairs o c e) b k
wrap-ClosesAll (p ∷ st) o c s t e b (a, d, u, same, g, h, k) = (
  o ∷ s ++ c ∷ a,
  d,
  u,
  ap (λ x. o ∷ s ++ c ∷ x) same ∙ ap (◌∷◌ o) (sym (append_assoc s (c ∷ a) (d ∷ u))),
  g,
  wrap o c s a (Encloses-pairs o c e) b h,
  k,
)

opener-ClosesAll : (st : List ℕ) (c : ℕ) (s : List ℕ) → ClosesAll (c ∷ st) s → ClosesAll st (c ∷ s)
unfolding ClosesAll
opener-ClosesAll st c s (a, d, b, same, g, k, rest) = rw same (wrap-ClosesAll st c d a b g k rest)

not_accepted : {m : Option Bool} → m ≡ some false → m ≡ some true → ⊥
not_accepted e f = cc

at_closer_none :
    (o c : ℕ) (s : List ℕ) → pairs c ≡ some o → balanced_loop (upward []) (c ∷ s) ≡ some false
unfolding balanced_loop pop
at_closer_none o c s e = let (opens, closes) = closer_lem c o e in rw (closes, e) refl

at_closer_wrong :
    (st : List ℕ) (p o c : ℕ) (s : List ℕ)
    → pairs c ≡ some o
    → (p == o) ≡ false
    → balanced_loop (upward (p ∷ st)) (c ∷ s) ≡ some false
unfolding balanced_loop push
at_closer_wrong st p o c s e other =
    let taken = pop-push (upward st) p in
    let (opens, closes) = closer_lem c o e in rw (closes, e, taken, other) refl

closer-ClosesAll :
    (st : List ℕ) (o c : ℕ) (s : List ℕ)
    → pairs c ≡ some o
    → ((rest : List ℕ) → balanced_loop (upward rest) s ≡ some true → ClosesAll rest s)
    → balanced_loop (upward st) (c ∷ s) ≡ some true
    → ClosesAll st (c ∷ s)
unfolding ClosesAll
closer-ClosesAll [] o c s e ih h = absurd (not_accepted (at_closer_none o c s e) h)
closer-ClosesAll (p ∷ st) o c s e ih h = elim (Bool-cases (p == o)) [
  | inl same ↦
      let top : o ≡ p = ground arith in
      let closes : pairs c ≡ some p = e ∙ ap some top in
      ([], c, s, refl, closes, done, ih st (sym (at_closer st p c s closes) ∙ h))
  | inr other ↦ absurd (not_accepted (at_closer_wrong st p o c s e other) h)
]

accepted-ClosesAll : (s st : List ℕ) → balanced_loop (upward st) s ≡ some true → ClosesAll st s
accepted-ClosesAll [] [] h = unfold ClosesAll in done
accepted-ClosesAll [] (o ∷ st) h =
    absurd (not_accepted (at_end (o ∷ st) ∙ ap some (ground arith)) h)
accepted-ClosesAll (c ∷ s) st h = elim (Bool-cases (is_opener c)) [
  | inl opens ↦
      opener-ClosesAll st c s (accepted-ClosesAll s (c ∷ st) (sym (at_opener st c s opens) ∙ h))
  | inr shut ↦ elim (Option-cases (pairs c)) [
    | inl other ↦
        skip-ClosesAll st c s shut other
          (accepted-ClosesAll s st (sym (at_other st c s shut other) ∙ h))
    | inr (o, closes) ↦ closer-ClosesAll st o c s closes (accepted-ClosesAll s) h
  ]
]

accepted_true : {b : Bool} → some b ≡ some true → b ≡ true
accepted_true e = cc

closer_returns :
    (st : List ℕ) (o c : ℕ) (s : List ℕ)
    → pairs c ≡ some o
    → ((rest : List ℕ) → (b : Bool) × (balanced_loop (upward rest) s ≡ some b))
    → (b : Bool) × (balanced_loop (upward st) (c ∷ s) ≡ some b)
closer_returns [] o c s e ih = (false, at_closer_none o c s e)
closer_returns (p ∷ st) o c s e ih = elim (Bool-cases (p == o)) [
  | inl same ↦
      let top : o ≡ p = ground arith in
      let (b, r) = ih st in (b, at_closer st p c s (e ∙ ap some top) ∙ r)
  | inr other ↦ (false, at_closer_wrong st p o c s e other)
]

loop_returns : (s st : List ℕ) → (b : Bool) × (balanced_loop (upward st) s ≡ some b)
loop_returns [] st = (length st == 0, at_end st)
loop_returns (c ∷ s) st = elim (Bool-cases (is_opener c)) [
  | inl opens ↦ let (b, r) = loop_returns s (c ∷ st) in (b, at_opener st c s opens ∙ r)
  | inr shut ↦ elim (Option-cases (pairs c)) [
    | inl other ↦ let (b, r) = loop_returns s st in (b, at_other st c s shut other ∙ r)
    | inr (o, closes) ↦ closer_returns st o c s closes (loop_returns s)
  ]
]

-- IsBalanced never panics, and accepts a string exactly if it is in the language of balanced
-- brackets: each of ( ), [ ] and { } closed in the right order, other characters anywhere.
pub is_balanced-Balanced :
    (s : List ℕ) → (b : Bool) × (is_balanced s ≡ some b) × ((b ≡ true) ↔ Balanced s)
unfolding is_balanced ClosesAll
is_balanced-Balanced s =
    let (b, returned) = loop_returns s [] in
    (
      b,
      returned,
      (
        λ e. accepted-ClosesAll s [] (returned ∙ ap some e),
        λ balanced. accepted_true (
            sym returned
            ∙ (ap (balanced_loop []) (sym (append-nil s))
                ∙ (passes_over s balanced [] [] ∙ at_end []))),
      ),
    )
