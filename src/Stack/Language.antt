-- ===== src/Stack/Language.antt =====
-- The language of balanced brackets, and the tables of dsa/stack/balanced.go beside it.
use learn_go.Prelude.{
  ℕ, ◌≡◌, ◌≢◌, refl, ◌⊎◌, inl, inr, false, none, some, List, [], ◌∷◌, ◌++◌, ◌==◌, Bool-cases, arith,
}
use learn_go.Stack.{is_opener, pairs}

-- The three kinds of brackets, and the characters that are none of them.
abbrev pub Encloses : ℕ → ℕ → Type 0
Encloses o c = ((o ≡ b'(') × (c ≡ b')')) ⊎ (((o ≡ b'[') × (c ≡ b']')) ⊎ ((o ≡ b'{') × (c ≡ b'}')))

abbrev pub IsOther : ℕ → Type 0
IsOther c = (c ≢ b'(') × (c ≢ b')') × (c ≢ b'[') × (c ≢ b']') × (c ≢ b'{') × (c ≢ b'}')

-- The language: other characters anywhere, and brackets that close in the right order.
pub data Balanced : List ℕ → Type 0 where
  done : Balanced []
  skip : (c : ℕ) {s : List ℕ} → IsOther c → Balanced s → Balanced (c ∷ s)
  wrap :
      (o c : ℕ) (s t : List ℕ) → Encloses o c → Balanced s → Balanced t → Balanced (o ∷ s ++ c ∷ t)

-- The tables of the code agree with these.
pub pairs-Encloses : (o c : ℕ) → Encloses o c → pairs c ≡ some o
pairs-Encloses o c (inl (e, f)) = rw (e, f) refl
pairs-Encloses o c (inr (inl (e, f))) = rw (e, f) refl
pairs-Encloses o c (inr (inr (e, f))) = rw (e, f) refl

pub Encloses-pairs : (o c : ℕ) → pairs c ≡ some o → Encloses o c
Encloses-pairs o c e = elim (Bool-cases (c == b')')) [
  | inl round ↦ inl (ground arith)
  | inr not_round ↦ elim (Bool-cases (c == b']')) [
    | inl square ↦ inr (inl (ground arith))
    | inr not_square ↦ elim (Bool-cases (c == b'}')) [
      | inl curly ↦ inr (inr (ground arith))
      | inr not_curly ↦ absurd (ground arith)
    ]
  ]
]

pub other_lem : (c : ℕ) → IsOther c → (is_opener c ≡ false) × (pairs c ≡ none)
other_lem c h = ground arith

pub IsOther-of : (c : ℕ) → is_opener c ≡ false → pairs c ≡ none → IsOther c
IsOther-of c e f =
    (ground arith, ground arith, ground arith, ground arith, ground arith, ground arith)
