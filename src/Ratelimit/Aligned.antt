-- ===== src/Ratelimit/Aligned.antt =====
-- `Truncate` (ratelimit/ratelimit.go): the aligned windows, and how many times fall into one.
use native.Mathlib.Nat.{mod-lt, mod-le, mod-add-div', mul-le-mul_right}
use learn_go.Prelude.{
  ℕ, suc, ◌+◌, ◌-◌, ◌*◌, ◌/◌, ◌≤◌, ◌<◌, ◌≡◌, refl, ◌⊎◌, inl, inr, List, [], ◌∷◌, ◌++◌, arith,
  if◌then◌else◌, ◌==◌, lt_or_ge,
}
use learn_go.Ratelimit.{truncate}
use learn_go.Ratelimit.Span.{AllUpTo, count_in}

-- How many times lie in the aligned window that begins at `start`.
abbrev pub count_at : ℕ → List ℕ → ℕ → ℕ
count_at window [] start = 0
count_at window (x ∷ s) start =
    let rest = count_at window s start in if truncate x window == start then suc rest else rest

pub count_at-append :
    (window : ℕ) (s t : List ℕ) (start : ℕ)
    → count_at window (s ++ t) start ≡ count_at window s start + count_at window t start
count_at-append window [] t start = omega arith
count_at-append window (x ∷ s) t start = ground (arith, count_at-append window s t start)

pub truncate-window :
    (now window : ℕ)
    → 0 < window
    → (truncate now window ≤ now) × (now < truncate now window + window)
unfolding truncate
truncate-window now window h = omega (arith, mod-lt now h, mod-le now window)

pub truncate-multiple : (now window : ℕ) → 0 < window → truncate now window ≡ now / window * window
unfolding truncate
truncate-multiple now window h = omega (arith, mod-add-div' now window)

multiple_cases : (p q window : ℕ) → 0 < window → (p ≤ q) ⊎ (q * window + window ≤ p * window)
multiple_cases p q window h = elim (lt_or_ge q p) [
  | inl more ↦ inr (omega (arith, mul-le-mul_right window more))
  | inr less ↦ inl less
]

pub truncate_order : (m n window : ℕ) → 0 < window → m ≤ n → truncate m window ≤ truncate n window
truncate_order m n window h k =
    let (low, _) = truncate-window m window h in
    let (_, high) = truncate-window n window h in
    let low_same = truncate-multiple m window h in
    let high_same = truncate-multiple n window h in
    elim (multiple_cases (m / window) (n / window) window h) [
      | inl less ↦ omega (arith, mul-le-mul_right window less)
      | inr more ↦ omega arith
    ]

-- A time that a span of a window's length shares with its end is in one of two aligned windows.
pub truncate_span :
    (x t window : ℕ)
    → 0 < window
    → x ≤ t
    → t < x + window
    → (truncate x window ≡ truncate t window) ⊎ (truncate x window + window ≡ truncate t window)
truncate_span x t window h k l =
    let (x_low, x_high) = truncate-window x window h in
    let (t_low, t_high) = truncate-window t window h in
    let x_same = truncate-multiple x window h in
    let t_same = truncate-multiple t window h in
    let in_order = truncate_order x t window h k in
    elim (multiple_cases (t / window) (x / window) window h) [
      | inl less ↦ inl (omega (arith, mul-le-mul_right window less))
      | inr more ↦ elim (multiple_cases (t / window) (x / window + 1) window h) [
        | inl one ↦ inr (omega (arith, mul-le-mul_right window one))
        | inr two ↦ omega arith
      ]
    ]

-- A span of a window's length meets two aligned windows at most.
pub count_in-count_at :
    (window : ℕ) (s : List ℕ) (t : ℕ)
    → 0 < window
    → count_in window s t
      ≤ count_at window s (truncate t window) + count_at window s (truncate t window - window)
count_in-count_at window [] t h = omega arith
count_in-count_at window (x ∷ s) t h = ground (
  arith,
  count_in-count_at window s t h,
  λ (a : x ≤ t) (b : t < x + window). truncate_span x t window h a b,
)

-- A window that begins after the times holds none of them.
pub count_at-later :
    (window n : ℕ) (s : List ℕ) (start : ℕ)
    → 0 < window
    → AllUpTo n s
    → truncate n window < start
    → count_at window s start ≡ 0
count_at-later window n [] start h a k = refl
count_at-later window n (x ∷ s) start h a k =
    let before = truncate_order x n window h a.0 in
    ground (arith, count_at-later window n s start h a.1 k)
