-- ===== src/Ratelimit/Span.antt =====
-- Histories of admitted calls: how many of them fall into a span of time.
use learn_go.Prelude.{
  ℕ, suc, ◌+◌, ◌≤◌, ◌<◌, ◌≡◌, refl, ◌∙◌, sym, true, ◌&&◌, List, [], ◌∷◌, ◌++◌, length, arith,
  if◌then◌else◌, ltb, leb, Bool-cases, inl, inr,
}
use learn_go.Ratelimit.{in_view, drop_old, log_over}

abbrev pub AllUpTo : ℕ → List ℕ → Type 0
AllUpTo n [] = Unit
AllUpTo n (x ∷ s) = (x ≤ n) × AllUpTo n s

abbrev pub IsAscending : List ℕ → Type 0
IsAscending [] = Unit
IsAscending (x ∷ []) = Unit
IsAscending (x ∷ y ∷ s) = (x ≤ y) × IsAscending (y ∷ s)

-- The times that are in view at `now`.
abbrev pub live : ℕ → ℕ → List ℕ → List ℕ
live now window [] = []
live now window (x ∷ s) =
    let rest = live now window s in if in_view now window x then x ∷ rest else rest

-- How many times lie in the span of a window's length that ends at `t`: those after `t - window`,
-- up to `t`.
abbrev pub count_in : ℕ → List ℕ → ℕ → ℕ
count_in window [] t = 0
count_in window (x ∷ s) t =
    let rest = count_in window s t in if leb x t && ltb t (x + window) then suc rest else rest

pub AllUpTo-later : (m n : ℕ) (s : List ℕ) → m ≤ n → AllUpTo m s → AllUpTo n s
AllUpTo-later m n [] h a = tt
AllUpTo-later m n (x ∷ s) h a = (omega (arith, a.0), AllUpTo-later m n s h a.1)

pub AllUpTo-append : (n : ℕ) (s t : List ℕ) → AllUpTo n s → AllUpTo n t → AllUpTo n (s ++ t)
AllUpTo-append n [] t h g = g
AllUpTo-append n (x ∷ s) t h g = (h.0, AllUpTo-append n s t h.1 g)

pub AllUpTo-live : (n now window : ℕ) (s : List ℕ) → AllUpTo n s → AllUpTo n (live now window s)
AllUpTo-live n now window [] h = tt
AllUpTo-live n now window (x ∷ s) h = ground (arith, AllUpTo-live n now window s h.1)

pub live-append :
    (now window : ℕ) (s t : List ℕ)
    → live now window (s ++ t) ≡ live now window s ++ live now window t
live-append now window [] t = refl
live-append now window (x ∷ s) t = ground (arith, live-append now window s t)

-- What is in view later was in view before.
pub live-live :
    (now later window : ℕ) (s : List ℕ)
    → now ≤ later
    → live later window (live now window s) ≡ live later window s
live-live now later window [] h = refl
live-live now later window (x ∷ s) h = ground (arith, live-live now later window s h)

all_live :
    (now window : ℕ) (x : ℕ) (s : List ℕ)
    → now < x + window
    → IsAscending (x ∷ s)
    → live now window (x ∷ s) ≡ x ∷ s
all_live now window x [] h a = ground arith
all_live now window x (y ∷ s) h a = ground (arith, all_live now window y s (omega (arith, a.0)) a.1)

-- In ascending order the old times are a prefix.
pub drop_old-live :
    (now window : ℕ) (s : List ℕ) → IsAscending s → drop_old now window s ≡ live now window s
drop_old-live now window [] a = refl
drop_old-live now window (x ∷ []) a = ground arith
drop_old-live now window (x ∷ y ∷ s) a = elim (Bool-cases (in_view now window x)) [
  | inl seen ↦
      let whole = all_live now window x (y ∷ s) (ground arith) a in
      let kept : drop_old now window (x ∷ y ∷ s) ≡ x ∷ y ∷ s = rw seen refl in kept ∙ sym whole
  | inr old ↦ rw old (drop_old-live now window (y ∷ s) a.1)
]

-- If the last time has left the window, all have.
pub log_over-live :
    (now later window : ℕ) (s : List ℕ)
    → IsAscending s
    → now ≤ later
    → log_over now window s ≡ true
    → live later window s ≡ []
log_over-live now later window [] a h e = refl
log_over-live now later window (x ∷ []) a h e = ground arith
log_over-live now later window (x ∷ y ∷ s) a h e =
    let rest = log_over-live now later window (y ∷ s) a.1 h e in ground arith

-- A span that ends at `t` or later than the history holds only times that are in view.
pub count_in-live :
    (window now : ℕ) (s : List ℕ) (t : ℕ)
    → now ≤ t
    → count_in window s t ≤ length (live now window s)
count_in-live window now [] t h = omega arith
count_in-live window now (x ∷ s) t h = ground (arith, count_in-live window now s t h)

pub count_in-append :
    (window : ℕ) (s t : List ℕ) (u : ℕ)
    → count_in window (s ++ t) u ≡ count_in window s u + count_in window t u
count_in-append window [] t u = omega arith
count_in-append window (x ∷ s) t u = ground (arith, count_in-append window s t u)

-- The span that ends now, behind all the times, holds those in view.
pub count_in-now :
    (window now : ℕ) (s : List ℕ)
    → AllUpTo now s
    → count_in window s now ≡ length (live now window s)
count_in-now window now [] h = refl
count_in-now window now (x ∷ s) h = ground (arith, count_in-now window now s h.1)
