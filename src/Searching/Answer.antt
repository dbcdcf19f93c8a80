-- ===== src/Searching/Answer.antt =====
-- SearchAnswer and midpoint (dsa/searching/rotated.go). An int is its bit pattern below 2^64, and
-- `place` is where it stands among the ints, from the smallest one on.
use learn_go.Prelude.{
  ℕ, zero, suc, ◌+◌, ◌-◌, ◌/◌, ◌%◌, ◌≤◌, ◌<◌, ◌≡◌, ◌≢◌, refl, ap, ◌∙◌, sym, Bool, true, false,
  Option, none, some, if◌then◌else◌, ltb, ◌==◌, arith, inl, inr, Bool-cases, lt_or_ge,
}
pub mod Least

abbrev pub int_mod : ℕ
int_mod = 18446744073709551616

abbrev pub place : ℕ → ℕ
place x = (x + 9223372036854775808) % int_mod

abbrev pub midpoint : ℕ → ℕ → ℕ
midpoint lo hi = (lo + (hi + int_mod - lo) % int_mod / 2) % int_mod

-- The loop, on fuel; `best` has what it found.
pub answer_loop : ℕ → (ℕ → Bool) → ℕ → ℕ → Option ℕ → Option (Option ℕ)
answer_loop zero ok lo hi best = none
answer_loop (suc fuel) ok lo hi best =
    let mid = midpoint lo hi in
    let rest =
      answer_loop fuel ok (if ok mid then lo else (mid + 1) % int_mod)
        (if ok mid then (mid + int_mod - 1) % int_mod else hi)
        (if ok mid then some mid else best) in
    if ltb (place hi) (place lo)
    then some best
    else if ok mid
    then if mid == lo then some (some mid) else rest
    else if mid == hi
    then some best
    else rest

unfoldable pub search_answer : ℕ → ℕ → (ℕ → Bool) → Option (Option ℕ)
unfolding answer_loop
search_answer lo hi ok =
    if ltb (place hi) (place lo)
    then some none
    else answer_loop (place hi - place lo + 2) ok lo hi none

-- The midpoint does not overflow.
pub place-midpoint :
    (lo hi : ℕ)
    → lo < int_mod
    → hi < int_mod
    → place lo ≤ place hi
    → place (midpoint lo hi) ≡ (place lo + place hi) / 2
place-midpoint lo hi a b h = omega arith

pub next_place :
    (x : ℕ) → x < int_mod → place x < int_mod - 1 → place ((x + 1) % int_mod) ≡ place x + 1
next_place x a h = omega arith

pub previous_place :
    (x : ℕ) → x < int_mod → 0 < place x → place ((x + int_mod - 1) % int_mod) + 1 ≡ place x
previous_place x a h = omega arith

pub same_of_place : (x y : ℕ) → x < int_mod → y < int_mod → place x ≡ place y → x ≡ y
same_of_place x y a b h = omega arith
