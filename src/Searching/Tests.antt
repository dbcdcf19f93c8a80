-- ===== src/Searching/Tests.antt =====
-- Runs of dsa/searching/searching.go over numbers, and its theorems at concrete slices.
use learn_go.Prelude.{
  ℕ, ◌≤◌, ◌<◌, ◌≡◌, refl, Bool, true, false, Option, none, some, List, [], ◌∷◌, ◌++◌, arith, leb,
  if◌then◌else◌,
}
use learn_go.Prelude.Int.{pos}
use learn_go.Prelude.Ordered.{nat_ordered}
use learn_go.Searching.Answer.{int_mod, place, search_answer}
use learn_go.Searching.Answer.Least.{IsLeast, search_answer-IsLeast}
use learn_go.Searching.Pivot.{IsPlace, search_rotated-IsPlace}
use learn_go.Searching.{
  search_rotated, rotation_point, binary_search, first, last, range, linear, exponential, at_least,
}
use learn_go.Searching.Rank.{rank}
use learn_go.Searching.Bounds.{IsAscending, binary_search-linear}
use learn_go.Searching.Doubling.{exponential-binary_search}

abbrev primes : List ℕ
primes = 2 ∷ 3 ∷ 3 ∷ 3 ∷ 7 ∷ 11 ∷ []

primes-IsAscending : IsAscending primes
unfolding nat_ordered
primes-IsAscending = ground arith

searches :
    (range primes 3 ≡ some (1, 4))
    × (first primes 3 ≡ some (1, true))
    × (last primes 3 ≡ some (pos 3, true))
    × (binary_search primes 8 ≡ some (5, false))
    × (exponential primes 11 ≡ some (5, true))
unfolding range first last binary_search exponential nat_ordered
searches = (refl, refl, refl, refl, refl)

binary_search-linear_example :
    (found : Bool) × (binary_search primes 7 ≡ some (rank (at_least 7) primes, found))
    × (linear primes 7 ≡ (if found then some (rank (at_least 7) primes) else none))
binary_search-linear_example = binary_search-linear primes 7 primes-IsAscending

exponential-binary_search_example :
    (index : ℕ) × (found : Bool) × (exponential primes 11 ≡ some (index, found))
    × (binary_search primes 11 ≡ some (index, found))
exponential-binary_search_example = exponential-binary_search primes 11 primes-IsAscending

abbrev hills : List ℕ
hills = 1 ∷ 4 ∷ 2 ∷ 5 ∷ 3 ∷ []

-- The smallest int is 2^63, and the largest is 2^63 - 1.
abbrev at_least_five : ℕ → Bool
at_least_five x = leb (place 5) (place x)

at_the_extremes :
    search_answer 9223372036854775808 9223372036854775807 at_least_five ≡ some (some 5)
unfolding search_answer
at_the_extremes = refl

at_least_five_stays :
    (x y : ℕ)
    → x < int_mod
    → y < int_mod
    → place x ≤ place y
    → at_least_five x ≡ true
    → at_least_five y ≡ true
at_least_five_stays x y a b h hit = ground arith

search_answer-IsLeast_example :
    (r : Option ℕ) × (search_answer 9223372036854775808 9223372036854775807 at_least_five ≡ some r)
    × IsLeast at_least_five 9223372036854775808 9223372036854775807 r
search_answer-IsLeast_example =
    search_answer-IsLeast at_least_five 9223372036854775808 9223372036854775807 at_least_five_stays
      (omega arith) (omega arith)

-- 5 7 7 1 3 5, rotated from 1 3 5 5 7 7.
abbrev high_run : List ℕ
high_run = 5 ∷ 7 ∷ 7 ∷ []

abbrev pair : List ℕ
pair = 3 ∷ 0 ∷ []

abbrev low_run : List ℕ
low_run = 1 ∷ 3 ∷ 5 ∷ []

runs-IsAscending : IsAscending (low_run ++ high_run)
unfolding nat_ordered
runs-IsAscending = ground arith

rotated_runs :
    (search_rotated (high_run ++ low_run) 3 ≡ some (some 4))
    × (search_rotated (high_run ++ low_run) 4 ≡ some none)
    × (search_rotated pair 0 ≡ some (some 1))
    × (rotation_point (high_run ++ 1 ∷ 3 ∷ []) ≡ some 3)
unfolding search_rotated rotation_point nat_ordered
rotated_runs = (refl, refl, refl, refl)

search_rotated-IsPlace_example :
    (answer : Option ℕ) × (search_rotated (high_run ++ low_run) 3 ≡ some answer)
    × IsPlace (high_run ++ low_run) 3 answer
search_rotated-IsPlace_example = search_rotated-IsPlace high_run low_run 3 runs-IsAscending
