-- ===== src/Hashmap/Tests.antt =====
-- Runs of the hash table, and its theorems at concrete tables.
use learn_go.Prelude.{ℕ, ◌≡◌, ◌==◌, refl, true, false, none, some, List, [], ◌∷◌, arith, ◌%◌}
use learn_go.Prelude.Comparable.{Comparable}
use learn_go.Hashmap.{new, put, get, delete, slots_for}
use learn_go.Hashmap.Client.{
  Call, store, look, erase, stored, looked, erased, promised, answers, answers-promised,
}

instance numbers : Comparable ℕ
numbers = record {
  same = λ x y. x == y;
  same_self = λ x. ground arith;
  eq_of_same = λ x y h. ground arith;
}

-- A hash that sends all keys to three slots.
abbrev weak : ℕ → ℕ
weak k = k % 3

-- Keys that collide, one deleted in the middle of its chain, and enough to rebuild the table.
abbrev visits : List (Call ℕ ℕ)
visits =
    store 1 10
    ∷ store 4 40
    ∷ store 7 70
    ∷ erase 4
    ∷ look 7
    ∷ look 4
    ∷ store 10 100
    ∷ store 7 71
    ∷ store 2 20
    ∷ store 3 30
    ∷ store 5 50
    ∷ store 6 60
    ∷ look 7
    ∷ look 10
    ∷ erase 8
    ∷ []

visited :
    answers weak 0 0 visits (new weak 0 0 0)
    ≡ some (
        stored
        ∷ stored
        ∷ stored
        ∷ erased true
        ∷ looked (some 70)
        ∷ looked none
        ∷ stored
        ∷ stored
        ∷ stored
        ∷ stored
        ∷ stored
        ∷ stored
        ∷ looked (some 71)
        ∷ looked (some 100)
        ∷ erased false
        ∷ [])
unfolding new put get delete numbers
visited = refl

answers-promised_example :
    answers weak 0 0 visits (new weak 0 0 4) ≡ some (promised visits (λ _. none))
answers-promised_example = answers-promised weak 0 0 4 visits

sizes : (slots_for 5 ≡ 8) × (slots_for 6 ≡ 16) × (slots_for 0 ≡ 8)
unfolding slots_for
sizes = (refl, refl, refl)
