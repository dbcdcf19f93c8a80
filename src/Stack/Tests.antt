-- ===== src/Stack/Tests.antt =====
-- Runs of dsa/stack/balanced.go, and the theorems about the stack at concrete values. The brackets
-- are 40 and 41, 91 and 93, 123 and 125; 97 is the letter a.
use learn_go.Prelude.{ℕ, ◌≡◌, ◌↔◌, refl, Bool, true, false, none, some, ◌==◌, List, [], ◌∷◌}
use learn_go.Prelude.Index.{upward}
use learn_go.Prelude.Match.{taken, left}
use learn_go.Stack.Removal.{match_it, search_and_remove-upward}
use learn_go.Stack.{search_and_remove, push, pop, peek, is_balanced, longest_balanced_prefix}
use learn_go.Stack.Items.{pop-push, peek-push}
use learn_go.Stack.Language.{Balanced}
use learn_go.Stack.Brackets.{is_balanced-Balanced}

-- a(b[c]d)e, and ([)].
abbrev nested : List ℕ
nested = 97 ∷ 40 ∷ 98 ∷ 91 ∷ 99 ∷ 93 ∷ 100 ∷ 41 ∷ 101 ∷ []

abbrev crossed : List ℕ
crossed = 40 ∷ 91 ∷ 41 ∷ 93 ∷ []

balanced_runs : (is_balanced nested ≡ some true) × (is_balanced crossed ≡ some false)
unfolding is_balanced
balanced_runs = (refl, refl)

-- The prefix ends at the last closer: of the balanced text a the result is 0, of ()a it is 2.
prefix_runs :
    (longest_balanced_prefix ((97, 1) ∷ []) ≡ some 0)
    × (longest_balanced_prefix ((40, 1) ∷ (41, 1) ∷ (97, 1) ∷ []) ≡ some 2)
    × (longest_balanced_prefix ((40, 1) ∷ (41, 1) ∷ (41, 1) ∷ []) ≡ some 2)
unfolding longest_balanced_prefix
prefix_runs = (refl, refl, refl)

is_balanced-Balanced_example :
    (b : Bool) × (is_balanced crossed ≡ some b) × ((b ≡ true) ↔ Balanced crossed)
is_balanced-Balanced_example = is_balanced-Balanced crossed

abbrev plates : List ℕ
plates = 1 ∷ 2 ∷ []

stack_runs : (pop (push plates 3) ≡ some (plates, some 3)) × (peek (push plates 3) ≡ some (some 3))
stack_runs = (pop-push plates 3, peek-push plates 3)

-- The topmost 2 of 2 1 2 3, from the bottom up.
removal_runs :
    (search_and_remove ◌==◌ 0 2 (2 ∷ 1 ∷ 2 ∷ 3 ∷ []) ≡ some (2 ∷ 1 ∷ 3 ∷ [], some 2))
    × (search_and_remove ◌==◌ 0 4 (2 ∷ 1 ∷ []) ≡ some (2 ∷ 1 ∷ [], none))
unfolding search_and_remove
removal_runs = (refl, refl)

search_and_remove-upward_example :
    search_and_remove ◌==◌ 0 2 (upward (3 ∷ 2 ∷ 1 ∷ 2 ∷ []))
    ≡ some (
      upward (left (match_it ◌==◌ 2) (3 ∷ 2 ∷ 1 ∷ 2 ∷ [])),
      taken (match_it ◌==◌ 2) (3 ∷ 2 ∷ 1 ∷ 2 ∷ []),
    )
search_and_remove-upward_example = search_and_remove-upward ◌==◌ 0 2 (3 ∷ 2 ∷ 1 ∷ 2 ∷ [])
