-- ===== src/Unionfind/Tests.antt =====
-- Runs of the disjoint sets, and their theorems at concrete edges.
use mathlib.Core.List.{Memᴰ}
use learn_go.Prelude.{
  ◌≢◌, ℕ, ◌+◌, ◌^◌, ◌≤◌, ◌≡◌, ◌↔◌, ◌==◌, refl, Bool, true, false, Option, none, some, ◌>>=◌, List,
  [], ◌∷◌, length, arith,
}
use learn_go.Prelude.Int.{pos}
use learn_go.Prelude.Comparable.{Comparable}
use learn_go.Unionfind.{
  Sets, Edge, new, lookup, connected, size_of, has_cycle, union_all, count_components,
}
use learn_go.Unionfind.Components.{Represents, count_components-Represents}
use learn_go.Unionfind.Roots.{Apart}
use learn_go.Unionfind.Queries.{connected-Linked, size_of-Linked}
use learn_go.Unionfind.Linking.{Linked, FirstCycle}
use learn_go.Unionfind.Graph.{has_cycle-FirstCycle}

instance numbers : Comparable ℕ
numbers = record {
  same = λ x y. x == y;
  same_self = λ x. ground arith;
  eq_of_same = λ x y h. ground arith;
}

abbrev link : ℕ → ℕ → Edge ℕ
link a b = record { from = a; to = b; weight = pos 1 }

-- Two components, the first closed by the last edge.
abbrev roads : List (Edge ℕ)
roads = link 1 2 ∷ link 3 4 ∷ link 2 3 ∷ link 5 6 ∷ link 4 1 ∷ []

abbrev answered {ℓ} : {A : Type ℓ} → Option (A × Sets ℕ) → Option (A × ℕ)
answered none = none
answered (some (a, s)) = some (a, s.find_steps)

-- The runs: the edge that closes the first cycle, the number of components, what Connected,
-- SizeOf and Lookup answer.
runs :
    (has_cycle 0 roads ≡ some (some (link 4 1)))
    × (has_cycle 0 (link 1 2 ∷ link 2 3 ∷ []) ≡ some none)
    × (count_components 0 (1 ∷ 7 ∷ []) roads ≡ some 3)
    × (answered (union_all 0 roads new >>= λ s. connected 0 s 1 4) ≡ some (true, 4))
    × (answered (union_all 0 roads new >>= λ s. connected 0 s 1 6) ≡ some (false, 4))
    × (answered (union_all 0 roads new >>= λ s. size_of 0 s 4) ≡ some (4, 4))
    × (answered (union_all 0 roads new >>= λ s. lookup 0 s 9) ≡ some (none, 3))
unfolding has_cycle count_components union_all connected size_of lookup numbers
runs = (refl, refl, refl, refl, refl, refl, refl)

has_cycle-FirstCycle_example :
    (answer : Option (Edge ℕ)) × (has_cycle 0 roads ≡ some answer) × FirstCycle [] roads answer
has_cycle-FirstCycle_example = has_cycle-FirstCycle 0 roads

connected-Linked_example :
    (s : Sets ℕ) × (answer : Bool) × (after : Sets ℕ) × (union_all 0 roads new ≡ some s)
    × (connected 0 s 1 6 ≡ some (answer, after))
    × ((answer ≡ true) ↔ Linked roads 1 6)
connected-Linked_example = connected-Linked 0 roads 1 6

size_of-Linked_example :
    (members : List ℕ) × (s after : Sets ℕ) × (k : ℕ) × (union_all 0 roads new ≡ some s)
    × (size_of 0 s 4 ≡ some (length members, after))
    × Apart (λ y z. y ≢ z) members
    × ((y : ℕ) → Memᴰ y members ↔ Linked roads 4 y)
    × (after.find_steps ≡ s.find_steps + k)
    × (2 ^ k ≤ length members)
size_of-Linked_example = size_of-Linked 0 roads 4

count_components-Represents_example :
    (roots : List ℕ) × (count_components 0 (1 ∷ 7 ∷ []) roads ≡ some (length roots))
    × Represents (1 ∷ 7 ∷ []) roads roots
count_components-Represents_example = count_components-Represents 0 (1 ∷ 7 ∷ []) roads
