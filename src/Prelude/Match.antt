-- ===== src/Prelude/Match.antt =====
-- The first element of a list that passes a test.
use learn_go.Prelude.{Bool, Option, none, some, List, [], ◌∷◌, if◌then◌else◌}

module _ {ℓ} {T : Type ℓ} (match_it : T → Bool) where
  -- The first element that matches, and the list without it.
  abbrev pub taken : List T → Option T
  taken [] = none
  taken (x ∷ xs) = let rest = taken xs in if match_it x then some x else rest

  abbrev pub left : List T → List T
  left [] = []
  left (x ∷ xs) = let rest = left xs in if match_it x then xs else x ∷ rest
