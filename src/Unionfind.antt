-- ===== src/Unionfind.antt =====
-- dsa/patterns/unionfind (unionfind.go): disjoint sets with union by size and path compression. The
-- zero value of the elements, which a map gives for a missing key, is a parameter. The loop of root
-- runs on fuel, the sum of the sizes; `none` is a loop that does not end.
use learn_go.Prelude.{
  ℕ, zero, suc, ◌+◌, ◌-◌, Bool, true, false, not, Option, none, some, ◌>>=◌, List, [], ◌∷◌, length,
  if◌then◌else◌, ltb,
}
use learn_go.Prelude.Int.{ℤ}
use learn_go.Prelude.Comparable.{Comparable}
use learn_go.Prelude.Dict
pub mod Climb
pub mod Forest
pub mod Roots
pub mod Joining
pub mod Members
pub mod Merge
pub mod Calls
pub mod Linking
pub mod Spread
pub mod Graph
mod Queries
pub mod Components
mod Tests

pub record Sets {ℓ} (T : Type ℓ) : Type ℓ where
  pub parent : List (T × T)
  pub size : List (T × ℕ)
  pub count : ℕ
  pub find_steps : ℕ

pub record Edge {ℓ} (T : Type ℓ) : Type ℓ where
  pub from : T
  pub to : T
  pub weight : ℤ

abbrev pub value_or {ℓ} : {A : Type ℓ} → A → Option A → A
value_or zero_value none = zero_value
value_or zero_value (some v) = v

abbrev pub new {ℓ} : {T : Type ℓ} → Sets T
new = record { parent = []; size = []; count = 0; find_steps = 0 }

module _ {ℓ} {T : Type ℓ} ⦃c : Comparable T⦄ where
  abbrev pub size_at : Sets T → T → ℕ
  size_at s x = value_or 0 (Dict.get s.size x)

  -- Add: whether x is new, and the sets.
  pub add : Sets T → T → Bool × Sets T
  add s x = elim (Dict.get s.parent x) [
    | some p ↦ (false, s)
    | none ↦ (
      true,
      record s { parent = Dict.put x x s.parent; size = Dict.put x 1 s.size; count = s.count + 1 },
    )
  ]

  abbrev pub add_all : List T → Sets T → Sets T
  add_all [] s = s
  add_all (n ∷ nodes) s = add_all nodes (add s n).1

  -- The end of Union, which hangs the smaller of two roots under the other.
  abbrev pub hang : Sets T → T → T → Sets T
  hang s big small = record s {
    parent = Dict.put small big s.parent;
    size = Dict.put big (size_at s big + size_at s small) s.size;
    count = s.count - 1;
  }

  -- The second loop of root: every node of the path points at the root.
  abbrev pub compress : List T → T → List (T × T) → List (T × T)
  compress [] root parent = parent
  compress (node ∷ path) root parent = compress path root (Dict.put node root parent)

module _ {ℓ} {T : Type ℓ} ⦃c : Comparable T⦄ (zero_value : T) where
  -- The first loop of root: the root, and the path to it.
  abbrev pub climb : ℕ → List (T × T) → T → Option (T × List T)
  climb zero parent x = none
  climb (suc fuel) parent x =
      let up = value_or zero_value (Dict.get parent x) in
      let rest = climb fuel parent up in
      if not (c.same up x) then (rest >>= λ (r, path). some (r, x ∷ path)) else some (x, [])

  pub root : Sets T → T → Option (T × Sets T)
  root s x = climb (Dict.total s.size) s.parent x >>= λ (r, path).
      some
        (r, record s { parent = compress path r s.parent; find_steps = s.find_steps + length path })

  pub find : Sets T → T → Option (T × Sets T)
  unfolding add root
  find s x = root (add s x).1 x

  pub lookup : Sets T → T → Option (Option T × Sets T)
  unfolding root
  lookup s x = elim (Dict.get s.parent x) [
    | none ↦ some (none, s)
    | some p ↦ root s x >>= λ (r, s'). some (some r, s')
  ]

  pub union : Sets T → T → T → Option (Bool × Sets T)
  unfolding add root
  union s x y = root (add (add s x).1 y).1 x >>= λ (root_x, s'). root s' y >>= λ (root_y, s'').
      if c.same root_x root_y
      then some (false, s'')
      else some (
        true,
        (if ltb (size_at s'' root_x) (size_at s'' root_y)
            then hang s'' root_y root_x
            else hang s'' root_x root_y),
      )

  pub connected : Sets T → T → T → Option (Bool × Sets T)
  unfolding find
  connected s x y =
      find s x >>= λ (root_x, s'). find s' y >>= λ (root_y, s''). some (c.same root_x root_y, s'')

  pub size_of : Sets T → T → Option (ℕ × Sets T)
  unfolding find
  size_of s x = find s x >>= λ (r, s'). some (size_at s' r, s')

  -- The loop of HasCycle.
  pub cycle_loop : List (Edge T) → Sets T → Option (Option (Edge T))
  unfolding union
  cycle_loop [] s = some none
  cycle_loop (e ∷ edges) s =
      let rest = cycle_loop edges in
      if c.same e.from e.to
      then some (some e)
      else union s e.from e.to >>= λ (apart, s'). if not apart then some (some e) else rest s'

  pub has_cycle : List (Edge T) → Option (Option (Edge T))
  unfolding cycle_loop
  has_cycle edges = cycle_loop edges new

  pub union_all : List (Edge T) → Sets T → Option (Sets T)
  unfolding union
  union_all [] s = some s
  union_all (e ∷ edges) s = union s e.from e.to >>= λ (apart, s'). union_all edges s'

  pub count_components : List T → List (Edge T) → Option ℕ
  unfolding union_all
  count_components nodes edges = union_all edges (add_all nodes new) >>= λ s. some s.count
