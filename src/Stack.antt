-- ===== src/Stack.antt =====
-- dsa/stack/stack.go and dsa/stack/balanced.go. A stack is its slice of items, the top last; the
-- inner `none` of an operation is its answer false.
use learn_go.Prelude.{
  ℕ, zero, suc, ◌+◌, ◌-◌, Bool, true, false, ◌||◌, not, Option, none, some, ◌>>=◌, List, [], ◌∷◌,
  ◌++◌, length, get_elem?, set, take, drop, if◌then◌else◌, ltb, ◌==◌,
}
use learn_go.Prelude.Copy.{store, copy}
mod Items
mod Removal
pub mod Language
pub mod Brackets
mod Tests

module _ {ℓ} {T : Type ℓ} where
  pub push : List T → T → List T
  push items v = items ++ v ∷ []

  -- The vacated slot is cleared before the slice is cut, where no read of the stack sees it.
  pub pop : List T → Option (List T × Option T)
  pop items =
      if length items == 0
      then some (items, none)
      else (let last = length items - 1 in
          get_elem? items last >>= λ v. some (take last items, some v))

  pub peek : List T → Option (Option T)
  peek items =
      if length items == 0
      then some none
      else (get_elem? items (length items - 1) >>= λ v. some (some v))

  -- The loop of SearchAndRemove, from the index below `i` down: the elements above are copied down
  -- over the one found, and the last slot is cleared and cut off.
  abbrev pub search_loop : (T → T → Bool) → T → T → List T → ℕ → Option (List T × Option T)
  search_loop equal zero_value v items zero = some (items, none)
  search_loop equal zero_value v items (suc i) =
      let rest = search_loop equal zero_value v items i in
      let last = length items - 1 in
      get_elem? items i >>= λ found.
      if not (equal found v)
      then rest
      else (store (copy items i (drop (i + 1) items)) last zero_value >>= λ cleared.
          some (take last cleared, some found))

  pub search_and_remove : (T → T → Bool) → T → T → List T → Option (List T × Option T)
  search_and_remove equal zero_value v items = search_loop equal zero_value v items (length items)

-- Runes by their code points.
abbrev pub is_opener : ℕ → Bool
is_opener c = c == 40 || c == 91 || c == 123

-- The map `pairs`.
abbrev pub pairs : ℕ → Option ℕ
pairs c =
    if c == 41 then some 40 else if c == 93 then some 91 else if c == 125 then some 123 else none

-- The loop of IsBalanced, over the runes of the string.
pub balanced_loop : List ℕ → List ℕ → Option Bool
unfolding push pop
balanced_loop held [] = some (length held == 0)
balanced_loop held (c ∷ s) =
    let opened = balanced_loop (push held c) s in
    let skipped = balanced_loop held s in
    if is_opener c then opened else elim (pairs c) [
      | none ↦ skipped
      | some wanted ↦ pop held >>= λ (rest, top). elim top [
        | none ↦ some false
        | some t ↦ if t == wanted then balanced_loop rest s else some false
      ]
    ]

pub is_balanced : List ℕ → Option Bool
unfolding balanced_loop
is_balanced s = balanced_loop [] s

-- LongestBalancedPrefix, over the runes with their widths in bytes; a closer is one byte wide.
pub prefix_loop : List ℕ → List (ℕ × ℕ) → ℕ → ℕ → Option ℕ
unfolding push pop
prefix_loop held [] i longest = some longest
prefix_loop held ((c, width) ∷ s) i longest =
    let opened = prefix_loop (push held c) s (i + width) longest in
    let skipped = prefix_loop held s (i + width) longest in
    if is_opener c then opened else elim (pairs c) [
      | none ↦ skipped
      | some wanted ↦ pop held >>= λ (rest, top). elim top [
        | none ↦ some longest
        | some t ↦
            if t == wanted
            then prefix_loop rest s (i + width) (if length rest == 0 then i + 1 else longest)
            else some longest
      ]
    ]

pub longest_balanced_prefix : List (ℕ × ℕ) → Option ℕ
unfolding prefix_loop
longest_balanced_prefix s = prefix_loop [] s 0 0
