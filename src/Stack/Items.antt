-- ===== src/Stack/Items.antt =====
-- The stack of dsa/stack/stack.go, read from its top down.
use learn_go.Prelude.{
  ℕ, zero, suc, ◌-◌, ◌≡◌, refl, ap, false, some, List, [], ◌∷◌, ◌++◌, length, length-append, take,
  arith, ◌==◌,
}
use learn_go.Prelude.Index.{upward, length-upward, get_elem?-append_end}
use learn_go.Stack.{push, pop, peek}

module _ {ℓ} {T : Type ℓ} where
  take-append_end : (xs : List T) (v : T) (n : ℕ) → n ≡ length xs → take n (xs ++ v ∷ []) ≡ xs
  take-append_end [] v n e = rw e refl
  take-append_end (x ∷ xs) v zero e = absurd (omega arith)
  take-append_end (x ∷ xs) v (suc n) e = ap (◌∷◌ x) (take-append_end xs v n (omega arith))

  pub empty-upward : (xs : List T) → (length (upward xs) == 0) ≡ (length xs == 0)
  empty-upward xs = rw (length-upward xs) refl

  -- Pop never panics, and takes what Push put on top.
  pub pop-push : (items : List T) (v : T) → pop (push items v) ≡ some (items, some v)
  unfolding pop push
  pop-push items v =
      let long = length-append items (v ∷ []) in
      let full : (length (items ++ v ∷ []) == 0) ≡ false = ground arith in
      let last : length (items ++ v ∷ []) - 1 ≡ length items = omega arith in
      rw (full, get_elem?-append_end items v _ last, take-append_end items v _ last) refl

  -- Peek reads what Push put on top.
  pub peek-push : (items : List T) (v : T) → peek (push items v) ≡ some (some v)
  unfolding peek push
  peek-push items v =
      let long = length-append items (v ∷ []) in
      let full : (length (items ++ v ∷ []) == 0) ≡ false = ground arith in
      let last : length (items ++ v ∷ []) - 1 ≡ length items = omega arith in
      rw (full, get_elem?-append_end items v _ last) refl
