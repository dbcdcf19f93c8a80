-- ===== src/Stack/Removal.antt =====
-- SearchAndRemove of dsa/stack/stack.go: the topmost match is taken out.
use learn_go.Prelude.{
  ℕ, zero, suc, ◌+◌, ◌-◌, ◌≡◌, refl, sym, ◌∙◌, ap, inl, inr, min, Bool, true, some, List, [], ◌∷◌,
  ◌++◌, append_assoc, append-nil, length, length-append, set, take, drop, arith, ltb, lt→ltb,
  Bool-cases,
}
use learn_go.Prelude.Index.{upward, length-upward}
use learn_go.Prelude.Copy.{
  store, copy, length-copy, get_elem?-middle, take_all, take-left, drop-left,
}
use learn_go.Prelude.Match.{taken, left}
use learn_go.Stack.{search_loop, search_and_remove}

module _ {ℓ} {T : Type ℓ} where
  take-set_at : (s : List T) (i : ℕ) (v : T) → take i (set s i v) ≡ take i s
  take-set_at [] i v = refl
  take-set_at (x ∷ s) zero v = refl
  take-set_at (x ∷ s) (suc i) v = ap (◌∷◌ x) (take-set_at s i v)

  -- The removal of the element at the index `i`.
  cut :
      (below above : List T) (x zero_value : T) (i last : ℕ)
      → i ≡ length below
      → last + 1 ≡ length (below ++ x ∷ above)
      → (cleared : List T) × (store
            (copy (below ++ x ∷ above) i (drop (i + 1) (below ++ x ∷ above)))
            last
            zero_value
          ≡ some cleared)
        × (take last cleared ≡ below ++ above)
  cut below above x zero_value i last e f =
      let whole = below ++ x ∷ above in
      let long = length-append below (x ∷ above) in
      let beyond : drop (i + 1) whole ≡ above =
        ap (drop (i + 1)) (sym (append_assoc below (x ∷ []) above))
        ∙ drop-left (below ++ x ∷ []) above (i + 1) (omega (arith, length-append below (x ∷ []))) in
      let size = length-copy whole i above (omega arith) in
      let inside : ltb last (length (copy whole i above)) ≡ true =
        lt→ltb last (length (copy whole i above)) (omega arith) in
      let n : min (length whole - i) (length above) ≡ length above = omega arith in
      let start : take i whole ≡ below = take-left below (x ∷ above) i e in
      let whole_above : take (length above) above ≡ above =
        take_all above (length above) (omega arith) in
      let front : take last (copy whole i above) ≡ below ++ above =
        rw (n, start, whole_above, sym (append_assoc below above (drop (i + length above) whole)))
          (take-left (below ++ above) (drop (i + length above) whole) last
            (omega (arith, length-append below above))) in
      (
        set (copy whole i above) last zero_value,
        rw (beyond, inside) refl,
        take-set_at (copy whole i above) last zero_value ∙ front,
      )

module _ {ℓ} {T : Type ℓ} (equal : T → T → Bool) (v : T) where
  -- Whether an element is the one that is looked for.
  abbrev pub match_it : T → Bool
  match_it x = equal x v

module _ {ℓ} {T : Type ℓ} (equal : T → T → Bool) (zero_value v : T) where
  search_loop-upward :
      (below above : List T) (i : ℕ)
      → i ≡ length below
      → search_loop equal zero_value v (upward below ++ above) i
        ≡ some (upward (left (match_it equal v) below) ++ above, taken (match_it equal v) below)
  search_loop-upward [] above zero e = refl
  search_loop-upward [] above (suc i) e = absurd (omega arith)
  search_loop-upward (x ∷ below) above zero e = absurd (omega arith)
  search_loop-upward (x ∷ below) above (suc i) e =
      let at : i ≡ length (upward below) = omega (arith, length-upward below) in
      let joined : (upward below ++ x ∷ []) ++ above ≡ upward below ++ x ∷ above =
        append_assoc (upward below) (x ∷ []) above in
      let whole = length-append (upward below) (x ∷ above) in
      let (cleared, stored, front) =
        cut (upward below) above x zero_value i (length (upward below ++ x ∷ above) - 1) at
          (omega arith) in
      let here = get_elem?-middle (upward below) x above i at in
      elim (Bool-cases (equal x v)) [
        | inl hit ↦ rw (joined, here, hit, stored, front) refl
        | inr miss ↦
            rw (joined, here, miss)
              (ap (λ s. search_loop equal zero_value v s i) joined
                ∙ search_loop-upward below (x ∷ above) i (omega arith)
                ∙ ap (λ s. some (s, taken (match_it equal v) below))
                    (sym (append_assoc (upward (left (match_it equal v) below)) (x ∷ []) above)))
      ]

  -- SearchAndRemove never panics: it returns the topmost element that matches, if there is one, and
  -- leaves the others in their order.
  pub search_and_remove-upward :
      (st : List T)
      → search_and_remove equal zero_value v (upward st)
        ≡ some (upward (left (match_it equal v) st), taken (match_it equal v) st)
  unfolding search_and_remove
  search_and_remove-upward st =
      let whole = search_loop-upward st [] (length (upward st)) (length-upward st) in
      rw (append-nil (upward st), append-nil (upward (left (match_it equal v) st))) at whole
