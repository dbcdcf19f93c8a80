-- ===== src/Queue/Matching.antt =====
-- RemoveFunc (dsa/queue/queue.go): the first element that matches is taken out.
use learn_go.Prelude.{
  ℕ, zero, suc, ◌+◌, ◌<◌, ◌≡◌, refl, ap, ◌∙◌, sym, ◌⊎◌, inl, inr, Bool, Option, none, some, List,
  [], ◌∷◌, length, get_elem?, drop, arith, if◌then◌else◌, Bool-cases,
}
use learn_go.Prelude.Index.{drop_next, drop_all}
use learn_go.Prelude.Match.{taken, left}
use learn_go.Queue.{Queue, rem, find_loop, remove_func}
use learn_go.Queue.Ring.{Holds, spot, rem-spot, head_inside}
use learn_go.Queue.Removal.{remove_index, remove_at-Holds}

module _ {ℓ} {T : Type ℓ} (match_it : T → Bool) where
  abbrev find_from : ℕ → List T → Option ℕ
  find_from i [] = none
  find_from i (x ∷ xs) = let rest = find_from (suc i) xs in if match_it x then some i else rest

  find_loop-find_from :
      (q : Queue T) (xs : List T)
      → Holds q xs
      → (n i : ℕ) → i + n ≡ length xs
      → find_loop match_it q i n ≡ some (find_from i (drop i xs))
  unfolding find_loop
  find_loop-find_from q xs h zero i e =
      ap (λ ys. some (find_from i ys)) (sym (drop_all xs i (omega arith)))
  find_loop-find_from q xs h (suc n) i e =
      let (v, here, rest) = drop_next xs i (omega arith) in
      let inside = head_inside q xs h (omega (arith, h.fits)) in
      let at : rem (q.head + i) (length q.items) ≡ some (spot (length q.items) (q.head + i)) =
        rem-spot (q.head + i) (length q.items) (omega arith) (omega (arith, h.fits)) in
      let next : i + 1 ≡ suc i = omega arith in
      let more = find_loop-find_from q xs h n (suc i) (omega arith) in
      rw (at, h.placed i (omega arith), here, next, more, rest) (ground arith)

  -- What the search finds from the index `i` on.
  record IsFound (xs : List T) (i k : ℕ) : Type ℓ where
    index : find_from i xs ≡ some (i + k)
    within : k < length xs
    element : get_elem? xs k ≡ taken match_it xs
    others : remove_index xs k ≡ left match_it xs

  find_from-IsFound :
      (xs : List T) (i : ℕ)
      → ((find_from i xs ≡ none) × (taken match_it xs ≡ none) × (left match_it xs ≡ xs))
        ⊎ ((k : ℕ) × IsFound xs i k)
  find_from-IsFound [] i = inl (refl, refl, refl)
  find_from-IsFound (x ∷ xs) i = elim (Bool-cases (match_it x)) [
    | inl hit ↦ inr (
      0,
      record {
        index = rw hit (ap some (omega arith));
        within = omega arith;
        element = rw hit refl;
        others = rw hit refl;
      },
    )
    | inr miss ↦ elim (find_from-IsFound xs (suc i)) [
      | inl (a, b, c) ↦ inl (rw (miss, a) refl, rw (miss, b) refl, rw (miss, c) refl)
      | inr (k, f) ↦ inr (
        suc k,
        record {
          index = rw miss (f.index ∙ ap some (omega arith));
          within = omega (arith, f.within);
          element = rw miss f.element;
          others = rw miss (ap (◌∷◌ x) f.others);
        },
      )
    ]
  ]

  -- RemoveFunc never panics: it returns the first element that matches, if there is one, and the
  -- queue holds the others in their order.
  pub remove_func-Holds :
      (z : T) (q : Queue T) (xs : List T)
      → Holds q xs
      → (q' : Queue T) × (remove_func z match_it q ≡ some (q', taken match_it xs))
        × Holds q' (left match_it xs)
  unfolding remove_func
  remove_func-Holds z q xs h =
      let looped = find_loop-find_from q xs h q.count 0 (omega (arith, h.size)) in
      elim (find_from-IsFound xs 0) [
        | inl (a, b, c) ↦ (q, rw (looped, a, b) refl, rw c h)
        | inr (k, f) ↦
            let (q', v, done, here, held) = remove_at-Holds z q xs k h f.within in
            let index : 0 + k ≡ k = omega arith in
            let same : taken match_it xs ≡ some v = sym f.element ∙ here in
            (q', rw (looped, f.index, index, done, same) refl, rw (← f.others) held)
      ]
