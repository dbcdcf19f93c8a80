-- ===== src/Searching/Halves.antt =====
-- The halves of a rotated slice (dsa/searching/rotated.go), as SearchRotated tells them apart.
use learn_go.Prelude.{ℕ, ◌+◌, ◌-◌, ◌≤◌, ◌<◌, ◌≡◌, ◌≢◌, sym, ◌⊎◌, inl, inr, arith, lt_or_ge}
use learn_go.Prelude.Ordered.{Ordered, ◌≺◌}
use learn_go.Searching.Order.{◌≼◌, ≼_same, ≼_trans, ≼_antisym, not_below, lt_or_same}

module _ {ℓ} {K : Type ℓ} ⦃o : Ordered K⦄ where
  -- The elements below n are two ascending runs, and none of the second, from p on, is above one of
  -- the first.
  pub record IsRotated (x : ℕ → K) (n p : ℕ) : Type ℓ where
    pub front : (i j : ℕ) → i ≤ j → j < p → x i ≼ x j
    pub back : (i j : ℕ) → p ≤ i → i ≤ j → j < n → x i ≼ x j
    pub wrap : (i j : ℕ) → i < p → p ≤ j → j < n → x j ≼ x i

  module _ (x : ℕ → K) (n p : ℕ) (r : IsRotated x n p) (target : K) where
    -- The target stands in the window.
    abbrev pub Present : ℕ → ℕ → Type ℓ
    Present lo end = (i : ℕ) × (lo ≤ i) × (i < end) × (x i ≡ target)

    -- A segment is ascending, unless the pivot is inside.
    segment :
        (a b : ℕ)
        → a ≤ b
        → b < n
        → ((i j : ℕ) → a ≤ i → i ≤ j → j ≤ b → x i ≼ x j) ⊎ ((a < p) × (p ≤ b))
    segment a b h k = elim (lt_or_ge a p) [
      | inr beyond ↦ inl (λ i j u v w. r.back i j (omega arith) v (omega arith))
      | inl before ↦ elim (lt_or_ge b p) [
        | inl within ↦ inl (λ i j u v w. r.front i j v (omega arith))
        | inr inside ↦ inr (before, inside)
      ]
    ]

    module _ (lo mid end : ℕ) (low : lo ≤ mid) (high : mid < end) (bound : end ≤ n) where
      -- If the first element is at most the middle one, and not all three are equal, the left half
      -- is ascending.
      pub left_half :
          x lo ≼ x mid
          → ¬ ((x lo ≡ x mid) × (x mid ≡ x (end - 1)))
          → (i j : ℕ) → lo ≤ i
          → i ≤ j
          → j ≤ mid
          → x i ≼ x j
      left_half le apart = elim (segment lo mid low (omega arith)) [
        | inl sorted ↦ sorted
        | inr (before, inside) ↦
            let first = ≼_antisym (x lo) (x mid) le (r.wrap lo mid before inside (omega arith)) in
            let up = r.back mid (end - 1) inside (omega arith) (omega arith) in
            let down = r.wrap lo (end - 1) before (omega arith) (omega arith) in
            absurd (apart (first, ≼_antisym (x mid) (x (end - 1)) up (rw first at down)))
      ]

      -- Otherwise the pivot is in the left half.
      pivot_left : x mid ≺ x lo → (lo < p) × (p ≤ mid)
      pivot_left above = elim (segment lo mid low (omega arith)) [
        | inl sorted ↦
            absurd (not_below (x lo) (x mid) (sorted lo mid (omega arith) low (omega arith)) above)
        | inr inside ↦ inside
      ]

      pub to_left : x lo ≼ target → target ≺ x mid → Present lo end → Present lo mid
      to_left ge less (i, a, b, e) = elim (lt_or_ge i mid) [
        | inl here ↦ (i, a, here, e)
        | inr later ↦
            let under : ¬ (x mid ≼ x i) = λ h. not_below (x mid) (x i) h (rw (sym e) at less) in
            elim (lt_or_ge i p) [
              | inl front ↦ absurd (under (r.front mid i later front))
              | inr back ↦ elim (lt_or_ge lo p) [
                | inr beyond ↦ absurd (under (r.back mid i (omega arith) later (omega arith)))
                | inl before ↦
                    let down = r.wrap lo i before back (omega arith) in
                    let own : x lo ≡ target = ≼_antisym (x lo) target ge (rw e at down) in
                    (lo, omega arith, proper own, own)
              ]
            ]
      ]
        where
          proper : x lo ≡ target → lo < mid
          proper own = elim (lt_or_ge lo mid) [
            | inl less_index ↦ less_index
            | inr same ↦
                let e : lo ≡ mid = omega arith in
                absurd (not_below (x mid) target (≼_same (x mid) target (rw e at own)) less)
          ]

      pub left_out :
          ((i j : ℕ) → lo ≤ i → i ≤ j → j ≤ mid → x i ≼ x j)
          → x mid ≢ target
          → ¬ ((x lo ≼ target) × (target ≺ x mid))
          → Present lo end
          → Present (mid + 1) end
      left_out sorted differs out (i, a, b, e) = elim (lt_or_ge mid i) [
        | inl later ↦ (i, omega arith, b, e)
        | inr here ↦
            let up = sorted lo i (omega arith) a here in
            let down = sorted i mid a here (omega arith) in
            absurd (out (rw e at up, strict (rw e at down)))
      ]
        where
          strict : target ≼ x mid → target ≺ x mid
          strict h = elim (lt_or_same target (x mid) h) [
            | inl less ↦ less
            | inr same ↦ absurd (differs (sym same))
          ]

      pub to_right :
          x mid ≺ x lo
          → x mid ≺ target
          → target ≼ x (end - 1)
          → Present lo end
          → Present (mid + 1) end
      to_right above more le (i, a, b, e) =
          let (before, inside) = pivot_left above in
          elim (lt_or_ge mid i) [
            | inl later ↦ (i, omega arith, b, e)
            | inr here ↦ elim (lt_or_ge i p) [
              | inr back ↦
                  let up = r.back i mid back here (omega arith) in
                  absurd (not_below target (x mid) (rw e at up) more)
              | inl front ↦
                  let up = r.front lo i a front in
                  let down = r.wrap lo (end - 1) before (omega arith) (omega arith) in
                  let own : x (end - 1) ≡ target =
                    ≼_antisym (x (end - 1)) target
                      (≼_trans (x (end - 1)) (x lo) target down (rw e at up)) le in
                  (end - 1, proper own, omega arith, own)
            ]
          ]
        where
          proper : x (end - 1) ≡ target → mid + 1 ≤ end - 1
          proper own = elim (lt_or_ge mid (end - 1)) [
            | inl less_index ↦ omega arith
            | inr same ↦
                let e : end - 1 ≡ mid = omega arith in
                absurd (not_below target (x mid) (≼_same target (x mid) (sym (rw e at own))) more)
          ]

      pub right_out :
          x mid ≺ x lo
          → x mid ≢ target
          → ¬ ((x mid ≺ target) × (target ≼ x (end - 1)))
          → Present lo end
          → Present lo mid
      right_out above differs out (i, a, b, e) =
          let (before, inside) = pivot_left above in
          elim (lt_or_ge i mid) [
            | inl earlier ↦ (i, a, earlier, e)
            | inr here ↦
                let up = r.back mid i inside here (omega arith) in
                let down = r.back i (end - 1) (omega arith) (omega arith) (omega arith) in
                absurd (out (strict (rw e at up), rw e at down))
          ]
        where
          strict : x mid ≼ target → x mid ≺ target
          strict h = elim (lt_or_same (x mid) target h) [
            | inl less ↦ less
            | inr same ↦ absurd (differs same)
          ]

      pub shrunk :
          x lo ≢ target → x (end - 1) ≢ target → Present lo end → Present (lo + 1) (end - 1)
      shrunk first last (i, a, b, e) = elim (lt_or_ge lo i) [
        | inr here ↦ let same : i ≡ lo = omega arith in absurd (first (rw same at e))
        | inl later ↦ elim (lt_or_ge i (end - 1)) [
          | inl earlier ↦ (i, omega arith, earlier, e)
          | inr there ↦ let same : i ≡ end - 1 = omega arith in absurd (last (rw same at e))
        ]
      ]
