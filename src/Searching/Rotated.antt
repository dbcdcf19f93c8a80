-- ===== src/Searching/Rotated.antt =====
-- SearchRotated (dsa/searching/rotated.go): its loop.
use learn_go.Prelude.{
  ℕ, zero, suc, ◌+◌, ◌-◌, ◌/◌, ◌≤◌, ◌<◌, ◌≡◌, ◌≢◌, refl, sym, ◌∙◌, inl, inr, true, false, ◌&&◌, not,
  Option, none, some, List, get_elem?, arith, ltb, lt→ltb, lt_or_ge, Bool-cases,
}
use learn_go.Prelude.Ordered.{Ordered, gt_of_lt}
use learn_go.Searching.{equals, exceeds, at_least, is_below, rotated_loop}
use learn_go.Searching.Order.{
  at_most_of, above_of, same_of, differs_of, equals_of, of_at_least, of_is_below,
}
use learn_go.Searching.Halves.{
  IsRotated, Present, left_half, to_left, left_out, to_right, right_out, shrunk,
}

module _ {ℓ} {K : Type ℓ} ⦃o : Ordered K⦄ where
  module _ (x : ℕ → K) (n p : ℕ) (r : IsRotated x n p) (target : K) where
    -- What an answer of the search means.
    abbrev pub IsAnswer : Option ℕ → Type ℓ
    IsAnswer none = ¬ Present x n p r target 0 n
    IsAnswer (some i) = (i < n) × (x i ≡ target)

    module _ (s : List K) (reads : (i : ℕ) → i < n → get_elem? s i ≡ some (x i)) where
      abbrev pub Searches : ℕ → ℕ → ℕ → Type ℓ
      Searches fuel lo end =
          end ≤ lo + fuel
          → end ≤ n
          → (Present x n p r target 0 n → Present x n p r target lo end)
          → (answer : Option ℕ) × (rotated_loop fuel s target lo end ≡ some answer)
            × IsAnswer answer

      nothing :
          (fuel lo end : ℕ)
          → end ≤ lo
          → (Present x n p r target 0 n → Present x n p r target lo end)
          → (answer : Option ℕ) × (rotated_loop fuel s target lo end ≡ some answer)
            × IsAnswer answer
      nothing zero lo end h all =
          (none, ground arith, λ q. let (i, a, b, e) = all q in absurd (omega arith))
      nothing (suc fuel) lo end h all =
          (none, ground arith, λ q. let (i, a, b, e) = all q in absurd (omega arith))

      abbrev mid : ℕ → ℕ → ℕ
      mid lo end = lo + (end - 1 - lo) / 2

      mid_low : (lo end : ℕ) → lo < end → lo ≤ mid lo end
      mid_low lo end h = ground arith

      mid_high : (lo end : ℕ) → lo < end → mid lo end < end
      mid_high lo end h = ground arith

      -- A round that goes on in a smaller window, which the target does not leave.
      record GoesOn (fuel lo end : ℕ) : Type ℓ where
        lo' : ℕ
        end' : ℕ
        loop : rotated_loop (suc fuel) s target lo end ≡ rotated_loop fuel s target lo' end'
        smaller : end' + lo < end + lo'
        inside : end' ≤ end
        keeps : Present x n p r target lo end → Present x n p r target lo' end'

      module _ (fuel lo end : ℕ) (h : lo < end) (bound : end ≤ n)
          (miss : equals target (x (mid lo end)) ≡ false) where
        some_left : ltb lo end ≡ true
        some_left = lt→ltb lo end h

        at_mid : get_elem? s (mid lo end) ≡ some (x (mid lo end))
        at_mid = reads (mid lo end) (omega (arith, mid_high lo end h))

        at_lo : get_elem? s lo ≡ some (x lo)
        at_lo = reads lo (omega arith)

        at_end : get_elem? s (end - 1) ≡ some (x (end - 1))
        at_end = reads (end - 1) (omega arith)

        differs : x (mid lo end) ≢ target
        differs = differs_of (x (mid lo end)) target miss

        same_round :
            equals (x (mid lo end)) (x lo) ≡ true
            → equals (x (end - 1)) (x (mid lo end)) ≡ true
            → GoesOn fuel lo end
        same_round first last = record {
          lo' = lo + 1;
          end' = end - 1;
          loop = rw (some_left, at_mid, miss, at_lo, at_end, first, last) refl;
          smaller = omega arith;
          inside = omega arith;
          keeps =
              shrunk x n p r target lo (mid lo end) end (mid_low lo end h) (mid_high lo end h) bound
                (λ e. differs (sym (same_of (x lo) (x (mid lo end)) first) ∙ e))
                (λ e. differs (same_of (x (mid lo end)) (x (end - 1)) last ∙ e));
        }

        left_round :
            (equals (x (mid lo end)) (x lo) && equals (x (end - 1)) (x (mid lo end))) ≡ false
            → exceeds (x (mid lo end)) (x lo) ≡ false
            → GoesOn fuel lo end
        left_round unlike le =
            let low = mid_low lo end h in
            let high = mid_high lo end h in
            let m = mid lo end in
            let sorted =
              left_half x n p r target lo m end low high bound (at_most_of (x lo) (x m) le)
                (λ (a, b).
                  let first = equals_of (x lo) (x m) a in
                  let last = equals_of (x m) (x (end - 1)) b in absurd (ground arith)) in
            elim (Bool-cases (at_least (x lo) target && is_below (x m) target)) [
              | inl within ↦
                  let a : at_least (x lo) target ≡ true = ground arith in
                  let b : is_below (x m) target ≡ true = ground arith in
                  record {
                    lo' = lo;
                    end' = m;
                    loop = rw (some_left, at_mid, miss, at_lo, at_end, unlike, le, within) refl;
                    smaller = omega arith;
                    inside = omega arith;
                    keeps =
                        to_left x n p r target lo m end low high bound (of_at_least target (x lo) a)
                          (of_is_below target (x m) b);
                  }
              | inr outside ↦ record {
                lo' = m + 1;
                end' = end;
                loop = rw (some_left, at_mid, miss, at_lo, at_end, unlike, le, outside) refl;
                smaller = omega arith;
                inside = omega arith;
                keeps =
                    left_out x n p r target lo m end low high bound sorted differs
                      (λ (a, b). absurd (ground (arith, gt_of_lt target (x lo))));
              }
            ]

        right_round :
            (equals (x (mid lo end)) (x lo) && equals (x (end - 1)) (x (mid lo end))) ≡ false
            → exceeds (x (mid lo end)) (x lo) ≡ true
            → GoesOn fuel lo end
        right_round unlike above =
            let low = mid_low lo end h in
            let high = mid_high lo end h in
            let m = mid lo end in
            let more = above_of (x lo) (x m) above in
            elim (Bool-cases (exceeds (x m) target && not (exceeds (x (end - 1)) target))) [
              | inl within ↦
                  let a : exceeds (x m) target ≡ true = ground arith in
                  let b : exceeds (x (end - 1)) target ≡ false = ground arith in
                  record {
                    lo' = m + 1;
                    end' = end;
                    loop = rw (some_left, at_mid, miss, at_lo, at_end, unlike, above, within) refl;
                    smaller = omega arith;
                    inside = omega arith;
                    keeps =
                        to_right x n p r target lo m end low high bound more
                          (above_of target (x m) a) (at_most_of target (x (end - 1)) b);
                  }
              | inr outside ↦ record {
                lo' = lo;
                end' = m;
                loop = rw (some_left, at_mid, miss, at_lo, at_end, unlike, above, outside) refl;
                smaller = omega arith;
                inside = omega arith;
                keeps =
                    right_out x n p r target lo m end low high bound more differs
                      (λ (a, b). absurd (ground (arith, gt_of_lt (x m) target)));
              }
            ]

        goes_on : GoesOn fuel lo end
        goes_on =
            elim (Bool-cases
              (equals (x (mid lo end)) (x lo) && equals (x (end - 1)) (x (mid lo end)))) [
                | inl alike ↦ same_round (ground arith) (ground arith)
                | inr unlike ↦ elim (Bool-cases (exceeds (x (mid lo end)) (x lo))) [
                  | inr le ↦ left_round unlike le
                  | inl above ↦ right_round unlike above
                ]
              ]

      pub rotated_loop-IsAnswer : (fuel lo end : ℕ) → Searches fuel lo end
      rotated_loop-IsAnswer zero lo end enough bound all = nothing zero lo end (omega arith) all
      rotated_loop-IsAnswer (suc fuel) lo end enough bound all = elim (lt_or_ge lo end) [
        | inr over ↦ nothing (suc fuel) lo end over all
        | inl h ↦ elim (Bool-cases (equals target (x (mid lo end)))) [
          | inl hit ↦
              let inside = mid_high lo end h in
              (
                some (mid lo end),
                rw (lt→ltb lo end h, reads (mid lo end) (omega arith), hit) refl,
                (omega arith, same_of (x (mid lo end)) target hit),
              )
          | inr miss ↦
              let next = goes_on fuel lo end h bound miss in
              let (answer, done, right) =
                rotated_loop-IsAnswer fuel next.lo' next.end' (omega (arith, next.smaller))
                  (omega (arith, next.inside)) (λ q. next.keeps (all q)) in
              (answer, next.loop ∙ done, right)
        ]
      ]
