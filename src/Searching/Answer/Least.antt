-- ===== src/Searching/Answer/Least.antt =====
-- SearchAnswer (dsa/searching/rotated.go) returns the least int for which the test is true.
use learn_go.Prelude.{
  ℕ, zero, suc, ◌+◌, ◌-◌, ◌/◌, ◌%◌, ◌≤◌, ◌<◌, ◌≡◌, ◌≢◌, refl, ap, Bool, true, false, Option, none,
  some, ltb, ◌==◌, arith, inl, inr, Bool-cases, lt_or_ge,
}
use learn_go.Searching.Answer.{
  int_mod, place, midpoint, answer_loop, search_answer, place-midpoint, next_place, previous_place,
  same_of_place,
}

module _ (ok : ℕ → Bool) (first last : ℕ) where
  -- What SearchAnswer promises: the least int of the range for which `ok` is true, if there is one.
  abbrev pub IsLeast : Option ℕ → Type 0
  IsLeast none = (x : ℕ) → x < int_mod → place first ≤ place x → place x ≤ place last → ok x ≡ false
  IsLeast (some r) =
      (r < int_mod)
      × (place first ≤ place r)
      × (place r ≤ place last)
      × (ok r ≡ true)
      × ((x : ℕ) → x < int_mod → place first ≤ place x → place x < place r → ok x ≡ false)

  -- What the loop knows: `ok` is false before the window, and `best` is the int after it.
  abbrev Follows : ℕ → Option ℕ → Type 0
  Follows hi none = place hi ≡ place last
  Follows hi (some b) =
      (b < int_mod) × (place b ≡ place hi + 1) × (place b ≤ place last) × (ok b ≡ true)

  record IsWindow (lo hi : ℕ) (best : Option ℕ) : Type 0 where
    low : lo < int_mod
    high : hi < int_mod
    from : place first ≤ place lo
    to : place hi ≤ place last
    before : (x : ℕ) → x < int_mod → place first ≤ place x → place x < place lo → ok x ≡ false
    after : Follows hi best

  -- The end of the loop, where `ok` is false in what is left of the window.
  finished :
      (lo hi : ℕ) (best : Option ℕ)
      → IsWindow lo hi best
      → ((x : ℕ) → x < int_mod → place first ≤ place x → place x ≤ place hi → ok x ≡ false)
      → place lo ≤ place hi + 1
      → IsLeast best
  finished lo hi none w h k = λ x a b c. h x a b (rw w.after c)
  finished lo hi (some b) w h k =
      let (in_range, next, top, good) = w.after in
      (in_range, omega (arith, w.from), top, good, λ x a c d. h x a c (omega arith))

  module _
      (mono : (x y : ℕ)
        → x < int_mod
        → y < int_mod
        → place x ≤ place y
        → ok x ≡ true
        → ok y ≡ true) where
    below_miss :
        (mid x : ℕ)
        → mid < int_mod
        → x < int_mod
        → ok mid ≡ false
        → place x ≤ place mid
        → ok x ≡ false
    below_miss mid x a b miss h = elim (Bool-cases (ok x)) [
      | inl hit ↦ let also = mono x mid b a h hit in cc (also, miss)
      | inr no_hit ↦ no_hit
    ]

    module _ (lo hi mid : ℕ) (best : Option ℕ) (w : IsWindow lo hi best) (m : mid < int_mod)
        (l : place lo ≤ place mid) (h : place mid ≤ place hi) where
      IsWindow-hit :
          ok mid ≡ true → mid ≢ lo → IsWindow lo ((mid + int_mod - 1) % int_mod) (some mid)
      IsWindow-hit hit other =
          let above : place mid ≢ place lo = λ e. other (same_of_place mid lo m w.low e) in
          let next = previous_place mid m (omega arith) in
          record {
            low = w.low;
            high = omega arith;
            from = w.from;
            to = omega (arith, w.to);
            before = w.before;
            after = (m, omega arith, omega (arith, w.to), hit);
          }

      IsWindow-miss : ok mid ≡ false → mid ≢ hi → IsWindow ((mid + 1) % int_mod) hi best
      IsWindow-miss miss other =
          let under : place mid ≢ place hi = λ e. other (same_of_place mid hi m w.high e) in
          let next = next_place mid m (omega arith) in
          record {
            low = omega arith;
            high = w.high;
            from = omega (arith, w.from);
            to = w.to;
            before = λ x a b c. below_miss mid x m a miss (omega arith);
            after = w.after;
          }

      IsLeast-hit : ok mid ≡ true → mid ≡ lo → IsLeast (some mid)
      IsLeast-hit hit same =
          let same_place = ap place same in
          (
            m,
            omega (arith, w.from),
            omega (arith, w.to),
            hit,
            λ x a b c. w.before x a b (omega arith),
          )

      IsLeast-miss : ok mid ≡ false → mid ≡ hi → IsLeast best
      IsLeast-miss miss same =
          let same_place = ap place same in
          finished lo hi best w (λ x a b c. below_miss mid x m a miss (omega arith)) (omega arith)

    answer_loop-IsLeast :
        (fuel lo hi : ℕ) (best : Option ℕ)
        → place hi + 2 ≤ place lo + fuel
        → place lo ≤ place hi + 1
        → IsWindow lo hi best
        → (r : Option ℕ) × (answer_loop fuel ok lo hi best ≡ some r) × IsLeast r
    unfolding answer_loop
    answer_loop-IsLeast zero lo hi best f k w = absurd (omega arith)
    answer_loop-IsLeast (suc fuel) lo hi best f k w = elim (lt_or_ge (place hi) (place lo)) [
      | inl done ↦
          let stop : ltb (place hi) (place lo) ≡ true = ground arith in
          (best, rw stop refl, finished lo hi best w (λ x a b c. w.before x a b (omega arith)) k)
      | inr wide ↦
          let going : ltb (place hi) (place lo) ≡ false = ground arith in
          let mid = midpoint lo hi in
          let m : mid < int_mod = omega arith in
          let middle : place mid ≡ (place lo + place hi) / 2 =
            place-midpoint lo hi w.low w.high wide in
          let l : place lo ≤ place mid = omega arith in
          let h : place mid ≤ place hi = omega arith in
          elim (Bool-cases (ok mid)) [
            | inl hit ↦ elim (Bool-cases (mid == lo)) [
              | inl same ↦ (
                some mid,
                rw (going, hit, same) refl,
                IsLeast-hit lo hi mid best w m l h hit (ground arith),
              )
              | inr other ↦
                  let apart : mid ≢ lo = ground arith in
                  let above : place mid ≢ place lo = λ e. apart (same_of_place mid lo m w.low e) in
                  let next = previous_place mid m (omega arith) in
                  let (r, done, least) =
                    answer_loop-IsLeast fuel lo ((mid + int_mod - 1) % int_mod) (some mid)
                      (omega arith) (omega arith) (IsWindow-hit lo hi mid best w m l h hit apart) in
                  (r, rw (going, hit, other) done, least)
            ]
            | inr miss ↦ elim (Bool-cases (mid == hi)) [
              | inl same ↦ (
                best,
                rw (going, miss, same) refl,
                IsLeast-miss lo hi mid best w m l h miss (ground arith),
              )
              | inr other ↦
                  let apart : mid ≢ hi = ground arith in
                  let under : place mid ≢ place hi = λ e. apart (same_of_place mid hi m w.high e) in
                  let next = next_place mid m (omega arith) in
                  let (r, done, least) =
                    answer_loop-IsLeast fuel ((mid + 1) % int_mod) hi best (omega arith)
                      (omega arith) (IsWindow-miss lo hi mid best w m l h miss apart) in
                  (r, rw (going, miss, other) done, least)
            ]
          ]
    ]

    -- For every range of ints, up to the whole int64 range, and a test that stays true above an
    -- int for which it is true, SearchAnswer ends and returns the least int of the range for which
    -- it is true, or that there is none.
    pub search_answer-IsLeast :
        first < int_mod
        → last < int_mod
        → (r : Option ℕ) × (search_answer first last ok ≡ some r) × IsLeast r
    unfolding search_answer
    search_answer-IsLeast a b = elim (lt_or_ge (place last) (place first)) [
      | inl empty ↦
          let none_here : ltb (place last) (place first) ≡ true = ground arith in
          (none, rw none_here refl, λ x c d e. absurd (omega arith))
      | inr wide ↦
          let going : ltb (place last) (place first) ≡ false = ground arith in
          rw going (
            answer_loop-IsLeast (place last - place first + 2) first last none (omega arith)
              (omega arith)
              (record {
                low = a;
                high = b;
                from = omega arith;
                to = omega arith;
                before = λ x c d e. absurd (omega arith);
                after = refl;
              }))
    ]
