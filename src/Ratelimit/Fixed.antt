-- ===== src/Ratelimit/Fixed.antt =====
-- FixedWindow.Allow (ratelimit/ratelimit.go) against the history of the calls that it admitted.
use learn_go.Prelude.{
  ℕ, ◌+◌, ◌≤◌, ◌<◌, ◌≡◌, refl, ◌∙◌, sym, inl, inr, true, false, ◌||◌, Option, none, some, List, [],
  ◌∷◌, ◌++◌, arith, if◌then◌else◌, ltb, leb, Bool-cases, lt_or_ge,
}
use learn_go.Prelude.Int.{pos, pos_part, leb_ℤ}
use learn_go.Prelude.Ordered.{Ordered}
use learn_go.Prelude.Assoc
use learn_go.Prelude.Assoc.{IsSorted}
use learn_go.Ratelimit.{
  Reply, FixedWindow, FixedCounter, fixed_allow, sweep_expired, window_over, current_counter,
  truncate,
}
use learn_go.Ratelimit.Positive.{is_configured}
use learn_go.Ratelimit.Sweep.{unless, sweep_expired-IsSwept}
use learn_go.Ratelimit.Span.{AllUpTo, AllUpTo-later, AllUpTo-append}
use learn_go.Ratelimit.Aligned.{count_at, count_at-append, count_at-later, truncate_order}
use learn_go.Ratelimit.Calls.{admitted, extend}

-- The counter stored for a key stands for the history of the calls admitted for it.
pub record IsTally (limit window clock : ℕ) (stored : Option FixedCounter) (history : List ℕ)
    : Type 0 where
  pub past : AllUpTo clock history
  pub same :
      (start : ℕ)
      → truncate clock window ≤ start
      → count_at window history start ≡ (current_counter start stored).count
  pub bounded : (start : ℕ) → count_at window history start ≤ limit

module _ (limit window clock now : ℕ) (history : List ℕ) where
  IsTally-later :
      (stored : Option FixedCounter)
      → 0 < window
      → clock ≤ now
      → IsTally limit window clock stored history
      → IsTally limit window now stored history
  IsTally-later stored w h l = record {
    past = AllUpTo-later clock now history h l.past;
    same =
        λ start k. let in_order = truncate_order clock now window w h in l.same start (omega arith);
    bounded = l.bounded;
  }

-- The count that a call leaves.
abbrev pub next_count : ℕ → ℕ → ℕ
next_count limit count = if ltb count limit then count + 1 else count

module _ (limit window now : ℕ) (history : List ℕ) where
  -- A counter that sweepExpired removes is of an earlier window.
  IsTally-swept :
      (stored : Option FixedCounter)
      → 0 < window
      → IsTally limit window now stored history
      → IsTally limit window now (unless (window_over (truncate now window) window) stored) history
  IsTally-swept none w l = l
  IsTally-swept (some c) w l = elim (Bool-cases (window_over (truncate now window) window c)) [
    | inl over ↦ rw over (record {
      past = l.past;
      same = λ start k. l.same start k ∙ gone start k over;
      bounded = l.bounded;
    })
    | inr on ↦ rw on l
  ]
    where
      gone :
          (start : ℕ)
          → truncate now window ≤ start
          → window_over (truncate now window) window c ≡ true
          → (current_counter start (some c)).count ≡ 0
      gone start k over = ground arith

  abbrev start_of : ℕ
  start_of = truncate now window

  -- The counter of `start_of` with the count of the history.
  abbrev counter : ℕ → Option FixedCounter
  counter count = some (record { start = start_of; count = count })

  module _ (stored : Option FixedCounter) (w : 0 < window)
      (l : IsTally limit window now stored history) where
    before : (start : ℕ) → start_of < start → count_at window history start ≡ 0
    before start k = count_at-later window now history start w l.past k

    IsTally-room :
        count_at window history start_of < limit
        → IsTally limit window now
            (counter (count_at window history start_of + 1))
            (history ++ now ∷ [])
    IsTally-room room = record {
      past = AllUpTo-append now history (now ∷ []) l.past (omega arith, tt);
      same =
          λ start k. ground (arith, count_at-append window history (now ∷ []) start, before start);
      bounded =
          λ start. ground (arith, count_at-append window history (now ∷ []) start, l.bounded start);
    }

    IsTally-full : IsTally limit window now (counter (count_at window history start_of)) history
    IsTally-full = record {
      past = l.past;
      same = λ start k. ground (arith, before start);
      bounded = l.bounded;
    }

    pub IsTally-call :
        (let n = count_at window history start_of in
          IsTally limit window now
            (counter (next_count limit n))
            (extend (ltb n limit) now history))
    IsTally-call = elim (lt_or_ge (count_at window history start_of) limit) [
      | inl less ↦
          let room : ltb (count_at window history start_of) limit ≡ true = ground arith in
          rw room (IsTally-room less)
      | inr more ↦
          let room : ltb (count_at window history start_of) limit ≡ false = ground arith in
          rw room IsTally-full
    ]

pub current_counter-start :
    (start : ℕ) (stored : Option FixedCounter) → (current_counter start stored).start ≡ start
current_counter-start start none = refl
current_counter-start start (some c) = ground arith

module _ {ℓ} {K : Type ℓ} ⦃o : Ordered K⦄ where
  -- The limiter, seen from one key.
  pub record IsLimiter (clock : ℕ) (key : K) (history : List ℕ) (f : FixedWindow K) : Type ℓ where
    pub sorted : IsSorted f.windows
    pub tally :
        IsTally (pos_part f.limit) (pos_part f.window) clock (Assoc.get f.windows key) history

  -- The map behind the sweep of a call.
  abbrev pub behind : FixedWindow K → ℕ → List (K × FixedCounter)
  behind f now =
      (sweep_expired f.last_sweep now (pos_part f.window) f.windows
        (window_over (truncate now (pos_part f.window)) (pos_part f.window))).1

  -- The counter of a call.
  abbrev pub seen : FixedWindow K → ℕ → K → FixedCounter
  seen f now k = current_counter (truncate now (pos_part f.window)) (Assoc.get (behind f now) k)

  pub swept :
      (clock now : ℕ) (key : K) (history : List ℕ) (f : FixedWindow K)
      → 0 < pos_part f.window
      → clock ≤ now
      → IsLimiter clock key history f
      → IsLimiter now key history (record f { windows = behind f now })
  swept clock now key history f w h l =
      let over = window_over (truncate now (pos_part f.window)) (pos_part f.window) in
      let sw =
        sweep_expired-IsSwept over f.last_sweep now (pos_part f.window) f.windows key l.sorted in
      let later =
        IsTally-later (pos_part f.limit) (pos_part f.window) clock now history
          (Assoc.get f.windows key) w h l.tally in
      record {
        sorted = sw.sorted;
        tally = elim sw.entry [
          | inl kept ↦ rw kept later
          | inr cut ↦ rw cut (
              IsTally-swept (pos_part f.limit) (pos_part f.window) now history
                (Assoc.get f.windows key) w later)
        ];
      }

  pub record IsCall (f : FixedWindow K) (now : ℕ) (k : K) (reply : Reply) (f' : FixedWindow K)
      : Type ℓ where
    pub answer : admitted reply ≡ ltb (seen f now k).count (pos_part f.limit)
    pub limit_kept : pos_part f'.limit ≡ pos_part f.limit
    pub window_kept : pos_part f'.window ≡ pos_part f.window
    pub stored :
        f'.windows
        ≡ Assoc.put k
            (record {
              start = (seen f now k).start;
              count = next_count (pos_part f.limit) (seen f now k).count;
            })
            (behind f now)

  pub call :
      (f : FixedWindow K) (now : ℕ) (k : K)
      → 0 < pos_part f.limit
      → 0 < pos_part f.window
      → IsCall f now k (fixed_allow f now k).0 (fixed_allow f now k).1
  unfolding fixed_allow
  call f now k l w =
      let configured : (leb_ℤ f.limit (pos 0) || leb_ℤ f.window (pos 0)) ≡ false =
        is_configured f.limit f.window l w in
      elim (lt_or_ge (seen f now k).count (pos_part f.limit)) [
        | inl less ↦
            let room : leb (pos_part f.limit) (seen f now k).count ≡ false = ground arith in
            let below : ltb (seen f now k).count (pos_part f.limit) ≡ true = ground arith in
            rw (configured, room)
              (record {
                answer = sym below;
                limit_kept = refl;
                window_kept = refl;
                stored = rw below refl;
              })
        | inr more ↦
            let full : leb (pos_part f.limit) (seen f now k).count ≡ true = ground arith in
            let above : ltb (seen f now k).count (pos_part f.limit) ≡ false = ground arith in
            rw (configured, full)
              (record {
                answer = sym above;
                limit_kept = refl;
                window_kept = refl;
                stored = rw above refl;
              })
      ]
