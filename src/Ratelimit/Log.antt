-- ===== src/Ratelimit/Log.antt =====
-- SlidingLog.Allow (ratelimit/ratelimit.go) against the history of the calls that it admitted.
use learn_go.Prelude.{
  ℕ, ◌≤◌, ◌<◌, ◌≡◌, refl, ap, ◌∙◌, sym, inl, inr, true, Option, none, some, List, [], ◌∷◌, ◌++◌,
  length, arith, Bool-cases, lt_or_ge,
}
use learn_go.Prelude.Int.{pos_part}
use learn_go.Prelude.Ordered.{Ordered}
use learn_go.Prelude.Assoc
use learn_go.Prelude.Assoc.{IsSorted}
use learn_go.Ratelimit.{SlidingLog, sweep_expired, log_over, drop_old, or_empty, in_view}
use learn_go.Ratelimit.Sweep.{unless, sweep_expired-IsSwept}
use learn_go.Ratelimit.Span.{
  AllUpTo, AllUpTo-later, AllUpTo-append, AllUpTo-live, IsAscending, live, live-append, live-live,
  drop_old-live, log_over-live, count_in, count_in-live, count_in-append,
}

-- The times stored for a key stand for the history of the calls admitted for it.
pub record IsLog (limit window clock : ℕ) (stored history : List ℕ) : Type 0 where
  pub ascending : IsAscending stored
  pub past : AllUpTo clock stored
  pub past_history : AllUpTo clock history
  pub same : (now : ℕ) → clock ≤ now → live now window history ≡ live now window stored
  pub bounded : (t : ℕ) → count_in window history t ≤ limit

drop_old-IsAscending :
    (now window : ℕ) (s : List ℕ) → IsAscending s → IsAscending (drop_old now window s)
drop_old-IsAscending now window [] a = tt
drop_old-IsAscending now window (x ∷ []) a = ground arith
drop_old-IsAscending now window (x ∷ y ∷ s) a = elim (Bool-cases (in_view now window x)) [
  | inl seen ↦ rw seen a
  | inr old ↦ rw old (drop_old-IsAscending now window (y ∷ s) a.1)
]

live-IsAscending : (now window : ℕ) (s : List ℕ) → IsAscending s → IsAscending (live now window s)
live-IsAscending now window s a =
    rw (drop_old-live now window s a) at (drop_old-IsAscending now window s a)

append-IsAscending :
    (s : List ℕ) (now : ℕ) → IsAscending s → AllUpTo now s → IsAscending (s ++ now ∷ [])
append-IsAscending [] now a p = tt
append-IsAscending (x ∷ []) now a p = (p.0, tt)
append-IsAscending (x ∷ y ∷ s) now a p = (a.0, append-IsAscending (y ∷ s) now a.1 p.1)

-- Time passes.
pub IsLog-later :
    (limit window clock now : ℕ) (stored history : List ℕ)
    → clock ≤ now
    → IsLog limit window clock stored history
    → IsLog limit window now stored history
IsLog-later limit window clock now stored history h l = record {
  ascending = l.ascending;
  past = AllUpTo-later clock now stored h l.past;
  past_history = AllUpTo-later clock now history h l.past_history;
  same = λ later k. l.same later (omega arith);
  bounded = l.bounded;
}

-- The times that are not in view are forgotten.
pub IsLog-live :
    (limit window now : ℕ) (stored history : List ℕ)
    → IsLog limit window now stored history
    → IsLog limit window now (live now window stored) history
IsLog-live limit window now stored history l = record {
  ascending = live-IsAscending now window stored l.ascending;
  past = AllUpTo-live now now window stored l.past;
  past_history = l.past_history;
  same = λ later k. l.same later k ∙ sym (live-live now later window stored k);
  bounded = l.bounded;
}

-- A log that sweepExpired removes is one whose times are not in view.
pub IsLog-none :
    (limit window now : ℕ) (stored history : List ℕ)
    → log_over now window stored ≡ true
    → IsLog limit window now stored history
    → IsLog limit window now [] history
IsLog-none limit window now stored history over l = record {
  ascending = tt;
  past = tt;
  past_history = l.past_history;
  same = λ later k. l.same later k ∙ log_over-live now later window stored l.ascending k over;
  bounded = l.bounded;
}

-- A call is admitted while fewer than the limit are in view.
pub IsLog-admit :
    (limit window now : ℕ) (stored history : List ℕ)
    → 0 < window
    → IsLog limit window now stored history
    → length (live now window stored) < limit
    → IsLog limit window now (live now window stored ++ now ∷ []) (history ++ now ∷ [])
IsLog-admit limit window now stored history pos l room = record {
  ascending =
      append-IsAscending (live now window stored) now
        (live-IsAscending now window stored l.ascending)
        (AllUpTo-live now now window stored l.past);
  past =
      AllUpTo-append now (live now window stored) (now ∷ [])
        (AllUpTo-live now now window stored l.past) (omega arith, tt);
  past_history = AllUpTo-append now history (now ∷ []) l.past_history (omega arith, tt);
  same = λ later k.
      rw
        (
          live-append later window history (now ∷ []),
          live-append later window (live now window stored) (now ∷ []),
          live-live now later window stored k,
          l.same later k,
        )
        refl;
  bounded = λ t.
      let sum = count_in-append window history (now ∷ []) t in
      elim (lt_or_ge t now) [
        | inl before ↦
            let none_new : count_in window (now ∷ []) t ≡ 0 = ground arith in
            omega (arith, l.bounded t)
        | inr after ↦
            let one_new : count_in window (now ∷ []) t ≤ 1 = ground arith in
            let old = count_in-live window now history t after in
            let stored_same = ap length (l.same now (omega arith)) in omega arith
      ];
}

module _ {ℓ} {K : Type ℓ} ⦃o : Ordered K⦄ where
  -- The limiter, seen from one key.
  pub record IsLimiter (clock : ℕ) (key : K) (history : List ℕ) (s : SlidingLog K) : Type ℓ where
    pub sorted : IsSorted s.hits
    pub log :
        IsLog (pos_part s.limit) (pos_part s.window) clock (or_empty (Assoc.get s.hits key)) history

  -- The map behind the sweep of a call.
  abbrev pub behind : SlidingLog K → ℕ → List (K × List ℕ)
  behind s now =
      (sweep_expired s.last_sweep now (pos_part s.window) s.hits
        (log_over now (pos_part s.window))).1

  pub swept :
      (clock now : ℕ) (key : K) (history : List ℕ) (s : SlidingLog K)
      → clock ≤ now
      → IsLimiter clock key history s
      → IsLimiter now key history (record s { hits = behind s now })
  swept clock now key history s h l =
      let sw =
        sweep_expired-IsSwept (log_over now (pos_part s.window)) s.last_sweep now
          (pos_part s.window) s.hits key l.sorted in
      let later =
        IsLog-later (pos_part s.limit) (pos_part s.window) clock now
          (or_empty (Assoc.get s.hits key)) history h l.log in
      record {
        sorted = sw.sorted;
        log = elim sw.entry [
          | inl kept ↦ rw kept later
          | inr cut ↦ rw cut (split (Assoc.get s.hits key) later)
        ];
      }
    where
      split :
          (found : Option (List ℕ))
          → IsLog (pos_part s.limit) (pos_part s.window) now (or_empty found) history
          → IsLog
              (pos_part s.limit)
              (pos_part s.window)
              now
              (or_empty (unless (log_over now (pos_part s.window)) found))
              history
      split none g = g
      split (some times) g = elim (Bool-cases (log_over now (pos_part s.window) times)) [
        | inl over ↦
            rw over (IsLog-none (pos_part s.limit) (pos_part s.window) now times history over g)
        | inr on ↦ rw on g
      ]
