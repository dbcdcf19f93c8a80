-- ===== src/Ratelimit/LogCalls.antt =====
-- Runs of SlidingLog.Allow (ratelimit/ratelimit.go).
use Prim.Native.Nat.Ordering.{lt, eq, gt}
use learn_go.Prelude.{
  append-nil, append_assoc, ℕ, ◌≤◌, ◌<◌, ◌≡◌, refl, ap, ◌∙◌, sym, Bool, true, false, Option, some,
  ◌>>=◌, List, [], ◌∷◌, ◌++◌, length, arith, ltb, if◌then◌else◌, Ordering,
}
use learn_go.Prelude.Int.{pos, pos_part}
use learn_go.Prelude.Ordered.{Ordered}
use learn_go.Prelude.Assoc
use learn_go.Prelude.Assoc.{IsSorted}
use learn_go.Prelude.Map
use learn_go.Ratelimit.{Reply, SlidingLog, new_sliding_log, sliding_allow, or_empty}
use learn_go.Ratelimit.Span.{count_in, count_in-now, drop_old-live}
use learn_go.Ratelimit.Log.{IsLog, IsLimiter, behind, swept}
use learn_go.Ratelimit.Calls.{
  admitted, next_times, next_times-IsLog, extend, seen, IsCall, call, counts, AscendFrom,
  same_choice,
}

module _ {ℓ} {K : Type ℓ} ⦃o : Ordered K⦄ where
  -- The times of the calls admitted for `key`, in a run of calls.
  abbrev pub admissions : K → SlidingLog K → List (ℕ × K) → Option (List ℕ)
  admissions key s [] = some []
  admissions key s ((now, k) ∷ calls) = sliding_allow s now k >>= λ (reply, s').
      admissions key s' calls >>= λ rest. some (if counts key k reply then now ∷ rest else rest)

  -- What an exact limiter admits for `key`: a call for it while fewer than `limit` of the earlier
  -- admitted ones lie in the span of a window's length that ends at the call.
  abbrev pub has_room : ℕ → ℕ → K → K → List ℕ → ℕ → Bool
  has_room limit window key k history now = elim (o.cmp key k) [
    | eq ↦ ltb (count_in window history now) limit
    | _ ↦ false
  ]

  abbrev pub exact_times : ℕ → ℕ → K → List ℕ → List (ℕ × K) → List ℕ
  exact_times limit window key history [] = []
  exact_times limit window key history ((now, k) ∷ calls) =
      let room = has_room limit window key k history now in
      let rest = exact_times limit window key (extend room now history) calls in
      if room then now ∷ rest else rest

  module _ (clock now : ℕ) (key k : K) (history : List ℕ) (s s' : SlidingLog K)
      (reply : Reply) where
    seen-count_in :
        IsLimiter now key history (record s { hits = behind s now })
        → length (seen s now key) ≡ count_in (pos_part s.window) history now
    seen-count_in lim =
        let stored = or_empty (Assoc.get (behind s now) key) in
        ap length (
          drop_old-live now (pos_part s.window) stored lim.log.ascending
          ∙ sym (lim.log.same now (omega arith)))
        ∙ sym (count_in-now (pos_part s.window) now history lim.log.past_history)

    counts-has_room :
        IsLimiter now key history (record s { hits = behind s now })
        → IsCall s now k reply s'
        → counts key k reply ≡ has_room (pos_part s.limit) (pos_part s.window) key k history now
    counts-has_room lim c = split (o.cmp key k) refl
      where
        split :
            (side : Ordering)
            → o.cmp key k ≡ side
            → (let room : Bool = elim side [
              | eq ↦ ltb (count_in (pos_part s.window) history now) (pos_part s.limit)
              | _ ↦ false
            ] in
                let counted : Bool = elim side [ eq ↦ admitted reply | _ ↦ false ] in
                counted ≡ room)
        split lt e = refl
        split gt e = refl
        split eq e =
            let own : length (seen s now k) ≡ count_in (pos_part s.window) history now =
              rw (← o.same_of_cmp key k e) (seen-count_in lim) in
            rw (c.answer, own) refl

    step-IsLog :
        0 < pos_part s.window
        → IsLimiter now key history (record s { hits = behind s now })
        → IsCall s now k reply s'
        → IsLog
            (pos_part s.limit)
            (pos_part s.window)
            now
            (or_empty (Assoc.get s'.hits key))
            (extend (counts key k reply) now history)
    step-IsLog w lim c =
        rw
          (
            c.stored,
            Map.get-put k key (next_times (pos_part s.limit) now (seen s now k)) (behind s now),
          )
          (split (o.cmp key k) refl)
      where
        split :
            (side : Ordering)
            → o.cmp key k ≡ side
            → IsLog
                (pos_part s.limit)
                (pos_part s.window)
                now
                (or_empty (elim side [
                  | eq ↦ some (next_times (pos_part s.limit) now (seen s now k))
                  | _ ↦ Assoc.get (behind s now) key
                ]))
                (extend (elim side [ eq ↦ admitted reply | _ ↦ false ]) now history)
        split lt e = lim.log
        split gt e = lim.log
        split eq e =
            rw (c.answer, sym (o.same_of_cmp key k e))
              (next_times-IsLog (pos_part s.limit) (pos_part s.window) now
                (or_empty (Assoc.get (behind s now) key)) history w lim.log)

    step :
        clock ≤ now
        → 0 < pos_part s.window
        → IsLimiter clock key history s
        → IsCall s now k reply s'
        → IsLimiter now key (extend (counts key k reply) now history) s'
    step h w l c =
        let lim = swept clock now key history s h l in
        record {
          sorted = rw c.stored (
              Map.put-IsSorted k (next_times (pos_part s.limit) now (seen s now k)) (behind s now)
                lim.sorted);
          log = rw (c.limit_kept, c.window_kept) (step-IsLog w lim c);
        }

  -- What a run of calls gives a key.
  record IsRun (limit window : ℕ) (key : K) (history : List ℕ) (s : SlidingLog K)
      (calls : List (ℕ × K)) : Type ℓ where
    times : List ℕ
    done : admissions key s calls ≡ some times
    bounded : (t : ℕ) → count_in window (history ++ times) t ≤ limit
    exact : times ≡ exact_times limit window key history calls

  IsRun-first :
      (limit window now : ℕ) (key k : K) (history : List ℕ) (s s' : SlidingLog K)
      (calls : List (ℕ × K)) (reply : Reply)
      → sliding_allow s now k ≡ some (reply, s')
      → counts key k reply ≡ has_room limit window key k history now
      → IsRun limit window key (extend (counts key k reply) now history) s' calls
      → IsRun limit window key history s ((now, k) ∷ calls)
  IsRun-first limit window now key k history s s' calls reply e room rest = record {
    times = if counts key k reply then now ∷ rest.times else rest.times;
    done = rw (e, rest.done) refl;
    bounded = λ t. split (counts key k reply) t (rest.bounded t);
    exact = same_choice (counts key k reply) (has_room limit window key k history now) now room (
        rest.exact
        ∙ ap (λ (b : Bool). exact_times limit window key (extend b now history) calls) room);
  }
    where
      split :
          (answer : Bool) (t : ℕ)
          → count_in window (extend answer now history ++ rest.times) t ≤ limit
          → count_in window (history ++ (if answer then now ∷ rest.times else rest.times)) t ≤ limit
      split true t h = rw append_assoc at h
      split false t h = h

  run :
      (limit window clock : ℕ) (key : K) (history : List ℕ) (s : SlidingLog K)
      (calls : List (ℕ × K))
      → 0 < limit
      → 0 < window
      → pos_part s.limit ≡ limit
      → pos_part s.window ≡ window
      → AscendFrom clock calls
      → IsLimiter clock key history s
      → IsRun limit window key history s calls
  run limit window clock key history s [] l w el ew a lim = record {
    times = [];
    done = refl;
    exact = refl;
    bounded = rw (append-nil, sym el, sym ew) lim.log.bounded;
  }
  run limit window clock key history s ((now, k) ∷ calls) l w el ew a lim =
      let (reply, s', done, c) = call s now k (rw el l) (rw ew w) in
      let next = step clock now key k history s s' reply a.0 (rw ew w) lim c in
      let rest =
        run limit window now key (extend (counts key k reply) now history) s' calls l w
          (c.limit_kept ∙ el) (c.window_kept ∙ ew) a.1 next in
      let lim = swept clock now key history s a.0 lim in
      let room = counts-has_room now now key k history s s' reply lim c in
      IsRun-first limit window now key k history s s' calls reply done (rw (el, ew) at room) rest

  -- On a new SlidingLog whose limit and window are positive, calls at times that do not go back do
  -- not panic. For every key the calls admitted are those for which fewer than `limit` of the calls
  -- admitted before lie in the span of a window's length that ends at the call, so that at most
  -- `limit` lie in any span of a window's length.
  pub new_sliding_log-span :
      (limit window : ℕ) (key : K) (calls : List (ℕ × K))
      → 0 < limit
      → 0 < window
      → AscendFrom 0 calls
      → (times : List ℕ) × (admissions key (new_sliding_log (pos limit) (pos window)) calls
          ≡ some times)
        × (times ≡ exact_times limit window key [] calls)
        × ((t : ℕ) → count_in window times t ≤ limit)
  unfolding new_sliding_log
  new_sliding_log-span limit window key calls l w a =
      let fresh =
        run limit window 0 key [] (new_sliding_log (pos limit) (pos window)) calls l w refl refl a
          (record {
            sorted = tt;
            log = record {
              ascending = tt;
              past = tt;
              past_history = tt;
              same = λ now h. refl;
              bounded = λ t. omega arith;
            };
          }) in
      (fresh.times, fresh.done, fresh.exact, fresh.bounded)
