-- ===== src/Ratelimit/FixedCalls.antt =====
-- Sequences of calls of FixedWindow.Allow (ratelimit/ratelimit.go).
use Prim.Native.Nat.Ordering.{lt, eq, gt}
use learn_go.Prelude.{
  append-nil, append_assoc, ℕ, ◌-◌, ◌*◌, ◌≤◌, ◌<◌, ◌≡◌, refl, ap, ◌∙◌, sym, Bool, true, false, some,
  List, [], ◌∷◌, ◌++◌, arith, if◌then◌else◌, ltb, Ordering,
}
use learn_go.Prelude.Int.{pos, pos_part}
use learn_go.Prelude.Ordered.{Ordered}
use learn_go.Prelude.Assoc
use learn_go.Prelude.Assoc.{IsSorted}
use learn_go.Prelude.Map
use learn_go.Ratelimit.{Reply, FixedWindow, FixedCounter, new_fixed_window, fixed_allow, truncate}
use learn_go.Ratelimit.Span.{count_in}
use learn_go.Ratelimit.Aligned.{count_at, count_in-count_at}
use learn_go.Ratelimit.Fixed.{
  IsTally, IsTally-call, next_count, current_counter-start, IsLimiter, behind, seen, swept, IsCall,
  call,
}
use learn_go.Ratelimit.Calls.{admitted, extend, counts, AscendFrom, same_choice}

module _ {ℓ} {K : Type ℓ} ⦃o : Ordered K⦄ where
  module _ (clock now : ℕ) (key k : K) (history : List ℕ) (f f' : FixedWindow K)
      (reply : Reply) where
    own-IsTally :
        0 < pos_part f.window
        → IsLimiter now key history (record f { windows = behind f now })
        → (let c = seen f now key in
            IsTally
              (pos_part f.limit)
              (pos_part f.window)
              now
              (some (record { start = c.start; count = next_count (pos_part f.limit) c.count }))
              (extend (ltb c.count (pos_part f.limit)) now history))
    own-IsTally w lim =
        let stored = Assoc.get (behind f now) key in
        let told = lim.tally.same (truncate now (pos_part f.window)) (omega arith) in
        rw (current_counter-start (truncate now (pos_part f.window)) stored, sym told)
          (IsTally-call (pos_part f.limit) (pos_part f.window) now history stored w lim.tally)

    step-IsTally :
        0 < pos_part f.window
        → IsLimiter now key history (record f { windows = behind f now })
        → IsCall f now k reply f'
        → IsTally
            (pos_part f.limit)
            (pos_part f.window)
            now
            (Assoc.get f'.windows key)
            (extend (counts key k reply) now history)
    step-IsTally w lim c =
        rw (c.stored, Map.get-put k key (left (seen f now k)) (behind f now))
          (split (o.cmp key k) refl)
      where
        left : FixedCounter → FixedCounter
        left c = record { start = c.start; count = next_count (pos_part f.limit) c.count }

        split :
            (side : Ordering)
            → o.cmp key k ≡ side
            → IsTally
                (pos_part f.limit)
                (pos_part f.window)
                now
                (elim side [ eq ↦ some (left (seen f now k)) | _ ↦ Assoc.get (behind f now) key ])
                (extend (elim side [ eq ↦ admitted reply | _ ↦ false ]) now history)
        split lt e = lim.tally
        split gt e = lim.tally
        split eq e = rw (c.answer, sym (o.same_of_cmp key k e)) (own-IsTally w lim)

    step :
        clock ≤ now
        → 0 < pos_part f.window
        → IsLimiter clock key history f
        → IsCall f now k reply f'
        → IsLimiter now key (extend (counts key k reply) now history) f'
    step h w l c =
        let lim = swept clock now key history f w h l in
        record {
          sorted = rw c.stored (
              Map.put-IsSorted k
                (record {
                  start = (seen f now k).start;
                  count = next_count (pos_part f.limit) (seen f now k).count;
                })
                (behind f now) lim.sorted);
          tally = rw (c.limit_kept, c.window_kept) (step-IsTally w lim c);
        }

  -- What an exact count of aligned windows admits for `key`: a call for it while fewer than `limit`
  -- of the earlier admitted ones lie in the aligned window of the call.
  abbrev pub has_room : ℕ → ℕ → K → K → List ℕ → ℕ → Bool
  has_room limit window key k history now = elim (o.cmp key k) [
    | eq ↦ ltb (count_at window history (truncate now window)) limit
    | _ ↦ false
  ]

  abbrev pub exact_times : ℕ → ℕ → K → List ℕ → List (ℕ × K) → List ℕ
  exact_times limit window key history [] = []
  exact_times limit window key history ((now, k) ∷ calls) =
      let room = has_room limit window key k history now in
      let rest = exact_times limit window key (extend room now history) calls in
      if room then now ∷ rest else rest

  counts-has_room :
      (now : ℕ) (key k : K) (history : List ℕ) (f f' : FixedWindow K) (reply : Reply)
      → IsLimiter now key history (record f { windows = behind f now })
      → IsCall f now k reply f'
      → counts key k reply ≡ has_room (pos_part f.limit) (pos_part f.window) key k history now
  counts-has_room now key k history f f' reply lim c = split (o.cmp key k) refl
    where
      split :
          (side : Ordering)
          → o.cmp key k ≡ side
          → (let room : Bool = elim side [
            | eq ↦
                ltb
                  (count_at (pos_part f.window) history (truncate now (pos_part f.window)))
                  (pos_part f.limit)
            | _ ↦ false
          ] in
              let counted : Bool = elim side [ eq ↦ admitted reply | _ ↦ false ] in counted ≡ room)
      split lt e = refl
      split gt e = refl
      split eq e =
          let own : count_at (pos_part f.window) history (truncate now (pos_part f.window))
              ≡ (seen f now k).count =
            rw (← o.same_of_cmp key k e)
              (lim.tally.same (truncate now (pos_part f.window)) (omega arith)) in
          rw (c.answer, own) refl

  -- The times of the calls admitted for `key`, in a run of calls.
  abbrev pub admissions : K → FixedWindow K → List (ℕ × K) → List ℕ
  admissions key f [] = []
  admissions key f ((now, k) ∷ calls) =
      let (reply, f') = fixed_allow f now k in
      let rest = admissions key f' calls in if counts key k reply then now ∷ rest else rest

  -- The bound for each aligned window.
  run :
      (limit window clock : ℕ) (key : K) (history : List ℕ) (f : FixedWindow K)
      (calls : List (ℕ × K))
      → 0 < limit
      → 0 < window
      → pos_part f.limit ≡ limit
      → pos_part f.window ≡ window
      → AscendFrom clock calls
      → IsLimiter clock key history f
      → (start : ℕ) → count_at window (history ++ admissions key f calls) start ≤ limit
  run limit window clock key history f [] l w el ew a lim start =
      rw (append-nil, sym el, sym ew) (lim.tally.bounded start)
  run limit window clock key history f ((now, k) ∷ calls) l w el ew a lim start =
      let c = call f now k (rw el l) (rw ew w) in
      let reply = (fixed_allow f now k).0 in
      let f' = (fixed_allow f now k).1 in
      let next = step clock now key k history f f' reply a.0 (rw ew w) lim c in
      first (counts key k reply) (admissions key f' calls) (
        run limit window now key (extend (counts key k reply) now history) f' calls l w
          (c.limit_kept ∙ el) (c.window_kept ∙ ew) a.1 next start)
    where
      first :
          (answer : Bool) (rest : List ℕ)
          → count_at window (extend answer now history ++ rest) start ≤ limit
          → count_at window (history ++ (if answer then now ∷ rest else rest)) start ≤ limit
      first true rest h = rw append_assoc at h
      first false rest h = h

  run_exact :
      (limit window clock : ℕ) (key : K) (history : List ℕ) (f : FixedWindow K)
      (calls : List (ℕ × K))
      → 0 < limit
      → 0 < window
      → pos_part f.limit ≡ limit
      → pos_part f.window ≡ window
      → AscendFrom clock calls
      → IsLimiter clock key history f
      → admissions key f calls ≡ exact_times limit window key history calls
  run_exact limit window clock key history f [] l w el ew a lim = refl
  run_exact limit window clock key history f ((now, k) ∷ calls) l w el ew a lim =
      let c = call f now k (rw el l) (rw ew w) in
      let reply = (fixed_allow f now k).0 in
      let f' = (fixed_allow f now k).1 in
      let next = step clock now key k history f f' reply a.0 (rw ew w) lim c in
      let behind_lim = swept clock now key history f (rw ew w) a.0 lim in
      let room = rw (el, ew) at (counts-has_room now key k history f f' reply behind_lim c) in
      same_choice (counts key k reply) (has_room limit window key k history now) now room (
        run_exact limit window now key (extend (counts key k reply) now history) f' calls l w
          (c.limit_kept ∙ el) (c.window_kept ∙ ew) a.1 next
        ∙ ap (λ (b : Bool). exact_times limit window key (extend b now history) calls) room)

  -- On a new FixedWindow whose limit and window are positive, of calls at times that do not go back
  -- those for a key are admitted for which fewer than `limit` of those admitted before lie in the
  -- aligned window of the call, so that at most `limit` lie in an aligned window, and at most twice
  -- the limit in any span of a window's length.
  pub new_fixed_window-span :
      (limit window : ℕ) (key : K) (calls : List (ℕ × K))
      → 0 < limit
      → 0 < window
      → AscendFrom 0 calls
      → (let times = admissions key (new_fixed_window (pos limit) (pos window)) calls in
          (times ≡ exact_times limit window key [] calls)
          × ((start : ℕ) → count_at window times start ≤ limit)
          × ((t : ℕ) → count_in window times t ≤ 2 * limit))
  unfolding new_fixed_window
  new_fixed_window-span limit window key calls l w a =
      let new = new_fixed_window (pos limit) (pos window) in
      let start : IsLimiter 0 key [] new = record {
        sorted = tt;
        tally = record { past = tt; same = λ start h. refl; bounded = λ start. omega arith };
      } in
      let fresh = run limit window 0 key [] new calls l w refl refl a start in
      let times = admissions key new calls in
      (
        run_exact limit window 0 key [] new calls l w refl refl a start,
        fresh,
        λ t. omega (
          arith,
          count_in-count_at window times t w,
          fresh (truncate t window),
          fresh (truncate t window - window),
        ),
      )
