-- ===== src/Ratelimit/Calls.antt =====
-- Sequences of calls of SlidingLog.Allow (ratelimit/ratelimit.go).
use Prim.Native.Nat.Ordering.{eq}
use learn_go.Prelude.{
  ℕ, ◌+◌, ◌-◌, ◌≤◌, ◌<◌, ◌≡◌, refl, inl, inr, Bool, true, false, ◌||◌, some, List, [], ◌∷◌, ◌++◌,
  length, arith, if◌then◌else◌, ltb, leb, lt_or_ge,
}
use learn_go.Prelude.Int.{pos, pos_part, leb_ℤ}
use learn_go.Prelude.Ordered.{Ordered}
use learn_go.Prelude.Assoc
use learn_go.Prelude.Assoc.{IsSorted}
use learn_go.Ratelimit.{
  Decision, Reply, not_configured, decided, SlidingLog, sliding_allow, log_decision, sweep_expired,
  log_over, drop_old, or_empty,
}
use learn_go.Ratelimit.Positive.{is_configured}
use learn_go.Ratelimit.Span.{live, drop_old-live}
use learn_go.Ratelimit.Log.{IsLog, IsLog-live, IsLog-admit, behind}

abbrev pub admitted : Reply → Bool
admitted not_configured = false
admitted (decided d) = d.allowed

-- What is stored after a call: the times in view, with the call's own if there is room for it.
abbrev pub next_times : ℕ → ℕ → List ℕ → List ℕ
next_times limit now times = if ltb (length times) limit then times ++ now ∷ [] else times

log_decision-room :
    (limit window now : ℕ) (times : List ℕ)
    → length times < limit
    → (d : Decision) × (log_decision limit window now times ≡ some (d, times ++ now ∷ []))
      × (d.allowed ≡ true)
unfolding log_decision
log_decision-room limit window now times h =
    let room : leb limit (length times) ≡ false = ground arith in
    (
      record {
        allowed = true;
        limit = limit;
        remaining = limit - length (times ++ now ∷ []);
        retry_after = 0;
        reset_in = window;
        reset_at = now + window;
      },
      rw room refl,
      refl,
    )

log_decision-full :
    (limit window now : ℕ) (times : List ℕ)
    → 0 < limit
    → limit ≤ length times
    → (d : Decision) × (log_decision limit window now times ≡ some (d, times)) × (d.allowed ≡ false)
unfolding log_decision
log_decision-full limit window now [] l h = ground arith
log_decision-full limit window now (x ∷ s) l h =
    let full : leb limit (length (x ∷ s)) ≡ true = ground arith in
    (
      record {
        allowed = false;
        limit = limit;
        remaining = 0;
        retry_after = x + window - now;
        reset_in = x + window - now;
        reset_at = x + window;
      },
      rw full refl,
      refl,
    )

log_decision-next_times :
    (limit window now : ℕ) (times : List ℕ)
    → 0 < limit
    → (d : Decision) × (log_decision limit window now times ≡ some (d, next_times limit now times))
      × (d.allowed ≡ ltb (length times) limit)
log_decision-next_times limit window now times l = elim (lt_or_ge (length times) limit) [
  | inl less ↦
      let room : ltb (length times) limit ≡ true = ground arith in
      rw room (log_decision-room limit window now times less)
  | inr more ↦
      let room : ltb (length times) limit ≡ false = ground arith in
      rw room (log_decision-full limit window now times l more)
]

-- The history of a key with a call at `now`.
abbrev pub extend : Bool → ℕ → List ℕ → List ℕ
extend answer now history = if answer then history ++ now ∷ [] else history

pub same_choice :
    (a b : Bool) (now : ℕ) {xs ys : List ℕ}
    → a ≡ b
    → xs ≡ ys
    → (if a then now ∷ xs else xs) ≡ (if b then now ∷ ys else ys)
same_choice a b now h g = rw (h, g) refl

pub next_times-IsLog :
    (limit window now : ℕ) (stored history : List ℕ)
    → 0 < window
    → IsLog limit window now stored history
    → IsLog limit window now
        (next_times limit now (drop_old now window stored))
        (extend (ltb (length (drop_old now window stored)) limit) now history)
next_times-IsLog limit window now stored history w l =
    rw (drop_old-live now window stored l.ascending)
      (elim (lt_or_ge (length (live now window stored)) limit) [
        | inl less ↦
            let room : ltb (length (live now window stored)) limit ≡ true = ground arith in
            rw room (IsLog-admit limit window now stored history w l less)
        | inr more ↦
            let room : ltb (length (live now window stored)) limit ≡ false = ground arith in
            rw room (IsLog-live limit window now stored history l)
      ])

module _ {ℓ} {K : Type ℓ} ⦃o : Ordered K⦄ where
  -- The times of the key of a call that are in view.
  abbrev pub seen : SlidingLog K → ℕ → K → List ℕ
  seen s now k = drop_old now (pos_part s.window) (or_empty (Assoc.get (behind s now) k))

  pub record IsCall (s : SlidingLog K) (now : ℕ) (k : K) (reply : Reply) (s' : SlidingLog K)
      : Type ℓ where
    pub answer : admitted reply ≡ ltb (length (seen s now k)) (pos_part s.limit)
    pub limit_kept : pos_part s'.limit ≡ pos_part s.limit
    pub window_kept : pos_part s'.window ≡ pos_part s.window
    pub stored :
        s'.hits ≡ Assoc.put k (next_times (pos_part s.limit) now (seen s now k)) (behind s now)

  pub call :
      (s : SlidingLog K) (now : ℕ) (k : K)
      → 0 < pos_part s.limit
      → 0 < pos_part s.window
      → (reply : Reply) × (s' : SlidingLog K) × (sliding_allow s now k ≡ some (reply, s'))
        × IsCall s now k reply s'
  unfolding sliding_allow
  call s now k l w =
      let configured : (leb_ℤ s.limit (pos 0) || leb_ℤ s.window (pos 0)) ≡ false =
        is_configured s.limit s.window l w in
      let (d, done, answered) =
        log_decision-next_times (pos_part s.limit) (pos_part s.window) now (seen s now k) l in
      (
        decided d,
        record s {
          hits = Assoc.put k (next_times (pos_part s.limit) now (seen s now k)) (behind s now);
          last_sweep =
              (sweep_expired s.last_sweep now (pos_part s.window) s.hits
                (log_over now (pos_part s.window))).0;
        },
        rw (configured, done) refl,
        record { answer = answered; limit_kept = refl; window_kept = refl; stored = refl },
      )

  -- Whether a call of `k` counts for `key`.
  abbrev pub counts : K → K → Reply → Bool
  counts key k reply = elim (o.cmp key k) [ eq ↦ admitted reply | _ ↦ false ]

  abbrev pub AscendFrom : ℕ → List (ℕ × K) → Type 0
  AscendFrom clock [] = Unit
  AscendFrom clock ((now, k) ∷ calls) = (clock ≤ now) × AscendFrom now calls
