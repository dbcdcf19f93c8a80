-- ===== src/Ratelimit.antt =====
-- backends/learning/backend-concepts/ratelimit (ratelimit.go, and sweepExpired of keyed.go): the
-- in-memory limiters. A time is its nanoseconds since Go's zero time; the clock's reading
-- is an argument of each call. A limit and a window are integers, and behind the guard on them,
-- where they are positive, the numbers `pos_part` of them. A map is an association list, and `none` is an index out of range.
use learn_go.Prelude.{
  ℕ, zero, suc, ◌+◌, ◌-◌, ◌*◌, ◌/◌, ◌%◌, max, Bool, true, false, ◌||◌, ◌&&◌, not, Option, none,
  some, ◌>>=◌, List, [], ◌∷◌, ◌++◌, length, if◌then◌else◌, ltb, leb, ◌==◌,
}
use learn_go.Prelude.Int.{ℤ, pos, pos_part, leb_ℤ}
use learn_go.Prelude.Ordered.{Ordered}
use learn_go.Prelude.Assoc
pub mod Positive
pub mod Sweep
pub mod Log
pub mod Span
pub mod Calls
mod LogCalls
pub mod Aligned
pub mod Fixed
mod FixedCalls
pub mod Response
pub mod Keyed
mod Tests

pub record Decision : Type 0 where
  pub allowed : Bool
  pub limit : ℕ
  pub remaining : ℕ
  pub retry_after : ℕ
  pub reset_in : ℕ
  pub reset_at : ℕ

-- What Allow returns: the error of a limiter without a limit or window, or a decision.
pub data Reply : Type 0 where
  not_configured : Reply
  decided : Decision → Reply

abbrev pub second : ℕ
second = 1000000000

pub ceil_seconds : ℕ → ℕ
ceil_seconds d =
    let seconds = d / second in
    let up = if ltb (seconds * second) d then seconds + 1 else seconds in if ltb up 1 then 1 else up

-- `now.Truncate(d)`
pub truncate : ℕ → ℕ → ℕ
truncate now d = now - now % d

-- The loop of sweepExpired over the map.
pub keep_values {ℓ κ} : {K : Type ℓ} {V : Type κ} → (V → Bool) → List (K × V) → List (K × V)
keep_values expired [] = []
keep_values expired ((k, v) ∷ m) =
    let rest = keep_values expired m in if expired v then rest else (k, v) ∷ rest

-- sweepExpired: the time of the last sweep, and the map. A clock that went back is not `every` on.
pub sweep_expired {ℓ κ} :
    {K : Type ℓ} {V : Type κ} → ℕ → ℕ → ℕ → List (K × V) → (V → Bool) → ℕ × List (K × V)
unfolding keep_values
sweep_expired last now every m expired =
    if ltb (now - last) every then (last, m) else (now, keep_values expired m)

pub record FixedCounter : Type 0 where
  pub start : ℕ
  pub count : ℕ

pub record FixedWindow {ℓ} (K : Type ℓ) : Type ℓ where
  pub limit : ℤ
  pub window : ℤ
  pub windows : List (K × FixedCounter)
  pub last_sweep : ℕ

pub record SlidingLog {ℓ} (K : Type ℓ) : Type ℓ where
  pub limit : ℤ
  pub window : ℤ
  pub hits : List (K × List ℕ)
  pub last_sweep : ℕ

module _ {ℓ} {K : Type ℓ} where
  pub new_fixed_window : ℤ → ℤ → FixedWindow K
  new_fixed_window limit window = record {
    limit = limit;
    window = window;
    windows = [];
    last_sweep = 0;
  }

  pub new_sliding_log : ℤ → ℤ → SlidingLog K
  new_sliding_log limit window = record {
    limit = limit;
    window = window;
    hits = [];
    last_sweep = 0;
  }

-- `!c.start.After(start.Add(-f.Window))`
abbrev pub window_over : ℕ → ℕ → FixedCounter → Bool
window_over start window c = leb (c.start + window) start

-- The counter to use: the one found if it is of this window, else a new one.
abbrev pub current_counter : ℕ → Option FixedCounter → FixedCounter
current_counter start none = record { start = start; count = 0 }
current_counter start (some c) = if c.start == start then c else record { start = start; count = 0 }

module _ {ℓ} {K : Type ℓ} ⦃o : Ordered K⦄ where
  -- FixedWindow.Allow.
  pub fixed_allow : FixedWindow K → ℕ → K → Reply × FixedWindow K
  unfolding truncate sweep_expired
  fixed_allow f now key =
      let start = truncate now (pos_part f.window) in
      let (last, windows) =
        sweep_expired f.last_sweep now (pos_part f.window) f.windows
          (window_over start (pos_part f.window)) in
      let c = current_counter start (Assoc.get windows key) in
      let reset_at = start + pos_part f.window in
      let after = λ (count : ℕ). record f {
        windows = Assoc.put key (record { start = c.start; count = count }) windows;
        last_sweep = last;
      } in
      if leb_ℤ f.limit (pos 0) || leb_ℤ f.window (pos 0)
      then (not_configured, f)
      else if leb (pos_part f.limit) c.count
      then (
        decided (record {
          allowed = false;
          limit = pos_part f.limit;
          remaining = 0;
          retry_after = reset_at - now;
          reset_in = reset_at - now;
          reset_at = reset_at;
        }),
        after c.count,
      )
      else (
        decided (record {
          allowed = true;
          limit = pos_part f.limit;
          remaining = pos_part f.limit - (c.count + 1);
          retry_after = 0;
          reset_in = reset_at - now;
          reset_at = reset_at;
        }),
        after (c.count + 1),
      )

-- `t.After(now.Add(-window))`
abbrev pub in_view : ℕ → ℕ → ℕ → Bool
in_view now window t = ltb now (t + window)

-- The last element, if there is one.
abbrev pub last_of {ℓ} : {A : Type ℓ} → List A → Option A
last_of [] = none
last_of (x ∷ []) = some x
last_of (x ∷ y ∷ s) = last_of (y ∷ s)

-- The closure that SlidingLog.Allow gives to sweepExpired.
abbrev pub log_over : ℕ → ℕ → List ℕ → Bool
log_over now window times = elim (last_of times) [
  | none ↦ true
  | some t ↦ not (in_view now window t)
]

-- The loop over the times that have left the window.
abbrev pub drop_old : ℕ → ℕ → List ℕ → List ℕ
drop_old now window [] = []
drop_old now window (t ∷ times) =
    let rest = drop_old now window times in if in_view now window t then t ∷ times else rest

-- `m[key]` of a map to slices.
abbrev pub or_empty {ℓ} : {A : Type ℓ} → Option (List A) → List A
or_empty none = []
or_empty (some s) = s

-- The end of SlidingLog.Allow: the decision, and the times that it stores.
pub log_decision : ℕ → ℕ → ℕ → List ℕ → Option (Decision × List ℕ)
log_decision limit window now times =
    if leb limit (length times)
    then elim times [
      | [] ↦ none
      | oldest ∷ newer ↦ some (
        record {
          allowed = false;
          limit = limit;
          remaining = 0;
          retry_after = oldest + window - now;
          reset_in = oldest + window - now;
          reset_at = oldest + window;
        },
        oldest ∷ newer,
      )
    ]
    else some (
      record {
        allowed = true;
        limit = limit;
        remaining = limit - length (times ++ now ∷ []);
        retry_after = 0;
        reset_in = window;
        reset_at = now + window;
      },
      times ++ now ∷ [],
    )

module _ {ℓ} {K : Type ℓ} ⦃o : Ordered K⦄ where
  -- SlidingLog.Allow.
  pub sliding_allow : SlidingLog K → ℕ → K → Option (Reply × SlidingLog K)
  unfolding sweep_expired log_decision
  sliding_allow s now key =
      let (last, hits) =
        sweep_expired s.last_sweep now (pos_part s.window) s.hits
          (log_over now (pos_part s.window)) in
      let times = drop_old now (pos_part s.window) (or_empty (Assoc.get hits key)) in
      if leb_ℤ s.limit (pos 0) || leb_ℤ s.window (pos 0)
      then some (not_configured, s)
      else (log_decision (pos_part s.limit) (pos_part s.window) now times >>= λ (d, stored).
          some (decided d, record s { hits = Assoc.put key stored hits; last_sweep = last }))
