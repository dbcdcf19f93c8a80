-- ===== src/Ratelimit/Tests.antt =====
-- Runs of the limiters, and their theorems at concrete calls.
use learn_go.Prelude.{ℕ, ◌+◌, ◌*◌, ◌≤◌, ◌≡◌, refl, true, false, some, List, [], ◌∷◌, arith}
use learn_go.Prelude.Int.{pos, negsuc}
use learn_go.Prelude.Ordered.{nat_ordered}
use learn_go.Ratelimit.{
  not_configured, second, ceil_seconds, truncate, FixedWindow, SlidingLog, new_fixed_window,
  new_sliding_log, fixed_allow, sliding_allow,
}
use learn_go.Ratelimit.Span.{count_in}
use learn_go.Ratelimit.Aligned.{count_at}
use learn_go.Ratelimit.Calls.{admitted}
use learn_go.Ratelimit.LogCalls.{admissions, exact_times, new_sliding_log-span}
use learn_go.Ratelimit.FixedCalls
use learn_go.Ratelimit.FixedCalls.{new_fixed_window-span}
use learn_go.Ratelimit.Response.{
  Headers, no_headers, unavailable, too_many_requests, served, middleware, write_headers, fail_open,
}
use learn_go.Ratelimit.Response.Others.{after_all}
use learn_go.Ratelimit.Response.Retry.{retry-middleware}
use learn_go.Ratelimit.Keyed.{
  KeyedLimiters, new_keyed_limiters, keyed_get, get_all, keyed_get_again,
}

-- Two clients, 5 and 6, at the end of one window of 10 and at the start of the next.
abbrev requests : List (ℕ × ℕ)
requests =
    (8, 5)
    ∷ (9, 5)
    ∷ (9, 6)
    ∷ (9, 5)
    ∷ (10, 5)
    ∷ (11, 5)
    ∷ (12, 5)
    ∷ (18, 5)
    ∷ (19, 5)
    ∷ (30, 5)
    ∷ []

abbrev small_log : SlidingLog ℕ
small_log = new_sliding_log (pos 2) (pos 10)

abbrev small_window : FixedWindow ℕ
small_window = new_fixed_window (pos 2) (pos 10)

-- The log is exact, and the fixed window lets four calls through in four ticks.
limiters :
    (admissions 5 small_log requests ≡ some (8 ∷ 9 ∷ 18 ∷ 19 ∷ 30 ∷ []))
    × (FixedCalls.admissions 5 small_window requests ≡ 8 ∷ 9 ∷ 10 ∷ 11 ∷ 30 ∷ [])
unfolding new_sliding_log new_fixed_window sliding_allow fixed_allow nat_ordered
limiters = (refl, refl)

headers :
    (ceil_seconds 0 ≡ 1)
    × (ceil_seconds 1000000001 ≡ 2)
    × (truncate 37 10 ≡ 30)
    × (admitted (fail_open true false not_configured).0 ≡ true)
    × ((fail_open false true not_configured).1 ≡ true)
unfolding ceil_seconds truncate fail_open
headers = (refl, refl, refl, refl, refl)

new_sliding_log-span_example :
    (times : List ℕ) × (admissions 5 (new_sliding_log (pos 2) (pos 10)) requests ≡ some times)
    × (times ≡ exact_times 2 10 5 [] requests)
    × ((t : ℕ) → count_in 10 times t ≤ 2)
new_sliding_log-span_example =
    new_sliding_log-span 2 10 5 requests (omega arith) (omega arith) (ground arith)

new_fixed_window-span_example :
    (let times = FixedCalls.admissions 5 (new_fixed_window (pos 2) (pos 10)) requests in
      (times ≡ FixedCalls.exact_times 2 10 5 [] requests)
      × ((start : ℕ) → count_at 10 times start ≤ 2)
      × ((t : ℕ) → count_in 10 times t ≤ 4))
new_fixed_window-span_example =
    new_fixed_window-span 2 10 5 requests (omega arith) (omega arith) (ground arith)

-- A window of three seconds with one call in it.
abbrev used_window : FixedWindow ℕ
used_window = record {
  limit = pos 1;
  window = pos (3 * second);
  windows = (5, record { start = 3 * second; count = 1 }) ∷ [];
  last_sweep = 3 * second;
}

refused :
    (h : Headers) × ((middleware fixed_allow used_window (4 * second) 5 no_headers).0
      ≡ too_many_requests h 2)
unfolding middleware write_headers ceil_seconds fixed_allow nat_ordered
refused =
    (record { limit = some 1; remaining = some 0; reset = some 2; retry_after = some 2 }, refl)

-- Another client's requests while the refused one waits, the last of them after the window's end.
abbrev others : List (ℕ × ℕ × Headers)
others = (5 * second, 4, no_headers) ∷ (6 * second + 1, 7, no_headers) ∷ []

retry-middleware_example :
    (answer : Headers) × ((middleware fixed_allow
        (after_all (middleware fixed_allow used_window (4 * second) 5 no_headers).1 others)
        (7 * second)
        5
        no_headers).0
      ≡ served answer)
retry-middleware_example =
    retry-middleware used_window (4 * second) (7 * second) 5 no_headers no_headers refused.0 2
      others (omega arith) (omega arith) (tt, tt) refused.1 (ground arith) (omega arith)

abbrev no_limiters : KeyedLimiters ℕ ℕ
no_limiters = new_keyed_limiters

-- A call for another key at a time of a sweep.
abbrev other_calls : List (ℕ × ℕ × ℕ)
other_calls = (200 * second, 6, 3) ∷ []

keyed_get_again_example :
    (keyed_get
      (get_all (keyed_get no_limiters (70 * second) 5 1).1 other_calls)
      (600 * second)
      5
      2).0
    ≡ (keyed_get no_limiters (70 * second) 5 1).0
keyed_get_again_example =
    keyed_get_again no_limiters (70 * second) (600 * second) 5 1 2 other_calls tt (ground arith)
      (omega arith)

abbrev wrong_window : FixedWindow ℕ
wrong_window = new_fixed_window (negsuc 4) (pos 10)

-- A negative limit is refused by the code, not taken for a limit of 0 calls.
negative_limit : (middleware fixed_allow wrong_window 70 5 no_headers).0 ≡ unavailable
unfolding middleware fixed_allow new_fixed_window nat_ordered
negative_limit = refl
