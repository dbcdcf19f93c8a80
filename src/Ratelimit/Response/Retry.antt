-- ===== src/Ratelimit/Response/Retry.antt =====
-- The wait that a refused client is told (ratelimit/ratelimit.go), behind the middleware.
use native.Mathlib.Nat.{mod-add-div'}
use learn_go.Prelude.{
  ℕ, ◌+◌, ◌-◌, ◌*◌, ◌≤◌, ◌<◌, ◌≡◌, refl, inl, inr, true, false, ◌||◌, List, arith, leb, lt_or_ge,
}
use learn_go.Prelude.Int.{pos, pos_part, leb_ℤ}
use learn_go.Prelude.Ordered.{Ordered}
use learn_go.Prelude.Assoc.{IsSorted}
use learn_go.Ratelimit.{FixedWindow, fixed_allow, truncate, second, ceil_seconds}
use learn_go.Ratelimit.Positive.{is_configured}
use learn_go.Ratelimit.Fixed.{seen}
use learn_go.Ratelimit.Response.{Headers, too_many_requests, served, write_headers, middleware}
use learn_go.Ratelimit.Response.Others.{
  after_all, AllOthers, after_all-IsPast, call-IsPast, seen-IsPast,
}

-- The seconds named cover the duration.
ceil_seconds_covers : (d : ℕ) → d ≤ ceil_seconds d * second
unfolding ceil_seconds
ceil_seconds_covers d = let rest = mod-add-div' d second in ground arith

module _ {ℓ} {K : Type ℓ} ⦃o : Ordered K⦄ where
  module _ (f : FixedWindow K) (now : ℕ) (key : K) (h : Headers) (l : 0 < pos_part f.limit)
      (w : 0 < pos_part f.window) where
    room :
        (seen f now key).count < pos_part f.limit
        → (h' : Headers) × ((middleware fixed_allow f now key h).0 ≡ served h')
    unfolding fixed_allow middleware
    room less =
        let configured : (leb_ℤ f.limit (pos 0) || leb_ℤ f.window (pos 0)) ≡ false =
          is_configured f.limit f.window l w in
        let space : leb (pos_part f.limit) (seen f now key).count ≡ false = ground arith in
        (
          write_headers
              (record {
                allowed = true;
                limit = pos_part f.limit;
                remaining = pos_part f.limit - ((seen f now key).count + 1);
                retry_after = 0;
                reset_in = truncate now (pos_part f.window) + pos_part f.window - now;
                reset_at = truncate now (pos_part f.window) + pos_part f.window;
              })
              h,
          rw (configured, space) refl,
        )

    full :
        (pos_part f.limit) ≤ (seen f now key).count
        → (h' : Headers) × ((middleware fixed_allow f now key h).0
            ≡ too_many_requests h'
                (ceil_seconds (truncate now (pos_part f.window) + pos_part f.window - now)))
    unfolding fixed_allow middleware
    full more =
        let configured : (leb_ℤ f.limit (pos 0) || leb_ℤ f.window (pos 0)) ≡ false =
          is_configured f.limit f.window l w in
        let no_space : leb (pos_part f.limit) (seen f now key).count ≡ true = ground arith in
        (
          write_headers
              (record {
                allowed = false;
                limit = pos_part f.limit;
                remaining = 0;
                retry_after = truncate now (pos_part f.window) + pos_part f.window - now;
                reset_in = truncate now (pos_part f.window) + pos_part f.window - now;
                reset_at = truncate now (pos_part f.window) + pos_part f.window;
              })
              h,
          rw (configured, no_space) refl,
        )

  -- If a FixedWindow with a positive limit and window answers a request through Middleware with
  -- status 429 and a number of seconds, then the client's next request, after at least so many
  -- seconds, reaches the next handler, whatever requests for other keys come between the two.
  pub retry-middleware :
      (f : FixedWindow K) (now later : ℕ) (key : K) (h h' refusal : Headers) (after : ℕ)
      (between : List (ℕ × K × Headers))
      → 0 < pos_part f.limit
      → 0 < pos_part f.window
      → IsSorted f.windows
      → (middleware fixed_allow f now key h).0 ≡ too_many_requests refusal after
      → AllOthers key between
      → now + after * second ≤ later
      → (answer : Headers) × ((middleware fixed_allow
            (after_all (middleware fixed_allow f now key h).1 between)
            later
            key
            h').0
          ≡ served answer)
  unfolding middleware
  retry-middleware f now later key h h' refusal after between l w s e others wait =
      elim (lt_or_ge (seen f now key).count (pos_part f.limit)) [
        | inl less ↦ let (other, done) = room f now key h l w less in cc (e, done)
        | inr more ↦
            let (other, done) = full f now key h l w more in
            let same : after
                ≡ ceil_seconds (truncate now (pos_part f.window) + pos_part f.window - now) =
              cc (e, done) in
            let covered =
              ceil_seconds_covers (truncate now (pos_part f.window) + pos_part f.window - now) in
            let g = after_all (fixed_allow f now key).1 between in
            let p =
              after_all-IsPast (pos_part f.limit) (pos_part f.window)
                (truncate later (pos_part f.window)) key (fixed_allow f now key).1 between l w
                others (call-IsPast f now later key l w s (omega arith)) in
            room g later key h' (rw p.same_limit l) (rw p.same_window w) (
              rw (seen-IsPast (pos_part f.limit) (pos_part f.window) later key g p, p.same_limit) l)
      ]
