-- ===== src/Ratelimit/Response/Failure.antt =====
-- What becomes of a limiter's error (ratelimit/ratelimit.go), with FailOpen and without.
use learn_go.Prelude.{ℕ, ◌<◌, ◌≡◌, ◌≢◌, ◌⊎◌, Bool, if◌then◌else◌}
use learn_go.Prelude.Int.{pos_part}
use learn_go.Prelude.Ordered.{Ordered}
use learn_go.Ratelimit.{Decision, Reply, FixedWindow, fixed_allow, second}
use learn_go.Ratelimit.Response.{
  Headers, unavailable, too_many_requests, served, fail_open, middleware,
}

-- FailOpen around a limiter.
abbrev pub guarded {ℓ κ} :
    {K : Type ℓ} {L : Type κ} → Bool → Bool → (L → ℕ → K → Reply × L) → L → ℕ → K → Reply × L
guarded is_open on_error allow l now key =
    let (reply, l') = allow l now key in ((fail_open is_open on_error reply).0, l')

-- The decision of FailOpen where its limiter fails.
abbrev opened : Bool → Decision
opened is_open = record {
  allowed = is_open;
  limit = 0;
  remaining = 0;
  retry_after = if is_open then 0 else second;
  reset_in = 0;
  reset_at = 0;
}

module _ {ℓ} {K : Type ℓ} ⦃o : Ordered K⦄ where
  -- The case of a positive limit and window: no error is answered, and FailOpen makes no difference.
  pub record IsAnswered (is_open on_error : Bool) (f : FixedWindow K) (now : ℕ) (key : K)
      (h : Headers) : Type ℓ where
    pub positive : (0 < pos_part f.limit) × (0 < pos_part f.window)
    pub no_error : (middleware fixed_allow f now key h).0 ≢ unavailable
    pub same :
        middleware (guarded is_open on_error fixed_allow) f now key h
        ≡ middleware fixed_allow f now key h

  -- The case of a limit or window that is 0 or negative: 500, and behind FailOpen the next handler's answer
  -- or 429 with a wait of one second. The limiter is left as it was.
  pub record IsFailed (is_open on_error : Bool) (f : FixedWindow K) (now : ℕ) (key : K)
      (h : Headers) : Type ℓ where
    pub wrong : (pos_part f.limit ≡ 0) ⊎ (pos_part f.window ≡ 0)
    pub error : middleware fixed_allow f now key h ≡ (unavailable, f)
    pub headers : Headers
    pub covered :
        middleware (guarded is_open on_error fixed_allow) f now key h
        ≡ (if is_open then (served headers, f) else (too_many_requests headers 1, f))
