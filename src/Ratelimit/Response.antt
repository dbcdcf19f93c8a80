-- ===== src/Ratelimit/Response.antt =====
-- What becomes of a limiter's reply (ratelimit/ratelimit.go): WriteHeaders, FailOpen and Middleware.
-- The headers are the four that WriteHeaders sets, each with the number whose decimal text it
-- holds. A Middleware runs a limiter for a key that its KeyFunc gave; the two bodies are not told.
use learn_go.Prelude.{
  ℕ, zero, suc, ltb, Bool, true, false, ◌&&◌, not, Option, none, some, if◌then◌else◌, max,
}
use learn_go.Ratelimit.{Decision, Reply, not_configured, decided, second, ceil_seconds}
pub mod Others
pub mod Retry
pub mod Failure

pub record Headers : Type 0 where
  pub limit : Option ℕ
  pub remaining : Option ℕ
  pub reset : Option ℕ
  pub retry_after : Option ℕ

abbrev pub no_headers : Headers
no_headers = record { limit = none; remaining = none; reset = none; retry_after = none }

-- Decision.WriteHeaders.
unfoldable pub write_headers : Decision → Headers → Headers
unfolding ceil_seconds
write_headers d h = record h {
  limit = some d.limit;
  remaining = some (max d.remaining 0);
  reset = if ltb 0 d.reset_in then some (ceil_seconds d.reset_in) else h.reset;
  retry_after =
      if not d.allowed && ltb 0 d.retry_after
      then some (ceil_seconds d.retry_after)
      else h.retry_after;
}

-- FailOpen.Allow, with the reply of its limiter and whether there is an OnError; the second part
-- is whether OnError was called.
unfoldable pub fail_open : Bool → Bool → Reply → Reply × Bool
fail_open is_open on_error (decided d) = (decided d, false)
fail_open is_open on_error not_configured = (
  if is_open
      then decided (record {
        allowed = true;
        limit = 0;
        remaining = 0;
        retry_after = 0;
        reset_in = 0;
        reset_at = 0;
      })
      else decided (record {
        allowed = false;
        limit = 0;
        remaining = 0;
        retry_after = second;
        reset_in = 0;
        reset_at = 0;
      }),
  on_error,
)

-- The answer to a request: 500, 429 with the seconds named in its body, or the next handler's.
pub data Response : Type 0 where
  unavailable : Response
  too_many_requests : Headers → ℕ → Response
  served : Headers → Response

-- What Middleware does with the reply.
abbrev pub answer : Reply → Headers → Response
answer not_configured h = unavailable
answer (decided d) h =
    if not d.allowed
    then too_many_requests (write_headers d h) (ceil_seconds d.retry_after)
    else served (write_headers d h)

-- Middleware.
unfoldable pub middleware {ℓ κ} :
    {K : Type ℓ} {L : Type κ} → (L → ℕ → K → Reply × L) → L → ℕ → K → Headers → Response × L
middleware allow l now key h = let (reply, l') = allow l now key in (answer reply h, l')
