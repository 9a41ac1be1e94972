-- ===== src/RateLimit/Enforce.antt =====
-- pkg/middleware/ratelimit.go: EnforceRateLimit and the RateLimit middleware, over any limiter
-- with a state of type S. An answer none stands for the limiter's error.
use hsync_server.Prelude.{
  ℤ, pos, quot, leb_ℤ, ltb_ℤ, Bool, true, false, ◌||◌, Option, none, some, [], Text, ◌==◌, text_eq,
  if◌then◌else◌,
}
use hsync_server.GoStrings.{codes, to_lower, trim_space}
use hsync_server.RateLimit.Modes.{fail_open, fail_closed}
use hsync_server.RateLimit.Limiter.{Result, second}

pub record RateDecision : Type 0 where
  pub key : Text
  pub limit : ℤ
  pub skip : Bool
  pub policy : Text
  pub fail_mode : Text

unfoldable pub normalize_policy : Text → Text
normalize_policy policy =
    let lowered = to_lower (trim_space policy) in if lowered == [] then codes "default" else lowered

unfoldable pub merge_defaults : RateDecision → Text → Text → RateDecision
merge_defaults d policy fail_mode = record d {
  policy = if d.policy == [] then policy else d.policy;
  fail_mode = if d.fail_mode == [] then fail_mode else d.fail_mode;
}

-- The X-RateLimit-Limit and X-RateLimit-Remaining headers.
pub record Headers : Type 0 where
  pub limit : ℤ
  pub remaining : ℤ

-- A 429 response: with the Retry-After header on exhaustion, without it when the limiter failed.
pub data Reply : Type 0 where
  exhausted : ℤ → Reply
  unavailable : Reply

-- RecordRateLimitError(policy, fail mode, action)
pub record ErrorMetric : Type 0 where
  pub policy : Text
  pub fail_mode : Text
  pub denied : Bool

pub record Outcome : Type 0 where
  pub allowed : Bool
  pub headers : Option Headers
  pub reply : Option Reply
  pub metric : Option ErrorMetric

abbrev pub pass : Outcome
pass = record { allowed = true; headers = none; reply = none; metric = none }

-- int(RetryAfter.Seconds()), for waits below 2^22 seconds, where float64 keeps the fraction from
-- rounding up to a second.
unfoldable pub retry_seconds : ℤ → ℤ
retry_seconds retry_after =
    let retry = quot retry_after (pos second) in if ltb_ℤ retry (pos 1) then pos 1 else retry

-- What is done with the limiter's answer; the decision's policy and fail mode are filled in.
unfoldable pub answer : Text → Text → Option Result → Outcome
answer policy fail_mode none =
    if fail_mode == fail_closed
    then record {
      allowed = false;
      headers = none;
      reply = some unavailable;
      metric = some (record { policy = policy; fail_mode = fail_mode; denied = true });
    }
    else record {
      allowed = true;
      headers = none;
      reply = none;
      metric = some (record { policy = policy; fail_mode = fail_mode; denied = false });
    }
answer policy fail_mode (some res) =
    let headers : Headers = record { limit = res.limit; remaining = res.remaining } in
    if res.allowed
    then record { allowed = true; headers = some headers; reply = none; metric = none }
    else record {
      allowed = false;
      headers = some headers;
      reply = some (exhausted (retry_seconds res.retry_after));
      metric = none;
    }

-- Whether EnforceRateLimit returns before it asks the limiter.
unfoldable pub exempt : RateDecision → Bool
exempt d = d.skip || (leb_ℤ d.limit (pos 0) || d.key == [])

module _ {S : Type 0} (allow : S → Text → ℤ → ℤ → Option Result × S) where
  ask : S → ℤ → RateDecision → Outcome × S
  ask s window d =
      let (res, s') = allow s d.key d.limit window in
      (
        answer (normalize_policy d.policy) (if d.fail_mode == [] then fail_open else d.fail_mode)
            res,
        s',
      )

  -- The limiter's state is none for the nil interface.
  unfoldable pub enforce : Option S → ℤ → RateDecision → Outcome × Option S
  unfolding ask
  enforce none window d = (pass, none)
  enforce (some s) window d =
      if exempt d then (pass, some s) else (let (out, s') = ask s window d in (out, some s'))

  -- RateLimit: the handler after it runs exactly when the outcome allows. `classify` is the
  -- decision for the request, none for a missing Classify function.
  unfoldable pub rate_limit : Option S → ℤ → Text → Text → Option RateDecision → Outcome × Option S
  rate_limit none window policy fail_mode classify = (pass, none)
  rate_limit (some s) window policy fail_mode none = (pass, some s)
  rate_limit (some s) window policy fail_mode (some d) =
      enforce (some s) window (merge_defaults d policy fail_mode)
