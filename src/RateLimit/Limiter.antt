-- ===== src/RateLimit/Limiter.antt =====
-- pkg/middleware/ratelimit.go: the limiters. Time is in nanoseconds since 1970, durations are
-- signed nanoseconds, and int and int64 results are wrapped to 64 bits.
use hsync_server.Prelude.{
  ℕ, ◌/◌, ℤ, pos, ◌+ℤ◌, ◌-ℤ◌, ◌*ℤ◌, quot, wrap64, leb_ℤ, ltb_ℤ, Bool, true, false, ◌||◌, not,
  Option, none, some, [], ◌++◌, Text, Dict, lookup, insert, keep_if, ◌==◌, text_eq, eqb_ℤ,
  if◌then◌else◌,
}
use hsync_server.GoStrings.{codes, format_int}
use hsync_server.RateLimit.Modes.{fallback_memory, fallback_deny, fallback_disable}

pub record Result : Type 0 where
  pub allowed : Bool
  pub limit : ℤ
  pub remaining : ℤ
  pub retry_after : ℤ

-- time.Second
abbrev pub second : ℕ
second = 1_000_000_000

-- now.Unix()
abbrev pub unix : ℕ → ℤ
unix now = pos (now / second)

-- The post-increment count against the limit, and the time to the end of the window.
unfoldable pub decide : ℤ → ℤ → ℤ → ℤ → ℕ → Result
decide count limit bucket window_secs now =
    let reset_at = wrap64 (wrap64 (bucket +ℤ pos 1) *ℤ window_secs) in
    let retry = wrap64 (wrap64 (reset_at -ℤ unix now) *ℤ pos second) in
    let left = wrap64 (limit -ℤ count) in
    record {
      allowed = leb_ℤ count limit;
      limit = limit;
      remaining = if ltb_ℤ left (pos 0) then pos 0 else left;
      retry_after = if ltb_ℤ retry (pos 0) then pos 0 else retry;
    }

unfoldable pub window_seconds : ℤ → ℤ
window_seconds window =
    let secs = quot window (pos second) in if leb_ℤ secs (pos 0) then pos 1 else secs

-- The early return of every Allow: a non-positive limit or window allows the request.
abbrev pub unlimited : ℤ → ℤ → Bool
unlimited limit window = leb_ℤ limit (pos 0) || leb_ℤ window (pos 0)

abbrev pub unlimited_result : ℤ → Result
unlimited_result limit = record {
  allowed = true;
  limit = limit;
  remaining = pos 0;
  retry_after = pos 0;
}

-- DenyLimiter.Allow
unfoldable pub deny_allow : ℤ → ℤ → Result
deny_allow limit window =
    if unlimited limit window
    then unlimited_result limit
    else record { allowed = false; limit = limit; remaining = pos 0; retry_after = window }

-- `expires_at` is in whole seconds since 1970.
pub record MemoryBucket : Type 0 where
  pub bucket : ℤ
  pub count : ℤ
  pub expires_at : ℤ

pub record MemoryLimiter : Type 0 where
  pub buckets : Dict Text MemoryBucket

unfoldable pub new_memory_limiter : MemoryLimiter
new_memory_limiter = record { buckets = [] }

-- The count of the bucket that Allow finds, or that it makes anew.
unfoldable pub count_in : Option MemoryBucket → ℤ → ℤ
count_in none bucket = pos 0
count_in (some b) bucket = if eqb_ℤ b.bucket bucket then b.count else pos 0

-- MemoryLimiter.Allow
unfoldable pub memory_allow : MemoryLimiter → ℕ → Text → ℤ → ℤ → Result × MemoryLimiter
memory_allow m now key limit window =
    if unlimited limit window
    then (unlimited_result limit, m)
    else (let secs = window_seconds window in
        let bucket = quot (unix now) secs in
        let count = wrap64 (count_in (lookup key m.buckets) bucket +ℤ pos 1) in
        let b : MemoryBucket = record {
          bucket = bucket;
          count = count;
          expires_at = wrap64 (wrap64 (bucket +ℤ pos 1) *ℤ secs);
        } in
        (decide count limit bucket secs now, record { buckets = insert key b m.buckets }))

-- now.After(b.expiresAt)
unfoldable pub expired : ℕ → Text × MemoryBucket → Bool
expired now (key, b) = ltb_ℤ (b.expires_at *ℤ pos second) (pos now)

unfoldable pub sweep : MemoryLimiter → ℕ → MemoryLimiter
unfolding expired
sweep m now = record { buckets = keep_if (λ entry. not (expired now entry)) m.buckets }

-- RedisLimiter.Allow. `exec` is what the pipeline of INCR and EXPIRE answers for a key and a time
-- to live: the counter, or none for an error.
unfoldable pub redis_allow : (Text → ℤ → Option ℤ) → ℕ → Text → ℤ → ℤ → Option Result
redis_allow exec now key limit window =
    if unlimited limit window
    then some (unlimited_result limit)
    else (let secs = window_seconds window in
        let bucket = quot (unix now) secs in
        let rkey = codes "ratelimit:" ++ (key ++ (codes ":" ++ format_int bucket)) in
        elim (exec rkey (wrap64 (window +ℤ pos second))) [
          | none ↦ none
          | some counter ↦ some (decide counter limit bucket secs now)
        ])

-- What a Limiter interface value holds.
pub data Limiter : Type 0 where
  deny : Limiter
  memory : MemoryLimiter → Limiter

-- LimiterFallbackResult: no limiter is the nil interface.
pub record Fallback : Type 0 where
  pub limiter : Option Limiter
  pub mode : Text

unfoldable pub new_limiter_for_redis_unavailable : Text → Fallback
unfolding new_memory_limiter
new_limiter_for_redis_unavailable fallback =
    let mode = if fallback == [] then fallback_memory else fallback in
    if mode == fallback_deny
    then record { limiter = some deny; mode = mode }
    else if mode == fallback_disable
    then record { limiter = none; mode = mode }
    else record { limiter = some (memory new_memory_limiter); mode = fallback_memory }
