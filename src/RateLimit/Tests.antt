-- ===== src/RateLimit/Tests.antt =====
-- pkg/middleware/ratelimit.go: runs at concrete inputs.
use hsync_server.Prelude.{
  ℕ, ◌+◌, ◌*◌, ◌/◌, ◌≡◌, ◌≤◌, ◌↔◌, refl, ℤ, pos, true, false, Option, none, some, List, [], ◌∷◌,
  Text, arith, All, lookup, ◌&&◌, eqb_ℤ, if◌then◌else◌, wrap64, quot, ◌+ℤ◌, ◌-ℤ◌, ◌*ℤ◌, text_eqb,
  text_eqb_iff, ◌⊎◌,
}
use hsync_server.GoStrings.{codes, to_lower, trim_space, format_int}
use hsync_server.RateLimit.Modes.{
  fail_open, fail_closed, normalize_fail_mode, valid_fail_mode, normalize_redis_fallback,
  valid_redis_fallback, fallback_memory, fallback_deny, new_runtime_config, default_fail_mode,
  public_auth_fail_mode, enterprise_billing_fail_mode, enterprise_admin_fail_mode, redis_fallback,
}
use hsync_server.RateLimit.Limiter.{
  Result, second, memory_allow, new_memory_limiter, redis_allow, window_seconds, decide, deny_allow,
  count_in,
}
use hsync_server.RateLimit.Enforce.{RateDecision, enforce, exempt}
use hsync_server.RateLimit.Window.{Held, Event, request, sweeps, InWindow, secs_of}
use hsync_server.RateLimit.Admission.{window_admits, allowed_in}
use hsync_server.RateLimit.Answers.{memory_answer, left_in}
use hsync_server.RateLimit.Policies.{
  enforce_refusals, modes_agree, resolved_modes, retry_at_least_one,
}

abbrev key : Text
key = codes "ip:10.0.0.1"

fresh-Held : Held new_memory_limiter key second 7 0
unfolding new_memory_limiter lookup count_in
fresh-Held = record { is_map = tt; counted = refl; ends = λ v e. cc }

abbrev events : List Event
events =
    request (7 * second) key (pos 2) (pos second)
    ∷ request (7 * second) (codes "other") (pos 0) (pos 1)
    ∷ request (7 * second + 1) key (pos 2) (pos second)
    ∷ sweeps (7 * second + 2)
    ∷ request (7 * second + 3) key (pos 2) (pos second)
    ∷ []

mine-InWindow :
    (now : ℕ) → now / second ≡ 7 → InWindow key 2 second 7 (request now key (pos 2) (pos second))
mine-InWindow now e same = (refl, refl, (omega arith, omega (arith, e)), ground (arith, e))

events-InWindow : All (InWindow key 2 second 7) events
unfolding text_eqb
events-InWindow = (
  mine-InWindow (7 * second) refl,
  (
    λ same. absurd (ground (arith, (text_eqb_iff (codes "other") key).1 same)),
    (mine-InWindow (7 * second + 1) refl, (refl, (mine-InWindow (7 * second + 3) refl, tt))),
  ),
)

window_admits_example : allowed_in key new_memory_limiter events ≡ 2
unfolding text_eqb
window_admits_example =
    window_admits key 2 second 7 events new_memory_limiter (omega arith) (omega arith) (omega arith)
      (omega arith) events-InWindow fresh-Held

memory_answer_example :
    let res = (memory_allow new_memory_limiter (7 * second) key (pos 1) (pos second)).0 in
    (res.allowed ≡ true)
    × (res.limit ≡ pos 1)
    × (res.remaining ≡ pos 0)
    × (res.retry_after ≡ pos (left_in second (7 * second) * second))
    × (1 ≤ left_in second (7 * second))
    × (left_in second (7 * second) ≤ secs_of second)
memory_answer_example =
    memory_answer new_memory_limiter key 1 second 0 (7 * second) (omega arith) (omega arith)
      (omega arith) (omega arith, omega arith) (omega arith) fresh-Held

abbrev refuse : ℕ → Text → ℤ → ℤ → Option Result × ℕ
refuse n k limit window = (some (deny_allow limit window), n + 1)

abbrev decision : RateDecision
decision = record { key = key; limit = pos 5; skip = false; policy = []; fail_mode = fail_closed }

enforce_refusals_example :
    let out = (enforce refuse (some 0) (pos second) decision).0 in
    (out.allowed ≡ false)
    × ((out.allowed ≡ true) ↔ (out.reply ≡ none))
    × (retry_at_least_one out.reply ≡ true)
unfolding exempt deny_allow text_eqb
enforce_refusals_example = enforce_refusals refuse 0 (pos second) decision

modes_agree_example :
    ((valid_fail_mode (codes " Fail_Closed ") ≡ true)
      ↔ ((codes "fail_closed" ≡ codes "fail_open") ⊎ (codes "fail_closed" ≡ codes "fail_closed")))
    × ((valid_redis_fallback (codes " Fail_Closed ") ≡ true) ↔ (
        (codes "fail_closed" ≡ codes "memory")
        ⊎ ((codes "fail_closed" ≡ codes "deny") ⊎ (codes "fail_closed" ≡ codes "disable"))))
    × (normalize_fail_mode (codes " Fail_Closed ") ≡ fail_closed)
    × (normalize_redis_fallback (codes " Fail_Closed ") ≡ fallback_memory)
unfolding valid_fail_mode valid_redis_fallback to_lower trim_space text_eqb
modes_agree_example = modes_agree (codes " Fail_Closed ")

resolved_modes_example :
    let cfg =
      new_runtime_config (codes "FAIL_CLOSED") (codes "open") [] (codes " ") (codes "deny") in
    (default_fail_mode cfg ≡ fail_closed)
    × (public_auth_fail_mode cfg ≡ fail_open)
    × (enterprise_admin_fail_mode cfg ≡ fail_closed)
    × (enterprise_billing_fail_mode cfg ≡ fail_closed)
    × (redis_fallback cfg ≡ fallback_deny)
unfolding normalize_fail_mode normalize_redis_fallback to_lower trim_space text_eqb
resolved_modes_example =
    resolved_modes (codes "FAIL_CLOSED") (codes "open") [] (codes " ") (codes "deny")

redis_key_test :
    redis_allow
      (λ key ttl.
        if text_eqb key (codes "ratelimit:u1:7") && eqb_ℤ ttl (pos (3 * second))
        then some (pos 4)
        else none)
      (15 * second)
      (codes "u1")
      (pos 3)
      (pos (2 * second))
    ≡ some (record { allowed = false; limit = pos 3; remaining = pos 0; retry_after = pos second })
unfolding redis_allow window_seconds format_int decide text_eqb wrap64 quot ◌+ℤ◌ ◌-ℤ◌ ◌*ℤ◌
redis_key_test = refl
