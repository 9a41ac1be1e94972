-- ===== src/RateLimit/Modes.antt =====
-- pkg/middleware/ratelimit.go: fail modes, Redis fallbacks and the runtime policy. A mode is the
-- text that Go's string type holds, and the empty text is "not set".
use hsync_server.Prelude.{Bool, true, false, [], Text, ◌==◌, text_eq, if◌then◌else◌}
use hsync_server.GoStrings.{codes, to_lower, trim_space}

abbrev pub fail_open : Text
fail_open = codes "fail_open"

abbrev pub fail_closed : Text
fail_closed = codes "fail_closed"

unfoldable pub normalize_fail_mode : Text → Text
normalize_fail_mode raw =
    let mode = to_lower (trim_space raw) in if mode == fail_closed then fail_closed else fail_open

unfoldable pub valid_fail_mode : Text → Bool
valid_fail_mode raw =
    let mode = to_lower (trim_space raw) in
    if mode == fail_open then true else if mode == fail_closed then true else false

abbrev pub fallback_memory : Text
fallback_memory = codes "memory"

abbrev pub fallback_deny : Text
fallback_deny = codes "deny"

abbrev pub fallback_disable : Text
fallback_disable = codes "disable"

unfoldable pub normalize_redis_fallback : Text → Text
normalize_redis_fallback raw =
    let mode = to_lower (trim_space raw) in
    if mode == fallback_deny
    then fallback_deny
    else if mode == fallback_disable
    then fallback_disable
    else fallback_memory

unfoldable pub valid_redis_fallback : Text → Bool
valid_redis_fallback raw =
    let mode = to_lower (trim_space raw) in
    if mode == fallback_memory
    then true
    else if mode == fallback_deny
    then true
    else if mode == fallback_disable
    then true
    else false

pub record RuntimeConfig : Type 0 where
  pub fail_mode : Text
  pub public_auth_mode : Text
  pub enterprise_admin_mode : Text
  pub enterprise_billing_mode : Text
  pub redis_unavailable_fallback : Text

unfoldable pub normalize_bucket_fail_mode : Text → Text → Text
normalize_bucket_fail_mode raw fallback =
    let trimmed = trim_space raw in if trimmed == [] then fallback else normalize_fail_mode trimmed

unfoldable pub new_runtime_config : Text → Text → Text → Text → Text → RuntimeConfig
new_runtime_config default_mode public_auth admin billing redis = record {
  fail_mode = normalize_fail_mode default_mode;
  public_auth_mode = normalize_bucket_fail_mode public_auth (normalize_fail_mode default_mode);
  enterprise_admin_mode = normalize_bucket_fail_mode admin (normalize_fail_mode default_mode);
  enterprise_billing_mode = normalize_bucket_fail_mode billing (normalize_fail_mode default_mode);
  redis_unavailable_fallback = normalize_redis_fallback redis;
}

unfoldable pub default_fail_mode : RuntimeConfig → Text
default_fail_mode cfg = if cfg.fail_mode == [] then fail_open else cfg.fail_mode

unfoldable pub public_auth_fail_mode : RuntimeConfig → Text
public_auth_fail_mode cfg =
    if cfg.public_auth_mode == [] then default_fail_mode cfg else cfg.public_auth_mode

unfoldable pub enterprise_admin_fail_mode : RuntimeConfig → Text
enterprise_admin_fail_mode cfg =
    if cfg.enterprise_admin_mode == [] then default_fail_mode cfg else cfg.enterprise_admin_mode

unfoldable pub enterprise_billing_fail_mode : RuntimeConfig → Text
enterprise_billing_fail_mode cfg =
    if cfg.enterprise_billing_mode == [] then default_fail_mode cfg else cfg.enterprise_billing_mode

unfoldable pub redis_fallback : RuntimeConfig → Text
redis_fallback cfg =
    if cfg.redis_unavailable_fallback == [] then fallback_memory else cfg.redis_unavailable_fallback
