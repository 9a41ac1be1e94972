-- ===== src/Quota/Thresholds.antt =====
-- pkg/service/notification.go: usagePercent, quotaIncreaseEvent and quotaRestored.
use hsync_server.Prelude.{
  ℤ, pos, ◌*ℤ◌, quot, wrap64, leb_ℤ, ltb_ℤ, Bool, false, ◌&&◌, [], Text, if◌then◌else◌,
}
use hsync_server.GoStrings.{codes}

unfoldable pub usage_percent : ℤ → ℤ → ℤ
usage_percent usage limit =
    let percent = quot (wrap64 (usage *ℤ pos 100)) limit in
    if leb_ℤ limit (pos 0)
    then pos 0
    else if ltb_ℤ (pos 100) percent
    then pos 100
    else if ltb_ℤ percent (pos 0)
    then pos 0
    else percent

abbrev pub exhausted_event : Text
exhausted_event = codes "exhausted"

abbrev pub warning_event : Text
warning_event = codes "warning"

unfoldable pub quota_increase_event : ℤ → ℤ → ℤ → ℤ → ℤ → Text
quota_increase_event before after limit warning_threshold exhausted_threshold =
    let old = usage_percent before limit in
    let new = usage_percent after limit in
    if leb_ℤ limit (pos 0)
    then []
    else if ltb_ℤ old exhausted_threshold && leb_ℤ exhausted_threshold new
    then exhausted_event
    else if ltb_ℤ old warning_threshold
        && (leb_ℤ warning_threshold new && ltb_ℤ new exhausted_threshold)
    then warning_event
    else []

unfoldable pub quota_restored : ℤ → ℤ → ℤ → ℤ → Bool
quota_restored before after limit exhausted_threshold =
    if leb_ℤ limit (pos 0)
    then false
    else leb_ℤ exhausted_threshold (usage_percent before limit)
      && ltb_ℤ (usage_percent after limit) exhausted_threshold
