-- ===== src/Quota/Tests.antt =====
-- pkg/service/notification.go: the quota thresholds at concrete inputs.
use hsync_server.Prelude.{◌≡◌, refl, pos, ◌*ℤ◌, quot, wrap64, false, arith}
use hsync_server.Quota.Thresholds.{
  usage_percent, quota_increase_event, quota_restored, warning_event,
}
use hsync_server.Quota.Levels.{events_of_levels, usage_percent_lem}

events_of_levels_example :
    (quota_increase_event (pos 700) (pos 850) (pos 1000) (pos 80) (pos 100) ≡ warning_event)
    × (quota_restored (pos 700) (pos 850) (pos 1000) (pos 100) ≡ false)
unfolding usage_percent wrap64 quot ◌*ℤ◌
events_of_levels_example =
    events_of_levels (pos 700) (pos 850) (pos 1000) (pos 80) (pos 100) refl refl

usage_percent_lem_example : usage_percent (pos 999) (pos 1000) ≡ pos 99
usage_percent_lem_example = usage_percent_lem 999 1000 (omega arith) (omega arith)
