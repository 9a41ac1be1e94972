-- ===== src/Quota/Levels.antt =====
-- The quota events as changes of a level, and the percentage without wrapping.
use Prim.Native.Nat.{min}
use hsync_server.Prelude.{
  quot_pos, wrap_mul, ℕ, ◌*◌, ◌/◌, ◌^◌, ◌<◌, ◌≡◌, ℤ, pos, leb_ℤ, ltb_ℤ, true, ◌&&◌, [], Text,
  if◌then◌else◌, arith, ltb, nat_eqb,
}
use hsync_server.Quota.Thresholds.{
  usage_percent, quota_increase_event, quota_restored, exhausted_event, warning_event,
}

-- 2 for an exhausted quota, 1 for a warning, 0 for neither.
abbrev pub level_of : ℤ → ℤ → ℤ → ℕ
level_of warning_threshold exhausted_threshold percent =
    if leb_ℤ exhausted_threshold percent
    then 2
    else if leb_ℤ warning_threshold percent
    then 1
    else 0

abbrev pub event_of : ℕ → Text
event_of level =
    if nat_eqb level 2 then exhausted_event else if nat_eqb level 1 then warning_event else []

-- With a positive limit and a warning threshold that is not above the other: an event is raised
-- exactly when the level rises, and it is that of the new level; the quota is restored exactly
-- when the level leaves that of an exhausted quota.
pub events_of_levels :
    (before after limit w x : ℤ)
    → ltb_ℤ (pos 0) limit ≡ true
    → leb_ℤ w x ≡ true
    → let old = level_of w x (usage_percent before limit) in
      let new = level_of w x (usage_percent after limit) in
      (quota_increase_event before after limit w x ≡ (if ltb old new then event_of new else []))
      × (quota_restored before after limit x ≡ (nat_eqb old 2 && ltb new 2))
unfolding quota_increase_event quota_restored
events_of_levels before after limit w x p h = (ground arith, ground arith)

-- Where a hundred times the usage stays inside int64, the percentage is that of the usage, rounded
-- down, and at most 100.
pub usage_percent_lem :
    (usage limit : ℕ)
    → 0 < limit
    → usage * 100 < 2 ^ 63
    → usage_percent (pos usage) (pos limit) ≡ pos (min 100 (usage * 100 / limit))
unfolding usage_percent
usage_percent_lem usage limit p small =
    rw (wrap_mul usage 100 small) (rw (quot_pos (usage * 100) limit p) (ground arith))
