-- ===== src/Sync/Usage.antt =====
-- pkg/repository/repository.go, QuotaRepo, and pkg/model/model.go, TierLimits. The read cache of
-- GetUsage is left out: what is enforced reads the table.
use hsync_server.Prelude.{
  ℕ, ◌+◌, ◌-◌, ◌*◌, ◌^◌, Bool, none, some, Text, text_eq, if◌then◌else◌, Dict, lookup, insert, leb,
}
use hsync_server.Sync.Tables.{
  Usage, Store, live_bundle_bytes, live_snapshot_bytes, count_live_bundles, count_live_snapshots,
}

-- A tier that is none of the four names counts as free.
pub data UserTier : Type 0 where
  free pro team enterprise unknown : UserTier

pub record QuotaLimits : Type 0 where
  pub storage_limit_bytes : ℕ
  pub max_devices : ℕ
  pub max_bundle_size : ℕ
  pub max_snapshots : ℕ
  pub max_rpm : ℕ
  pub bundle_retention_days : ℕ

abbrev pub mebibyte : ℕ
mebibyte = 1048576

abbrev pub free_limits : QuotaLimits
free_limits = record {
  storage_limit_bytes = 1024 * mebibyte;
  max_devices = 1;
  max_bundle_size = 50 * mebibyte;
  max_snapshots = 1;
  max_rpm = 100;
  bundle_retention_days = 30;
}

-- TierLimits
unfoldable pub tier_limits : UserTier → QuotaLimits
tier_limits free = free_limits
tier_limits pro = record {
  storage_limit_bytes = 10240 * mebibyte;
  max_devices = 5;
  max_bundle_size = 50 * mebibyte;
  max_snapshots = 3;
  max_rpm = 500;
  bundle_retention_days = 90;
}
tier_limits team = record {
  storage_limit_bytes = 51200 * mebibyte;
  max_devices = 20;
  max_bundle_size = 100 * mebibyte;
  max_snapshots = 5;
  max_rpm = 2000;
  bundle_retention_days = 180;
}
tier_limits enterprise = record {
  storage_limit_bytes = 102400 * mebibyte;
  max_devices = 100;
  max_bundle_size = 200 * mebibyte;
  max_snapshots = 10;
  max_rpm = 10000;
  bundle_retention_days = 365;
}
tier_limits unknown = free_limits

abbrev pub no_usage : Usage
no_usage = record { total_bytes = 0; bundle_count = 0; snap_count = 0 }

-- GetUsage from the table: no row reads as no usage.
unfoldable pub usage_of : Text → Dict Text Usage → Usage
usage_of user m = elim (lookup user m) [ none ↦ no_usage | some u ↦ u ]

-- INSERT ... ON CONFLICT DO NOTHING
unfoldable pub ensure_usage : Text → Dict Text Usage → Dict Text Usage
ensure_usage user m = elim (lookup user m) [ none ↦ insert user no_usage m | some u ↦ m ]

pub data Added : Type 0 where
  not_added over_quota added : Added

abbrev pub with_bundle : ℕ → Usage → Usage
with_bundle size u = record u {
  total_bytes = u.total_bytes + size;
  bundle_count = u.bundle_count + 1;
}

abbrev pub with_snapshot : ℕ → Usage → Usage
with_snapshot size u = record u {
  total_bytes = u.total_bytes + size;
  snap_count = u.snap_count + 1;
}

abbrev pub without_bundle : ℕ → Usage → Usage
without_bundle size u = record u {
  total_bytes = u.total_bytes - size;
  bundle_count = u.bundle_count - 1;
}

abbrev pub without_snapshot : ℕ → Usage → Usage
without_snapshot size u = record u {
  total_bytes = u.total_bytes - size;
  snap_count = u.snap_count - 1;
}

-- The conditional UPDATE of TryAddBundleUsage and TryAddSnapshotUsage. A sum outside BIGINT is an
-- error of the statement.
unfoldable pub add_usage :
    (ℕ → Usage → Usage) → Text → ℕ → ℕ → Dict Text Usage → Added × Dict Text Usage
add_usage with_artifact user size limit m =
    let u = usage_of user m in
    if leb (2 ^ 63) (u.total_bytes + size)
    then (not_added, m)
    else if leb (u.total_bytes + size) limit
    then (added, insert user (with_artifact size u) m)
    else (over_quota, m)

-- TryAddBundleUsage and TryAddSnapshotUsage; the flags say which statement fails.
unfoldable pub try_add :
    Bool → Bool → (ℕ → Usage → Usage) → Text → ℕ → ℕ → Dict Text Usage → Added × Dict Text Usage
try_add ensure_fails update_fails with_artifact user size limit m =
    if ensure_fails
    then (not_added, m)
    else if update_fails
    then (not_added, ensure_usage user m)
    else add_usage with_artifact user size limit (ensure_usage user m)

-- RemoveBundleUsage and RemoveSnapshotUsage: an UPDATE, which a missing row leaves as it is.
unfoldable pub remove_usage : (ℕ → Usage → Usage) → Text → ℕ → Dict Text Usage → Dict Text Usage
remove_usage without_artifact user size m = elim (lookup user m) [
  | none ↦ m
  | some u ↦ insert user (without_artifact size u) m
]

-- RecalculateUsage, where its statement succeeds.
unfoldable pub recalculate_usage : Text → Store → Store
recalculate_usage user s = record s {
  usage =
      insert user
        (record {
          total_bytes = live_bundle_bytes user s.bundles + live_snapshot_bytes user s.snapshots;
          bundle_count = count_live_bundles user s.bundles;
          snap_count = count_live_snapshots user s.snapshots;
        })
        s.usage;
}
