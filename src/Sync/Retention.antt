-- ===== src/Sync/Retention.antt =====
-- pkg/service/service.go: the purge of rows that were deleted long ago.
use hsync_server.Prelude.{
  ℕ, ◌+◌, Bool, false, ℤ, pos, leb_ℤ, ltb_ℤ, pos_part, Option, none, some, List, [], ◌∷◌, Text,
  text_eq, if◌then◌else◌, delete, keep_if, take, ltb, leb,
}
use hsync_server.Sync.Tables.{Bundle, Store, bundle_key, hard_delete_bundle}

-- RetentionReport and SnapshotReport
pub record RetentionReport : Type 0 where
  pub before : ℕ
  pub expired_bundles : ℕ
  pub expired_bytes : ℕ
  pub failed : ℕ

abbrev pub default_batch : ℤ
default_batch = pos 100

abbrev pub max_batch : ℤ
max_batch = pos 1000

-- normalizeRetentionBatchLimit
unfoldable pub normalize_batch : ℤ → ℤ
normalize_batch limit =
    if leb_ℤ limit (pos 0)
    then default_batch
    else if ltb_ℤ max_batch limit
    then max_batch
    else limit

abbrev pub deleted_before : ℕ → Option ℕ → Bool
deleted_before before none = false
deleted_before before (some t) = ltb t before

abbrev pub deletion_time : Option ℕ → ℕ
deletion_time none = 0
deletion_time (some t) = t

-- ORDER BY deleted_at
unfoldable pub insert_deleted : Bundle → List Bundle → List Bundle
insert_deleted b [] = b ∷ []
insert_deleted b (c ∷ cs) =
    let later = insert_deleted b cs in
    if leb (deletion_time b.deleted_at) (deletion_time c.deleted_at) then b ∷ c ∷ cs else c ∷ later

unfoldable pub oldest_deleted : List Bundle → List Bundle
unfolding insert_deleted
oldest_deleted [] = []
oldest_deleted (b ∷ bs) = insert_deleted b (oldest_deleted bs)

-- ListDeletedBefore
unfoldable pub list_deleted_before : ℕ → ℤ → List Bundle → List Bundle
unfolding oldest_deleted normalize_batch
list_deleted_before before limit bs =
    take (pos_part (normalize_batch limit))
      (oldest_deleted (keep_if (λ b. deleted_before before b.deleted_at) bs))

-- The blob storage and the table may refuse a key or a row.
module _ (blob_fails : Text → Bool) (row_fails : Text → Text → Bool) where
  -- One round of the loop of purgeExpiredBundles.
  unfoldable pub purge_one : Bundle → RetentionReport × Store → RetentionReport × Store
  purge_one b (report, s) =
      let key = bundle_key b.user_id b.bundle_id in
      let s1 = record s { blobs = delete key s.blobs } in
      if blob_fails key
      then (record report { failed = report.failed + 1 }, s)
      else if row_fails b.user_id b.bundle_id
      then (record report { failed = report.failed + 1 }, s1)
      else (
        record report {
          expired_bundles = report.expired_bundles + 1;
          expired_bytes = report.expired_bytes + b.size_bytes;
        },
        record s1 { bundles = hard_delete_bundle b.user_id b.bundle_id s1.bundles },
      )

  unfoldable pub purge_each : List Bundle → RetentionReport × Store → RetentionReport × Store
  purge_each [] r = r
  purge_each (b ∷ bs) r = purge_each bs (purge_one b r)

  -- purgeExpiredBundles, where neither the context has ended nor the query fails.
  unfoldable pub purge_expired : ℕ → Store → RetentionReport × Store
  purge_expired before s =
      purge_each (list_deleted_before before (pos 100) s.bundles)
        (record { before = before; expired_bundles = 0; expired_bytes = 0; failed = 0 }, s)
