-- ===== src/Sync/Snapshots.antt =====
-- pkg/service/service.go: SnapshotService, over the same tables as BundleService.
use hsync_server.Prelude.{
  ℕ, zero, suc, Bool, true, false, not, ◌||◌, ℤ, Option, none, some, List, [], ◌∷◌, Text, text_eq,
  if◌then◌else◌, lookup, insert, delete, any_if, leb,
}
use hsync_server.Sync.Tables.{
  Snapshot, Store, is_snapshot, snapshot_key, get_snapshot, hard_delete_snapshot,
  soft_delete_snapshot, count_live_snapshots,
}
use hsync_server.Sync.Usage.{
  UserTier, tier_limits, Added, added, not_added, over_quota, try_add, with_snapshot,
  without_snapshot, remove_usage,
}
use hsync_server.Sync.Guard.{Hook, ReserveError, reserve, active, settle, release}
use hsync_server.Sync.Prune.{prune_oldest}

-- UploadSnapshotInput, with the bytes that its reader gives.
pub record SnapshotInput : Type 0 where
  pub snapshot_id : Text
  pub base_hlc : ℤ
  pub size_bytes : ℕ
  pub cipher_id : ℤ
  pub key_generation : ℤ
  pub content : Text

-- Which statements and storage calls of an upload fail. `put_stores` says that a Put that fails has
-- stored the object all the same. `usage_left` says how many of the updates
-- of the usage after a prune come before one that fails; none where none fails.
pub record SnapshotFaults : Type 0 where
  pub count_fails : Bool
  pub user_fails : Bool
  pub ensure_fails : Bool
  pub add_fails : Bool
  pub create_fails : Bool
  pub put_fails : Bool
  pub put_stores : Bool
  pub hard_delete_fails : Bool
  pub remove_fails : Bool
  pub prune_fails : Bool
  pub usage_left : Option ℕ
  pub soft_delete_fails : Bool
  pub blob_delete_fails : Bool

pub data SnapshotError : Type 0 where
  not_reserved : ReserveError → SnapshotError
  query_failed user_not_found quota_not_read quota_exceeded not_created not_stored : SnapshotError
  not_pruned usage_not_pruned not_settled : SnapshotError

abbrev pub SnapshotUploaded : Type 0
SnapshotUploaded = Option SnapshotError × Bool × Store

abbrev pub snapshot_refused : SnapshotError → Store → SnapshotUploaded
snapshot_refused e s = (some e, false, s)

-- The loop over the pruned rows: whether it went through, and the store after it.
unfoldable pub forget_pruned : Option ℕ → Text → List Snapshot → Store → Bool × Store
forget_pruned fails user [] s = (true, s)
forget_pruned none user (b ∷ bs) s =
    forget_pruned none user bs
      (record s { usage = remove_usage without_snapshot user b.size_bytes s.usage })
forget_pruned (some zero) user (b ∷ bs) s = (false, s)
forget_pruned (some (suc n)) user (b ∷ bs) s =
    forget_pruned (some n) user bs
      (record s { usage = remove_usage without_snapshot user b.size_bytes s.usage })

module _ (f : SnapshotFaults) (guard : Option Hook) (now : ℕ) (user : Text)
    (input : SnapshotInput) where
  abbrev pub snapshot_meta : Snapshot
  snapshot_meta = record {
    snapshot_id = input.snapshot_id;
    user_id = user;
    base_hlc = input.base_hlc;
    size_bytes = input.size_bytes;
    cipher_id = input.cipher_id;
    key_generation = input.key_generation;
    created_at = now;
    deleted_at = none;
  }

  -- The quota that an upload without a reservation gives back.
  unfoldable pub roll_back_snapshot : Store → Store
  roll_back_snapshot s =
      if active guard || f.remove_fails
      then s
      else record s { usage = remove_usage without_snapshot user input.size_bytes s.usage }

  unfoldable pub drop_row : Store → Store
  drop_row s =
      if f.hard_delete_fails
      then s
      else record s { snapshots = hard_delete_snapshot user input.snapshot_id s.snapshots }

  unfoldable pub drop_blob : Store → Store
  drop_blob s =
      if f.blob_delete_fails
      then s
      else record s { blobs = delete (snapshot_key user input.snapshot_id) s.blobs }

  unfoldable pub settle_snapshot : Store → SnapshotUploaded
  settle_snapshot s = elim guard [
    | none ↦ (none, false, s)
    | some h ↦
        if not (active (some h))
        then (none, false, s)
        else let (ok, s1) = settle h s in
          let s2 = if f.soft_delete_fails then s1 else record s1 {
            snapshots = soft_delete_snapshot now user input.snapshot_id s1.snapshots;
          } in
          if ok then (none, true, s1) else (some not_settled, false, drop_blob s2)
  ]

  -- What the loop over the pruned rows came to.
  unfoldable pub after_prune : Bool × Store → SnapshotUploaded
  after_prune (ok, s) = if ok then settle_snapshot s else snapshot_refused usage_not_pruned s

  unfoldable pub prune_snapshots : ℕ → ℕ → Store → SnapshotUploaded
  prune_snapshots count keep s =
      if not (leb keep count)
      then settle_snapshot s
      else if f.prune_fails
      then snapshot_refused not_pruned (roll_back_snapshot (drop_blob (drop_row s)))
      else let (pruned, rows) = prune_oldest now user keep s.snapshots in
        after_prune (forget_pruned f.usage_left user pruned (record s { snapshots = rows }))

  -- What a Put that fails leaves in the storage.
  abbrev pub half_put_snapshot : Store → Store
  half_put_snapshot s = record s {
    blobs =
        if f.put_stores
        then insert (snapshot_key user input.snapshot_id) input.content s.blobs
        else s.blobs;
  }

  unfoldable pub put_snapshot : ℕ → ℕ → Store → SnapshotUploaded
  put_snapshot count keep s =
      if f.put_fails
      then snapshot_refused not_stored (roll_back_snapshot (drop_row (half_put_snapshot s)))
      else prune_snapshots count keep
          (record s { blobs = insert (snapshot_key user input.snapshot_id) input.content s.blobs })

  unfoldable pub create_snapshot : ℕ → ℕ → Store → SnapshotUploaded
  create_snapshot count keep s =
      if f.create_fails || any_if (is_snapshot user input.snapshot_id) s.snapshots
      then snapshot_refused not_created (roll_back_snapshot s)
      else put_snapshot count keep (record s { snapshots = snapshot_meta ∷ s.snapshots })

  -- What TryAddSnapshotUsage answered.
  unfoldable pub after_add_snapshot : ℕ → ℕ → Added → Store → SnapshotUploaded
  after_add_snapshot count keep not_added s = snapshot_refused quota_not_read s
  after_add_snapshot count keep over_quota s = snapshot_refused quota_exceeded s
  after_add_snapshot count keep added s = create_snapshot count keep s

  unfoldable pub count_snapshot : UserTier → ℕ → Store → SnapshotUploaded
  count_snapshot t count s =
      if active guard
      then create_snapshot count (tier_limits t).max_snapshots s
      else let (a, usage) =
          try_add f.ensure_fails f.add_fails with_snapshot user input.size_bytes
            (tier_limits t).storage_limit_bytes s.usage in
        after_add_snapshot count (tier_limits t).max_snapshots a (record s { usage = usage })

  unfoldable pub checked_snapshot : Option UserTier → Store → SnapshotUploaded
  checked_snapshot tier s =
      if f.count_fails
      then snapshot_refused query_failed s
      else if f.user_fails
      then snapshot_refused query_failed s
      else elim tier [
        | none ↦ snapshot_refused user_not_found s
        | some t ↦ count_snapshot t (count_live_snapshots user s.snapshots) s
      ]

  -- UploadSnapshot
  unfoldable pub upload_snapshot : Option UserTier → Store → Option SnapshotError × Store
  upload_snapshot tier s =
      let (denied, s1) = reserve guard s in
      let (e, settled, s2) = checked_snapshot tier s1 in
      elim denied [ some x ↦ (some (not_reserved x), s1) | none ↦ (e, release guard settled s2) ]

-- DownloadSnapshot, where the query succeeds; whether the row is missing, or the object.
unfoldable pub download_snapshot : Text → Text → Store → Option (Snapshot × Option Text)
download_snapshot user id s = elim (get_snapshot user id s.snapshots) [
  | none ↦ none
  | some b ↦ some (b, lookup (snapshot_key user id) s.blobs)
]
