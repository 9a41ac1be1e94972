-- ===== src/Sync/Tables.antt =====
-- pkg/model/model.go and pkg/repository/repository.go: the tables bundles and snapshots, and the
-- statements on them. A size is that of an uploaded file. Times are nanoseconds since 1970, users
-- and devices the texts of their UUIDs.
use hsync_server.Prelude.{
  ℕ, ◌+◌, Bool, true, false, not, ◌&&◌, ℤ, Option, none, some, List, [], ◌∷◌, ◌++◌, Text, ◌==◌,
  text_eq, if◌then◌else◌, Dict, keep_if, any_if, length,
}
use hsync_server.GoStrings.{codes}

-- BundleMeta
pub record Bundle : Type 0 where
  pub bundle_id : Text
  pub user_id : Text
  pub uploader_device_uuid : Text
  pub lamport_lo : ℤ
  pub lamport_hi : ℤ
  pub event_count : ℤ
  pub size_bytes : ℕ
  pub cipher_id : ℤ
  pub key_generation : ℤ
  pub uploaded_at : ℕ
  pub deleted_at : Option ℕ

-- SnapshotMeta
pub record Snapshot : Type 0 where
  pub snapshot_id : Text
  pub user_id : Text
  pub base_hlc : ℤ
  pub size_bytes : ℕ
  pub cipher_id : ℤ
  pub key_generation : ℤ
  pub created_at : ℕ
  pub deleted_at : Option ℕ

-- QuotaUsage, a row of storage_usage.
pub record Usage : Type 0 where
  pub total_bytes : ℕ
  pub bundle_count : ℕ
  pub snap_count : ℕ

-- What the reservation hook is called for.
pub data HookCall : Type 0 where
  reserve_call release_call : HookCall
  settle_call : Bool → HookCall

-- The database, the blob storage, and the calls of the reservation hook, the last one first.
pub record Store : Type 0 where
  pub bundles : List Bundle
  pub snapshots : List Snapshot
  pub usage : Dict Text Usage
  pub blobs : Dict Text Text
  pub hook_calls : List HookCall

abbrev pub is_live : Option ℕ → Bool
is_live none = true
is_live (some t) = false

-- user_id = $1 AND bundle_id = $2
abbrev pub is_bundle : Text → Text → Bundle → Bool
is_bundle user id b = b.user_id == user && b.bundle_id == id

abbrev pub is_snapshot : Text → Text → Snapshot → Bool
is_snapshot user id b = b.user_id == user && b.snapshot_id == id

-- BundleKey
unfoldable pub bundle_key : Text → Text → Text
bundle_key user id = codes "bundles/" ++ user ++ codes "/" ++ id ++ codes ".hsb"

-- SnapshotKey
unfoldable pub snapshot_key : Text → Text → Text
snapshot_key user id = codes "snapshots/" ++ user ++ codes "/" ++ id ++ codes ".hsb"

-- ExistsByID: of any user, deleted or not.
unfoldable pub exists_by_id : Text → List Bundle → Bool
exists_by_id id bs = any_if (λ b. b.bundle_id == id) bs

-- GetByID
unfoldable pub get_bundle : Text → Text → List Bundle → Option Bundle
get_bundle user id [] = none
get_bundle user id (b ∷ bs) =
    let rest = get_bundle user id bs in
    if is_bundle user id b && is_live b.deleted_at then some b else rest

unfoldable pub get_snapshot : Text → Text → List Snapshot → Option Snapshot
get_snapshot user id [] = none
get_snapshot user id (b ∷ bs) =
    let rest = get_snapshot user id bs in
    if is_snapshot user id b && is_live b.deleted_at then some b else rest

-- HardDelete
unfoldable pub hard_delete_bundle : Text → Text → List Bundle → List Bundle
hard_delete_bundle user id bs = keep_if (λ b. not (is_bundle user id b)) bs

unfoldable pub hard_delete_snapshot : Text → Text → List Snapshot → List Snapshot
hard_delete_snapshot user id bs = keep_if (λ b. not (is_snapshot user id b)) bs

-- SoftDelete: the row that it marks, if there is one, is that of GetByID.
unfoldable pub soft_delete_bundle : ℕ → Text → Text → List Bundle → List Bundle
soft_delete_bundle now user id [] = []
soft_delete_bundle now user id (b ∷ bs) =
    let rest = soft_delete_bundle now user id bs in
    if is_bundle user id b && is_live b.deleted_at
    then record b { deleted_at = some now } ∷ rest
    else b ∷ rest

unfoldable pub soft_delete_snapshot : ℕ → Text → Text → List Snapshot → List Snapshot
soft_delete_snapshot now user id [] = []
soft_delete_snapshot now user id (b ∷ bs) =
    let rest = soft_delete_snapshot now user id bs in
    if is_snapshot user id b && is_live b.deleted_at
    then record b { deleted_at = some now } ∷ rest
    else b ∷ rest

-- The sum of the sizes of a user's rows that are not deleted.
unfoldable pub live_bundle_bytes : Text → List Bundle → ℕ
live_bundle_bytes user [] = 0
live_bundle_bytes user (b ∷ bs) =
    let rest = live_bundle_bytes user bs in
    if b.user_id == user && is_live b.deleted_at then b.size_bytes + rest else rest

unfoldable pub live_snapshot_bytes : Text → List Snapshot → ℕ
live_snapshot_bytes user [] = 0
live_snapshot_bytes user (b ∷ bs) =
    let rest = live_snapshot_bytes user bs in
    if b.user_id == user && is_live b.deleted_at then b.size_bytes + rest else rest

-- COUNT(*) of the rows that are not deleted.
unfoldable pub count_live_bundles : Text → List Bundle → ℕ
count_live_bundles user bs = length (keep_if (λ b. b.user_id == user && is_live b.deleted_at) bs)

unfoldable pub count_live_snapshots : Text → List Snapshot → ℕ
count_live_snapshots user bs = length (keep_if (λ b. b.user_id == user && is_live b.deleted_at) bs)
