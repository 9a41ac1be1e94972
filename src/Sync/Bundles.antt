-- ===== src/Sync/Bundles.antt =====
-- pkg/service/service.go: BundleService. What the tables users and devices hold is an argument; a
-- statement that fails leaves the database as it is.
use hsync_server.Prelude.{
  ℕ, Bool, true, false, not, ◌||◌, ℤ, Option, none, some, ◌∷◌, Text, text_eq, if◌then◌else◌, lookup,
  insert, delete, any_if,
}
use hsync_server.Sync.Tables.{
  Bundle, Store, is_bundle, bundle_key, exists_by_id, get_bundle, hard_delete_bundle,
  soft_delete_bundle,
}
use hsync_server.Sync.Usage.{
  UserTier, tier_limits, Added, added, not_added, over_quota, try_add, with_bundle, without_bundle,
  remove_usage,
}
use hsync_server.Sync.Guard.{Hook, ReserveError, reserve, active, settle, release}

-- UploadInput, with the bytes that its reader gives.
pub record UploadInput : Type 0 where
  pub bundle_id : Text
  pub device_uuid : Text
  pub lamport_lo : ℤ
  pub lamport_hi : ℤ
  pub event_count : ℤ
  pub size_bytes : ℕ
  pub cipher_id : ℤ
  pub key_generation : ℤ
  pub content : Text

-- Which statements and storage calls of an upload fail. `put_stores` says that a Put that fails has
-- stored the object all the same.
pub record Faults : Type 0 where
  pub exists_fails : Bool
  pub device_fails : Bool
  pub user_fails : Bool
  pub ensure_fails : Bool
  pub add_fails : Bool
  pub create_fails : Bool
  pub put_fails : Bool
  pub put_stores : Bool
  pub hard_delete_fails : Bool
  pub remove_fails : Bool
  pub soft_delete_fails : Bool
  pub blob_delete_fails : Bool

pub data UploadError : Type 0 where
  not_reserved : ReserveError → UploadError
  query_failed bundle_exists device_not_registered device_revoked user_not_found : UploadError
  quota_not_read quota_exceeded not_created not_stored not_settled : UploadError

-- An error or nothing, and whether the guard was settled.
abbrev pub Uploaded : Type 0
Uploaded = Option UploadError × Bool × Store

abbrev pub refused : UploadError → Store → Uploaded
refused e s = (some e, false, s)

abbrev pub DeviceFound : Type 0
DeviceFound = Option (Option ℕ)

module _ (f : Faults) (guard : Option Hook) (now : ℕ) (user : Text) (input : UploadInput) where
  abbrev pub meta : Bundle
  meta = record {
    bundle_id = input.bundle_id;
    user_id = user;
    uploader_device_uuid = input.device_uuid;
    lamport_lo = input.lamport_lo;
    lamport_hi = input.lamport_hi;
    event_count = input.event_count;
    size_bytes = input.size_bytes;
    cipher_id = input.cipher_id;
    key_generation = input.key_generation;
    uploaded_at = now;
    deleted_at = none;
  }

  -- The quota that an upload without a reservation gives back.
  unfoldable pub roll_back : Store → Store
  roll_back s =
      if active guard || f.remove_fails
      then s
      else record s { usage = remove_usage without_bundle user input.size_bytes s.usage }

  -- Put succeeded: settle.
  unfoldable pub settle_bundle : Store → Uploaded
  settle_bundle s = elim guard [
    | none ↦ (none, false, s)
    | some h ↦
        if not (active (some h))
        then (none, false, s)
        else let (ok, s1) = settle h s in
          let s2 =
            if f.soft_delete_fails
            then s1
            else record s1 { bundles = soft_delete_bundle now user input.bundle_id s1.bundles } in
          let s3 =
            if f.blob_delete_fails
            then s2
            else record s2 { blobs = delete (bundle_key user input.bundle_id) s2.blobs } in
          if ok then (none, true, s1) else (some not_settled, false, s3)
  ]

  unfoldable pub drop_bundle_row : Store → Store
  drop_bundle_row s =
      if f.hard_delete_fails
      then s
      else record s { bundles = hard_delete_bundle user input.bundle_id s.bundles }

  -- What a Put that fails leaves in the storage.
  abbrev pub half_put : Store → Store
  half_put s = record s {
    blobs =
        if f.put_stores
        then insert (bundle_key user input.bundle_id) input.content s.blobs
        else s.blobs;
  }

  unfoldable pub put_bundle : Store → Uploaded
  unfolding drop_bundle_row
  put_bundle s =
      if f.put_fails
      then refused not_stored (roll_back (drop_bundle_row (half_put s)))
      else settle_bundle
          (record s { blobs = insert (bundle_key user input.bundle_id) input.content s.blobs })

  -- Create: the primary key is the user and the bundle.
  unfoldable pub create_bundle : Store → Uploaded
  create_bundle s =
      if f.create_fails || any_if (is_bundle user input.bundle_id) s.bundles
      then refused not_created (roll_back s)
      else put_bundle (record s { bundles = meta ∷ s.bundles })

  -- What TryAddBundleUsage answered.
  unfoldable pub after_add : Added → Store → Uploaded
  after_add not_added s = refused quota_not_read s
  after_add over_quota s = refused quota_exceeded s
  after_add added s = create_bundle s

  -- StorageLimit and TryAddBundleUsage, of the tier that the user has.
  abbrev pub count_tier : Option UserTier → Store → Uploaded
  count_tier none s = refused user_not_found s
  count_tier (some t) s =
      let (a, usage) =
        try_add f.ensure_fails f.add_fails with_bundle user input.size_bytes
          (tier_limits t).storage_limit_bytes s.usage in
      after_add a (record s { usage = usage })

  -- The quota, unless a reservation stands for it.
  unfoldable pub count_bundle : Option UserTier → Store → Uploaded
  count_bundle tier s =
      if active guard
      then create_bundle s
      else if f.user_fails
      then refused quota_not_read s
      else count_tier tier s

  -- The checks before the quota. A device is its revocation time, if it has one.
  unfoldable pub checked_bundle : Option UserTier → DeviceFound → Store → Uploaded
  checked_bundle tier device s =
      if f.exists_fails
      then refused query_failed s
      else if exists_by_id input.bundle_id s.bundles
      then refused bundle_exists s
      else if f.device_fails
      then refused query_failed s
      else elim device [
        | none ↦ refused device_not_registered s
        | some (some revoked) ↦ refused device_revoked s
        | some none ↦ count_bundle tier s
      ]

  -- UploadBundle
  unfoldable pub upload_bundle : Option UserTier → DeviceFound → Store → Option UploadError × Store
  upload_bundle tier device s =
      let (denied, s1) = reserve guard s in
      let (e, settled, s2) = checked_bundle tier device s1 in
      elim denied [ some x ↦ (some (not_reserved x), s1) | none ↦ (e, release guard settled s2) ]

pub data DownloadError : Type 0 where
  not_found no_blob : DownloadError

-- DownloadBundle, where the query succeeds; none for an object that the storage does not give.
unfoldable pub download_bundle : Text → Text → Store → Option (Bundle × Text) × Option DownloadError
download_bundle user id s = elim (get_bundle user id s.bundles) [
  | none ↦ (none, some not_found)
  | some b ↦ elim (lookup (bundle_key user id) s.blobs) [
    | none ↦ (none, some no_blob)
    | some content ↦ (some (b, content), none)
  ]
]

pub data DeleteError : Type 0 where
  delete_failed bundle_not_found usage_not_updated : DeleteError

-- RemoveBundleUsage, after SoftDelete.
unfoldable pub after_delete : Bool → Text → ℕ → Store → Option DeleteError × Store
after_delete true user size s = (some usage_not_updated, s)
after_delete false user size s =
    (none, record s { usage = remove_usage without_bundle user size s.usage })

-- DeleteBundle; the flags say whether SoftDelete and RemoveBundleUsage fail.
unfoldable pub delete_bundle : Bool → Bool → ℕ → Text → Text → Store → Option DeleteError × Store
delete_bundle soft_fails remove_fails now user id s =
    if soft_fails then (some delete_failed, s) else elim (get_bundle user id s.bundles) [
      | none ↦ (some bundle_not_found, s)
      | some b ↦
          after_delete remove_fails user b.size_bytes
            (record s { bundles = soft_delete_bundle now user id s.bundles })
    ]
