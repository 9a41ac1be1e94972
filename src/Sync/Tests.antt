-- ===== src/Sync/Tests.antt =====
-- pkg/service/service.go: uploads and purges at concrete inputs.
use Prim.Native.Nat.{min}
use hsync_server.Prelude.{
  ℕ, ◌≤◌, ◌≡◌, ◌≢◌, ◌⊎◌, pos, true, false, none, some, [], ◌∷◌, Text, refl, length, lookup, insert,
  delete, keep_if, any_if, text_eqb, arith, All, if◌then◌else◌, ◌==◌, ◌&&◌, not, text_eq, Bool,
}
use hsync_server.GoStrings.{codes}
use hsync_server.Sync.Tables.{
  Bundle, Snapshot, Store, reserve_call, release_call, settle_call, exists_by_id, get_bundle,
  bundle_key, snapshot_key, soft_delete_snapshot, live_bundle_bytes, live_snapshot_bytes,
  count_live_snapshots, hard_delete_bundle,
}
use hsync_server.Sync.Usage.{
  UserTier, free, tier_limits, try_add, add_usage, ensure_usage, usage_of, remove_usage,
  recalculate_usage,
}
use hsync_server.Sync.Guard.{Hook, active, reserve, release, settle}
use hsync_server.Sync.Bundles.{
  UploadInput, Faults, meta, roll_back, settle_bundle, put_bundle, create_bundle, after_add,
  count_bundle, checked_bundle, upload_bundle, download_bundle, delete_bundle,
}
use hsync_server.Sync.Prune.{prune_oldest, newest_first, kept_ids, mark_pruned, pruned_rows}
use hsync_server.Sync.Snapshots.{
  SnapshotInput, SnapshotFaults, forget_pruned, drop_blob, settle_snapshot, after_prune,
  prune_snapshots, put_snapshot, create_snapshot, count_snapshot, checked_snapshot, not_settled,
  upload_snapshot,
}
use hsync_server.Sync.Retention.{
  purge_each, purge_one, oldest_deleted, insert_deleted, normalize_batch, purge_expired,
  list_deleted_before,
}
use hsync_server.Sync.Covered.{Covered, live_bytes}
use hsync_server.Sync.Promises.{upload-download}
use hsync_server.Sync.Reservations.{reservation_ends}
use hsync_server.Sync.Owned.{IsOwned, purge_expired-IsOwned}
use hsync_server.Sync.OwnedUploads.{upload_bundle-IsOwned}
use hsync_server.Sync.Keys.{bundle_key_injective}
use hsync_server.Sync.Expired.{
  IsOld, is_expired, spared, is_taken, key_of, bytes_of, purge_takes_expired,
}
use hsync_server.Sync.History.{
  Calls, start, next, bundle_call, delete_call, recalculate_call, calls-Covered, calls_within_limit,
}

abbrev no_faults : Faults
no_faults = record {
  exists_fails = false;
  device_fails = false;
  user_fails = false;
  ensure_fails = false;
  add_fails = false;
  create_fails = false;
  put_fails = false;
  put_stores = false;
  hard_delete_fails = false;
  remove_fails = false;
  soft_delete_fails = false;
  blob_delete_fails = false;
}

abbrev alice : Text
alice = codes "a1"

abbrev input : Text → ℕ → UploadInput
input id size = record {
  bundle_id = codes "b";
  device_uuid = codes "d";
  lamport_lo = pos 1;
  lamport_hi = pos 2;
  event_count = pos 1;
  size_bytes = size;
  cipher_id = pos 0;
  key_generation = pos 0;
  content = id;
}

abbrev empty : Store
empty = record { bundles = []; snapshots = []; usage = []; blobs = []; hook_calls = [] }

abbrev first : UploadInput
first = input (codes "xy") 70

-- The upload of a user of the tier free whose device is not revoked.
upload_test : (upload_bundle no_faults none 5 alice first (some free) (some none) empty).0 ≡ none
unfolding upload_bundle reserve checked_bundle exists_by_id any_if count_bundle active try_add
    ensure_usage add_usage usage_of lookup insert delete after_add create_bundle put_bundle
    settle_bundle tier_limits text_eqb
upload_test = refl

upload-download_example :
    download_bundle alice
      (codes "b")
      (upload_bundle no_faults none 5 alice first (some free) (some none) empty).1
    ≡ (some (meta no_faults none 5 alice first, codes "xy"), none)
upload-download_example =
    upload-download no_faults none 5 alice first (some free) (some none) empty upload_test

empty-Covered : Covered alice 0 empty
unfolding live_bundle_bytes live_snapshot_bytes usage_of lookup
empty-Covered = omega arith

abbrev stored : Store
stored = (upload_bundle no_faults none 5 alice first (some free) (some none) empty).1

no_guard : active none ≡ false
unfolding active
no_guard = refl

abbrev history :
    Calls empty (recalculate_usage alice (delete_bundle false true 9 alice (codes "b") stored).1)
history =
    next
      (next
        (next start
          (bundle_call no_faults none 5 alice first (some free) (some none) empty no_guard refl))
        (delete_call false true 9 alice (codes "b") stored))
      (recalculate_call alice _)

calls-Covered_example :
    Covered alice 0
      (recalculate_usage alice (delete_bundle false true 9 alice (codes "b") stored).1)
calls-Covered_example = calls-Covered alice history empty-Covered

calls_within_limit_example :
    (k : UserTier) × (some free ≡ some k)
    × (live_bytes alice (upload_bundle no_faults none 5 alice first (some free) (some none) empty).1
        ≤ (tier_limits k).storage_limit_bytes)
calls_within_limit_example =
    calls_within_limit no_faults none 5 alice first (some free) (some none) start empty-Covered
      no_guard upload_test

abbrev hook : Hook
hook = record { reserve_answer = none; reservation_id = codes "r"; settles = false }

reservation_ends_example :
    let (e, s) = upload_bundle no_faults (some hook) 5 alice first none (some none) empty in
    ((e ≡ none) × (s.hook_calls ≡ settle_call true ∷ reserve_call ∷ []))
    ⊎ ((e ≢ none)
        × ((s.hook_calls ≡ release_call ∷ reserve_call ∷ [])
            ⊎ (s.hook_calls ≡ release_call ∷ settle_call false ∷ reserve_call ∷ [])))
reservation_ends_example =
    reservation_ends no_faults hook 5 alice first none (some none) empty
      (unfold active text_eqb in refl) refl

empty-IsOwned : IsOwned alice (codes "b") empty
unfolding lookup any_if
empty-IsOwned = refl

upload_bundle-IsOwned_example : IsOwned alice (codes "b") stored
upload_bundle-IsOwned_example =
    upload_bundle-IsOwned no_faults none 5 alice first alice (codes "b") (some free) (some none)
      empty refl (refl, (refl, tt)) (refl, (refl, tt)) empty-IsOwned

abbrev dead : Bundle
dead = record (meta no_faults none 5 alice first) { deleted_at = some 7 }

abbrev old_store : Store
old_store = record empty {
  bundles = dead ∷ [];
  blobs = (codes "bundles/a1/b.hsb", codes "xy") ∷ [];
}

old-IsOwned : IsOwned alice (codes "b") old_store
unfolding lookup any_if bundle_key text_eqb
old-IsOwned = refl

purge_expired-IsOwned_example :
    IsOwned alice (codes "b") (purge_expired (λ k. false) (λ u i. true) 9 old_store).1
purge_expired-IsOwned_example =
    purge_expired-IsOwned (λ k. false) (λ u i. true) alice (codes "b") 9 old_store old-IsOwned

abbrev no_blob_fails : Text → Bool
no_blob_fails k = false

abbrev no_row_fails : Text → Text → Bool
no_row_fails u i = false

abbrev dead_key : Text
dead_key = codes "bundles/a1/b.hsb"

purge_takes_expired_example :
    let (report, s) = purge_expired no_blob_fails no_row_fails 9 old_store in
    let batch = list_deleted_before 9 (pos 100) old_store.bundles in
    (get_bundle alice (codes "b") s.bundles ≡ get_bundle alice (codes "b") old_store.bundles)
    × All (IsOld 9 old_store.bundles) batch
    × (length batch ≡ min 100 (length (keep_if (is_expired 9) old_store.bundles)))
    × (s.bundles ≡ keep_if (spared no_blob_fails no_row_fails batch) old_store.bundles)
    × (lookup dead_key s.blobs ≡ (
        if any_if (λ b. key_of b == dead_key && not (no_blob_fails dead_key)) batch
        then none
        else lookup dead_key old_store.blobs))
    × (s.usage ≡ old_store.usage)
    × (report ≡ record {
      before = 9;
      expired_bundles = length (keep_if (is_taken no_blob_fails no_row_fails) batch);
      expired_bytes = bytes_of (keep_if (is_taken no_blob_fails no_row_fails) batch);
      failed = length (keep_if (λ b. not (is_taken no_blob_fails no_row_fails b)) batch);
    })
purge_takes_expired_example =
    purge_takes_expired no_blob_fails no_row_fails alice (codes "b") dead_key 9 old_store
      (unfold any_if in (refl, tt))

purged_test :
    let (report, s) = purge_expired no_blob_fails no_row_fails 9 old_store in
    (s.bundles ≡ []) × (s.blobs ≡ []) × (report.expired_bundles ≡ 1)
unfolding purge_expired purge_each purge_one list_deleted_before oldest_deleted insert_deleted
    normalize_batch keep_if hard_delete_bundle delete bundle_key text_eqb
purged_test = (refl, refl, refl)

bundle_key_injective_example : (alice ≡ alice) × (codes "b" ≡ codes "b")
bundle_key_injective_example =
    bundle_key_injective alice (codes "b") alice (codes "b") (refl, (refl, tt)) (refl, (refl, tt))
      refl

-- A roll-back whose HardDelete fails: a row of 70 bytes is live and nothing is counted.
roll_back_test :
    let s =
      (upload_bundle
        (record no_faults { put_fails = true; hard_delete_fails = true })
        none
        5
        alice
        first
        (some free)
        (some none)
        empty).1 in
    (live_bundle_bytes alice s.bundles ≡ 70) × ((usage_of alice s.usage).total_bytes ≡ 0)
unfolding upload_bundle reserve release checked_bundle exists_by_id any_if count_bundle active
    try_add ensure_usage add_usage usage_of lookup insert delete after_add create_bundle put_bundle
    roll_back remove_usage tier_limits text_eqb live_bundle_bytes
roll_back_test = (refl, refl)

abbrev no_snapshot_faults : SnapshotFaults
no_snapshot_faults = record {
  count_fails = false;
  user_fails = false;
  ensure_fails = false;
  add_fails = false;
  create_fails = false;
  put_fails = false;
  put_stores = false;
  hard_delete_fails = false;
  remove_fails = false;
  prune_fails = false;
  usage_left = none;
  soft_delete_fails = false;
  blob_delete_fails = false;
}

abbrev snapshot : Text → ℕ → Snapshot
snapshot id t = record {
  snapshot_id = id;
  user_id = alice;
  base_hlc = pos 0;
  size_bytes = 10;
  cipher_id = pos 1;
  key_generation = pos 0;
  created_at = t;
  deleted_at = none;
}

abbrev snapshot_input : SnapshotInput
snapshot_input = record {
  snapshot_id = codes "n";
  base_hlc = pos 0;
  size_bytes = 10;
  cipher_id = pos 1;
  key_generation = pos 0;
  content = [];
}

-- An upload of a snapshot whose reservation is not settled, after its prune: no snapshot is left.
lost_snapshot_test :
    let (e, s) =
      upload_snapshot no_snapshot_faults
        (some hook)
        5
        alice
        snapshot_input
        (some free)
        (record empty { snapshots = snapshot (codes "o") 1 ∷ [] }) in
    (e ≡ some not_settled) × (count_live_snapshots alice s.snapshots ≡ 0)
unfolding upload_snapshot reserve release settle active text_eqb checked_snapshot count_snapshot
    create_snapshot put_snapshot prune_snapshots prune_oldest kept_ids newest_first mark_pruned
    pruned_rows keep_if any_if forget_pruned remove_usage lookup insert delete after_prune
    settle_snapshot drop_blob soft_delete_snapshot count_live_snapshots tier_limits snapshot_key
lost_snapshot_test = (refl, refl)
