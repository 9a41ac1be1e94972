-- ===== src/Sync/History.antt =====
-- Sequences of calls of the services on one database, each with its own failures.
use hsync_server.Prelude.{
  ℕ, ◌+◌, ◌≤◌, ◌≡◌, Bool, true, false, text_eqb_iff, Option, none, some, List, [], ◌∷◌, Text, ◌==◌,
  text_eq, keep_if, arith, ap, Bool-cases, inl, inr,
}
use hsync_server.Sync.Tables.{
  Bundle, Store, hard_delete_bundle, live_bundle_bytes, live_snapshot_bytes, count_live_bundles,
  count_live_snapshots,
}
use hsync_server.Sync.Usage.{UserTier, tier_limits, recalculate_usage}
use hsync_server.Sync.Guard.{Hook, active}
use hsync_server.Sync.Bundles.{UploadInput, Faults, DeviceFound, upload_bundle, delete_bundle}
use hsync_server.Sync.Snapshots.{SnapshotInput, SnapshotFaults, upload_snapshot}
use hsync_server.Sync.Retention.{RetentionReport, purge_one, purge_each, purge_expired}
use hsync_server.Sync.Covered.{Covered, live_bytes, usage_of-insert}
use hsync_server.Sync.Uploads.{upload_bundle-Covered, delete_bundle-Covered}
use hsync_server.Sync.SnapshotUploads.{upload_snapshot-Covered}
use hsync_server.Sync.Promises.{upload-limit}

-- A call without a reservation hook, in whose roll-back no HardDelete fails.
pub data Call : Store → Store → Type 0 where
  bundle_call :
      (f : Faults) (guard : Option Hook) (now : ℕ) (user : Text) (input : UploadInput)
      (tier : Option UserTier) (device : DeviceFound) (s : Store)
      → active guard ≡ false
      → f.hard_delete_fails ≡ false
      → Call s (upload_bundle f guard now user input tier device s).1
  snapshot_call :
      (f : SnapshotFaults) (guard : Option Hook) (now : ℕ) (user : Text) (input : SnapshotInput)
      (tier : Option UserTier) (s : Store)
      → active guard ≡ false
      → f.hard_delete_fails ≡ false
      → Call s (upload_snapshot f guard now user input tier s).1
  delete_call :
      (soft_fails remove_fails : Bool) (now : ℕ) (user id : Text) (s : Store)
      → Call s (delete_bundle soft_fails remove_fails now user id s).1
  purge_call :
      (blob_fails : Text → Bool) (row_fails : Text → Text → Bool) (before : ℕ) (s : Store)
      → Call s (purge_expired blob_fails row_fails before s).1
  recalculate_call : (user : Text) (s : Store) → Call s (recalculate_usage user s)

pub data Calls (s : Store) : Store → Type 0 where
  start : Calls s s
  next : {t r : Store} → Calls s t → Call t r → Calls s r

live-hard_delete :
    (u user id : Text) (bs : List Bundle)
    → live_bundle_bytes u (hard_delete_bundle user id bs) ≤ live_bundle_bytes u bs
unfolding live_bundle_bytes hard_delete_bundle keep_if
live-hard_delete u user id [] = omega arith
live-hard_delete u user id (b ∷ bs) = ground (arith, live-hard_delete u user id bs)

module _ (blob_fails : Text → Bool) (row_fails : Text → Text → Bool) where
  one-Covered :
      (u : Text) (b : Bundle) (r : RetentionReport × Store)
      → Covered u 0 r.1
      → Covered u 0 (purge_one blob_fails row_fails b r).1
  unfolding purge_one
  one-Covered u b (report, s) c =
      let less = live-hard_delete u b.user_id b.bundle_id s.bundles in ground arith

  each-Covered :
      (u : Text) (bs : List Bundle) (r : RetentionReport × Store)
      → Covered u 0 r.1
      → Covered u 0 (purge_each blob_fails row_fails bs r).1
  unfolding purge_each
  each-Covered u [] r c = c
  each-Covered u (b ∷ bs) r c =
      each-Covered u bs (purge_one blob_fails row_fails b r) (one-Covered u b r c)

recalculate-Covered :
    (u user : Text) (s : Store) → Covered u 0 s → Covered u 0 (recalculate_usage user s)
unfolding recalculate_usage
recalculate-Covered u user s c =
    let counted =
      usage_of-insert user u
        (record {
          total_bytes = live_bundle_bytes user s.bundles + live_snapshot_bytes user s.snapshots;
          bundle_count = count_live_bundles user s.bundles;
          snap_count = count_live_snapshots user s.snapshots;
        })
        s.usage in
    elim (Bool-cases (user == u)) [
      | inl same ↦ ground (arith, counted, user_bundles same, user_snapshots same)
      | inr other ↦ ground (arith, counted)
    ]
  where
    user_bundles :
        (user == u) ≡ true → live_bundle_bytes user s.bundles ≡ live_bundle_bytes u s.bundles
    user_bundles e = ap (λ x. live_bundle_bytes x s.bundles) ((text_eqb_iff user u).0 e)

    user_snapshots :
        (user == u) ≡ true
        → live_snapshot_bytes user s.snapshots ≡ live_snapshot_bytes u s.snapshots
    user_snapshots e = ap (λ x. live_snapshot_bytes x s.snapshots) ((text_eqb_iff user u).0 e)

Call-Covered : {s t : Store} → (u : Text) → Call s t → Covered u 0 s → Covered u 0 t
unfolding purge_expired
Call-Covered u (bundle_call f guard now user input tier device s off hard) c =
    upload_bundle-Covered f guard now user input u 0 s tier device off hard c
Call-Covered u (snapshot_call f guard now user input tier s off hard) c =
    upload_snapshot-Covered f guard now user input u 0 tier s off hard c
Call-Covered u (delete_call soft_fails remove_fails now user id s) c =
    delete_bundle-Covered soft_fails remove_fails now user id u 0 s c
Call-Covered u (purge_call blob_fails row_fails before s) c =
    each-Covered blob_fails row_fails u _ _ c
Call-Covered u (recalculate_call user s) c = recalculate-Covered u user s c

-- After every sequence of uploads, deletions, purges and recalculations without a reservation
-- hook, whatever fails in them but the HardDelete of a roll-back, from a store that counts at
-- least a user's live bytes, the live bytes of that user are at most his counted bytes.
pub calls-Covered : {s t : Store} → (u : Text) → Calls s t → Covered u 0 s → Covered u 0 t
calls-Covered u start c = c
calls-Covered u (next r st) c = Call-Covered u st (calls-Covered u r c)

-- After every sequence of uploads, deletions, purges and recalculations without a reservation
-- hook, whatever fails in them but the HardDelete of a roll-back, from a store that counts at
-- least the user's live bytes, an UploadBundle without a hook that succeeds leaves the user's live
-- bytes inside the storage limit of his tier.
pub calls_within_limit :
    {s t : Store}
    → (f : Faults) (guard : Option Hook) (now : ℕ) (user : Text) (input : UploadInput)
      (tier : Option UserTier) (device : DeviceFound)
    → Calls s t
    → Covered user 0 s
    → active guard ≡ false
    → (upload_bundle f guard now user input tier device t).0 ≡ none
    → (k : UserTier) × (tier ≡ some k)
      × (live_bytes user (upload_bundle f guard now user input tier device t).1
          ≤ (tier_limits k).storage_limit_bytes)
calls_within_limit {t = t} f guard now user input tier device r c off h =
    let (k, is_tier, fits) =
      upload-limit f guard now user input tier device 0 t off (calls-Covered user r c) h in
    (k, is_tier, omega arith)
