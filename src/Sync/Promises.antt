-- ===== src/Sync/Promises.antt =====
-- What UploadBundle promises to a client: the quota, the bundle, and the end of its reservation.
use hsync_server.Prelude.{
  ℕ, ◌+◌, ◌≤◌, ◌≡◌, Bool, false, Option, none, some, List, ◌∷◌, Text, text_eq, insert, lookup,
  lookup-insert, arith, refl, ap, sym, ◌∙◌, eqb_refl,
}
use hsync_server.Sync.Tables.{
  Bundle, Store, bundle_key, get_bundle, live_bundle_bytes, live_snapshot_bytes,
}
use hsync_server.Sync.Usage.{
  UserTier, tier_limits, Added, added, not_added, over_quota, try_add, with_bundle,
}
use hsync_server.Sync.Guard.{Hook, active, reserve, release}
use hsync_server.Sync.Bundles.{
  UploadInput, Faults, DeviceFound, meta, count_bundle, checked_bundle, upload_bundle,
  download_bundle,
}
use hsync_server.Sync.Covered.{live_bytes, Covered, share, try-limit, total-try}
use hsync_server.Sync.Uploads.{live-meta, reserve-Covered}
use hsync_server.Sync.Success.{checked_ok, count_ok, count_rows, settled_rows, upload_ok}

reserve_rows :
    (guard : Option Hook) (s : Store)
    → ((reserve guard s).1.bundles ≡ s.bundles)
      × ((reserve guard s).1.blobs ≡ s.blobs)
      × ((reserve guard s).1.snapshots ≡ s.snapshots)
      × ((reserve guard s).1.usage ≡ s.usage)
unfolding reserve
reserve_rows none s = (refl, refl, refl, refl)
reserve_rows (some h) s = (refl, refl, refl, refl)

release_rows :
    (guard : Option Hook) (settled : Bool) (s : Store)
    → ((release guard settled s).bundles ≡ s.bundles)
      × ((release guard settled s).blobs ≡ s.blobs)
      × ((release guard settled s).snapshots ≡ s.snapshots)
      × ((release guard settled s).usage ≡ s.usage)
unfolding release
release_rows guard settled s = ground arith

live-same :
    (u : Text) (s s' : Store)
    → s.bundles ≡ s'.bundles
    → s.snapshots ≡ s'.snapshots
    → live_bytes u s ≡ live_bytes u s'
live-same u s s' e k = ground (arith, ap (live_bundle_bytes u) e, ap (live_snapshot_bytes u) k)

module _ (f : Faults) (guard : Option Hook) (now : ℕ) (user : Text) (input : UploadInput) where
  uploaded_rows :
      (tier : Option UserTier) (device : DeviceFound) (s : Store)
      → (upload_bundle f guard now user input tier device s).0 ≡ none
      → (let s' = (upload_bundle f guard now user input tier device s).1 in
          (s'.bundles ≡ meta f guard now user input ∷ s.bundles)
          × (s'.blobs ≡ insert (bundle_key user input.bundle_id) input.content s.blobs))
  uploaded_rows tier device s h =
      let (granted, fine, is) = upload_ok f guard now user input tier device s h in
      let s1 = (reserve guard s).1 in
      let (fresh, known, counted) = checked_ok f guard now user input tier device s1 fine in
      let (bundles, blobs) =
        count_rows f guard now user input tier s1 (ap (λ r. r.0) (sym counted) ∙ fine) in
      let checked = checked_bundle f guard now user input tier device s1 in
      (
        ap (λ x. x.bundles) is
            ∙ (release_rows guard checked.1 checked.2).0
            ∙ ap (λ r. r.2.bundles) counted
            ∙ bundles
            ∙ ap (λ bs. meta f guard now user input ∷ bs) (reserve_rows guard s).0,
        ap (λ x. x.blobs) is
            ∙ (release_rows guard checked.1 checked.2).1
            ∙ ap (λ r. r.2.blobs) counted
            ∙ blobs
            ∙ ap (insert (bundle_key user input.bundle_id) input.content) (reserve_rows guard s).1,
      )

  get-meta :
      (bs : List Bundle)
      → get_bundle user input.bundle_id (meta f guard now user input ∷ bs)
        ≡ some (meta f guard now user input)
  unfolding get_bundle
  get-meta bs = ground (arith, eqb_refl user, eqb_refl input.bundle_id)

  -- A bundle whose upload succeeded is what a download of it gives: the row of the upload, and
  -- the uploaded bytes.
  pub upload-download :
      (tier : Option UserTier) (device : DeviceFound) (s : Store)
      → (upload_bundle f guard now user input tier device s).0 ≡ none
      → download_bundle user input.bundle_id (upload_bundle f guard now user input tier device s).1
        ≡ (some (meta f guard now user input, input.content), none)
  unfolding download_bundle
  upload-download tier device s h =
      let (bundles, blobs) = uploaded_rows tier device s h in
      let row : get_bundle user input.bundle_id
            (upload_bundle f guard now user input tier device s).1.bundles
          ≡ some (meta f guard now user input) =
        ap (get_bundle user input.bundle_id) bundles ∙ get-meta s.bundles in
      let object : lookup (bundle_key user input.bundle_id)
            (upload_bundle f guard now user input tier device s).1.blobs
          ≡ some input.content =
        ap (lookup (bundle_key user input.bundle_id)) blobs
        ∙ ground (
          arith,
          lookup-insert (bundle_key user input.bundle_id) (bundle_key user input.bundle_id)
              input.content s.blobs,
          eqb_refl (bundle_key user input.bundle_id),
        ) in
      ground arith

  after_live :
      (tier : Option UserTier) (device : DeviceFound) (s : Store)
      → (upload_bundle f guard now user input tier device s).0 ≡ none
      → live_bytes user (upload_bundle f guard now user input tier device s).1
        ≡ live_bytes user (count_bundle f guard now user input tier (reserve guard s).1).2
  after_live tier device s h =
      let (granted, fine, is) = upload_ok f guard now user input tier device s h in
      let (fresh, known, counted) =
        checked_ok f guard now user input tier device (reserve guard s).1 fine in
      let c = checked_bundle f guard now user input tier device (reserve guard s).1 in
      let rows = release_rows guard c.1 c.2 in
      ap (live_bytes user) is
      ∙ live-same user (release guard c.1 c.2) c.2 rows.0 rows.2
      ∙ ap (λ r. live_bytes user r.2) counted

  counted_sum :
      (a : Added) (x y : ℕ)
      → a ≡ added
      → y ≡ x + (elim a [ added ↦ share user user input.size_bytes | _ ↦ 0 ])
      → y ≡ x + share user user input.size_bytes
  counted_sum not_added x y h e = absurd (ground arith)
  counted_sum over_quota x y h e = absurd (ground arith)
  counted_sum added x y h e = e

  -- An upload that succeeds without an active reservation leaves the user's live bytes, with those
  -- that other uploads have in flight, inside the storage limit of his tier.
  pub upload-limit :
      (tier : Option UserTier) (device : DeviceFound) (k : ℕ) (s : Store)
      → active guard ≡ false
      → Covered user k s
      → (upload_bundle f guard now user input tier device s).0 ≡ none
      → (t : UserTier) × (tier ≡ some t)
        × (live_bytes user (upload_bundle f guard now user input tier device s).1 + k
            ≤ (tier_limits t).storage_limit_bytes)
  upload-limit tier device k s off c h =
      let (granted, fine, is) = upload_ok f guard now user input tier device s h in
      let s1 = (reserve guard s).1 in
      let (fresh, known, counted) = checked_ok f guard now user input tier device s1 fine in
      let done : (count_bundle f guard now user input tier s1).0 ≡ none =
        ap (λ r. r.0) (sym counted) ∙ fine in
      let (t, is_tier, (is_added, is_stored)) = count_ok f guard now user input tier s1 off done in
      let limit = (tier_limits t).storage_limit_bytes in
      let m =
        (try_add f.ensure_fails f.add_fails with_bundle user input.size_bytes limit s1.usage).1 in
      let (bundles, blobs, usage, snapshots) =
        settled_rows f guard now user input (record s1 { usage = m }) _ is_stored done in
      let after =
        after_live tier device s h
        ∙ live-same user (count_bundle f guard now user input tier s1).2
            (record s1 { bundles = meta f guard now user input ∷ s1.bundles }) bundles snapshots in
      let sum = counted_sum _ _ _ is_added (
        total-try f.ensure_fails f.add_fails with_bundle user user input.size_bytes limit s1.usage
          (λ n v. refl)) in
      let below =
        try-limit f.ensure_fails f.add_fails with_bundle user input.size_bytes limit s1.usage
          (λ n v. refl) is_added in
      let more = live-meta f guard now user input user s1.bundles in
      let start = reserve-Covered guard user k s c in (t, is_tier, omega arith)
