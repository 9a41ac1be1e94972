-- ===== src/Sync/Success.antt =====
-- What an upload of a bundle that succeeds leaves.
use hsync_server.Prelude.{
  ℕ, ◌≡◌, false, ◌||◌, Option, none, some, ◌∷◌, Text, text_eq, any_if, insert, arith, Bool-cases,
  Option-cases, inl, inr, refl, ap, sym, ◌∙◌,
}
use hsync_server.Sync.Tables.{Store, bundle_key, is_bundle, exists_by_id}
use hsync_server.Sync.Usage.{
  UserTier, tier_limits, Added, added, not_added, over_quota, try_add, with_bundle,
}
use hsync_server.Sync.Guard.{Hook, active, reserve, release, settle}
use hsync_server.Sync.Bundles.{
  UploadInput, Faults, Uploaded, DeviceFound, meta, settle_bundle, put_bundle, create_bundle,
  count_bundle, after_add, checked_bundle, upload_bundle,
}

module _ (f : Faults) (guard : Option Hook) (now : ℕ) (user : Text) (input : UploadInput) where
  -- The store with the row and the object of the upload.
  abbrev pub stored : Store → Store
  stored s = record s {
    bundles = meta f guard now user input ∷ s.bundles;
    blobs = insert (bundle_key user input.bundle_id) input.content s.blobs;
  }

  pub settle_ok :
      (s : Store)
      → (settle_bundle f guard now user input s).0 ≡ none
      → (let s' = (settle_bundle f guard now user input s).2 in
          (s'.bundles ≡ s.bundles)
          × (s'.blobs ≡ s.blobs)
          × (s'.usage ≡ s.usage)
          × (s'.snapshots ≡ s.snapshots))
  unfolding settle_bundle settle
  settle_ok s h = ground arith

  put_ok :
      (s : Store)
      → (put_bundle f guard now user input s).0 ≡ none
      → put_bundle f guard now user input s
        ≡ settle_bundle f guard now user input
            (record s { blobs = insert (bundle_key user input.bundle_id) input.content s.blobs })
  unfolding put_bundle
  put_ok s h = ground arith

  pub create_ok :
      (s : Store)
      → (create_bundle f guard now user input s).0 ≡ none
      → create_bundle f guard now user input s ≡ settle_bundle f guard now user input (stored s)
  unfolding create_bundle
  create_ok s h =
      elim (Bool-cases (f.create_fails || any_if (is_bundle user input.bundle_id) s.bundles)) [
        | inl bad ↦ absurd (ground arith)
        | inr fine ↦
            let opened : create_bundle f guard now user input s
                ≡ put_bundle f guard now user input
                    (record s { bundles = meta f guard now user input ∷ s.bundles }) =
              simp fine refl in
            opened
            ∙ put_ok (record s { bundles = meta f guard now user input ∷ s.bundles })
                (ap (λ r. r.0) (sym opened) ∙ h)
      ]

  after_ok :
      (a : Added) (s : Store)
      → (after_add f guard now user input a s).0 ≡ none
      → (a ≡ added)
        × (after_add f guard now user input a s ≡ settle_bundle f guard now user input (stored s))
  unfolding after_add
  after_ok not_added s h = absurd (ground arith)
  after_ok over_quota s h = absurd (ground arith)
  after_ok added s h = (refl, create_ok s h)

  -- Where no reservation is active, the quota of the user's tier was added.
  pub count_ok :
      (tier : Option UserTier) (s : Store)
      → active guard ≡ false
      → (count_bundle f guard now user input tier s).0 ≡ none
      → (t : UserTier) × (tier ≡ some t)
        × (let r =
              try_add f.ensure_fails f.add_fails with_bundle user input.size_bytes
                (tier_limits t).storage_limit_bytes
                s.usage in
            (r.0 ≡ added)
            × (count_bundle f guard now user input tier s
                ≡ settle_bundle f guard now user input (stored (record s { usage = r.1 }))))
  unfolding count_bundle
  count_ok none s off h = absurd (ground arith)
  count_ok (some t) s off h = elim (Bool-cases f.user_fails) [
    | inl bad ↦ absurd (ground arith)
    | inr fine ↦
        let r =
          try_add f.ensure_fails f.add_fails with_bundle user input.size_bytes
            (tier_limits t).storage_limit_bytes s.usage in
        let opened : count_bundle f guard now user input (some t) s
            ≡ after_add f guard now user input r.0 (record s { usage = r.1 }) =
          simp (off, fine) refl in
        let (is_added, is_stored) =
          after_ok r.0 (record s { usage = r.1 }) (ap (λ x. x.0) (sym opened) ∙ h) in
        (t, refl, (is_added, opened ∙ is_stored))
  ]

  pub checked_ok :
      (tier : Option UserTier) (device : DeviceFound) (s : Store)
      → (checked_bundle f guard now user input tier device s).0 ≡ none
      → (exists_by_id input.bundle_id s.bundles ≡ false)
        × (device ≡ some none)
        × (checked_bundle f guard now user input tier device s
            ≡ count_bundle f guard now user input tier s)
  unfolding checked_bundle
  checked_ok tier none s h = absurd (ground arith)
  checked_ok tier (some (some t)) s h = absurd (ground arith)
  checked_ok tier (some none) s h = (ground arith, refl, ground arith)

  pub settled_rows :
      (s : Store) (r : Uploaded)
      → r ≡ settle_bundle f guard now user input (stored s)
      → r.0 ≡ none
      → (r.2.bundles ≡ meta f guard now user input ∷ s.bundles)
        × (r.2.blobs ≡ insert (bundle_key user input.bundle_id) input.content s.blobs)
        × (r.2.usage ≡ s.usage)
        × (r.2.snapshots ≡ s.snapshots)
  settled_rows s r e h =
      let (bundles, blobs, usage, snapshots) = settle_ok (stored s) (ap (λ x. x.0) (sym e) ∙ h) in
      (
        ap (λ x. x.2.bundles) e ∙ bundles,
        ap (λ x. x.2.blobs) e ∙ blobs,
        ap (λ x. x.2.usage) e ∙ usage,
        ap (λ x. x.2.snapshots) e ∙ snapshots,
      )

  pub count_rows :
      (tier : Option UserTier) (s : Store)
      → (let r = count_bundle f guard now user input tier s in
          r.0 ≡ none
          → (r.2.bundles ≡ meta f guard now user input ∷ s.bundles)
            × (r.2.blobs ≡ insert (bundle_key user input.bundle_id) input.content s.blobs))
  count_rows tier s h = elim (Bool-cases (active guard)) [
    | inl on ↦
        let opened : count_bundle f guard now user input tier s
            ≡ create_bundle f guard now user input s =
          unfold count_bundle in simp on refl in
        let (bundles, blobs, usage, snapshots) =
          settled_rows s _ (opened ∙ create_ok s (ap (λ r. r.0) (sym opened) ∙ h)) h in
        (bundles, blobs)
    | inr off ↦
        let (t, is_tier, (is_added, is_stored)) = count_ok tier s off h in
        let (bundles, blobs, usage, snapshots) =
          settled_rows
            (record s {
              usage =
                  (try_add f.ensure_fails f.add_fails with_bundle user input.size_bytes
                    (tier_limits t).storage_limit_bytes s.usage).1;
            })
            _ is_stored h in
        (bundles, blobs)
  ]

  pub upload_ok :
      (tier : Option UserTier) (device : DeviceFound) (s : Store)
      → (upload_bundle f guard now user input tier device s).0 ≡ none
      → (let r = checked_bundle f guard now user input tier device (reserve guard s).1 in
          ((reserve guard s).0 ≡ none)
          × (r.0 ≡ none)
          × ((upload_bundle f guard now user input tier device s).1 ≡ release guard r.1 r.2))
  unfolding upload_bundle
  upload_ok tier device s h = elim (Option-cases (reserve guard s).0) [
    | inl granted ↦ (granted, (ground arith), ground arith)
    | inr (x, denied) ↦ absurd (ground arith)
  ]
