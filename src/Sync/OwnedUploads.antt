-- ===== src/Sync/OwnedUploads.antt =====
-- Objects of bundles and their rows, in UploadBundle and DeleteBundle.
use hsync_server.Prelude.{
  ℕ, ◌≡◌, Bool, false, ◌||◌, Option, none, some, List, [], ◌∷◌, Text, ◌==◌, text_eq, text_eqb_iff,
  any_if, insert, lookup-delete, lookup-insert, arith, Bool-cases, Option-cases, inl, inr, refl,
}
use hsync_server.GoStrings.Cuts.{Without}
use hsync_server.Sync.Tables.{Bundle, Store, is_bundle, bundle_key, soft_delete_bundle}
use hsync_server.Sync.Usage.{UserTier, Added, added, not_added, over_quota}
use hsync_server.Sync.Guard.{Hook, active, reserve, release, settle}
use hsync_server.Sync.Bundles.{
  UploadInput, Faults, DeviceFound, meta, roll_back, settle_bundle, put_bundle, create_bundle,
  count_bundle, after_add, checked_bundle, upload_bundle, delete_bundle, after_delete, count_tier,
  drop_bundle_row,
}
use hsync_server.Sync.Owned.{IsOwned}
use hsync_server.Sync.Keys.{bundle_key_injective}
use hsync_server.Sync.Uploads.{hard_delete-meta}

any-soft_delete :
    (now : ℕ) (u i user id : Text) (bs : List Bundle)
    → any_if (is_bundle u i) (soft_delete_bundle now user id bs) ≡ any_if (is_bundle u i) bs
unfolding soft_delete_bundle any_if
any-soft_delete now u i user id [] = refl
any-soft_delete now u i user id (b ∷ bs) = ground (arith, any-soft_delete now u i user id bs)

reserve-IsOwned :
    (guard : Option Hook) (u i : Text) (s : Store) → IsOwned u i s → IsOwned u i (reserve guard s).1
unfolding reserve
reserve-IsOwned none u i s o = o
reserve-IsOwned (some h) u i s o = o

release-IsOwned :
    (guard : Option Hook) (settled : Bool) (u i : Text) (s : Store)
    → IsOwned u i s
    → IsOwned u i (release guard settled s)
unfolding release
release-IsOwned guard settled u i s o = ground arith

module _ (f : Faults) (guard : Option Hook) (now : ℕ) (user : Text) (input : UploadInput)
    (u i : Text) where
  roll-IsOwned : (s : Store) → IsOwned u i s → IsOwned u i (roll_back f guard now user input s)
  unfolding roll_back
  roll-IsOwned s o = ground arith

  settle-IsOwned :
      (s : Store) → IsOwned u i s → IsOwned u i (settle_bundle f guard now user input s).2
  unfolding settle_bundle settle
  settle-IsOwned s o = ground (
    arith,
    any-soft_delete now u i user input.bundle_id s.bundles,
    lookup-delete (bundle_key user input.bundle_id) (bundle_key u i) s.blobs,
  )

  -- The row of a new bundle owns its object.
  new-IsOwned :
      (s : Store)
      → Without b'/' u
      → Without b'/' user
      → IsOwned u i s
      → IsOwned u i (record s {
        bundles = meta f guard now user input ∷ s.bundles;
        blobs = insert (bundle_key user input.bundle_id) input.content s.blobs;
      })
  unfolding any_if
  new-IsOwned s w v o = elim (Bool-cases (bundle_key user input.bundle_id == bundle_key u i)) [
    | inl same ↦
        let (users, ids) =
          bundle_key_injective user input.bundle_id u i v w ((text_eqb_iff _ _).0 same) in
        ground (arith, (text_eqb_iff user u).1 users, (text_eqb_iff input.bundle_id i).1 ids)
    | inr other ↦ ground (
      arith,
      lookup-insert (bundle_key user input.bundle_id) (bundle_key u i) input.content s.blobs,
      other,
    )
  ]

  row-IsOwned :
      (s : Store)
      → IsOwned u i s
      → IsOwned u i (record s { bundles = meta f guard now user input ∷ s.bundles })
  unfolding any_if
  row-IsOwned s o = ground arith

  put-IsOwned :
      (s : Store)
      → f.put_stores ≡ false
      → Without b'/' u
      → Without b'/' user
      → any_if (is_bundle user input.bundle_id) s.bundles ≡ false
      → IsOwned u i s
      → IsOwned u i
          (put_bundle f guard now user input
            (record s { bundles = meta f guard now user input ∷ s.bundles })).2
  unfolding put_bundle drop_bundle_row
  put-IsOwned s q w v fresh o = elim (Bool-cases f.put_fails) [
    | inl bad ↦ elim (Bool-cases f.hard_delete_fails) [
      | inl stays ↦
          simp (bad, stays, q)
            (roll-IsOwned (record s { bundles = meta f guard now user input ∷ s.bundles })
              (row-IsOwned s o))
      | inr gone ↦
          simp (bad, gone, q, hard_delete-meta f guard now user input s.bundles fresh)
            (roll-IsOwned s o)
    ]
    | inr fine ↦ simp fine (settle-IsOwned _ (new-IsOwned s w v o))
  ]

  create-IsOwned :
      (s : Store)
      → f.put_stores ≡ false
      → Without b'/' u
      → Without b'/' user
      → IsOwned u i s
      → IsOwned u i (create_bundle f guard now user input s).2
  unfolding create_bundle
  create-IsOwned s q w v o =
      elim (Bool-cases (f.create_fails || any_if (is_bundle user input.bundle_id) s.bundles)) [
        | inl bad ↦ simp bad (roll-IsOwned s o)
        | inr fine ↦ simp fine (put-IsOwned s q w v (ground arith) o)
      ]

  after-IsOwned :
      (a : Added) (s : Store)
      → f.put_stores ≡ false
      → Without b'/' u
      → Without b'/' user
      → IsOwned u i s
      → IsOwned u i (after_add f guard now user input a s).2
  unfolding after_add
  after-IsOwned not_added s q w v o = o
  after-IsOwned over_quota s q w v o = o
  after-IsOwned added s q w v o = create-IsOwned s q w v o

  count-IsOwned :
      (tier : Option UserTier) (s : Store)
      → f.put_stores ≡ false
      → Without b'/' u
      → Without b'/' user
      → IsOwned u i s
      → IsOwned u i (count_bundle f guard now user input tier s).2
  unfolding count_bundle
  count-IsOwned tier s q w v o = elim (Bool-cases (active guard)) [
    | inl on ↦ simp on (create-IsOwned s q w v o)
    | inr off ↦ elim (Bool-cases f.user_fails) [
      | inl bad ↦ simp (off, bad) o
      | inr fine ↦ simp (off, fine) (tiered tier)
    ]
  ]
    where
      tiered : (t : Option UserTier) → IsOwned u i (count_tier f guard now user input t s).2
      tiered none = o
      tiered (some t) = after-IsOwned _ _ q w v o

  checked-IsOwned :
      (tier : Option UserTier) (device : DeviceFound) (s : Store)
      → f.put_stores ≡ false
      → Without b'/' u
      → Without b'/' user
      → IsOwned u i s
      → IsOwned u i (checked_bundle f guard now user input tier device s).2
  unfolding checked_bundle
  checked-IsOwned tier device s q w v o = let counted = count-IsOwned tier s q w v o in ground arith

  -- UploadBundle leaves no object of a bundle without a row, if there was none, whatever fails in
  -- it, if a Put that fails stores nothing; the ids of users have no slash.
  pub upload_bundle-IsOwned :
      (tier : Option UserTier) (device : DeviceFound) (s : Store)
      → f.put_stores ≡ false
      → Without b'/' u
      → Without b'/' user
      → IsOwned u i s
      → IsOwned u i (upload_bundle f guard now user input tier device s).1
  unfolding upload_bundle
  upload_bundle-IsOwned tier device s q w v o = elim (Option-cases (reserve guard s).0) [
    | inl granted ↦
        rw (granted, upload_bundle)
          (release-IsOwned guard _ u i _
            (checked-IsOwned tier device (reserve guard s).1 q w v (reserve-IsOwned guard u i s o)))
    | inr (x, denied) ↦ rw (denied, upload_bundle) (reserve-IsOwned guard u i s o)
  ]

-- DeleteBundle leaves no object of a bundle without a row, if there was none.
pub delete_bundle-IsOwned :
    (soft_fails remove_fails : Bool) (now : ℕ) (user id u i : Text) (s : Store)
    → IsOwned u i s
    → IsOwned u i (delete_bundle soft_fails remove_fails now user id s).1
unfolding delete_bundle after_delete
delete_bundle-IsOwned soft_fails remove_fails now user id u i s o =
    ground (arith, any-soft_delete now u i user id s.bundles)
