-- ===== src/Sync/Uploads.antt =====
-- UploadBundle, DeleteBundle and the counted bytes.
use hsync_server.Prelude.{
  ℕ, ◌+◌, ◌≡◌, Bool, true, false, ◌||◌, Option, none, some, List, ◌∷◌, Text, text_eq, Dict, any_if,
  keep_if, arith, Bool-cases, Option-cases, inl, inr, refl, eqb_refl,
}
use hsync_server.Sync.Tables.{
  Bundle, Usage, Store, is_bundle, get_bundle, hard_delete_bundle, soft_delete_bundle,
  live_bundle_bytes,
}
use hsync_server.Sync.Usage.{
  UserTier, tier_limits, Added, added, not_added, over_quota, with_bundle, without_bundle,
}
use hsync_server.Sync.Guard.{Hook, active, reserve, release}
use hsync_server.Sync.Bundles.{
  UploadInput, Faults, meta, DeviceFound, roll_back, settle_bundle, put_bundle, create_bundle,
  count_bundle, checked_bundle, after_add, upload_bundle, delete_bundle, after_delete,
  drop_bundle_row, half_put,
}
use hsync_server.Sync.Covered.{total_of, Covered, share, total-remove, total-try}
use hsync_server.Sync.Live.{hard_delete_bundle-absent, live-soft_bundle, live-soft_delete_bundle}

-- Without an active guard there is nothing to settle.
pub settle-inactive :
    (f : Faults) (guard : Option Hook) (now : ℕ) (user : Text) (input : UploadInput) (s : Store)
    → active guard ≡ false
    → settle_bundle f guard now user input s ≡ (none, false, s)
unfolding settle_bundle
settle-inactive f none now user input s off = refl
settle-inactive f (some h) now user input s off = rw off refl

pub release-inactive :
    (guard : Option Hook) (settled : Bool) (s : Store)
    → active guard ≡ false
    → release guard settled s ≡ s
unfolding release
release-inactive guard settled s off = simp off refl

pub reserve-Covered :
    (guard : Option Hook) (u : Text) (k : ℕ) (s : Store)
    → Covered u k s
    → Covered u k (reserve guard s).1
unfolding reserve
reserve-Covered none u k s c = c
reserve-Covered (some h) u k s c = c

module _ (f : Faults) (guard : Option Hook) (now : ℕ) (user : Text) (input : UploadInput) where
  -- Giving the quota back ends the flight of its bytes.
  roll_back-Covered :
      (u : Text) (k : ℕ) (s : Store)
      → active guard ≡ false
      → Covered u (share user u input.size_bytes + k) s
      → Covered u k (roll_back f guard now user input s)
  unfolding roll_back
  roll_back-Covered u k s off c =
      let left = total-remove without_bundle user u input.size_bytes s.usage (λ n v. refl) in
      ground arith

  pub hard_delete-meta :
      (bs : List Bundle)
      → any_if (is_bundle user input.bundle_id) bs ≡ false
      → hard_delete_bundle user input.bundle_id (meta f guard now user input ∷ bs) ≡ bs
  unfolding hard_delete_bundle keep_if
  hard_delete-meta bs fresh = ground (
    arith,
    eqb_refl user,
    eqb_refl input.bundle_id,
    hard_delete_bundle-absent user input.bundle_id bs fresh,
  )

  pub live-meta :
      (u : Text) (bs : List Bundle)
      → live_bundle_bytes u (meta f guard now user input ∷ bs)
        ≡ share user u input.size_bytes + live_bundle_bytes u bs
  unfolding live_bundle_bytes
  live-meta u bs = ground arith

  put-Covered :
      (u : Text) (k : ℕ) (s : Store)
      → active guard ≡ false
      → f.hard_delete_fails ≡ false
      → any_if (is_bundle user input.bundle_id) s.bundles ≡ false
      → Covered u (share user u input.size_bytes + k) s
      → Covered u k
          (put_bundle f guard now user input
            (record s { bundles = meta f guard now user input ∷ s.bundles })).2
  unfolding put_bundle drop_bundle_row
  put-Covered u k s off hard fresh c = elim (Bool-cases f.put_fails) [
    | inl bad ↦
        simp (bad, hard, hard_delete-meta s.bundles fresh)
          (roll_back-Covered u k (half_put f guard now user input s) off c)
    | inr fine ↦
        simp (fine, settle-inactive f guard now user input _ off)
          (let more = live-meta u s.bundles in omega arith)
  ]

  create-Covered :
      (u : Text) (k : ℕ) (s : Store)
      → active guard ≡ false
      → f.hard_delete_fails ≡ false
      → Covered u (share user u input.size_bytes + k) s
      → Covered u k (create_bundle f guard now user input s).2
  unfolding create_bundle
  create-Covered u k s off hard c =
      elim (Bool-cases (f.create_fails || any_if (is_bundle user input.bundle_id) s.bundles)) [
        | inl bad ↦ rw bad (roll_back-Covered u k s off c)
        | inr fine ↦ rw fine (put-Covered u k s off hard (ground arith) c)
      ]

  count-Covered :
      (u : Text) (k : ℕ) (s : Store) (tier : Option UserTier)
      → active guard ≡ false
      → f.hard_delete_fails ≡ false
      → Covered u k s
      → Covered u k (count_bundle f guard now user input tier s).2
  unfolding count_bundle after_add
  count-Covered u k s none off hard c = ground arith
  count-Covered u k s (some t) off hard c = elim (Bool-cases f.user_fails) [
    | inl bad ↦ simp (off, bad) c
    | inr fine ↦
        simp (off, fine)
          (go _ _ (
            total-try f.ensure_fails f.add_fails with_bundle user u input.size_bytes
              (tier_limits t).storage_limit_bytes s.usage (λ n v. refl)))
  ]
    where
      go :
          (a : Added) (m : Dict Text Usage)
          → total_of u m
            ≡ total_of u s.usage + (elim a [ added ↦ share user u input.size_bytes | _ ↦ 0 ])
          → Covered u k (after_add f guard now user input a (record s { usage = m })).2
      go not_added m e = ground arith
      go over_quota m e = ground arith
      go added m e = create-Covered u k (record s { usage = m }) off hard (ground arith)

  checked-Covered :
      (u : Text) (k : ℕ) (s : Store) (tier : Option UserTier) (device : DeviceFound)
      → active guard ≡ false
      → f.hard_delete_fails ≡ false
      → Covered u k s
      → Covered u k (checked_bundle f guard now user input tier device s).2
  unfolding checked_bundle
  checked-Covered u k s tier device off hard c =
      let counted = count-Covered u k s tier off hard c in ground arith

  -- Without an active reservation, and unless the HardDelete of its roll-back fails, an upload
  -- keeps a user's counted bytes at or above his live bytes and the bytes in flight of
  -- other uploads, whatever else fails in it.
  pub upload_bundle-Covered :
      (u : Text) (k : ℕ) (s : Store) (tier : Option UserTier) (device : DeviceFound)
      → active guard ≡ false
      → f.hard_delete_fails ≡ false
      → Covered u k s
      → Covered u k (upload_bundle f guard now user input tier device s).1
  unfolding upload_bundle
  upload_bundle-Covered u k s tier device off hard c = elim (Option-cases (reserve guard s).0) [
    | inl granted ↦
        rw (granted, upload_bundle, release-inactive guard _ _ off)
          (checked-Covered u k (reserve guard s).1 tier device off hard
            (reserve-Covered guard u k s c))
    | inr (x, denied) ↦ rw (denied, upload_bundle) (reserve-Covered guard u k s c)
  ]

-- DeleteBundle keeps a user's counted bytes at or above his live bytes and the bytes in
-- flight, whatever fails in it.
pub delete_bundle-Covered :
    (soft_fails remove_fails : Bool) (now : ℕ) (user id u : Text) (k : ℕ) (s : Store)
    → Covered u k s
    → Covered u k (delete_bundle soft_fails remove_fails now user id s).1
unfolding delete_bundle after_delete
delete_bundle-Covered true r now user id u k s c = c
delete_bundle-Covered false r now user id u k s c =
    elim (Option-cases (get_bundle user id s.bundles)) [
      | inl absent ↦ rw (absent, delete_bundle) c
      | inr (b, found) ↦ rw (found, delete_bundle) (gone b found r)
    ]
  where
    gone :
        (b : Bundle)
        → get_bundle user id s.bundles ≡ some b
        → (r : Bool)
        → Covered u k
            (after_delete r user b.size_bytes
              (record s { bundles = soft_delete_bundle now user id s.bundles })).1
    gone b found true = let less = live-soft_bundle now user u id s.bundles in omega arith
    gone b found false =
        let less = live-soft_delete_bundle now user u id s.bundles b found in
        let left = total-remove without_bundle user u b.size_bytes s.usage (λ n v. refl) in
        omega arith
