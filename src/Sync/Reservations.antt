-- ===== src/Sync/Reservations.antt =====
-- The life of a reservation through an upload.
use hsync_server.Prelude.{
  ℕ, ◌≡◌, ◌≢◌, ◌⊎◌, true, false, ◌||◌, Option, none, some, List, ◌∷◌, Text, text_eq, any_if, arith,
  Bool-cases, inl, inr, refl, ◌∙◌, insert,
}
use hsync_server.Sync.Tables.{
  Store, HookCall, settle_call, reserve_call, release_call, bundle_key, is_bundle, exists_by_id,
}
use hsync_server.Sync.Usage.{UserTier}
use hsync_server.Sync.Guard.{Hook, active, reserve, release, settle, hook_called}
use hsync_server.Sync.Bundles.{
  UploadInput, Faults, UploadError, Uploaded, DeviceFound, refused, meta, roll_back, settle_bundle,
  put_bundle, create_bundle, count_bundle, checked_bundle, upload_bundle, not_stored, not_created,
  query_failed, bundle_exists, device_not_registered, device_revoked, drop_bundle_row, half_put,
}

-- How the body of an upload leaves the calls: it succeeds with a settled reservation, or fails
-- with one that is not settled.
abbrev pub Settles : List HookCall → Uploaded → Type 0
Settles calls r =
    ((r.0 ≡ none) × (r.1 ≡ true) × (r.2.hook_calls ≡ settle_call true ∷ calls))
    ⊎ ((r.0 ≢ none)
        × (r.1 ≡ false)
        × ((r.2.hook_calls ≡ calls) ⊎ (r.2.hook_calls ≡ settle_call false ∷ calls)))

refused-Settles : (e : UploadError) (s : Store) → Settles s.hook_calls (refused e s)
refused-Settles e s = inr ((λ h. absurd (ground arith)), refl, inl refl)

module _ (f : Faults) (h : Hook) (now : ℕ) (user : Text) (input : UploadInput) where
  settle-Settles :
      (s : Store)
      → active (some h) ≡ true
      → Settles s.hook_calls (settle_bundle f (some h) now user input s)
  unfolding settle_bundle settle
  settle-Settles s on = elim (Bool-cases h.settles) [
    | inl ok ↦ simp (on, ok) (inl (refl, refl, refl))
    | inr bad ↦ simp (on, bad) (inr ((λ h. absurd (ground arith)), refl, inr (ground arith)))
  ]

  failed-Settles :
      (e : UploadError) (calls : List HookCall) (s : Store)
      → s.hook_calls ≡ calls
      → Settles calls (refused e s)
  failed-Settles e calls s k = inr ((λ h. absurd (ground arith)), refl, inl k)

  roll_back_calls : (s : Store) → (roll_back f (some h) now user input s).hook_calls ≡ s.hook_calls
  unfolding roll_back
  roll_back_calls s = ground arith

  put-Settles :
      (s : Store)
      → active (some h) ≡ true
      → Settles s.hook_calls (put_bundle f (some h) now user input s)
  unfolding put_bundle drop_bundle_row
  put-Settles s on = elim (Bool-cases f.put_fails) [
    | inl bad ↦ simp bad (
        failed-Settles not_stored s.hook_calls (roll_back f (some h) now user input left)
          (roll_back_calls left ∙ ground arith))
    | inr fine ↦ simp fine (
        settle-Settles
          (record s { blobs = insert (bundle_key user input.bundle_id) input.content s.blobs }) on)
  ]
    where
      left : Store
      left = drop_bundle_row f (some h) now user input (half_put f (some h) now user input s)

  create-Settles :
      (s : Store)
      → active (some h) ≡ true
      → Settles s.hook_calls (create_bundle f (some h) now user input s)
  unfolding create_bundle
  create-Settles s on =
      elim (Bool-cases (f.create_fails || any_if (is_bundle user input.bundle_id) s.bundles)) [
        | inl bad ↦ simp bad (
            failed-Settles not_created s.hook_calls (roll_back f (some h) now user input s)
              (roll_back_calls s))
        | inr fine ↦
            simp fine
              (put-Settles (record s { bundles = meta f (some h) now user input ∷ s.bundles }) on)
      ]

  checked-Settles :
      (tier : Option UserTier) (device : DeviceFound) (s : Store)
      → active (some h) ≡ true
      → Settles s.hook_calls (checked_bundle f (some h) now user input tier device s)
  unfolding checked_bundle
  checked-Settles tier device s on = elim (Bool-cases f.exists_fails) [
    | inl bad ↦ simp bad (failed-Settles query_failed s.hook_calls s refl)
    | inr asked ↦ elim (Bool-cases (exists_by_id input.bundle_id s.bundles)) [
      | inl old ↦ simp (asked, old) (failed-Settles bundle_exists s.hook_calls s refl)
      | inr fresh ↦ elim (Bool-cases f.device_fails) [
        | inl bad ↦ simp (asked, fresh, bad) (failed-Settles query_failed s.hook_calls s refl)
        | inr found ↦ simp (asked, fresh, found) (known device)
      ]
    ]
  ]
    where
      known :
          (d : DeviceFound)
          → Settles s.hook_calls (elim d [
            | none ↦ refused device_not_registered s
            | some (some revoked) ↦ refused device_revoked s
            | some none ↦ count_bundle f (some h) now user input tier s
          ])
      known none = failed-Settles device_not_registered s.hook_calls s refl
      known (some (some t)) = failed-Settles device_revoked s.hook_calls s refl
      known (some none) = unfold count_bundle in simp on (create-Settles s on)

  -- An upload under a hook that grants a reservation with an id ends the reservation exactly once:
  -- if the upload succeeds the reservation is settled and not released, and if it fails the
  -- reservation is released, after at most one attempt to settle it that failed.
  pub reservation_ends :
      (tier : Option UserTier) (device : DeviceFound) (s : Store)
      → active (some h) ≡ true
      → h.reserve_answer ≡ none
      → let (e, s') = upload_bundle f (some h) now user input tier device s in
        ((e ≡ none) × (s'.hook_calls ≡ settle_call true ∷ reserve_call ∷ s.hook_calls))
        ⊎ ((e ≢ none)
            × ((s'.hook_calls ≡ release_call ∷ reserve_call ∷ s.hook_calls)
                ⊎ (s'.hook_calls ≡ release_call ∷ settle_call false ∷ reserve_call ∷ s.hook_calls)))
  unfolding upload_bundle reserve release
  reservation_ends tier device s on granted =
      let body = checked-Settles tier device (hook_called reserve_call s) on in
      elim body [
        | inl (fine, settled, calls) ↦ inl (ground arith, ground arith)
        | inr (bad, unsettled, calls) ↦
            inr
              (ground arith, elim calls [ inl a ↦ inl (ground arith) | inr b ↦ inr (ground arith) ])
      ]
