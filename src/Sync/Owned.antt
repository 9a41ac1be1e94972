-- ===== src/Sync/Owned.antt =====
-- Objects of bundles and their rows, in a purge.
use hsync_server.Prelude.{
  ℕ, ◌≡◌, Bool, true, false, not, ◌&&◌, Option, none, some, List, [], ◌∷◌, Text, ◌==◌, text_eq,
  text_eqb_iff, Dict, keep_if, any_if, lookup, delete, lookup-delete, arith, Bool-cases, inl, inr,
  refl, ap, ◌∙◌,
}
use hsync_server.Sync.Tables.{Bundle, Store, is_bundle, bundle_key, hard_delete_bundle}
use hsync_server.Sync.Retention.{
  RetentionReport, purge_one, purge_each, purge_expired, list_deleted_before,
}

abbrev pub has_blob : Option Text → Bool
has_blob none = false
has_blob (some t) = true

-- If the storage has the object of a bundle, the table has its row, deleted or not.
abbrev pub IsOwned : Text → Text → Store → Type 0
IsOwned user id s =
    (has_blob (lookup (bundle_key user id) s.blobs) && not (any_if (is_bundle user id) s.bundles))
    ≡ false

any-hard_delete :
    (u i user id : Text) (bs : List Bundle)
    → (u == user && i == id) ≡ false
    → any_if (is_bundle u i) (hard_delete_bundle user id bs) ≡ any_if (is_bundle u i) bs
unfolding hard_delete_bundle keep_if any_if
any-hard_delete u i user id [] h = refl
any-hard_delete u i user id (b ∷ bs) h =
    let rest = any-hard_delete u i user id bs h in
    ground (
      arith,
      rest,
      text_eqb_iff b.user_id u,
      text_eqb_iff b.user_id user,
      text_eqb_iff u user,
      text_eqb_iff b.bundle_id i,
      text_eqb_iff b.bundle_id id,
      text_eqb_iff i id,
    )

key_same :
    (u i user id : Text) → (u == user && i == id) ≡ true → bundle_key u i ≡ bundle_key user id
key_same u i user id h =
    ap (λ x. bundle_key x i) ((text_eqb_iff u user).0 (ground arith))
    ∙ ap (bundle_key user) ((text_eqb_iff i id).0 (ground arith))

blob_deleted :
    (k j : Text) (m : Dict Text Text)
    → (has_blob (lookup j (delete k m)) && not (has_blob (lookup j m))) ≡ false
blob_deleted k j m = ground (arith, lookup-delete k j m)

-- A purged object: its row may go, another's stays.
drop-IsOwned :
    (u i user id : Text) (s : Store)
    → IsOwned u i s
    → IsOwned u i (record s {
      blobs = delete (bundle_key user id) s.blobs;
      bundles = hard_delete_bundle user id s.bundles;
    })
drop-IsOwned u i user id s o = elim (Bool-cases (u == user && i == id)) [
  | inl same ↦ ground (
    arith,
    lookup-delete (bundle_key user id) (bundle_key u i) s.blobs,
    text_eqb_iff (bundle_key user id) (bundle_key u i),
    key_same u i user id same,
  )
  | inr other ↦
      let rows = any-hard_delete u i user id s.bundles other in
      ground (arith, lookup-delete (bundle_key user id) (bundle_key u i) s.blobs)
]

blob-IsOwned :
    (u i key : Text) (s : Store)
    → IsOwned u i s
    → IsOwned u i (record s { blobs = delete key s.blobs })
blob-IsOwned u i key s o = ground (arith, lookup-delete key (bundle_key u i) s.blobs)

module _ (blob_fails : Text → Bool) (row_fails : Text → Text → Bool) where
  one-IsOwned :
      (u i : Text) (b : Bundle) (r : RetentionReport × Store)
      → IsOwned u i r.1
      → IsOwned u i (purge_one blob_fails row_fails b r).1
  unfolding purge_one
  one-IsOwned u i b (report, s) o =
      elim (Bool-cases (blob_fails (bundle_key b.user_id b.bundle_id))) [
        | inl bad ↦ rw bad o
        | inr fine ↦ elim (Bool-cases (row_fails b.user_id b.bundle_id)) [
          | inl bad ↦ rw (fine, bad) (blob-IsOwned u i (bundle_key b.user_id b.bundle_id) s o)
          | inr gone ↦ rw (fine, gone) (drop-IsOwned u i b.user_id b.bundle_id s o)
        ]
      ]

  each-IsOwned :
      (u i : Text) (bs : List Bundle) (r : RetentionReport × Store)
      → IsOwned u i r.1
      → IsOwned u i (purge_each blob_fails row_fails bs r).1
  unfolding purge_each
  each-IsOwned u i [] r o = o
  each-IsOwned u i (b ∷ bs) r o =
      each-IsOwned u i bs (purge_one blob_fails row_fails b r) (one-IsOwned u i b r o)

  -- A purge, whichever of its deletions fail, leaves no object of a bundle without a row, if there
  -- was none.
  pub purge_expired-IsOwned :
      (u i : Text) (before : ℕ) (s : Store)
      → IsOwned u i s
      → IsOwned u i (purge_expired blob_fails row_fails before s).1
  unfolding purge_expired
  purge_expired-IsOwned u i before s o =
      each-IsOwned u i (list_deleted_before before _ s.bundles) _ o
