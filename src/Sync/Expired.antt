-- ===== src/Sync/Expired.antt =====
-- What a purge takes out of the table and the storage, and what it reports.
use Prim.Native.Nat.{min}
use hsync_server.Prelude.{
  ℕ, suc, ◌+◌, ◌≡◌, ◌&&◌, ◌==◌, Bool, true, false, not, none, some, List, [], ◌∷◌, Text, text_eq,
  text_eqb_iff, if◌then◌else◌, keep_if, any_if, length, length-take, lookup, lookup-delete, arith,
  Bool-cases, inl, inr, refl, sym, ◌∙◌, ap, All, pos, pos_part, ltb,
}
use hsync_server.Sync.Tables.{Bundle, Store, is_bundle, bundle_key, get_bundle, hard_delete_bundle}
use hsync_server.Sync.Retention.{
  RetentionReport, purge_one, purge_each, purge_expired, list_deleted_before, deleted_before,
  oldest_deleted, insert_deleted, normalize_batch,
}
use hsync_server.Sync.Purged.{OneKey, All-oldest_deleted, All-take, purge_keeps_live}

-- A row whose deletion time is before another time.
abbrev pub is_expired : ℕ → Bundle → Bool
is_expired before b = elim b.deleted_at [ none ↦ false | some t ↦ ltb t before ]

abbrev pub key_of : Bundle → Text
key_of b = bundle_key b.user_id b.bundle_id

abbrev pub bytes_of : List Bundle → ℕ
bytes_of [] = 0
bytes_of (b ∷ bs) = b.size_bytes + bytes_of bs

-- A row of the table that was deleted before a time.
abbrev pub IsOld : ℕ → List Bundle → Bundle → Type 0
IsOld before rows b =
    (is_expired before b ≡ true) × (any_if (is_bundle b.user_id b.bundle_id) rows ≡ true)

-- The table has the key of a row.
abbrev HasKey : List Bundle → Bundle → Type 0
HasKey rows b = any_if (is_bundle b.user_id b.bundle_id) rows ≡ true

HasKey-later :
    (b : Bundle) (rows xs : List Bundle) → All (HasKey rows) xs → All (HasKey (b ∷ rows)) xs
HasKey-later b rows [] a = tt
HasKey-later b rows (x ∷ xs) a =
    let here = a.0 in (unfold any_if in ground arith, HasKey-later b rows xs a.1)

All-HasKey : (rows : List Bundle) → All (HasKey rows) rows
All-HasKey [] = tt
All-HasKey (b ∷ rows) = (
  unfold any_if in
      ground (arith, text_eqb_iff b.user_id b.user_id, text_eqb_iff b.bundle_id b.bundle_id),
  HasKey-later b rows rows (All-HasKey rows),
)

All-IsOld :
    (before : ℕ) (rows bs : List Bundle)
    → All (HasKey rows) bs
    → All (IsOld before rows) (keep_if (λ b. deleted_before before b.deleted_at) bs)
unfolding keep_if
All-IsOld before rows [] a = tt
All-IsOld before rows (b ∷ bs) a = elim (Bool-cases (deleted_before before b.deleted_at)) [
  | inl old ↦ rw old ((ground arith, a.0), All-IsOld before rows bs a.1)
  | inr new ↦ rw new (All-IsOld before rows bs a.1)
]

length-insert_deleted :
    (b : Bundle) (bs : List Bundle) → length (insert_deleted b bs) ≡ suc (length bs)
unfolding insert_deleted
length-insert_deleted b [] = refl
length-insert_deleted b (c ∷ cs) = ground (arith, length-insert_deleted b cs)

length-oldest_deleted : (bs : List Bundle) → length (oldest_deleted bs) ≡ length bs
unfolding oldest_deleted
length-oldest_deleted [] = refl
length-oldest_deleted (b ∷ bs) =
    length-insert_deleted b (oldest_deleted bs) ∙ ap suc (length-oldest_deleted bs)

-- The batch of a purge holds as many rows as were deleted before the time, and at most a hundred.
batch_length :
    (before : ℕ) (bs : List Bundle)
    → length (list_deleted_before before (pos 100) bs)
      ≡ min 100 (length (keep_if (is_expired before) bs))
unfolding list_deleted_before normalize_batch
batch_length before bs =
    length-take 100 (oldest_deleted (keep_if (λ b. deleted_before before b.deleted_at) bs))
    ∙ ap (min 100) (length-oldest_deleted _ ∙ kept bs)
  where
    kept :
        (bs : List Bundle)
        → length (keep_if (λ b. deleted_before before b.deleted_at) bs)
          ≡ length (keep_if (is_expired before) bs)
    kept [] = unfold keep_if in refl
    kept (b ∷ bs) = let rest = kept bs in unfold keep_if in ground arith

module _ (blob_fails : Text → Bool) (row_fails : Text → Text → Bool) where
  -- Both deletions of a row go through.
  abbrev pub is_taken : Bundle → Bool
  is_taken b = not (blob_fails (key_of b)) && not (row_fails b.user_id b.bundle_id)

  abbrev pub spared : List Bundle → Bundle → Bool
  spared bs c = not (any_if (λ b. is_taken b && is_bundle b.user_id b.bundle_id c) bs)

  spared-none : (xs : List Bundle) → keep_if (spared []) xs ≡ xs
  unfolding keep_if any_if
  spared-none [] = refl
  spared-none (x ∷ xs) = ground (arith, spared-none xs)

  spared-hard_delete :
      (b : Bundle) (bs xs : List Bundle)
      → is_taken b ≡ true
      → keep_if (spared bs) (hard_delete_bundle b.user_id b.bundle_id xs)
        ≡ keep_if (spared (b ∷ bs)) xs
  unfolding keep_if any_if hard_delete_bundle
  spared-hard_delete b bs [] t = refl
  spared-hard_delete b bs (x ∷ xs) t = ground (arith, spared-hard_delete b bs xs t)

  spared-left :
      (b : Bundle) (bs xs : List Bundle)
      → is_taken b ≡ false
      → keep_if (spared bs) xs ≡ keep_if (spared (b ∷ bs)) xs
  unfolding keep_if any_if
  spared-left b bs [] t = refl
  spared-left b bs (x ∷ xs) t = ground (arith, spared-left b bs xs t)

  one-rows :
      (b : Bundle) (bs : List Bundle) (r : RetentionReport × Store)
      → keep_if (spared bs) (purge_one blob_fails row_fails b r).1.bundles
        ≡ keep_if (spared (b ∷ bs)) r.1.bundles
  unfolding purge_one
  one-rows b bs (report, s) = elim (Bool-cases (blob_fails (key_of b))) [
    | inl bad ↦ rw bad (spared-left b bs s.bundles (ground arith))
    | inr fine ↦ elim (Bool-cases (row_fails b.user_id b.bundle_id)) [
      | inl bad ↦ rw (fine, bad) (spared-left b bs s.bundles (ground arith))
      | inr gone ↦ rw (fine, gone) (spared-hard_delete b bs s.bundles (ground arith))
    ]
  ]

  each-rows :
      (bs : List Bundle) (r : RetentionReport × Store)
      → (purge_each blob_fails row_fails bs r).1.bundles ≡ keep_if (spared bs) r.1.bundles
  unfolding purge_each
  each-rows [] r = unfold any_if in sym (spared-none r.1.bundles)
  each-rows (b ∷ bs) (report, s) =
      each-rows bs (purge_one blob_fails row_fails b (report, s)) ∙ one-rows b bs (report, s)

  each-blobs :
      (k : Text) (bs : List Bundle) (r : RetentionReport × Store)
      → lookup k (purge_each blob_fails row_fails bs r).1.blobs ≡ (
          if any_if (λ b. key_of b == k && not (blob_fails k)) bs then none else lookup k r.1.blobs)
  unfolding purge_each any_if
  each-blobs k [] r = refl
  each-blobs k (b ∷ bs) (report, s) =
      each-blobs k bs (purge_one blob_fails row_fails b (report, s)) ∙ one
    where
      one :
          (if any_if (λ c. key_of c == k && not (blob_fails k)) bs
            then none
            else lookup k (purge_one blob_fails row_fails b (report, s)).1.blobs)
          ≡ (if any_if (λ c. key_of c == k && not (blob_fails k)) (b ∷ bs)
              then none
              else lookup k s.blobs)
      one =
          unfold purge_one in
          unfold any_if in
          ground (arith, lookup-delete (key_of b) k s.blobs, text_eqb_iff (key_of b) k)

  each-report :
      (bs : List Bundle) (r : RetentionReport × Store)
      → (purge_each blob_fails row_fails bs r).0 ≡ record {
        before = r.0.before;
        expired_bundles = r.0.expired_bundles + length (keep_if is_taken bs);
        expired_bytes = r.0.expired_bytes + bytes_of (keep_if is_taken bs);
        failed = r.0.failed + length (keep_if (λ b. not (is_taken b)) bs);
      }
  unfolding purge_each keep_if
  each-report [] r = unfold keep_if in ground arith
  each-report (b ∷ bs) (report, s) =
      each-report bs (purge_one blob_fails row_fails b (report, s))
      ∙ (unfold purge_one in unfold keep_if in ground arith)

  each-usage :
      (bs : List Bundle) (r : RetentionReport × Store)
      → (purge_each blob_fails row_fails bs r).1.usage ≡ r.1.usage
  unfolding purge_each
  each-usage [] r = refl
  each-usage (b ∷ bs) (report, s) =
      each-usage bs (purge_one blob_fails row_fails b (report, s))
      ∙ (unfold purge_one in ground arith)

  -- A purge over a table with its primary key leaves every bundle that is not deleted. Its batch
  -- are rows of the table that were deleted before the time, a hundred of them if there are as
  -- many. It takes a row of the batch out of the table exactly if both its deletions go through,
  -- and an object out of the storage exactly if it is of a row of the batch and its deletion goes
  -- through; it leaves the counted usage, and reports the rows that it takes with their bytes, and
  -- the other rows of the batch as failed.
  pub purge_takes_expired :
      (u i k : Text) (before : ℕ) (s : Store)
      → OneKey s.bundles
      → let (report, s') = purge_expired blob_fails row_fails before s in
        let batch = list_deleted_before before (pos 100) s.bundles in
        (get_bundle u i s'.bundles ≡ get_bundle u i s.bundles)
        × All (IsOld before s.bundles) batch
        × (length batch ≡ min 100 (length (keep_if (is_expired before) s.bundles)))
        × (s'.bundles ≡ keep_if (spared batch) s.bundles)
        × (lookup k s'.blobs ≡ (
            if any_if (λ b. key_of b == k && not (blob_fails k)) batch
            then none
            else lookup k s.blobs))
        × (s'.usage ≡ s.usage)
        × (report ≡ record {
          before = before;
          expired_bundles = length (keep_if is_taken batch);
          expired_bytes = bytes_of (keep_if is_taken batch);
          failed = length (keep_if (λ b. not (is_taken b)) batch);
        })
  unfolding purge_expired
  purge_takes_expired u i k before s one =
      let batch = list_deleted_before before (pos 100) s.bundles in
      (
        purge_keeps_live blob_fails row_fails u i before s one,
        unfold list_deleted_before in
            All-take _ (pos_part (normalize_batch (pos 100))) _ (
              All-oldest_deleted _ _ (All-IsOld before s.bundles s.bundles (All-HasKey s.bundles))),
        batch_length before s.bundles,
        each-rows batch _,
        each-blobs k batch _,
        each-usage batch _,
        each-report batch _ ∙ ground arith,
      )
