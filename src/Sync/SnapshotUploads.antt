-- ===== src/Sync/SnapshotUploads.antt =====
-- UploadSnapshot and the counted bytes.
use hsync_server.Prelude.{
  ℕ, ◌+◌, ◌≡◌, false, ◌||◌, Option, none, some, ◌∷◌, Text, text_eq, Dict, any_if, insert, arith,
  Bool-cases, Option-cases, inl, inr, refl,
}
use hsync_server.Sync.Tables.{Usage, Store, is_snapshot, snapshot_key, count_live_snapshots}
use hsync_server.Sync.Usage.{
  UserTier, tier_limits, Added, added, not_added, over_quota, with_snapshot,
}
use hsync_server.Sync.Guard.{Hook, active, reserve}
use hsync_server.Sync.Snapshots.{
  SnapshotInput, SnapshotFaults, snapshot_meta, drop_row, put_snapshot, create_snapshot,
  after_add_snapshot, count_snapshot, checked_snapshot, upload_snapshot, half_put_snapshot,
}
use hsync_server.Sync.Covered.{total_of, Covered, share, total-try}
use hsync_server.Sync.Uploads.{release-inactive, reserve-Covered}
use hsync_server.Sync.SnapshotRows.{
  roll-Covered, live-snapshot_meta, drop_row-Covered, prune-Covered,
}

module _ (f : SnapshotFaults) (guard : Option Hook) (now : ℕ) (user : Text)
    (input : SnapshotInput) where
  put-Covered_snapshot :
      (u : Text) (k count keep : ℕ) (s : Store)
      → active guard ≡ false
      → f.hard_delete_fails ≡ false
      → any_if (is_snapshot user input.snapshot_id) s.snapshots ≡ false
      → Covered u (share user u input.size_bytes + k) s
      → Covered u k
          (put_snapshot f guard now user input count keep
            (record s { snapshots = snapshot_meta f guard now user input ∷ s.snapshots })).2
  unfolding put_snapshot
  put-Covered_snapshot u k count keep s off hard fresh c =
      let more = live-snapshot_meta f guard now user input u s.snapshots in
      let new : Store = record s {
        snapshots = snapshot_meta f guard now user input ∷ s.snapshots;
      } in
      let half = half_put_snapshot f guard now user input new in
      elim (Bool-cases f.put_fails) [
        | inl bad ↦ simp bad (
            roll-Covered f guard now user input u k (drop_row f guard now user input half) off (
              drop_row-Covered f guard now user input u k half s.snapshots hard fresh refl
                (omega arith)))
        | inr fine ↦ simp fine (
            prune-Covered f guard now user input u k count keep
              (record new {
                blobs = insert (snapshot_key user input.snapshot_id) input.content s.blobs;
              })
              s.snapshots off hard fresh refl (omega arith))
      ]

  create-Covered_snapshot :
      (u : Text) (k count keep : ℕ) (s : Store)
      → active guard ≡ false
      → f.hard_delete_fails ≡ false
      → Covered u (share user u input.size_bytes + k) s
      → Covered u k (create_snapshot f guard now user input count keep s).2
  unfolding create_snapshot
  create-Covered_snapshot u k count keep s off hard c =
      elim (Bool-cases
        (f.create_fails || any_if (is_snapshot user input.snapshot_id) s.snapshots)) [
          | inl bad ↦ simp bad (roll-Covered f guard now user input u k s off c)
          | inr fine ↦ simp fine (put-Covered_snapshot u k count keep s off hard (ground arith) c)
        ]

  after_add-Covered :
      (u : Text) (k count keep : ℕ) (s : Store) (a : Added) (m : Dict Text Usage)
      → active guard ≡ false
      → f.hard_delete_fails ≡ false
      → Covered u k s
      → total_of u m
        ≡ total_of u s.usage + (elim a [ added ↦ share user u input.size_bytes | _ ↦ 0 ])
      → Covered u k
          (after_add_snapshot f guard now user input count keep a (record s { usage = m })).2
  unfolding after_add_snapshot
  after_add-Covered u k count keep s not_added m off hard c e = ground arith
  after_add-Covered u k count keep s over_quota m off hard c e = ground arith
  after_add-Covered u k count keep s added m off hard c e =
      create-Covered_snapshot u k count keep (record s { usage = m }) off hard (ground arith)

  count-Covered_snapshot :
      (u : Text) (k count : ℕ) (t : UserTier) (s : Store)
      → active guard ≡ false
      → f.hard_delete_fails ≡ false
      → Covered u k s
      → Covered u k (count_snapshot f guard now user input t count s).2
  unfolding count_snapshot
  count-Covered_snapshot u k count t s off hard c = simp off (
      after_add-Covered u k count (tier_limits t).max_snapshots s _ _ off hard c (
        total-try f.ensure_fails f.add_fails with_snapshot user u input.size_bytes
          (tier_limits t).storage_limit_bytes s.usage (λ n v. refl)))

  checked-Covered_snapshot :
      (u : Text) (k : ℕ) (tier : Option UserTier) (s : Store)
      → active guard ≡ false
      → f.hard_delete_fails ≡ false
      → Covered u k s
      → Covered u k (checked_snapshot f guard now user input tier s).2
  unfolding checked_snapshot
  checked-Covered_snapshot u k none s off hard c = ground arith
  checked-Covered_snapshot u k (some t) s off hard c =
      let counted =
        count-Covered_snapshot u k (count_live_snapshots user s.snapshots) t s off hard c in
      ground arith

  -- Without an active reservation, and unless the HardDelete of its roll-back fails, an upload of
  -- a snapshot with its prune keeps a user's counted bytes at or above his live bytes and
  -- the bytes in flight of other uploads, whatever else fails in it.
  pub upload_snapshot-Covered :
      (u : Text) (k : ℕ) (tier : Option UserTier) (s : Store)
      → active guard ≡ false
      → f.hard_delete_fails ≡ false
      → Covered u k s
      → Covered u k (upload_snapshot f guard now user input tier s).1
  unfolding upload_snapshot
  upload_snapshot-Covered u k tier s off hard c = elim (Option-cases (reserve guard s).0) [
    | inl granted ↦
        rw (granted, upload_snapshot, release-inactive guard _ _ off)
          (checked-Covered_snapshot u k tier (reserve guard s).1 off hard
            (reserve-Covered guard u k s c))
    | inr (x, denied) ↦ rw (denied, upload_snapshot) (reserve-Covered guard u k s c)
  ]
