-- ===== src/Sync/SnapshotRows.antt =====
-- The last steps of UploadSnapshot, from the row on.
use hsync_server.Prelude.{
  ℕ, ◌+◌, ◌≡◌, Bool, true, false, Option, none, some, List, ◌∷◌, Text, text_eq, any_if, keep_if,
  leb, arith, Bool-cases, inl, inr, refl, ap, ◌∙◌, eqb_refl,
}
use hsync_server.Sync.Tables.{
  Snapshot, Store, is_snapshot, hard_delete_snapshot, live_bundle_bytes, live_snapshot_bytes,
}
use hsync_server.Sync.Usage.{without_snapshot}
use hsync_server.Sync.Guard.{Hook, active}
use hsync_server.Sync.Prune.{prune_oldest, kept_ids, mark_pruned, pruned_rows}
use hsync_server.Sync.Snapshots.{
  SnapshotInput, SnapshotFaults, snapshot_meta, roll_back_snapshot, drop_row, drop_blob,
  settle_snapshot, after_prune, prune_snapshots,
}
use hsync_server.Sync.Covered.{total_of, Covered, share, total-remove}
use hsync_server.Sync.Live.{hard_delete_snapshot-absent}
use hsync_server.Sync.Pruned.{live-mark_pruned, forget-Covered}

-- Without an active guard there is nothing to settle.
settle-inactive_snapshot :
    (f : SnapshotFaults) (guard : Option Hook) (now : ℕ) (user : Text) (input : SnapshotInput)
    (s : Store)
    → active guard ≡ false
    → settle_snapshot f guard now user input s ≡ (none, false, s)
unfolding settle_snapshot
settle-inactive_snapshot f none now user input s off = refl
settle-inactive_snapshot f (some h) now user input s off = rw off refl

module _ (f : SnapshotFaults) (guard : Option Hook) (now : ℕ) (user : Text)
    (input : SnapshotInput) where
  pub roll-Covered :
      (u : Text) (k : ℕ) (s : Store)
      → active guard ≡ false
      → Covered u (share user u input.size_bytes + k) s
      → Covered u k (roll_back_snapshot f guard now user input s)
  unfolding roll_back_snapshot
  roll-Covered u k s off c =
      let left = total-remove without_snapshot user u input.size_bytes s.usage (λ n v. refl) in
      ground arith

  pub live-snapshot_meta :
      (u : Text) (bs : List Snapshot)
      → live_snapshot_bytes u (snapshot_meta f guard now user input ∷ bs)
        ≡ share user u input.size_bytes + live_snapshot_bytes u bs
  unfolding live_snapshot_bytes
  live-snapshot_meta u bs = ground arith

  drop_row-meta :
      (s : Store) (bs : List Snapshot)
      → f.hard_delete_fails ≡ false
      → any_if (is_snapshot user input.snapshot_id) bs ≡ false
      → s.snapshots ≡ snapshot_meta f guard now user input ∷ bs
      → (drop_row f guard now user input s).snapshots ≡ bs
  unfolding drop_row
  drop_row-meta s bs hard fresh e =
      simp hard (ap (hard_delete_snapshot user input.snapshot_id) e ∙ gone)
    where
      gone :
          hard_delete_snapshot user input.snapshot_id (snapshot_meta f guard now user input ∷ bs)
          ≡ bs
      gone =
          unfold hard_delete_snapshot keep_if in
          ground (
            arith,
            eqb_refl user,
            eqb_refl input.snapshot_id,
            hard_delete_snapshot-absent user input.snapshot_id bs fresh,
          )

  -- Dropping the row of a new snapshot puts its bytes back in flight.
  pub drop_row-Covered :
      (u : Text) (k : ℕ) (s : Store) (bs : List Snapshot)
      → f.hard_delete_fails ≡ false
      → any_if (is_snapshot user input.snapshot_id) bs ≡ false
      → s.snapshots ≡ snapshot_meta f guard now user input ∷ bs
      → Covered u k s
      → Covered u (share user u input.size_bytes + k) (drop_row f guard now user input s)
  drop_row-Covered u k s bs hard fresh e c =
      let rest = ap (live_snapshot_bytes u) (drop_row-meta s bs hard fresh e) in
      let whole = ap (live_snapshot_bytes u) e in
      let more = live-snapshot_meta u bs in
      let same : (drop_row f guard now user input s).bundles ≡ s.bundles =
        unfold drop_row in ground arith in
      let same_usage : (drop_row f guard now user input s).usage ≡ s.usage =
        unfold drop_row in ground arith in
      let live = ap (live_bundle_bytes u) same in
      let total = ap (total_of u) same_usage in omega arith

  drop_blob-Covered :
      (u : Text) (k : ℕ) (s : Store)
      → Covered u k s
      → Covered u k (drop_blob f guard now user input s)
  unfolding drop_blob
  drop_blob-Covered u k s c = ground arith

  after_prune-Covered :
      (u : Text) (k : ℕ) (r : Bool × Store)
      → active guard ≡ false
      → Covered u k r.1
      → Covered u k (after_prune f guard now user input r).2
  unfolding after_prune
  after_prune-Covered u k (true, s) off c =
      simp (settle-inactive_snapshot f guard now user input s off) c
  after_prune-Covered u k (false, s) off c = c

  pub prune-Covered :
      (u : Text) (k count keep : ℕ) (s : Store) (bs : List Snapshot)
      → active guard ≡ false
      → f.hard_delete_fails ≡ false
      → any_if (is_snapshot user input.snapshot_id) bs ≡ false
      → s.snapshots ≡ snapshot_meta f guard now user input ∷ bs
      → Covered u k s
      → Covered u k (prune_snapshots f guard now user input count keep s).2
  unfolding prune_snapshots prune_oldest
  prune-Covered u k count keep s bs off hard fresh e c = elim (Bool-cases (leb keep count)) [
    | inr few ↦ simp (few, settle-inactive_snapshot f guard now user input s off) c
    | inl many ↦ elim (Bool-cases f.prune_fails) [
      | inl bad ↦
          simp (many, bad)
            (roll-Covered u k (drop_blob f guard now user input (drop_row f guard now user input s))
              off
              (drop_blob-Covered u _ (drop_row f guard now user input s)
                (drop_row-Covered u k s bs hard fresh e c)))
      | inr fine ↦
          let kept = kept_ids user keep s.snapshots in
          let less = live-mark_pruned now user u kept s.snapshots in
          simp (many, fine)
            (after_prune-Covered u k _ off (
              forget-Covered f.usage_left user u k (pruned_rows now user kept s.snapshots)
                (record s { snapshots = mark_pruned now user kept s.snapshots }) (omega arith)))
    ]
  ]
