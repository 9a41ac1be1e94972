-- ===== src/Sync/Prune.antt =====
-- pkg/repository/repository.go: PruneOldest. Rows of one creation time are kept in any order.
use hsync_server.Prelude.{
  ℕ, Bool, not, ◌&&◌, some, List, [], ◌∷◌, Text, ◌==◌, text_eq, if◌then◌else◌, keep_if, any_if, leb,
  take, map,
}
use hsync_server.Sync.Tables.{Snapshot, is_live}

unfoldable pub insert_newest : Snapshot → List Snapshot → List Snapshot
insert_newest b [] = b ∷ []
insert_newest b (c ∷ cs) =
    let later = insert_newest b cs in
    if leb c.created_at b.created_at then b ∷ c ∷ cs else c ∷ later

-- ORDER BY created_at DESC
unfoldable pub newest_first : List Snapshot → List Snapshot
unfolding insert_newest
newest_first [] = []
newest_first (b ∷ bs) = insert_newest b (newest_first bs)

abbrev pub of_user : Text → Snapshot → Bool
of_user user b = b.user_id == user && is_live b.deleted_at

-- The ids that the inner SELECT keeps.
unfoldable pub kept_ids : Text → ℕ → List Snapshot → List Text
kept_ids user keep bs =
    map (λ b. b.snapshot_id) (take keep (newest_first (keep_if (of_user user) bs)))

abbrev pub is_pruned : Text → List Text → Snapshot → Bool
is_pruned user kept b = of_user user b && not (any_if (λ id. b.snapshot_id == id) kept)

abbrev pub deleted_row : ℕ → Snapshot → Snapshot
deleted_row now b = record b { deleted_at = some now }

unfoldable pub mark_pruned : ℕ → Text → List Text → List Snapshot → List Snapshot
mark_pruned now user kept [] = []
mark_pruned now user kept (b ∷ bs) =
    (if is_pruned user kept b then deleted_row now b else b) ∷ mark_pruned now user kept bs

unfoldable pub pruned_rows : ℕ → Text → List Text → List Snapshot → List Snapshot
pruned_rows now user kept bs = map (deleted_row now) (keep_if (is_pruned user kept) bs)

-- PruneOldest: the marked rows, and the table after it.
unfoldable pub prune_oldest : ℕ → Text → ℕ → List Snapshot → List Snapshot × List Snapshot
prune_oldest now user keep bs =
    let kept = kept_ids user keep bs in (pruned_rows now user kept bs, mark_pruned now user kept bs)
