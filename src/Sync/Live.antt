-- ===== src/Sync/Live.antt =====
-- The live bytes before and after a row is deleted.
use hsync_server.Prelude.{
  ℕ, ◌+◌, ◌≤◌, ◌≡◌, false, some, List, [], ◌∷◌, Text, text_eq, text_eqb_iff, keep_if, any_if, arith,
  refl,
}
use hsync_server.Sync.Tables.{
  Bundle, Snapshot, is_bundle, is_snapshot, get_bundle, get_snapshot, hard_delete_bundle,
  hard_delete_snapshot, soft_delete_bundle, soft_delete_snapshot, live_bundle_bytes,
  live_snapshot_bytes,
}
use hsync_server.Sync.Covered.{share}

pub hard_delete_bundle-absent :
    (user id : Text) (bs : List Bundle)
    → any_if (is_bundle user id) bs ≡ false
    → hard_delete_bundle user id bs ≡ bs
unfolding hard_delete_bundle keep_if any_if
hard_delete_bundle-absent user id [] h = refl
hard_delete_bundle-absent user id (b ∷ bs) h = ground (arith, hard_delete_bundle-absent user id bs)

pub hard_delete_snapshot-absent :
    (user id : Text) (bs : List Snapshot)
    → any_if (is_snapshot user id) bs ≡ false
    → hard_delete_snapshot user id bs ≡ bs
unfolding hard_delete_snapshot keep_if any_if
hard_delete_snapshot-absent user id [] h = refl
hard_delete_snapshot-absent user id (b ∷ bs) h =
    ground (arith, hard_delete_snapshot-absent user id bs)

pub live-soft_bundle :
    (now : ℕ) (user u id : Text) (bs : List Bundle)
    → live_bundle_bytes u (soft_delete_bundle now user id bs) ≤ live_bundle_bytes u bs
unfolding live_bundle_bytes soft_delete_bundle
live-soft_bundle now user u id [] = omega arith
live-soft_bundle now user u id (c ∷ bs) = ground (arith, live-soft_bundle now user u id bs)

pub live-soft_delete_bundle :
    (now : ℕ) (user u id : Text) (bs : List Bundle) (b : Bundle)
    → get_bundle user id bs ≡ some b
    → live_bundle_bytes u (soft_delete_bundle now user id bs) + share user u b.size_bytes
      ≤ live_bundle_bytes u bs
unfolding get_bundle live_bundle_bytes soft_delete_bundle
live-soft_delete_bundle now user u id [] b h = absurd (ground arith)
live-soft_delete_bundle now user u id (c ∷ bs) b h = ground (
  arith,
  live-soft_delete_bundle now user u id bs b,
  live-soft_bundle now user u id bs,
  text_eqb_iff c.user_id user,
  text_eqb_iff c.user_id u,
  text_eqb_iff user u,
)

pub live-soft_snapshot :
    (now : ℕ) (user u id : Text) (bs : List Snapshot)
    → live_snapshot_bytes u (soft_delete_snapshot now user id bs) ≤ live_snapshot_bytes u bs
unfolding live_snapshot_bytes soft_delete_snapshot
live-soft_snapshot now user u id [] = omega arith
live-soft_snapshot now user u id (c ∷ bs) = ground (arith, live-soft_snapshot now user u id bs)

pub live-soft_delete_snapshot :
    (now : ℕ) (user u id : Text) (bs : List Snapshot) (b : Snapshot)
    → get_snapshot user id bs ≡ some b
    → live_snapshot_bytes u (soft_delete_snapshot now user id bs) + share user u b.size_bytes
      ≤ live_snapshot_bytes u bs
unfolding get_snapshot live_snapshot_bytes soft_delete_snapshot
live-soft_delete_snapshot now user u id [] b h = absurd (ground arith)
live-soft_delete_snapshot now user u id (c ∷ bs) b h = ground (
  arith,
  live-soft_delete_snapshot now user u id bs b,
  live-soft_snapshot now user u id bs,
  text_eqb_iff c.user_id user,
  text_eqb_iff c.user_id u,
  text_eqb_iff user u,
)
