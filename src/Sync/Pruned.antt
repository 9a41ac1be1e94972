-- ===== src/Sync/Pruned.antt =====
-- What a prune takes from the live bytes, and what the loop after it takes from the usage.
use hsync_server.Prelude.{
  ℕ, zero, suc, ◌+◌, ◌≤◌, Option, none, some, List, [], ◌∷◌, Text, text_eq, text_eqb_iff, keep_if,
  arith, Bool-cases, inl, inr, refl,
}
use hsync_server.Sync.Tables.{Snapshot, Store, live_snapshot_bytes}
use hsync_server.Sync.Usage.{without_snapshot}
use hsync_server.Sync.Prune.{is_pruned, mark_pruned, pruned_rows}
use hsync_server.Sync.Snapshots.{forget_pruned}
use hsync_server.Sync.Covered.{Covered, share, total-remove}

-- What a user sees of the sizes of another user's rows.
abbrev pub shares : Text → Text → List Snapshot → ℕ
shares user u [] = 0
shares user u (b ∷ bs) = share user u b.size_bytes + shares user u bs

pub live-mark_pruned :
    (now : ℕ) (user u : Text) (kept : List Text) (bs : List Snapshot)
    → live_snapshot_bytes u (mark_pruned now user kept bs)
        + shares user u (pruned_rows now user kept bs)
      ≤ live_snapshot_bytes u bs
unfolding live_snapshot_bytes mark_pruned pruned_rows keep_if
live-mark_pruned now user u kept [] = omega arith
live-mark_pruned now user u kept (b ∷ bs) = elim (Bool-cases (is_pruned user kept b)) [
  | inl gone ↦
      let rest = live-mark_pruned now user u kept bs in
      ground (
        arith,
        text_eqb_iff b.user_id user,
        text_eqb_iff b.user_id u,
        text_eqb_iff user u,
        gone,
        rest,
      )
  | inr stays ↦ let rest = live-mark_pruned now user u kept bs in ground (arith, stays, rest)
]

pub forget-Covered :
    (fails : Option ℕ) (user u : Text) (k : ℕ) (bs : List Snapshot) (s : Store)
    → Covered u (shares user u bs + k) s
    → Covered u k (forget_pruned fails user bs s).1
unfolding forget_pruned
forget-Covered fails user u k [] s c = omega arith
forget-Covered none user u k (b ∷ bs) s c =
    let left = total-remove without_snapshot user u b.size_bytes s.usage (λ n v. refl) in
    forget-Covered none user u k bs _ (omega arith)
forget-Covered (some zero) user u k (b ∷ bs) s c = omega arith
forget-Covered (some (suc n)) user u k (b ∷ bs) s c =
    let left = total-remove without_snapshot user u b.size_bytes s.usage (λ n v. refl) in
    forget-Covered (some n) user u k bs _ (omega arith)
