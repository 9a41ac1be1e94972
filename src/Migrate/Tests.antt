-- ===== src/Migrate/Tests.antt =====
-- pkg/migrate/migrate.go: runs at concrete inputs.
use hsync_server.Prelude.{
  ℕ, ◌+◌, arith, none, ◌≡◌, ◌↔◌, refl, pos, ltb_ℤ, Bool, true, false, List, [], ◌∷◌, ◌++◌, Text,
  keep_if, any_if, All,
}
use hsync_server.GoStrings.{codes}
use hsync_server.Migrate.Plan.{
  Migration, pending_of_all, rollback_plan, by_version, applied_desc, insert_version, next_version,
}
use hsync_server.Migrate.Run.{
  Database, apply_one, apply_each, migrate_up, revert_one, revert_each, migrate_down,
}
use hsync_server.Migrate.Resume.{up_resumes, recorded}
use hsync_server.Migrate.Rollback.{down_reverts}
use hsync_server.Migrate.Versions.{next_version_lem}

abbrev migration : ℕ → Migration
migration n = record { version = pos n; name = codes "m"; up = codes "up"; down = codes "down" }

abbrev three : List Migration
three = migration 1 ∷ migration 2 ∷ migration 3 ∷ []

-- A database that counts its scripts and refuses the third.
abbrev exec : Text → ℕ → Bool × ℕ
exec script n = (ltb_ℤ (pos n) (pos 2), n + 1)

abbrev loses : Migration → Bool
loses m = false

abbrev fresh : Database ℕ
fresh = record { rows = []; world = 0 }

up_resumes_example :
    let (e, db) = migrate_up exec loses three fresh in
    (done : List Migration) × (pending_of_all three [] ≡ done ++ pending_of_all three db.rows)
    × (db.rows ≡ recorded done [])
    × ((e ≡ none) ↔ (pending_of_all three db.rows ≡ []))
unfolding any_if
up_resumes_example = up_resumes exec loses three fresh (refl, (refl, (refl, tt)))

stops_test : pending_of_all three (migrate_up exec loses three fresh).1.rows ≡ migration 3 ∷ []
unfolding migrate_up apply_each apply_one pending_of_all keep_if any_if
stops_test = refl

abbrev all_applied : Database ℕ
all_applied = record {
  rows = (pos 3, codes "m") ∷ (pos 1, codes "m") ∷ (pos 2, codes "m") ∷ [];
  world = 0;
}

down_reverts_example :
    applied_desc (migrate_down exec loses three (pos 2) all_applied).1.rows ≡ pos 1 ∷ []
unfolding migrate_down rollback_plan by_version revert_each revert_one applied_desc insert_version
    any_if keep_if
down_reverts_example =
    down_reverts exec loses three 2 all_applied (omega arith) (refl, (refl, (refl, tt))) refl

next_version_lem_example :
    (ltb_ℤ (pos 0) (next_version three) ≡ true)
    × All (λ m. ltb_ℤ m.version (next_version three) ≡ true) three
next_version_lem_example = next_version_lem three (refl, (refl, (refl, tt)))
