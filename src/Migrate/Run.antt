-- ===== src/Migrate/Run.antt =====
-- pkg/migrate/migrate.go: UpWithTable and DownWithTable, over the migrations that Parse returns and
-- a tracking table that is there.
use hsync_server.Prelude.{
  ℤ, pos, leb_ℤ, eqb_ℤ, Bool, not, ◌||◌, Option, none, some, List, [], ◌∷◌, Text, if◌then◌else◌,
  keep_if, pos_part,
}
use hsync_server.Migrate.Plan.{
  Migration, Rows, is_applied, pending_of_all, rollback_plan, applied_desc,
}

-- The tracking table, and the rest of the database.
pub record Database (W : Type 0) : Type 0 where
  pub rows : Rows
  pub world : W

pub data MigrateError : Type 0 where
  script_error record_error no_definition : MigrateError

-- `exec` runs a script: whether it succeeded, and the database after it. `loses` says whether the
-- statement on the tracking table fails for a migration.
module _ {W : Type 0} (exec : Text → W → Bool × W) (loses : Migration → Bool) where
  -- INSERT INTO the tracking table; its primary key is the version.
  abbrev pub insert_fails : Rows → Migration → Bool
  insert_fails rows m = is_applied rows m.version || loses m

  -- One round of the loop of UpWithTable.
  unfoldable pub apply_one : Migration → Database W → Option MigrateError × Database W
  apply_one m db =
      let (ok, w) = exec m.up db.world in
      if not ok
      then (some script_error, record db { world = w })
      else if insert_fails db.rows m
      then (some record_error, record db { world = w })
      else (none, record { rows = (m.version, m.name) ∷ db.rows; world = w })

  unfoldable pub apply_each : List Migration → Database W → Option MigrateError × Database W
  apply_each [] db = (none, db)
  apply_each (m ∷ ms) db =
      let (e, db') = apply_one m db in elim e [ some x ↦ (some x, db') | none ↦ apply_each ms db' ]

  -- UpWithTable
  unfoldable pub migrate_up : List Migration → Database W → Option MigrateError × Database W
  migrate_up all db = apply_each (pending_of_all all db.rows) db

  unfoldable pub revert_one : Migration → Database W → Option MigrateError × Database W
  revert_one m db =
      let (ok, w) = exec m.down db.world in
      if not ok
      then (some script_error, record db { world = w })
      else if loses m
      then (some record_error, record db { world = w })
      else (none, record { rows = keep_if (λ r. not (eqb_ℤ r.0 m.version)) db.rows; world = w })

  unfoldable pub revert_each : List Migration → Database W → Option MigrateError × Database W
  revert_each [] db = (none, db)
  revert_each (m ∷ ms) db =
      let (e, db') = revert_one m db in
      elim e [ some x ↦ (some x, db') | none ↦ revert_each ms db' ]

  -- DownWithTable
  unfoldable pub migrate_down : List Migration → ℤ → Database W → Option MigrateError × Database W
  migrate_down all n db =
      if leb_ℤ n (pos 0)
      then (none, db)
      else elim (rollback_plan all (applied_desc db.rows) (pos_part n)) [
        | none ↦ (some no_definition, db)
        | some plan ↦ revert_each plan db
      ]
