-- ===== src/Migrate/Whole.antt =====
-- pkg/migrate/migrate.go: UpWithTable and DownWithTable from the directory on.
use hsync_server.Prelude.{
  ◌≡◌, ◌↔◌, refl, ℤ, pos, ltb_ℤ, leb_ℤ, eqb_ℤ, Bool, true, false, not, Option, none, some, List, [],
  ◌∷◌, ◌++◌, Text, map, any_if, arith, All, if◌then◌else◌, inl, inr, Bool-cases, ◌&&◌,
}
use hsync_server.Migrate.Plan.{Migration, pending_of_all}
use hsync_server.Migrate.Run.{Database, MigrateError, migrate_up, migrate_down}
use hsync_server.Migrate.Parse.{Entry, ParseError, failed, done, parse_files}
use hsync_server.Migrate.Status.{valid_table}
use hsync_server.Migrate.Resume.{OneEach, recorded, up_resumes}
use hsync_server.Migrate.Sorted.{Ascending}
use hsync_server.Migrate.Parsed.{parse_files-Ascending}

pub data TableError : Type 0 where
  bad_table table_failed query_failed : TableError
  not_parsed : ParseError → TableError
  not_run : MigrateError → TableError

-- The table that ensureSchemaTable leaves, and what the query on it answers.
pub record Access : Type 0 where
  pub ensured : Bool
  pub queried : Bool

module _ {W : Type 0} (exec : Text → W → Bool × W) (loses : Migration → Bool) where
  abbrev pub as_run : Option MigrateError × Database W → Option TableError × Database W
  as_run (none, db) = (none, db)
  as_run (some x, db) = (some (not_run x), db)

  -- What both functions do before the plan: the table's name, the directory, the table.
  unfoldable pub with_table :
      Text
      → List Entry
      → Access
      → (List Migration → Database W → Option TableError × Database W)
      → Database W
      → Option TableError × Database W
  with_table table es access run db =
      if not (valid_table table) then (some bad_table, db) else elim (parse_files es) [
        | failed x ↦ (some (not_parsed x), db)
        | done all ↦
            if not access.ensured
            then (some table_failed, db)
            else if not access.queried
            then (some query_failed, db)
            else run all db
      ]

  -- UpWithTable
  unfoldable pub up_with_table :
      Text → List Entry → Access → Database W → Option TableError × Database W
  unfolding with_table
  up_with_table table es access db =
      with_table table es access (λ all d. as_run (migrate_up exec loses all d)) db

  -- DownWithTable
  unfoldable pub down_with_table :
      Text → List Entry → Access → ℤ → Database W → Option TableError × Database W
  unfolding with_table
  down_with_table table es access n db =
      if leb_ℤ n (pos 0)
      then (none, db)
      else with_table table es access (λ all d. as_run (migrate_down exec loses all n d)) db

above_absent :
    (v : ℤ) (ms : List Migration)
    → All (λ w. ltb_ℤ v w ≡ true) (map (λ m. m.version) ms)
    → any_if (λ m. eqb_ℤ m.version v) ms ≡ false
unfolding any_if
above_absent v [] h = refl
above_absent v (m ∷ ms) h = let a = h.0 in ground (arith, above_absent v ms h.1)

Ascending-OneEach : (ms : List Migration) → Ascending (map (λ m. m.version) ms) → OneEach ms
Ascending-OneEach [] h = tt
Ascending-OneEach (m ∷ ms) h = (above_absent m.version ms h.0, Ascending-OneEach ms h.1)

-- How a run splits what was pending; `ready` says that its plan was reached.
abbrev pub Resumes :
    {W : Type 0} → List Migration → Bool → Database W → Option TableError × Database W → Type 0
Resumes all ready db (e, db') =
    (applied : List Migration) × (pending_of_all all db.rows
      ≡ applied ++ pending_of_all all db'.rows)
    × (db'.rows ≡ recorded applied db.rows)
    × ((e ≡ none) ↔ ((ready ≡ true) × (pending_of_all all db'.rows ≡ [])))

module _ {W : Type 0} (exec : Text → W → Bool × W) (loses : Migration → Bool) where
  stopped :
      (all : List Migration) (x : TableError) (db : Database W) → Resumes all false db (some x, db)
  stopped all x db = ([], refl, refl, ((λ h. absurd (ground arith)), λ h. absurd (ground arith)))

  ran :
      (all : List Migration) (db : Database W) (r : Option MigrateError × Database W)
      → (applied : List Migration) × (pending_of_all all db.rows
          ≡ applied ++ pending_of_all all r.1.rows)
        × (r.1.rows ≡ recorded applied db.rows)
        × ((r.0 ≡ none) ↔ (pending_of_all all r.1.rows ≡ []))
      → Resumes all true db (as_run exec loses r)
  ran all db (none, db') (applied, whole, kept, ends) =
      (applied, whole, kept, ((λ h. (refl, ends.0 refl)), λ h. refl))
  ran all db (some x, db') (applied, whole, kept, ends) = (
    applied,
    whole,
    kept,
    ((λ h. absurd (ground arith)), (λ h. absurd (let k = ends.1 h.1 in ground arith))),
  )

  -- A run of UpWithTable over a directory that Parse accepts, whatever fails in it: what was
  -- pending splits into what is now recorded and what is pending for the next run, in their
  -- order, and it ends without an error exactly if the tracking table's name is valid, the table
  -- can be made and read, and nothing is left pending.
  pub up_with_table-Resumes :
      (table : Text) (es : List Entry) (access : Access) (all : List Migration) (db : Database W)
      → parse_files es ≡ done all
      → Resumes all
          (valid_table table && access.ensured && access.queried)
          db
          (up_with_table exec loses table es access db)
  unfolding up_with_table
  up_with_table-Resumes table es access all db p = elim (Bool-cases (valid_table table)) [
    | inr bad ↦ rw (bad, with_table) (stopped all bad_table db)
    | inl ok ↦ elim (Bool-cases access.ensured) [
      | inr bad ↦ rw (ok, with_table, p, bad) (stopped all table_failed db)
      | inl made ↦ elim (Bool-cases access.queried) [
        | inr bad ↦ rw (ok, with_table, p, made, bad) (stopped all query_failed db)
        | inl read ↦
            rw (ok, with_table, p, made, read)
              (ran all db (migrate_up exec loses all db) (
                up_resumes exec loses all db
                  (Ascending-OneEach all (parse_files-Ascending es all p))))
      ]
    ]
  ]
