-- ===== src/Migrate/Status.antt =====
-- pkg/migrate/status.go: the report on a database's migrations.
use hsync_server.Prelude.{
  ℤ, Bool, true, false, not, ◌&&◌, ◌||◌, Option, none, some, List, [], ◌∷◌, ◌++◌, Text, ◌==◌,
  text_eq, if◌then◌else◌, leb, nat_eqb, ℕ,
}
use hsync_server.GoStrings.{trim_space, is_digit}
use hsync_server.Migrate.Plan.{Migration, Rows, by_version, pending_of_all}
use hsync_server.Migrate.Parse.{Entry, ParseError, failed, done, parse_files}

pub record MigrationRef : Type 0 where
  pub version : ℤ
  pub name : Text

pub record AppliedMigration : Type 0 where
  pub version : ℤ
  pub name : Text
  pub applied_at : ℤ

-- What a problem of the report is about; its texts follow from this.
pub data StatusProblem : Type 0 where
  no_table : Text → StatusProblem
  not_embedded : ℤ → Text → StatusProblem
  other_name : ℤ → Text → Text → StatusProblem

pub record StatusReport : Type 0 where
  pub scope : Text
  pub tracking_table : Text
  pub tracking_table_ok : Bool
  pub consistent : Bool
  pub applied : List AppliedMigration
  pub pending : List MigrationRef
  pub rollback_available : List MigrationRef
  pub problems : List StatusProblem

abbrev pub ref_of : Migration → MigrationRef
ref_of m = record { version = m.version; name = m.name }

unfoldable pub migration_refs : List Migration → List MigrationRef
migration_refs [] = []
migration_refs (m ∷ ms) = ref_of m ∷ migration_refs ms

-- rollbackAvailableRefs: the loop goes from the last applied migration to the first.
unfoldable pub rollback_refs : List Migration → List AppliedMigration → List MigrationRef
rollback_refs all [] = []
rollback_refs all (a ∷ applied) =
    rollback_refs all applied
    ++ (elim (by_version a.version all) [ none ↦ [] | some m ↦ ref_of m ∷ [] ])

-- The problem of an applied migration, by the map embedded.
unfoldable pub problem_of : List Migration → AppliedMigration → Option StatusProblem
problem_of all a = elim (by_version a.version all) [
  | none ↦ some (not_embedded a.version a.name)
  | some m ↦ if m.name == a.name then none else some (other_name a.version a.name m.name)
]

-- The loop over applied.
unfoldable pub check_applied : List Migration → List AppliedMigration → StatusReport → StatusReport
check_applied all [] report = report
check_applied all (a ∷ applied) report = check_applied all applied (elim (problem_of all a) [
  | none ↦ report
  | some p ↦ record report { consistent = false; problems = report.problems ++ p ∷ [] }
])

abbrev pub rows_of : List AppliedMigration → Rows
rows_of [] = []
rows_of (a ∷ applied) = (a.version, a.name) ∷ rows_of applied

-- BuildStatus
unfoldable pub build_status :
    List Migration → List AppliedMigration → Text → Text → Bool → StatusReport
build_status all applied table scope table_ok =
    let report : StatusReport = record {
      scope = scope;
      tracking_table = table;
      tracking_table_ok = table_ok;
      consistent = true;
      applied = applied;
      pending = [];
      rollback_available = [];
      problems = [];
    } in
    if not table_ok
    then record report { pending = migration_refs all; problems = no_table table ∷ [] }
    else record (check_applied all applied report) {
      pending = migration_refs (pending_of_all all (rows_of applied));
      rollback_available = rollback_refs all applied;
    }

unfoldable pub is_table_byte : ℕ → Bool
unfolding is_digit
is_table_byte c = (leb b'a' c && leb c b'z') || (leb b'A' c && leb c b'Z') || nat_eqb c b'_'

unfoldable pub later_table_bytes : Text → Bool
later_table_bytes [] = true
later_table_bytes (c ∷ s) =
    let rest = later_table_bytes s in if is_table_byte c || is_digit c then rest else false

-- validateTrackingTable; whether it accepts the name.
unfoldable pub valid_table : Text → Bool
valid_table [] = false
valid_table (c ∷ s) = is_table_byte c && later_table_bytes s

pub data StatusError : Type 0 where
  bad_table inspect_failed query_failed : StatusError
  not_parsed : ParseError → StatusError

pub data StatusResult : Type 0 where
  error : StatusError → StatusResult
  report : StatusReport → StatusResult

-- Status: `exists` is what the database says of the tracking table, `rows` what it holds in
-- ascending order; none where the query fails.
unfoldable pub status :
    List Entry → Text → Text → Option Bool → Option (List AppliedMigration) → StatusResult
unfolding build_status
status es table scope exists rows =
    if not (valid_table table)
    then error bad_table
    else let scope' = if trim_space scope == [] then table else scope in
      elim (parse_files es) [
        | failed x ↦ error (not_parsed x)
        | done all ↦ elim exists [
          | none ↦ error inspect_failed
          | some false ↦ report (build_status all [] table scope' false)
          | some true ↦ elim rows [
            | none ↦ error query_failed
            | some applied ↦ report (build_status all applied table scope' true)
          ]
        ]
      ]
