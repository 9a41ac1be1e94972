-- ===== src/Migrate/FileTests.antt =====
-- pkg/migrate: files, directories and reports at concrete inputs.
use hsync_server.Prelude.{
  ℕ, ◌+◌, ◌≡◌, ◌↔◌, refl, pos, ltb_ℤ, Bool, true, false, ◌&&◌, none, some, List, [], ◌∷◌, Text, map,
  All, take, lookup, insert, delete, text_eqb, arith,
}
use hsync_server.GoStrings.{
  codes, digits, format_nat, is_digit, to_lower, trim_space, trim_left, trim_right, lower_byte,
  is_space, index_of, last_index_of, has_prefix, has_suffix, trim_suffix, parse_int, parse_nat,
  parse_digits, signed,
}
use hsync_server.Migrate.Files.{
  up, down, parsed, parse_file_name, parse_base, parse_stem, parse_version, direction_of,
  is_name_byte, is_separator, snake_bytes, sanitize_name, format_version, created_name,
}
use hsync_server.Migrate.Names.{created_name-parsed}
use hsync_server.Migrate.Plan.{Migration, by_version, rollback_plan, applied_desc}
use hsync_server.Migrate.Parse.{
  Entry, done, read_entry, set_script, fresh_pair, put_script, add_script, add_entry, collect,
  insert_ascending, sort_versions, migration_of, build, parse_files,
}
use hsync_server.Migrate.Parsing.{file_of}
use hsync_server.Migrate.Directory.{Holds}
use hsync_server.Migrate.Sorted.{Ascending}
use hsync_server.Migrate.Parsed.{Listed, parse_files-Holds, parse_files-Ascending}
use hsync_server.Migrate.Run.{Database}
use hsync_server.Migrate.Status.{
  AppliedMigration, migration_refs, rows_of, build_status, check_applied, problem_of, valid_table,
}
use hsync_server.Migrate.Consistent.{IsEmbedded, consistent-IsEmbedded, rollback_available-plan}
use hsync_server.Migrate.Whole.{Access, Resumes, up_with_table, up_with_table-Resumes}

sanitize_test : sanitize_name (codes " Add  User-Table! ") ≡ some (codes "add_user_table")
unfolding sanitize_name snake_bytes is_name_byte is_separator to_lower lower_byte trim_space
    trim_left trim_right is_space is_digit text_eqb
sanitize_test = refl

created_name_test : created_name (pos 12) (codes "add_x") up ≡ codes "012_add_x.up.sql"
unfolding created_name format_version format_nat digits
created_name_test = refl

created_name-parsed_example :
    parse_file_name (created_name (pos 12) (codes "add_user_table") down)
    ≡ parsed (file_of (pos 12) (codes "add_user_table") down)
created_name-parsed_example =
    created_name-parsed (codes " Add  User-Table! ") (codes "add_user_table") 12 down sanitize_test
      (omega arith)

abbrev file : Text → Text → Entry
file name text = record { file = name; is_dir = false; content = some text }

-- Two migrations, a file that is none and a directory.
abbrev directory : List Entry
directory =
    file (codes "010_b.up.sql") (codes "B")
    ∷ file (codes "010_b.down.sql") (codes "-B")
    ∷ file (codes "README.md") (codes "")
    ∷ file (codes "2_a.down.sql") (codes "-A")
    ∷ file (codes "2_a.up.sql") (codes "A")
    ∷ record { file = codes "x.sql"; is_dir = true; content = none }
    ∷ []

abbrev migrations : List Migration
migrations =
    record { version = pos 2; name = codes "a"; up = codes "A"; down = codes "-A" }
    ∷ record { version = pos 10; name = codes "b"; up = codes "B"; down = codes "-B" }
    ∷ []

parse_test : parse_files directory ≡ done migrations
unfolding parse_files collect add_entry read_entry parse_file_name parse_base parse_stem
    parse_version direction_of add_script put_script set_script fresh_pair build migration_of
    sort_versions insert_ascending has_suffix trim_suffix index_of last_index_of has_prefix
    parse_int parse_nat parse_digits signed is_digit text_eqb lookup insert delete
parse_test = refl

parse_files-Holds_example :
    (Holds directory (file_of (pos 2) (codes "a") up) (codes "A"))
    ↔ (Listed migrations (file_of (pos 2) (codes "a") up) (codes "A"))
parse_files-Holds_example =
    parse_files-Holds directory migrations (file_of (pos 2) (codes "a") up) (codes "A") parse_test

parse_files-Ascending_example : Ascending (map (λ m. m.version) migrations)
parse_files-Ascending_example = parse_files-Ascending directory migrations parse_test

abbrev applied : List AppliedMigration
applied =
    record { version = pos 2; name = codes "a"; applied_at = pos 0 }
    ∷ record { version = pos 10; name = codes "b"; applied_at = pos 5 }
    ∷ []

consistent-IsEmbedded_example :
    ((build_status migrations applied (codes "t") (codes "s") true).consistent ≡ true)
    ↔ (All (IsEmbedded migrations) applied)
consistent-IsEmbedded_example = consistent-IsEmbedded migrations applied (codes "t") (codes "s")

consistent_test : (build_status migrations applied (codes "t") (codes "s") true).consistent ≡ true
unfolding build_status check_applied problem_of by_version text_eqb
consistent_test = refl

rollback_available-plan_example :
    (plan : List Migration) × (rollback_plan migrations (applied_desc (rows_of applied)) 1
      ≡ some plan)
    × (migration_refs plan
        ≡ take 1 (build_status migrations applied (codes "t") (codes "s") true).rollback_available)
rollback_available-plan_example =
    rollback_available-plan migrations applied (codes "t") (codes "s") 1 ((refl, tt), (tt, tt))
      consistent_test

abbrev exec : Text → ℕ → Bool × ℕ
exec script n = (ltb_ℤ (pos n) (pos 1), n + 1)

abbrev loses : Migration → Bool
loses m = false

abbrev empty : Database ℕ
empty = record { rows = []; world = 0 }

abbrev open_table : Access
open_table = record { ensured = true; queried = true }

up_with_table-Resumes_example :
    Resumes migrations
      (valid_table (codes "schema_migrations") && true && true)
      empty
      (up_with_table exec loses (codes "schema_migrations") directory open_table empty)
up_with_table-Resumes_example =
    up_with_table-Resumes exec loses (codes "schema_migrations") directory open_table migrations
      empty parse_test
