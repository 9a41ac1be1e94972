-- ===== src/Migrate/Files.antt =====
-- pkg/migrate/migrate.go: the names of the migration files.
use hsync_server.Prelude.{
  ℕ, suc, zero, ◌-◌, ℤ, pos, negsuc, leb, nat_eqb, Bool, true, false, not, ◌&&◌, ◌||◌, Option, none,
  some, [], ◌∷◌, ◌++◌, Text, ◌==◌, text_eq, if◌then◌else◌, length, take, drop,
}
use hsync_server.GoStrings.{
  codes, index_of, last_index_of, trim_suffix, parse_int, format_nat, to_lower, trim_space,
  trim_left, trim_right, is_digit,
}

pub data Direction : Type 0 where
  up down : Direction

pub data NameError : Type 0 where
  bad_ending bad_stem bad_version empty_name : NameError

pub record FileName : Type 0 where
  pub version : ℤ
  pub name : Text
  pub direction : Direction

pub data Parsed : Type 0 where
  refused : NameError → Parsed
  parsed : FileName → Parsed

unfoldable pub direction_of : Text → Option Direction
direction_of t = if t == codes "up" then some up else if t == codes "down" then some down else none

-- parseFileName, from the version's text on.
unfoldable pub parse_version : Direction → Text → Text → Parsed
parse_version d v name = elim (parse_int v) [
  | none ↦ refused bad_version
  | some n ↦
      if name == []
      then refused empty_name
      else parsed (record { version = n; name = name; direction = d })
]

-- parseFileName, from the stem on.
unfoldable pub parse_stem : Direction → Text → Parsed
parse_stem d stem = elim (index_of stem (codes "_")) [
  | none ↦ refused bad_stem
  | some i ↦
      if nat_eqb i 0 then refused bad_stem else parse_version d (take i stem) (drop (suc i) stem)
]

-- parseFileName, from the name without .sql on.
unfoldable pub parse_base : Text → Parsed
unfolding direction_of
parse_base base = elim (last_index_of base (codes ".")) [
  | none ↦ refused bad_ending
  | some dot ↦ elim (direction_of (drop (suc dot) base)) [
    | none ↦ refused bad_ending
    | some d ↦ parse_stem d (take dot base)
  ]
]

-- parseFileName
unfoldable pub parse_file_name : Text → Parsed
unfolding parse_base
parse_file_name file = parse_base (trim_suffix file (codes ".sql"))

abbrev pub zeros : ℕ → Text
zeros zero = []
zeros (suc n) = b'0' ∷ zeros n

-- FormatVersion: three places, the sign's among them.
unfoldable pub format_version : ℤ → Text
format_version (pos n) = zeros (3 - length (format_nat n)) ++ format_nat n
format_version (negsuc n) = b'-' ∷ zeros (2 - length (format_nat (suc n))) ++ format_nat (suc n)

unfoldable pub is_name_byte : ℕ → Bool
unfolding is_digit
is_name_byte c = (leb b'a' c && leb c b'z') || is_digit c

unfoldable pub is_separator : ℕ → Bool
is_separator c = nat_eqb c 32 || nat_eqb c b'-' || nat_eqb c b'_'

-- The loop of SanitizeName: what it writes after a text. `started` says that the text is not
-- empty, `after` that it ends in an underscore.
unfoldable pub snake_bytes : Bool → Bool → Text → Text
snake_bytes started after [] = []
snake_bytes started after (c ∷ s) =
    let go = snake_bytes true false s in
    let separated = snake_bytes true true s in
    let skipped = snake_bytes started after s in
    if is_name_byte c
    then c ∷ go
    else if is_separator c && not after && started
    then b'_' ∷ separated
    else skipped

-- SanitizeName; none for a name without a letter or digit.
unfoldable pub sanitize_name : Text → Option Text
sanitize_name raw =
    let is_underscore : ℕ → Bool = λ c. nat_eqb c b'_' in
    let name =
      trim_right is_underscore
        (trim_left is_underscore (snake_bytes false false (trim_space (to_lower raw)))) in
    if name == [] then none else some name

-- The names of the two files that Create writes.
unfoldable pub created_name : ℤ → Text → Direction → Text
created_name version name up = format_version version ++ codes "_" ++ name ++ codes ".up.sql"
created_name version name down = format_version version ++ codes "_" ++ name ++ codes ".down.sql"
