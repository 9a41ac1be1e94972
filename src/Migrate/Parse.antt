-- ===== src/Migrate/Parse.antt =====
-- pkg/migrate/migrate.go: Parse, over the entries of a directory.
use hsync_server.Prelude.{
  ℤ, ltb_ℤ, eqb_ℤ, eq_of_eqb, Bool, true, not, Option, none, some, List, [], ◌∷◌, ◌++◌, Text, ◌==◌,
  Eq, text_eq, if◌then◌else◌, Dict, lookup, insert, ◌≡◌, ◌↔◌, arith,
}
use hsync_server.GoStrings.{codes, has_suffix}
use hsync_server.Migrate.Files.{
  Direction, up, down, NameError, FileName, refused, parsed, parse_file_name,
}
use hsync_server.Migrate.Plan.{Migration}

pub int_eqb_iff : (a b : ℤ) → (eqb_ℤ a b ≡ true) ↔ (a ≡ b)
int_eqb_iff a b = (eq_of_eqb a b, λ e. ground (arith, e))

instance abbrev pub int_eq : Eq ℤ
int_eq = record { same = eqb_ℤ; same_iff = int_eqb_iff }

-- An entry of the directory; no content where ReadFile fails.
pub record Entry : Type 0 where
  pub file : Text
  pub is_dir : Bool
  pub content : Option Text

-- The scripts that are read for one version: a missing one stands for hasUp or hasDown unset.
pub record Pair : Type 0 where
  pub name : Text
  pub up_script : Option Text
  pub down_script : Option Text

pub record Collected : Type 0 where
  pub pairs : Dict ℤ Pair
  pub order : List ℤ

pub data ParseError : Type 0 where
  bad_name : NameError → ParseError
  unreadable conflicting_names duplicate missing nil_pair : ParseError

pub data Outcome (A : Type 0) : Type 0 where
  failed : ParseError → Outcome A
  done : A → Outcome A

-- What the loop of Parse makes of an entry before it looks at the versions.
pub data Reading : Type 0 where
  skipped : Reading
  broken : ParseError → Reading
  script : FileName → Text → Reading

unfoldable pub read_entry : Entry → Reading
read_entry e =
    if e.is_dir
    then skipped
    else if not (has_suffix e.file (codes ".sql"))
    then skipped
    else elim (parse_file_name e.file) [
      | refused x ↦ broken (bad_name x)
      | parsed f ↦ elim e.content [ none ↦ broken unreadable | some text ↦ script f text ]
    ]

-- Sets a script of a pair, unless it is set.
unfoldable pub set_script : Direction → Text → Pair → Option Pair
set_script up text p = elim p.up_script [
  | some _ ↦ none
  | none ↦ some (record p { up_script = some text })
]
set_script down text p = elim p.down_script [
  | some _ ↦ none
  | none ↦ some (record p { down_script = some text })
]

unfoldable pub fresh_pair : FileName → Pair
fresh_pair f = record { name = f.name; up_script = none; down_script = none }

-- The rest of the loop's body, for the pair of the version.
unfoldable pub put_script : FileName → Text → Pair → List ℤ → Dict ℤ Pair → Outcome Collected
put_script f text p order pairs =
    if not (p.name == f.name)
    then failed conflicting_names
    else elim (set_script f.direction text p) [
      | none ↦ failed duplicate
      | some q ↦ done (record { pairs = insert f.version q pairs; order = order })
    ]

unfoldable pub add_script : FileName → Text → Collected → Outcome Collected
add_script f text st = elim (lookup f.version st.pairs) [
  | none ↦ put_script f text (fresh_pair f) (st.order ++ f.version ∷ []) st.pairs
  | some p ↦ put_script f text p st.order st.pairs
]

unfoldable pub add_entry : Entry → Collected → Outcome Collected
add_entry e st = elim (read_entry e) [
  | skipped ↦ done st
  | broken x ↦ failed x
  | script f text ↦ add_script f text st
]

unfoldable pub collect : List Entry → Collected → Outcome Collected
collect [] st = done st
collect (e ∷ es) st = elim (add_entry e st) [ failed x ↦ failed x | done st' ↦ collect es st' ]

-- sort.Slice by version
unfoldable pub insert_ascending : ℤ → List ℤ → List ℤ
insert_ascending v [] = v ∷ []
insert_ascending v (w ∷ ws) =
    let later = insert_ascending v ws in if ltb_ℤ w v then w ∷ later else v ∷ w ∷ ws

unfoldable pub sort_versions : List ℤ → List ℤ
sort_versions [] = []
sort_versions (v ∷ vs) = insert_ascending v (sort_versions vs)

-- The migration of a version, from its pair.
unfoldable pub migration_of : ℤ → Option Pair → Outcome Migration
migration_of v none = failed nil_pair
migration_of v (some p) = elim p.up_script [
  | none ↦ failed missing
  | some u ↦ elim p.down_script [
    | none ↦ failed missing
    | some d ↦ done (record { version = v; name = p.name; up = u; down = d })
  ]
]

unfoldable pub build : List ℤ → Dict ℤ Pair → Outcome (List Migration)
build [] pairs = done []
build (v ∷ vs) pairs = elim (migration_of v (lookup v pairs)) [
  | failed x ↦ failed x
  | done m ↦ elim (build vs pairs) [ failed x ↦ failed x | done ms ↦ done (m ∷ ms) ]
]

-- Parse
unfoldable pub parse_files : List Entry → Outcome (List Migration)
parse_files es = elim (collect es (record { pairs = []; order = [] })) [
  | failed x ↦ failed x
  | done st ↦ build (sort_versions st.order) st.pairs
]
