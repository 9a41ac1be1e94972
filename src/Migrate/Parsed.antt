-- ===== src/Migrate/Parsed.antt =====
-- Parse as a whole: the migrations that it returns and the directory's files.
use mathlib.Core.Path.{subst}
use hsync_server.Prelude.{
  ℤ, eq_of_eqb, true, some, List, [], ◌∷◌, Text, map, ◌==◌, Dict, lookup, ◌≡◌, ◌⊎◌, inl, inr, refl,
  sym, ap, ◌∙◌, arith, any_if, All, Bool-cases, Option-cases, ◌↔◌,
}
use hsync_server.Migrate.Files.{Direction, up, down, FileName}
use hsync_server.Migrate.Plan.{Migration}
use hsync_server.Migrate.Parse.{
  int_eq, Entry, Pair, Collected, done, collect, sort_versions, migration_of, build, parse_files,
}
use hsync_server.Migrate.Parsing.{has_version, is_some, IsCollected, PairGood, file_of}
use hsync_server.Migrate.Directory.{
  Outcome-cases, Holds, collect-IsCollected, MigrationGood, migration-Good, EntryGood,
}
use hsync_server.Migrate.Stored.{script_in, Stored, collect-stores}
use hsync_server.Migrate.Sorted.{Ascending, has_version-sort, sort-Ascending}

-- A script of the migrations, with the version, the name and the direction that it stands for.
abbrev pub Listed : List Migration → FileName → Text → Type 0
Listed [] f t = ⊥
Listed (m ∷ ms) f t =
    (file_of m.version m.name up ≡ f) × (m.up ≡ t)
    ⊎ (file_of m.version m.name down ≡ f) × (m.down ≡ t)
    ⊎ Listed ms f t

All-mono :
    (P Q : Entry → Type 0) (es : List Entry) → ((e : Entry) → P e → Q e) → All P es → All Q es
All-mono P Q [] h a = tt
All-mono P Q (e ∷ es) h a = (h e a.0, All-mono P Q es h a.1)

entries-Good : (es : List Entry) → All (EntryGood (Holds es)) es
entries-Good [] = tt
entries-Good (e ∷ es) =
    (λ f t k. inl k, All-mono _ _ es (λ x g f t k. inr (g f t k)) (entries-Good es))

build-Good :
    (Good : FileName → Text → Type 0) (vs : List ℤ) (pairs : Dict ℤ Pair) (ms : List Migration)
    → ((v : ℤ) (p : Pair) → lookup v pairs ≡ some p → PairGood Good v p)
    → build vs pairs ≡ done ms
    → (map (λ m. m.version) ms ≡ vs) × All (MigrationGood Good) ms
unfolding build
build-Good Good [] pairs ms g h =
    subst (λ ms. (map (λ m. m.version) ms ≡ []) × All (MigrationGood Good) ms) {x = []} {y = ms}
      (ground arith) (refl, tt)
build-Good Good (v ∷ vs) pairs ms g h = elim (Outcome-cases (migration_of v (lookup v pairs))) [
  | inl (x, bad) ↦ absurd (ground arith)
  | inr (m, fine) ↦ elim (Outcome-cases (build vs pairs)) [
    | inl (x, bad) ↦ absurd (ground arith)
    | inr (rest, built) ↦ elim (Option-cases (lookup v pairs)) [
      | inl absent ↦ absurd (unfold migration_of in ground arith)
      | inr (p, found) ↦
          let (same, good) =
            migration-Good Good v p m (g v p found) (ap (migration_of v) (sym found) ∙ fine) in
          let (versions, goods) = build-Good Good vs pairs rest g built in
          subst (λ ms. (map (λ m. m.version) ms ≡ v ∷ vs) × All (MigrationGood Good) ms)
            {x = m ∷ rest} {y = ms} (ground arith)
            (rw same (ap (λ ws. v ∷ ws) versions), (good, goods))
    ]
  ]
]

Listed-Good :
    (Good : FileName → Text → Type 0) (ms : List Migration) (f : FileName) (t : Text)
    → All (MigrationGood Good) ms
    → Listed ms f t
    → Good f t
Listed-Good Good [] f t g h = absurd h
Listed-Good Good (m ∷ ms) f t g (inl (e, k)) = subst (λ x. Good x t) e (subst (Good _) k g.0.0)
Listed-Good Good (m ∷ ms) f t g (inr (inl (e, k))) =
    subst (λ x. Good x t) e (subst (Good _) k g.0.1)
Listed-Good Good (m ∷ ms) f t g (inr (inr later)) = Listed-Good Good ms f t g.1 later

file_of-lem :
    (f : FileName) (name : Text) (d : Direction)
    → name ≡ f.name
    → d ≡ f.direction
    → file_of f.version name d ≡ f
file_of-lem f name d n e =
    ap (λ x. file_of f.version x d) n ∙ ap (λ x. file_of f.version f.name x) e

migration-Listed :
    (p : Pair) (m : Migration) (ms : List Migration) (f : FileName) (t : Text)
    → migration_of f.version (some p) ≡ done m
    → p.name ≡ f.name
    → script_in f.direction p ≡ some t
    → Listed (m ∷ ms) f t
unfolding migration_of
migration-Listed p m ms f t h named has = elim (Option-cases p.up_script) [
  | inl no_up ↦ absurd (ground arith)
  | inr (u, has_up) ↦ elim (Option-cases p.down_script) [
    | inl no_down ↦ absurd (ground arith)
    | inr (d, has_down) ↦
        let same : record { version = f.version; name = p.name; up = u; down = d } ≡ m =
          ground arith in
        subst (λ m. Listed (m ∷ ms) f t) same (side u d has_up has_down f.direction refl)
  ]
]
  where
    side :
        (u d : Text)
        → p.up_script ≡ some u
        → p.down_script ≡ some d
        → (k : Direction) → k ≡ f.direction
        → Listed (record { version = f.version; name = p.name; up = u; down = d } ∷ ms) f t
    side u d hu hd up e = inl (
      file_of-lem f p.name up named e,
      ground (arith, subst (λ k. script_in k p ≡ some t) (sym e) has),
    )
    side u d hu hd down e = inr (
        inl (
          file_of-lem f p.name down named e,
          ground (arith, subst (λ k. script_in k p ≡ some t) (sym e) has),
        ))

build-Listed :
    (vs : List ℤ) (st : Collected) (ms : List Migration) (f : FileName) (t : Text)
    → Stored st f t
    → has_version f.version vs ≡ true
    → build vs st.pairs ≡ done ms
    → Listed ms f t
unfolding build any_if
build-Listed [] st ms f t s k h = absurd (ground arith)
build-Listed (v ∷ vs) st ms f t s k h = elim (Outcome-cases (migration_of v (lookup v st.pairs))) [
  | inl (x, bad) ↦ absurd (ground arith)
  | inr (m, fine) ↦ elim (Outcome-cases (build vs st.pairs)) [
    | inl (x, bad) ↦ absurd (ground arith)
    | inr (rest, built) ↦
        let same : m ∷ rest ≡ ms = ground arith in
        subst (λ ms. Listed ms f t) same
          (elim (Bool-cases (v == f.version)) [
            | inl here ↦
                let (p, found, named, has) = s in
                migration-Listed p m rest f t
                  (ap (migration_of f.version) (sym found)
                    ∙ subst (λ w. migration_of w (lookup w st.pairs) ≡ done m)
                        (eq_of_eqb v f.version here) fine)
                  named has
            | inr other ↦ inr (inr (build-Listed vs st rest f t s (ground arith) built))
          ])
  ]
]

start-IsCollected :
    (Good : FileName → Text → Type 0) → IsCollected Good (record { pairs = []; order = [] })
start-IsCollected Good = record {
  once = tt;
  keyed = λ v. unfold any_if lookup in refl;
  good = λ v p h. absurd (unfold lookup in ground arith);
}

-- Where Parse succeeds, the scripts of the migrations that it returns are exactly those of the
-- directory's files: a file that is read as the up or down script of a version and a name stands
-- in a migration with that version, that name and that script, and every script of a migration
-- is that of such a file.
pub parse_files-Holds :
    (es : List Entry) (ms : List Migration) (f : FileName) (t : Text)
    → parse_files es ≡ done ms
    → (Holds es f t) ↔ (Listed ms f t)
unfolding parse_files
parse_files-Holds es ms f t h =
    elim (Outcome-cases (collect es (record { pairs = []; order = [] }))) [
      | inl (x, bad) ↦ absurd (ground arith)
      | inr (st, fine) ↦
          let inv =
            collect-IsCollected (Holds es) es _ st (entries-Good es) (start-IsCollected (Holds es))
              fine in
          let built : build (sort_versions st.order) st.pairs ≡ done ms = ground arith in
          (
            λ held.
                let s = collect-stores es f t _ st fine held in
                build-Listed (sort_versions st.order) st ms f t s
                  (has_version-sort f.version st.order ∙ inv.keyed f.version ∙ ap is_some s.1)
                  built,
            Listed-Good (Holds es) ms f t
                (build-Good (Holds es) (sort_versions st.order) st.pairs ms inv.good built).1,
          )
    ]

-- Where Parse succeeds, the versions of the migrations that it returns ascend strictly.
pub parse_files-Ascending :
    (es : List Entry) (ms : List Migration)
    → parse_files es ≡ done ms
    → Ascending (map (λ m. m.version) ms)
unfolding parse_files
parse_files-Ascending es ms h =
    elim (Outcome-cases (collect es (record { pairs = []; order = [] }))) [
      | inl (x, bad) ↦ absurd (ground arith)
      | inr (st, fine) ↦
          let inv =
            collect-IsCollected (Holds es) es _ st (entries-Good es) (start-IsCollected (Holds es))
              fine in
          let built : build (sort_versions st.order) st.pairs ≡ done ms = ground arith in
          subst Ascending
            (sym (build-Good (Holds es) (sort_versions st.order) st.pairs ms inv.good built).0)
            (sort-Ascending st.order inv.once)
    ]
