-- ===== src/Migrate/Directory.antt =====
-- Parse over a whole directory: the loop, the sort and the list that it returns.
use mathlib.Core.Path.{subst}
use hsync_server.Prelude.{
  ℤ, some, List, [], ◌∷◌, Text, ◌≡◌, ◌⊎◌, inl, inr, refl, arith, All, Option-cases,
}
use hsync_server.Migrate.Files.{up, down, FileName}
use hsync_server.Migrate.Plan.{Migration}
use hsync_server.Migrate.Parse.{
  int_eq, Entry, Reading, skipped, broken, script, read_entry, Pair, Collected, Outcome, ParseError,
  failed, done, add_script, add_entry, collect, migration_of,
}
use hsync_server.Migrate.Parsing.{IsCollected, add-IsCollected, PairGood, file_of}

pub Outcome-cases :
    {A : Type 0} (o : Outcome A) → ((x : ParseError) × (o ≡ failed x)) ⊎ ((a : A) × (o ≡ done a))
Outcome-cases (failed x) = inl (x, refl)
Outcome-cases (done a) = inr (a, refl)

-- The directory has an entry that is read as this file and this text.
abbrev pub Holds : List Entry → FileName → Text → Type 0
Holds [] f t = ⊥
Holds (e ∷ es) f t = (read_entry e ≡ script f t) ⊎ Holds es f t

module _ (Good : FileName → Text → Type 0) where
  abbrev pub EntryGood : Entry → Type 0
  EntryGood e = (f : FileName) (t : Text) → read_entry e ≡ script f t → Good f t

  entry-IsCollected :
      (e : Entry) (st st' : Collected)
      → EntryGood e
      → IsCollected Good st
      → add_entry e st ≡ done st'
      → IsCollected Good st'
  unfolding add_entry
  entry-IsCollected e st st' g inv h = go (read_entry e) refl h
    where
      go :
          (r : Reading)
          → read_entry e ≡ r
          → elim r [
            | skipped ↦ done st
            | broken x ↦ failed x
            | script f text ↦ add_script f text st
          ]
            ≡ done st'
          → IsCollected Good st'
      go skipped k h = subst (IsCollected Good) (ground arith) inv
      go (broken x) k h = absurd (ground arith)
      go (script f text) k h = add-IsCollected Good f text st st' (g f text k) inv h

  pub collect-IsCollected :
      (es : List Entry) (st st' : Collected)
      → All EntryGood es
      → IsCollected Good st
      → collect es st ≡ done st'
      → IsCollected Good st'
  unfolding collect
  collect-IsCollected [] st st' g inv h = subst (IsCollected Good) (ground arith) inv
  collect-IsCollected (e ∷ es) st st' g inv h = elim (Outcome-cases (add_entry e st)) [
    | inl (x, bad) ↦ absurd (ground arith)
    | inr (mid, fine) ↦
        collect-IsCollected es mid st' g.1 (entry-IsCollected e st mid g.0 inv fine) (ground arith)
  ]

  -- A migration has the scripts of two good files.
  abbrev pub MigrationGood : Migration → Type 0
  MigrationGood m =
      Good (file_of m.version m.name up) m.up × Good (file_of m.version m.name down) m.down

  pub migration-Good :
      (v : ℤ) (p : Pair) (m : Migration)
      → PairGood Good v p
      → migration_of v (some p) ≡ done m
      → (m.version ≡ v) × MigrationGood m
  unfolding migration_of
  migration-Good v p m k h = elim (Option-cases p.up_script) [
    | inl no_up ↦ absurd (ground arith)
    | inr (u, has_up) ↦ elim (Option-cases p.down_script) [
      | inl no_down ↦ absurd (ground arith)
      | inr (d, has_down) ↦
          let same : record { version = v; name = p.name; up = u; down = d } ≡ m = ground arith in
          subst (λ m. (m.version ≡ v) × MigrationGood m) same (refl, (k.0 u has_up, k.1 d has_down))
    ]
  ]
