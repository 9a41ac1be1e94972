-- ===== src/Migrate/Resume.antt =====
-- What a run of migrations leaves to the next one.
use mathlib.Core.Path.{subst}
use hsync_server.Prelude.{
  ◌≡◌, ◌↔◌, refl, ap, ◌∙◌, ℤ, eqb_ℤ, Bool, false, not, ◌||◌, Option, none, some, List, [], ◌∷◌,
  ◌++◌, Text, keep_if, any_if, arith, Bool-cases, Option-cases, inl, inr,
}
use hsync_server.Migrate.Plan.{Migration, Rows, is_applied, pending_of_all}
use hsync_server.Migrate.Run.{Database, MigrateError, apply_one, apply_each, migrate_up}

abbrev has_version : ℤ → List Migration → Bool
has_version v ms = any_if (λ m. eqb_ℤ m.version v) ms

-- No version stands twice, as in what Parse returns.
abbrev pub OneEach : List Migration → Type 0
OneEach [] = Unit
OneEach (m ∷ ms) = (has_version m.version ms ≡ false) × OneEach ms

-- The rows that the tracking table has after the migrations were recorded one by one.
abbrev pub recorded : List Migration → Rows → Rows
recorded [] rows = rows
recorded (m ∷ ms) rows = recorded ms ((m.version, m.name) ∷ rows)

-- How a run splits its plan: what is done is recorded, and it is all done exactly if no error came.
record Splits (plan : List Migration) (rows rows' : Rows) (e : Option MigrateError) : Type 0 where
  done : List Migration
  rest : List Migration
  whole : plan ≡ done ++ rest
  kept : rows' ≡ recorded done rows
  ends : (e ≡ none) ↔ (rest ≡ [])

is_applied-recorded :
    (v : ℤ) (ms : List Migration) (rows : Rows)
    → is_applied (recorded ms rows) v ≡ (has_version v ms || is_applied rows v)
unfolding any_if
is_applied-recorded v [] rows = refl
is_applied-recorded v (m ∷ ms) rows =
    is_applied-recorded v ms ((m.version, m.name) ∷ rows) ∙ ground arith

keep-keep :
    (p q : Migration → Bool) (ms : List Migration)
    → keep_if (λ m. not (q m || p m)) ms ≡ keep_if (λ m. not (q m)) (keep_if (λ m. not (p m)) ms)
unfolding keep_if
keep-keep p q [] = refl
keep-keep p q (m ∷ ms) = ground (arith, keep-keep p q ms)

keep_agree :
    (p q : Migration → Bool) (ms : List Migration)
    → ((m : Migration) → p m ≡ q m)
    → keep_if p ms ≡ keep_if q ms
unfolding keep_if
keep_agree p q [] h = refl
keep_agree p q (m ∷ ms) h = ground (arith, keep_agree p q ms h, h m)

keep_absent :
    (d : Migration) (ds ms : List Migration)
    → has_version d.version ms ≡ false
    → keep_if (λ m. not (has_version m.version (d ∷ ds))) ms
      ≡ keep_if (λ m. not (has_version m.version ds)) ms
unfolding keep_if any_if
keep_absent d ds [] h = refl
keep_absent d ds (m ∷ ms) h = ground (arith, keep_absent d ds ms)

keep_all : (ms : List Migration) → keep_if (λ m. not (has_version m.version [])) ms ≡ ms
unfolding keep_if any_if
keep_all [] = refl
keep_all (m ∷ ms) = ap (λ xs. m ∷ xs) (keep_all ms)

-- Of a list with one migration for each version, its first part leaves the second.
drop_done :
    (done rest : List Migration)
    → OneEach (done ++ rest)
    → keep_if (λ m. not (has_version m.version done)) (done ++ rest) ≡ rest
drop_done [] rest h = keep_all rest
drop_done (d ∷ ds) rest h = head_gone ∙ keep_absent d ds (ds ++ rest) h.0 ∙ drop_done ds rest h.1
  where
    head_gone :
        keep_if (λ m. not (has_version m.version (d ∷ ds))) (d ∷ ds ++ rest)
        ≡ keep_if (λ m. not (has_version m.version (d ∷ ds))) (ds ++ rest)
    head_gone = unfold keep_if any_if in ground arith

has_version-keep_if :
    (v : ℤ) (p : Migration → Bool) (ms : List Migration)
    → has_version v ms ≡ false
    → has_version v (keep_if p ms) ≡ false
unfolding keep_if any_if
has_version-keep_if v p [] h = h
has_version-keep_if v p (m ∷ ms) h = ground (arith, has_version-keep_if v p ms)

OneEach-keep_if : (p : Migration → Bool) (ms : List Migration) → OneEach ms → OneEach (keep_if p ms)
unfolding keep_if
OneEach-keep_if p [] h = h
OneEach-keep_if p (m ∷ ms) h = elim (Bool-cases (p m)) [
  | inl kept ↦ rw kept (has_version-keep_if m.version p ms h.0, OneEach-keep_if p ms h.1)
  | inr left ↦ rw left (OneEach-keep_if p ms h.1)
]

still_pending :
    (all : List Migration) (rows rows' : Rows) (done rest : List Migration)
    → OneEach all
    → pending_of_all all rows ≡ done ++ rest
    → rows' ≡ recorded done rows
    → pending_of_all all rows' ≡ rest
unfolding pending_of_all
still_pending all rows rows' done rest one whole kept =
    keep_agree _ (λ m. not (has_version m.version done || is_applied rows m.version)) all
      (λ m.
        ap not (ap (λ r. is_applied r m.version) kept ∙ is_applied-recorded m.version done rows))
    ∙ keep-keep (λ m. is_applied rows m.version) (λ m. has_version m.version done) all
    ∙ ap (keep_if (λ m. not (has_version m.version done))) whole
    ∙ drop_done done rest (subst OneEach whole (OneEach-keep_if _ all one))

module _ {W : Type 0} (exec : Text → W → Bool × W) (loses : Migration → Bool) where
  one_done :
      (m : Migration) (db : Database W)
      → (apply_one exec loses m db).0 ≡ none
      → (apply_one exec loses m db).1.rows ≡ (m.version, m.name) ∷ db.rows
  unfolding apply_one
  one_done m db e = ground arith

  one_failed :
      (m : Migration) (db : Database W) (x : MigrateError)
      → (apply_one exec loses m db).0 ≡ some x
      → (apply_one exec loses m db).1.rows ≡ db.rows
  unfolding apply_one
  one_failed m db x e = ground arith

  each-Splits :
      (plan : List Migration) (db : Database W)
      → let (e, db') = apply_each exec loses plan db in Splits plan db.rows db'.rows e
  unfolding apply_each
  each-Splits [] db = record {
    done = [];
    rest = [];
    whole = refl;
    kept = refl;
    ends = ((λ h. refl), λ h. refl);
  }
  each-Splits (m ∷ ms) db = elim (Option-cases (apply_one exec loses m db).0) [
    | inl fine ↦
        rw (fine, apply_each)
          let s = each-Splits ms (apply_one exec loses m db).1 in
            record {
              done = m ∷ s.done;
              rest = s.rest;
              whole = ap (λ xs. m ∷ xs) s.whole;
              kept = s.kept ∙ ap (recorded s.done) (one_done m db fine);
              ends = s.ends;
            }
    | inr (x, bad) ↦
        rw (bad, apply_each)
          record {
            done = [];
            rest = m ∷ ms;
            whole = refl;
            kept = one_failed m db x bad;
            ends = ((λ h. absurd (ground arith)), (λ h. absurd (ground arith)));
          }
  ]

  -- A run of Up, whatever fails in it, over migrations of which each version stands once: what was
  -- pending splits into what is now recorded and what is pending for the next run, in their order,
  -- and the run ends without an error exactly if nothing is left pending.
  pub up_resumes :
      (all : List Migration) (db : Database W)
      → OneEach all
      → let (e, db') = migrate_up exec loses all db in
        (done : List Migration) × (pending_of_all all db.rows ≡ done ++ pending_of_all all db'.rows)
        × (db'.rows ≡ recorded done db.rows)
        × ((e ≡ none) ↔ (pending_of_all all db'.rows ≡ []))
  unfolding migrate_up
  up_resumes all db one =
      let s = each-Splits (pending_of_all all db.rows) db in
      let left : pending_of_all all (apply_each exec loses (pending_of_all all db.rows) db).1.rows
          ≡ s.rest =
        still_pending all db.rows _ s.done s.rest one s.whole s.kept in
      (s.done, rw left s.whole, s.kept, rw left s.ends)
