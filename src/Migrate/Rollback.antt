-- ===== src/Migrate/Rollback.antt =====
-- What DownWithTable takes away.
use mathlib.Core.Path.{subst}
use hsync_server.Prelude.{
  ℕ, zero, suc, ◌≡◌, ◌<◌, refl, sym, ap, ◌∙◌, ℤ, pos, leb_ℤ, eqb_ℤ, eq_of_eqb, Bool, true, false,
  not, none, some, List, [], ◌∷◌, Text, keep_if, drop, arith, Option-cases, inl, inr,
}
use hsync_server.Migrate.Plan.{Migration, by_version, rollback_plan, applied_desc}
use hsync_server.Migrate.Run.{Database, MigrateError, revert_one, revert_each, migrate_down}
use hsync_server.Migrate.Order.{OneRow, OneRow-keep_if, highest_gone}

by_version-version :
    (v : ℤ) (ms : List Migration) (m : Migration)
    → by_version v ms ≡ some m
    → eqb_ℤ m.version v ≡ true
unfolding by_version
by_version-version v [] m e = ground arith
by_version-version v (x ∷ xs) m e = ground (arith, by_version-version v xs m)

drop-nil : (n : ℕ) → drop {A = ℤ} n [] ≡ []
drop-nil zero = refl
drop-nil (suc n) = refl

module _ {W : Type 0} (exec : Text → W → Bool × W) (loses : Migration → Bool) where
  one_reverted :
      (m : Migration) (db : Database W)
      → (revert_one exec loses m db).0 ≡ none
      → (revert_one exec loses m db).1.rows ≡ keep_if (λ r. not (eqb_ℤ r.0 m.version)) db.rows
  unfolding revert_one
  one_reverted m db e = ground arith

  each_good :
      (m : Migration) (ms : List Migration) (db : Database W)
      → (revert_one exec loses m db).0 ≡ none
      → revert_each exec loses (m ∷ ms) db
        ≡ revert_each exec loses ms (revert_one exec loses m db).1
  unfolding revert_each
  each_good m ms db e = rw (e, revert_each) refl

  each_bad :
      (m : Migration) (ms : List Migration) (db : Database W) (x : MigrateError)
      → (revert_one exec loses m db).0 ≡ some x
      → (revert_each exec loses (m ∷ ms) db).0 ≡ some x
  unfolding revert_each
  each_bad m ms db x e = rw (e, revert_each) refl

  first_reverted :
      (all : List Migration) (v : ℤ) (vs left_over : List ℤ) (m : Migration) (ms : List Migration)
      (db : Database W)
      → OneRow db.rows
      → applied_desc db.rows ≡ v ∷ vs
      → by_version v all ≡ some m
      → (revert_each exec loses (m ∷ ms) db).0 ≡ none
      → ((db' : Database W)
          → OneRow db'.rows
          → applied_desc db'.rows ≡ vs
          → (revert_each exec loses ms db').0 ≡ none
          → applied_desc (revert_each exec loses ms db').1.rows ≡ left_over)
      → applied_desc (revert_each exec loses (m ∷ ms) db).1.rows ≡ left_over
  first_reverted all v vs left_over m ms db one e found ok again =
      elim (Option-cases (revert_one exec loses m db).0) [
        | inr (x, bad) ↦ absurd (ground (arith, each_bad m ms db x bad))
        | inl good ↦
            let rows = one_reverted m db good in
            let same : m.version ≡ v = eq_of_eqb m.version v (by_version-version v all m found) in
            let left : applied_desc (revert_one exec loses m db).1.rows ≡ vs =
              ap applied_desc rows
              ∙ ap (λ w. applied_desc (keep_if (λ r. not (eqb_ℤ r.0 w)) db.rows)) same
              ∙ highest_gone v vs db.rows one e in
            let one' : OneRow (revert_one exec loses m db).1.rows =
              subst OneRow (sym rows) (OneRow-keep_if _ db.rows one) in
            let next = each_good m ms db good in
            ap (λ b. applied_desc b.1.rows) next
            ∙ again (revert_one exec loses m db).1 one' left (ap (λ b. b.0) (sym next) ∙ ok)
      ]

  plan_reverted :
      (all : List Migration) (vs : List ℤ) (n : ℕ) (plan : List Migration) (db : Database W)
      → OneRow db.rows
      → applied_desc db.rows ≡ vs
      → rollback_plan all vs n ≡ some plan
      → (revert_each exec loses plan db).0 ≡ none
      → applied_desc (revert_each exec loses plan db).1.rows ≡ drop n vs
  unfolding rollback_plan
  plan_reverted all [] n plan db one e p fine =
      let same : [] ≡ plan = ground arith in
      subst (λ ms. applied_desc (revert_each exec loses ms db).1.rows ≡ drop n []) same
        (unfold revert_each in e ∙ sym (drop-nil n))
  plan_reverted all (v ∷ vs) zero plan db one e p fine =
      let same : [] ≡ plan = ground arith in
      subst (λ ms. applied_desc (revert_each exec loses ms db).1.rows ≡ v ∷ vs) same
        (unfold revert_each in e)
  plan_reverted all (v ∷ vs) (suc n) plan db one e p fine = elim (Option-cases (by_version v all)) [
    | inl gone ↦ absurd (ground arith)
    | inr (m, found) ↦ elim (Option-cases (rollback_plan all vs n)) [
      | inl gone ↦ absurd (ground arith)
      | inr (ms, planned) ↦
          let same : m ∷ ms ≡ plan = ground arith in
          subst (λ l. applied_desc (revert_each exec loses l db).1.rows ≡ drop n vs) same
            (first_reverted all v vs (drop n vs) m ms db one e found
              (ap (λ l. (revert_each exec loses l db).0) same ∙ fine)
              (λ db' one' left ok. plan_reverted all vs n ms db' one' left planned ok))
    ]
  ]

  -- DownWithTable by n, when it ends without an error, takes the n highest versions out of the
  -- tracking table and leaves the others.
  pub down_reverts :
      (all : List Migration) (n : ℕ) (db : Database W)
      → 0 < n
      → OneRow db.rows
      → (migrate_down exec loses all (pos n) db).0 ≡ none
      → applied_desc (migrate_down exec loses all (pos n) db).1.rows ≡ drop n (applied_desc db.rows)
  unfolding migrate_down
  down_reverts all n db p one fine =
      elim (Option-cases (rollback_plan all (applied_desc db.rows) n)) [
        | inl gone ↦ absurd (ground arith)
        | inr (plan, planned) ↦
            let run : migrate_down exec loses all (pos n) db ≡ revert_each exec loses plan db =
              run_of plan planned in
            ap (λ b. applied_desc b.1.rows) run
            ∙ plan_reverted all (applied_desc db.rows) n plan db one refl planned
                (ap (λ b. b.0) (sym run) ∙ fine)
      ]
    where
      positive : leb_ℤ (pos n) (pos 0) ≡ false
      positive = ground arith

      run_of :
          (plan : List Migration)
          → rollback_plan all (applied_desc db.rows) n ≡ some plan
          → migrate_down exec loses all (pos n) db ≡ revert_each exec loses plan db
      run_of plan planned = rw (positive) (rw planned refl)
